-- ===== src/Gateway/Kept.antt =====
-- What the heartbeat and the frames of src/lib/websocket.ts leave of the timers and the attempts.
use mathlib.Core.Path.{subst}
use omni_mission_control.Prelude.{
  ℕ, ◌+◌, ◌-◌, ◌≤◌, ◌≡◌, refl, Bool, true, false, ◌&&◌, ◌||◌, Option, some, String, is_some, truthy,
  length, ◌==◌, if◌then◌else◌, any, leb, ◌⊎◌, Option-cases, Bool-cases, inl, inr, arith, ◌∙◌,
  includes, to_lower, starts_with, get_or, str_eq,
}
use omni_mission_control.Gateway.{
  Client, is_open, is_live, phase_of, ready_state, add_log, close_socket,
  is_non_retryable_gateway_error,
}
use omni_mission_control.Gateway.Connect.{max_reconnect_attempts}
use omni_mission_control.Gateway.Frames.{
  max_missed_pongs, Frame, challenge, response, event, beat, beat_on, handle_gateway_frame,
  handle_pong, note_blocked, handle_error,
}

abbrev pub is_ok : Frame → Bool
is_ok (response ok rid message) = ok
is_ok _ = false

-- No close of a socket sets a timer.
abbrev pub has_stopped : Client → Bool
has_stopped c = c.manual_disconnect || is_some (truthy c.non_retryable_error)

abbrev pub calls_left : ℕ → ℕ → Bool → ℕ
calls_left timers attempts stopped =
    if timers == 0 && stopped then 0 else timers + (max_reconnect_attempts - attempts)

-- How many more calls of `connect` the timers can make: none where no timer is pending and no close
-- sets one, else those that are pending and those of the attempts that are left.
unfoldable pub potential : Client → ℕ
potential c = calls_left (length c.timers) c.reconnect_attempts (has_stopped c)

-- The timers and the attempts stay, and what has stopped stays so.
unfoldable pub Stays : Client → Client → Type 0
Stays c c' =
    (c'.timers ≡ c.timers)
    × (c'.reconnect_attempts ≡ c.reconnect_attempts)
    × ((has_stopped c' ≡ has_stopped c) ⊎ (has_stopped c' ≡ true))

pub Stays-potential : (c c' : Client) → Stays c c' → potential c' ≤ potential c
unfolding Stays potential
Stays-potential c c' (t, a, inl s) = rw (t, a, s) (omega arith)
Stays-potential c c' (t, a, inr s) = rw (t, a, s) (ground arith)

close_socket-Stays : (id : ℕ) (c : Client) → Stays c (close_socket id c)
unfolding Stays close_socket
close_socket-Stays id c = elim (Bool-cases (is_live (phase_of id c.sockets))) [
  | inl e ↦ rw e (refl, refl, inl refl)
  | inr e ↦ rw e (refl, refl, inl refl)
]

beat_on-Stays : (id : ℕ) (c : Client) → Stays c (beat_on id c)
unfolding Stays beat_on close_socket
beat_on-Stays id c = elim (Bool-cases (leb max_missed_pongs c.missed_pongs)) [
  | inl e ↦
      rw e (
        close_socket-Stays id (add_log "No heartbeat response after 3 attempts, reconnecting..." c))
  | inr e ↦ rw e (refl, refl, inl refl)
]

pub beat-Stays : (c : Client) → Stays c (beat c)
unfolding Stays beat
beat-Stays c = elim (Option-cases c.ws) [
  | inl e ↦ rw (beat, e) (refl, refl, inl refl)
  | inr (id, e) ↦ elim (Bool-cases (is_open (ready_state c) && c.handshake_complete)) [
    | inl b ↦ rw (beat, e, b) (beat_on-Stays id c)
    | inr b ↦ rw (beat, e, b) (refl, refl, inl refl)
  ]
]

handle_pong-Stays : (rid : String) (c : Client) → Stays c (handle_pong rid c)
unfolding Stays handle_pong
handle_pong-Stays rid c = elim (Bool-cases (any (str_eq rid) c.pings_sent)) [
  | inl e ↦ rw e (refl, refl, inl refl)
  | inr e ↦ rw e (refl, refl, inl refl)
]

Stays-trans : (a b c : Client) → Stays a b → Stays b c → Stays a c
unfolding Stays
Stays-trans a b c (t, n, s) (t', n', inr s') = (t' ∙ t, n' ∙ n, inr s')
Stays-trans a b c (t, n, inr s) (t', n', inl s') = (t' ∙ t, n' ∙ n, inr (s' ∙ s))
Stays-trans a b c (t, n, inl s) (t', n', inl s') = (t' ∙ t, n' ∙ n, inl (s' ∙ s))

-- Such a message is not empty, so that it counts as an error.
non_retryable_stops :
    (manual : Bool) (message : String)
    → is_non_retryable_gateway_error message ≡ true
    → manual || is_some (truthy (some message)) ≡ true
unfolding is_non_retryable_gateway_error includes to_lower starts_with
non_retryable_stops manual String.[] e = cc
non_retryable_stops true (String.◌∷◌ x s) e = refl
non_retryable_stops false (String.◌∷◌ x s) e = refl

note_blocked-Stays :
    (origin message : String) (c : Client)
    → is_non_retryable_gateway_error message ≡ true
    → Stays c (note_blocked origin message c)
unfolding Stays note_blocked
note_blocked-Stays origin message c e =
    (refl, refl, inr (non_retryable_stops c.manual_disconnect message e))

handle_error-Stays :
    (origin : String) (id : ℕ) (message : String) (c : Client)
    → Stays c (handle_error origin id message c)
unfolding Stays handle_error
handle_error-Stays origin id message c =
    elim (Bool-cases (is_non_retryable_gateway_error message)) [
      | inl e ↦
          let stopped : Client = note_blocked origin message c in
          rw e (
            Stays-trans c stopped (close_socket id stopped) (note_blocked-Stays origin message c e)
              (close_socket-Stays id stopped))
      | inr e ↦ rw e (refl, refl, inl refl)
    ]

module _ (origin : String) (id : ℕ) (rid : Option String) (message : String) (c : Client) where
  frame_pong :
      starts_with "ping-" (get_or rid "") ≡ true
      → handle_pong (get_or rid "") c
        ≡ handle_gateway_frame origin id (response false rid message) c
  unfolding handle_gateway_frame
  frame_pong e = rw e refl

  frame_error :
      starts_with "ping-" (get_or rid "") ≡ false
      → handle_error origin id message c
        ≡ handle_gateway_frame origin id (response false rid message) c
  unfolding handle_gateway_frame
  frame_error e = rw e refl

pub handle_gateway_frame-Stays :
    (origin : String) (id : ℕ) (f : Frame) (c : Client)
    → is_ok f ≡ false
    → Stays c (handle_gateway_frame origin id f c)
unfolding Stays handle_gateway_frame
handle_gateway_frame-Stays origin id challenge c h = (refl, refl, inl refl)
handle_gateway_frame-Stays origin id event c h = (refl, refl, inl refl)
handle_gateway_frame-Stays origin id (response true rid message) c h = cc
handle_gateway_frame-Stays origin id (response false rid message) c h =
    elim (Bool-cases (starts_with "ping-" (get_or rid ""))) [
      | inl e ↦
          subst (Stays c) (frame_pong origin id rid message c e)
            (handle_pong-Stays (get_or rid "") c)
      | inr e ↦
          subst (Stays c) (frame_error origin id rid message c e)
            (handle_error-Stays origin id message c)
    ]
