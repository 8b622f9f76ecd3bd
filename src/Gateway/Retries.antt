-- ===== src/Gateway/Retries.antt =====
-- That the reconnections of src/lib/websocket.ts come to an end.
use omni_mission_control.Prelude.{
  ℕ, suc, ◌+◌, ◌-◌, ◌≤◌, ◌≡◌, refl, Bool, true, false, not, ◌||◌, Option, some, List, [], ◌∷◌,
  String, is_some, truthy, length, ltb, ◌==◌, if◌then◌else◌, any, Bool-cases, inl, inr, arith,
}
use omni_mission_control.Gateway.{Client, is_live, ready_state, add_log}
use omni_mission_control.Gateway.Connect.{
  Urls, max_reconnect_attempts, connect, on_open, on_close, on_error, cut_off, schedule_retry, fire,
  remove_timer,
}
use omni_mission_control.Gateway.Frames.{Frame, beat, handle_gateway_frame}
use omni_mission_control.Gateway.Kept.{
  has_stopped, calls_left, potential, Stays-potential, beat-Stays, is_ok,
  handle_gateway_frame-Stays,
}

-- What happens without the user, and without a gateway that accepts the handshake.
pub data Happening : Type 0 where
  opens : ℕ → Happening
  closes : ℕ → Happening
  fails : Happening
  beats : Happening
  brings : ℕ → Frame → Happening
  fires : ℕ → Happening

-- A response that is ok is not among them, and only a pending timer fires.
abbrev pub occurs : Happening → Client → Bool
occurs (brings id f) c = not (is_ok f)
occurs (fires t) c = any (λ u. u == t) c.timers
occurs _ c = true

unfoldable pub after : Urls → String → Happening → Client → Client
unfolding on_open on_close on_error beat handle_gateway_frame fire
after urls origin (opens id) c = on_open id c
after urls origin (closes id) c = on_close id c
after urls origin fails c = on_error c
after urls origin beats c = beat c
after urls origin (brings id f) c = handle_gateway_frame origin id f c
after urls origin (fires t) c = fire urls t c

abbrev pub is_fire : Happening → ℕ
is_fire (fires t) = 1
is_fire _ = 0

length-remove_timer :
    (t : ℕ) (ts : List ℕ)
    → any (λ u. u == t) ts ≡ true
    → suc (length (remove_timer t ts)) ≡ length ts
unfolding remove_timer
length-remove_timer t [] h = cc
length-remove_timer t (u ∷ ts) h = ground (arith, length-remove_timer t ts)

-- What a close does after the cut, by the three tests.
closed_by : Bool → Bool → Bool → Client → Client
closed_by manual stuck again cut =
    if manual
    then cut
    else if stuck
    then record cut { shown_attempts = 0 }
    else if again
    then schedule_retry cut
    else add_log "Max reconnection attempts reached. Please reconnect manually." cut

on_close-closed_by :
    (id : ℕ) (c : Client)
    → on_close id c
      ≡ closed_by c.manual_disconnect
          (is_some (truthy c.non_retryable_error))
          (ltb c.reconnect_attempts max_reconnect_attempts)
          (cut_off id c)
unfolding on_close closed_by
on_close-closed_by id c = refl

-- A close that retries takes an attempt for its timer; any other keeps both.
closed_by-potential :
    (manual stuck again : Bool) (c : Client)
    → manual || stuck ≡ has_stopped c
    → again ≡ ltb c.reconnect_attempts max_reconnect_attempts
    → potential (closed_by manual stuck again c) ≤ potential c
unfolding closed_by potential schedule_retry
closed_by-potential true stuck again c e f = omega arith
closed_by-potential false true again c e f = omega arith
closed_by-potential false false true c e f = ground (arith, e, f)
closed_by-potential false false false c e f = omega arith

on_close-potential : (id : ℕ) (c : Client) → potential (on_close id c) ≤ potential c
unfolding potential cut_off
on_close-potential id c = rw (on_close-closed_by id c) (
    closed_by-potential c.manual_disconnect (is_some (truthy c.non_retryable_error))
      (ltb c.reconnect_attempts max_reconnect_attempts) (cut_off id c) refl refl)

calls_left-le :
    (timers attempts : ℕ) (stopped : Bool)
    → calls_left timers attempts stopped ≤ timers + (max_reconnect_attempts - attempts)
calls_left-le timers attempts stopped = ground arith

-- A connection may lift a stop, but takes no attempt and sets no timer.
connect-potential :
    (urls : Urls) (url : String) (token : Option String) (c : Client)
    → potential (connect urls url token c)
      ≤ length c.timers + (max_reconnect_attempts - c.reconnect_attempts)
unfolding potential connect
connect-potential urls url token c = elim (Bool-cases (is_live (ready_state c))) [
  | inl e ↦ rw (connect, e) (calls_left-le (length c.timers) c.reconnect_attempts (has_stopped c))
  | inr e ↦ elim (Bool-cases (urls.is_valid url)) [
    | inl v ↦ rw (connect, e, v) (calls_left-le (length c.timers) c.reconnect_attempts false)
    | inr v ↦ rw (connect, e, v) (calls_left-le (length c.timers) c.reconnect_attempts false)
  ]
]

fire-potential :
    (urls : Urls) (t : ℕ) (c : Client)
    → any (λ u. u == t) c.timers ≡ true
    → 1 + potential (fire urls t c) ≤ potential c
unfolding potential fire
fire-potential urls t c h = ground (
  arith,
  length-remove_timer t c.timers h,
  connect-potential urls c.reconnect_url (some c.auth_token)
      (record c { timers = remove_timer t c.timers }),
)

after-potential :
    (urls : Urls) (origin : String) (e : Happening) (c : Client)
    → occurs e c ≡ true
    → is_fire e + potential (after urls origin e c) ≤ potential c
unfolding after potential on_open on_error
after-potential urls origin (opens id) c h = omega arith
after-potential urls origin (closes id) c h = omega (arith, on_close-potential id c)
after-potential urls origin fails c h = omega arith
after-potential urls origin beats c h = omega (arith, Stays-potential c (beat c) (beat-Stays c))
after-potential urls origin (brings id f) c h = omega (
  arith,
  Stays-potential c (handle_gateway_frame origin id f c)
      (handle_gateway_frame-Stays origin id f c (ground arith)),
)
after-potential urls origin (fires t) c h = fire-potential urls t c h

-- A run of what happens, and the calls of `connect` in it.
pub data Run (urls : Urls) (origin : String) : Client → Client → ℕ → Type 0 where
  rests : (c : Client) → Run urls origin c c 0
  goes :
      (e : Happening) (c d : Client) (n : ℕ)
      → occurs e c ≡ true
      → Run urls origin (after urls origin e c) d n
      → Run urls origin c d (is_fire e + n)

-- Left alone by the user, and with a gateway that never accepts the handshake, the client's timers
-- call `connect` at most as often as attempts are left and timers pending, however long the run; and
-- never, if no timer is pending and the user has disconnected or the gateway's error admits no retry.
pub Run-potential :
    (urls : Urls) (origin : String) (c d : Client) (n : ℕ)
    → Run urls origin c d n
    → n + potential d ≤ potential c
Run-potential urls origin c d n (rests _) = omega arith
Run-potential urls origin c d n (goes e _ _ m h r) = omega (
  arith,
  after-potential urls origin e c h,
  Run-potential urls origin (after urls origin e c) d m r,
)
