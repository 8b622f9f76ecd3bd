-- ===== src/Gateway.antt =====
-- src/lib/websocket.ts: the client of the gateway's socket, with its handshake, heartbeat and
-- reconnection. The refs of the hook are the fields of one record; a socket is a number with its
-- `readyState`. The times of timers are left out: a timer that is pending may fire.
pub mod Connect
pub mod Frames
pub mod Kept
pub mod Retries
mod Tests
use omni_mission_control.Prelude.{
  ℕ, ◌+◌, Bool, true, false, ◌||◌, Option, none, some, List, [], ◌∷◌, ◌++◌, String, map, filter,
  not, str_eq, ◌==◌, concat, if◌then◌else◌, includes, to_lower,
}

pub data Phase : Type 0 where
  connecting open_ closing closed : Phase

-- The refs, the sockets made so far, the timers that will call `connect`, and what the store shows of
-- the connection with the texts of its log.
pub record Client : Type 0 where
  pub sockets : List (ℕ × Phase)
  pub next_socket : ℕ
  pub ws : Option ℕ
  pub reconnect_url : String
  pub auth_token : String
  pub handshake_complete : Bool
  pub reconnect_attempts : ℕ
  pub manual_disconnect : Bool
  pub non_retryable_error : Option String
  pub reconnect_timeout : Option ℕ
  pub timers : List ℕ
  pub next_timer : ℕ
  pub ping_interval : Bool
  pub ping_counter : ℕ
  pub pings_sent : List String
  pub missed_pongs : ℕ
  pub is_connected : Bool
  pub shown_attempts : ℕ
  pub log : List String

abbrev pub phase_of : ℕ → List (ℕ × Phase) → Option Phase
phase_of id [] = none
phase_of id (s ∷ ss) = let rest = phase_of id ss in if s.0 == id then some s.1 else rest

abbrev pub set_phase : ℕ → Phase → List (ℕ × Phase) → List (ℕ × Phase)
set_phase id p = map {B = ℕ × Phase} λ s. if s.0 == id then (id, p) else s

-- `wsRef.current?.readyState`
unfoldable pub ready_state : Client → Option Phase
ready_state c = elim c.ws [ none ↦ none | some id ↦ phase_of id c.sockets ]

abbrev pub is_open : Option Phase → Bool
is_open (some open_) = true
is_open _ = false

abbrev pub is_live : Option Phase → Bool
is_live (some open_) = true
is_live (some connecting) = true
is_live _ = false

abbrev pub add_log : String → Client → Client
add_log message c = record c { log = c.log ++ message ∷ [] }

-- `ws.close(…)`: the close event comes later.
unfoldable pub close_socket : ℕ → Client → Client
close_socket id c =
    if is_live (phase_of id c.sockets)
    then record c { sockets = set_phase id closing c.sockets }
    else c

unfoldable pub stop_heartbeat : Client → Client
stop_heartbeat c = record c { ping_interval = false; missed_pongs = 0; pings_sent = [] }

unfoldable pub is_non_retryable_gateway_error : String → Bool
unfolding includes to_lower
is_non_retryable_gateway_error message =
    let normalized = to_lower message in
    includes "origin not allowed" normalized
    || includes "device identity required" normalized
    || includes "device_auth_signature_invalid" normalized
    || includes "auth rate limit" normalized
    || includes "rate limited" normalized

-- The hint for an operator; the origin is that of the page.
unfoldable pub get_gateway_error_help : String → String → String
unfolding includes to_lower
get_gateway_error_help origin message =
    let normalized = to_lower message in
    if includes "origin not allowed" normalized
    then concat "Gateway rejected browser origin. Add "
        (concat origin " to gateway.controlUi.allowedOrigins on the gateway, then reconnect.")
    else if includes "device identity required" normalized
    then "Gateway requires device identity. Open Mission Control via HTTPS (or localhost), then reconnect so WebCrypto signing can run."
    else if includes "device_auth_signature_invalid" normalized
    then "Gateway rejected device signature. Clear local device identity in the browser and reconnect."
    else if includes "auth rate limit" normalized || includes "rate limited" normalized
    then "Gateway authentication is rate limited. Wait briefly, then reconnect."
    else "Gateway handshake failed. Check gateway control UI origin and device identity settings, then reconnect."
