-- ===== src/Gateway/Connect.antt =====
-- Opening, closing and reopening the socket in src/lib/websocket.ts.
use omni_mission_control.Prelude.{
  ℕ, zero, suc, ◌+◌, ◌*◌, ◌/◌, min, Bool, true, false, Option, none, some, List, [], ◌∷◌, String,
  is_some, truthy, str_or, ltb, ◌==◌, if◌then◌else◌,
}
use omni_mission_control.Gateway.{
  Client, connecting, open_, closed, set_phase, ready_state, is_live, add_log, close_socket,
  stop_heartbeat,
}

-- `urlObj.searchParams.get('token')`, and whether `new WebSocket(url)` makes a socket or throws.
pub record Urls : Type 0 where
  pub token : String → Option String
  pub is_valid : String → Bool

abbrev pub max_reconnect_attempts : ℕ
max_reconnect_attempts = 10

unfoldable pub reset : Urls → String → Option String → Client → Client
reset urls url token c = record c {
  auth_token = str_or token (str_or (urls.token url) "");
  reconnect_url = url;
  handshake_complete = false;
  manual_disconnect = false;
  non_retryable_error = none;
}

unfoldable pub connect : Urls → String → Option String → Client → Client
unfolding reset ready_state
connect urls url token c =
    let c' = reset urls url token c in
    if is_live (ready_state c)
    then c
    else if urls.is_valid url
    then record c' {
      sockets = (c.next_socket, connecting) ∷ c.sockets;
      ws = some c.next_socket;
      next_socket = c.next_socket + 1;
    }
    else record c' { is_connected = false }

-- `ws.onopen`
unfoldable pub on_open : ℕ → Client → Client
on_open id c = record c { sockets = set_phase id open_ c.sockets; shown_attempts = 0 }

-- The first part of `ws.onclose`. Nothing asks whether the socket is the current one.
unfoldable pub cut_off : ℕ → Client → Client
unfolding stop_heartbeat
cut_off id c = stop_heartbeat (record c {
  sockets = set_phase id closed c.sockets;
  is_connected = false;
  handshake_complete = false;
})

unfoldable pub power_of_two : ℕ → ℕ
power_of_two zero = 1
power_of_two (suc n) = 2 * power_of_two n

-- `Math.min(Math.pow(2, attempts) * 1000, 30000)`
unfoldable pub retry_base : ℕ → ℕ
unfolding power_of_two
retry_base attempts = min (power_of_two attempts * 1_000) 30_000

-- `Math.round(base + Math.random() * base * 0.5)`, where the random number is a numerator over 2 ^ 53.
unfoldable pub retry_timeout : ℕ → ℕ → ℕ
unfolding retry_base
retry_timeout attempts random =
    (retry_base attempts * 18_014_398_509_481_984
      + random * retry_base attempts
      + 9_007_199_254_740_992)
    / 18_014_398_509_481_984

-- `setTimeout(() => connectRef.current(…), timeout)`
unfoldable pub schedule_retry : Client → Client
schedule_retry c = record c {
  reconnect_attempts = c.reconnect_attempts + 1;
  shown_attempts = c.reconnect_attempts + 1;
  reconnect_timeout = some c.next_timer;
  timers = c.next_timer ∷ c.timers;
  next_timer = c.next_timer + 1;
}

-- `ws.onclose`
unfoldable pub on_close : ℕ → Client → Client
unfolding cut_off schedule_retry
on_close id c =
    let cut = cut_off id c in
    if c.manual_disconnect
    then cut
    else if is_some (truthy c.non_retryable_error)
    then record cut { shown_attempts = 0 }
    else if ltb c.reconnect_attempts max_reconnect_attempts
    then schedule_retry cut
    else add_log "Max reconnection attempts reached. Please reconnect manually." cut

-- `ws.onerror`
unfoldable pub on_error : Client → Client
on_error c = add_log "WebSocket error occurred" c

unfoldable pub remove_timer : ℕ → List ℕ → List ℕ
remove_timer t [] = []
remove_timer t (u ∷ ts) = let rest = remove_timer t ts in if u == t then ts else u ∷ rest

-- A pending timer fires: `connect` with the URL and the token that the refs hold then.
unfoldable pub fire : Urls → ℕ → Client → Client
unfolding connect remove_timer
fire urls t c =
    connect urls c.reconnect_url (some c.auth_token) (record c { timers = remove_timer t c.timers })

-- `clearTimeout(reconnectTimeoutRef.current)`
unfoldable pub clear_retry : Client → Client
unfolding remove_timer
clear_retry c = elim c.reconnect_timeout [
  | none ↦ c
  | some t ↦ record c { timers = remove_timer t c.timers; reconnect_timeout = none }
]

unfoldable pub drop_socket : Client → Client
unfolding close_socket
drop_socket c = elim c.ws [ none ↦ c | some id ↦ record (close_socket id c) { ws = none } ]

unfoldable pub disconnect : Client → Client
unfolding clear_retry stop_heartbeat drop_socket
disconnect c =
    let marked = record c { manual_disconnect = true; reconnect_attempts = 0 } in
    record (drop_socket (stop_heartbeat (clear_retry marked))) {
      handshake_complete = false;
      is_connected = false;
      shown_attempts = 0;
    }

-- The timer of `reconnect` is not kept in `reconnectTimeoutRef`.
unfoldable pub reconnect : Client → Client
unfolding disconnect
reconnect c =
    let c' = disconnect c in
    if is_some (truthy (some c'.reconnect_url))
    then record c' { timers = c'.next_timer ∷ c'.timers; next_timer = c'.next_timer + 1 }
    else c'
