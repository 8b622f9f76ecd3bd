-- ===== src/Gateway/Frames.antt =====
-- The heartbeat and the gateway's frames in src/lib/websocket.ts.
use omni_mission_control.Prelude.{
  ℕ, ◌+◌, Bool, true, not, ◌&&◌, Option, none, some, [], ◌∷◌, ◌++◌, String, any, filter, str_eq,
  leb, if◌then◌else◌, concat, decimal, starts_with, get_or,
}
use omni_mission_control.Gateway.{
  Client, is_open, ready_state, add_log, close_socket, stop_heartbeat,
  is_non_retryable_gateway_error, get_gateway_error_help,
}

abbrev pub max_missed_pongs : ℕ
max_missed_pongs = 3

unfoldable pub start_heartbeat : Client → Client
start_heartbeat c = record c { ping_interval = true }

-- A ping is sent and counted as missed until its answer comes.
unfoldable pub send_ping : Client → Client
unfolding decimal
send_ping c = record c {
  ping_counter = c.ping_counter + 1;
  pings_sent = c.pings_sent ++ concat "ping-" (decimal (c.ping_counter + 1)) ∷ [];
  missed_pongs = c.missed_pongs + 1;
}

-- The interval's callback on the current socket, which is open.
unfoldable pub beat_on : ℕ → Client → Client
unfolding close_socket send_ping
beat_on id c =
    if leb max_missed_pongs c.missed_pongs
    then close_socket id (add_log "No heartbeat response after 3 attempts, reconnecting..." c)
    else send_ping c

unfoldable pub beat : Client → Client
unfolding ready_state beat_on
beat c = elim c.ws [
  | none ↦ c
  | some id ↦
      let beaten = beat_on id c in
      if is_open (ready_state c) && c.handshake_complete then beaten else c
]

unfoldable pub handle_pong : String → Client → Client
handle_pong id c =
    if any (str_eq id) c.pings_sent
    then record c { pings_sent = filter (λ p. not (str_eq id p)) c.pings_sent; missed_pongs = 0 }
    else c

-- A frame: the challenge, a response (whether it is ok, its id, and the text of its error), or another
-- event, which goes to other parts of the store.
pub data Frame : Type 0 where
  challenge : Frame
  response : Bool → Option String → String → Frame
  event : Frame

unfoldable pub complete_handshake : Client → Client
unfolding start_heartbeat
complete_handshake c = start_heartbeat (record c {
  handshake_complete = true;
  reconnect_attempts = 0;
  is_connected = true;
  shown_attempts = 0;
})

-- `Gateway error: …`, with the hint where no retry helps.
unfoldable pub note_blocked : String → String → Client → Client
unfolding get_gateway_error_help stop_heartbeat
note_blocked origin message c =
    let hint = concat message (concat " — " (get_gateway_error_help origin message)) in
    stop_heartbeat
      (record (add_log (concat "Gateway error: " hint) c) { non_retryable_error = some message })

-- An error that no retry mends stops the retries and closes the socket.
unfoldable pub handle_error : String → ℕ → String → Client → Client
unfolding is_non_retryable_gateway_error note_blocked close_socket
handle_error origin id message c =
    if is_non_retryable_gateway_error message
    then close_socket id (note_blocked origin message c)
    else add_log (concat "Gateway error: " message) c

-- `handleGatewayFrame` for a frame that came on a socket, on a page of an origin.
unfoldable pub handle_gateway_frame : String → ℕ → Frame → Client → Client
unfolding complete_handshake handle_pong handle_error starts_with
handle_gateway_frame origin id challenge c = c
handle_gateway_frame origin id (response ok rid message) c =
    if ok && not c.handshake_complete
    then complete_handshake c
    else if starts_with "ping-" (get_or rid "")
    then handle_pong (get_or rid "") c
    else if ok
    then c
    else handle_error origin id message c
handle_gateway_frame origin id event c = c
