-- ===== src/Gateway/Tests.antt =====
-- Runs of the gateway client on concrete events, and the theorem at one of them.
use omni_mission_control.Prelude.{◌+◌, ◌≤◌, ◌≡◌, refl, true, false, none, some, []}
use omni_mission_control.Gateway.{Client, open_, closing, phase_of}
use omni_mission_control.Gateway.Connect.{
  Urls, connect, on_open, on_close, fire, disconnect, reconnect, retry_timeout,
}
use omni_mission_control.Gateway.Frames.{Frame, response, beat, handle_gateway_frame}
use omni_mission_control.Gateway.Kept.{potential}
use omni_mission_control.Gateway.Retries.{closes, fires, after, Run, rests, goes, Run-potential}

abbrev urls : Urls
urls = record { token = λ u. none; is_valid = λ u. true }

abbrev fresh : Client
fresh = record {
  sockets = [];
  next_socket = 0;
  ws = none;
  reconnect_url = "";
  auth_token = "";
  handshake_complete = false;
  reconnect_attempts = 0;
  manual_disconnect = false;
  non_retryable_error = none;
  reconnect_timeout = none;
  timers = [];
  next_timer = 0;
  ping_interval = false;
  ping_counter = 0;
  pings_sent = [];
  missed_pongs = 0;
  is_connected = false;
  shown_attempts = 0;
  log = [];
}

abbrev dialing : Client
unfolding connect
dialing = connect urls "wss://gw" none fresh

-- A second call while the socket connects does nothing.
connect_once : connect urls "wss://other" none dialing ≡ dialing
unfolding connect
connect_once = refl

abbrev accepted : Frame
accepted = response true (some "mc-1") ""

abbrev online : Client
unfolding on_open handle_gateway_frame connect
online = handle_gateway_frame "http://mc" 0 accepted (on_open 0 dialing)

online_connected : online.is_connected ≡ true
unfolding handle_gateway_frame online
online_connected = refl

-- Three pings without an answer, and the fourth beat closes the socket.
silent_gateway : phase_of 0 (beat (beat (beat (beat online)))).sockets ≡ some closing
unfolding beat on_open handle_gateway_frame connect
silent_gateway = refl

answered :
    (handle_gateway_frame "" 0 (response true (some "ping-1") "") (beat online)).missed_pongs ≡ 0
unfolding beat on_open handle_gateway_frame connect
answered = refl

blocked :
    (handle_gateway_frame "" 0 (response false none "Auth Rate Limit") dialing).non_retryable_error
    ≡ some "Auth Rate Limit"
unfolding handle_gateway_frame connect
blocked = refl

-- The first wait is from one second to one and a half.
shortest : retry_timeout 0 0 ≡ 1_000
unfolding retry_timeout
shortest = refl

longest : retry_timeout 7 9_007_199_254_740_991 ≡ 45_000
unfolding retry_timeout
longest = refl

-- The timer of `reconnect` outlives a `disconnect` that follows: it opens a socket.
reconnect_outlives : (fire urls 0 (disconnect (reconnect online))).ws ≡ some 1
unfolding fire disconnect reconnect on_open handle_gateway_frame connect
reconnect_outlives = refl

-- The late close of the old socket cuts off the new one, which is open and has shaken hands.
abbrev again : Client
unfolding fire reconnect on_open handle_gateway_frame connect
again = handle_gateway_frame "http://mc" 1 accepted (on_open 1 (fire urls 0 (reconnect online)))

late_close : (on_close 0 again).is_connected ≡ false
unfolding on_close again
late_close = refl

late_close_open : phase_of 1 (on_close 0 again).sockets ≡ some open_
unfolding on_close fire reconnect disconnect on_open handle_gateway_frame connect
late_close_open = refl

-- The socket closes, and the timer dials again: one call of the ten.
redialed : Run urls "" dialing (after urls "" (fires 0) (after urls "" (closes 0) dialing)) 1
unfolding after connect on_close
redialed = goes (closes 0) dialing _ 1 refl (goes (fires 0) _ _ 0 refl (rests _))

Run-potential_example :
    1 + potential (after urls "" (fires 0) (after urls "" (closes 0) dialing)) ≤ potential dialing
Run-potential_example = Run-potential urls "" dialing _ 1 redialed

ten_left : potential dialing ≡ 10
unfolding potential connect
ten_left = refl
