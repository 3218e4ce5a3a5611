-- ===== src/Server/WebSocket.antt =====
-- internal/server/http.go: the handshake and the loop of a WebSocket connection. The bytes that the
-- client sends are a list; the connection ends behind it. Logging and the set of connections are
-- left out.
pub mod Converses
pub mod Exchanges
use rawth.Base.{
  ℕ, zero, suc, ◌+◌, ◌^◌, ◌≤◌, ◌<◌, ◌≡◌, refl, sym, ap, ◌∙◌, List, [], ◌∷◌, ◌++◌, length, arith,
  Outcome, ok, err, panic, stuck, All,
}
use rawth.Bytes.{Bytes, IsByte}
use rawth.Bytes.Text.{text}
use rawth.Rql.Executor.{Platform, Answers, Result, execute}
use rawth.Storage.Fault.{Fault}
use rawth.Storage.Engine.{Engine}
use rawth.Server.Frame.{FrameError, read_frame, write_frame, by_opcode, read_full}
use rawth.Server.Session.{Session, hung_up, crashed, ran_out, ends_with, write_first}

abbrev pub magic_guid : Bytes
magic_guid = text "258EAFA5-E914-47DA-95CA-5AB5DC76B45B"

-- `sha1` and `base64` are the functions of Go's packages.
abbrev pub compute_accept_key : (Bytes → Bytes) → (Bytes → Bytes) → Bytes → Bytes
compute_accept_key sha1 base64 key = base64 (sha1 (key ++ magic_guid))

abbrev pub handshake : Bytes → Bytes
handshake accept_key =
    text "HTTP/1.1 101 Switching Protocols\r\n"
    ++ text "Upgrade: websocket\r\n"
    ++ text "Connection: Upgrade\r\n"
    ++ (text "Sec-WebSocket-Accept: " ++ (accept_key ++ text "\r\n\r\n"))

abbrev pub welcome : Bytes
welcome = text "{\"ok\":true,\"message\":\"connected to rawth — type HELP to get started\"}"

-- `format_json` is `FormatJSON`, `at i` what the system answers while message `i` is executed, and
-- `max_alloc` the longest slice.
module _ (os : Platform) (format_json : Result → Bytes) (at : ℕ → Answers) (max_alloc : ℕ) where
  -- `wsSend` of the result
  abbrev pub send_result : (Engine → Session) → Outcome Fault Result × Engine → Session
  send_result rest (ok res, u) = write_first (write_frame (format_json res)) (rest u)
  send_result rest (panic, u) = ends_with crashed [] u
  send_result rest (err x, u) = ends_with ran_out [] u
  send_result rest (stuck, u) = ends_with ran_out [] u

  abbrev pub on_query : Answers → (Engine → Session) → Bytes → Engine → Session
  on_query a rest [] e = rest e
  on_query a rest (c ∷ cs) e = send_result rest (execute os a (c ∷ cs) e)

  abbrev pub on_frame :
      Answers → (Bytes → Engine → Session) → Outcome FrameError (Bytes × Bytes) → Engine → Session
  on_frame a rest (ok (payload, input)) e = on_query a (rest input) (os.trim_space payload) e
  on_frame a rest (err x) e = ends_with hung_up [] e
  on_frame a rest panic e = ends_with crashed [] e
  on_frame a rest stuck e = ends_with ran_out [] e

  -- `wsReadLoop`
  unfoldable pub ws_read_loop : ℕ → ℕ → Bytes → Engine → Session
  unfolding read_frame execute write_frame
  ws_read_loop zero i input e = ends_with ran_out [] e
  ws_read_loop (suc fuel) i input e =
      let rest = λ (later : Bytes) (u : Engine). ws_read_loop fuel (i + 1) later u in
      on_frame (at i) rest (read_frame max_alloc input) e

  -- `handleWebSocket` from the handshake on; each frame has at least two bytes.
  unfoldable pub ws_session : Bytes → Bytes → Engine → Session
  unfolding ws_read_loop
  ws_session accept_key input e =
      write_first (handshake accept_key ++ write_frame welcome)
        (ws_read_loop (suc (length input)) 0 input e)
