-- ===== src/Server/Tests.antt =====
-- The servers' theorems on short messages, over the database of the storage's tests.
use rawth.Base.{◌^◌, ◌≡◌, refl, List, [], ◌∷◌, ◌++◌, some, arith, ok, panic, All}
use rawth.Bytes.{Bytes, IsByte}
use rawth.Bytes.Text.{text}
use rawth.Rql.Executor.{Result}
use rawth.Rql.Tests.{platform, system_at, system-IsRemovable}
use rawth.Storage.Tests.{loaded, items, key_a}
use rawth.Storage.Engine.Tests.{engine}
use rawth.Server.Frame.{read_frame, write_frame}
use rawth.Server.Frame.RoundTrip.{read_frame-write_frame, announcement, read_frame-announcement}
use rawth.Server.Frame.Client.{Mask, mask_bytes, client_frame, FrameRead, read_client_frame}
use rawth.Server.Session.{Session}
use rawth.Server.Tcp.{handle_connection}
use rawth.Server.Tcp.Talks.{Talks, handle_connection_lem}
use rawth.Server.WebSocket.{handshake, welcome, ws_read_loop, ws_session}
use rawth.Server.WebSocket.Converses.{Converses, ws_session_lem}
use rawth.Server.WebSocket.Exchanges.{Exchanges, text_frames, ws_read_loop-frames}
use rawth.Server.Http.{Queried, handle_query_lem}

abbrev mask : Mask
mask = record { first = 1; second = 2; third = 3; fourth = 255 }

mask-IsByte : All IsByte (mask_bytes mask)
mask-IsByte = (omega arith, (omega arith, (omega arith, (omega arith, tt))))

abbrev keys_bytes : Bytes
keys_bytes = text "KEYS"

keys_bytes-IsByte : All IsByte keys_bytes
keys_bytes-IsByte = (omega arith, (omega arith, (omega arith, (omega arith, tt))))

read_client_frame_example :
    FrameRead 9 keys_bytes key_a (read_frame 1000 (client_frame 9 mask keys_bytes ++ key_a))
read_client_frame_example =
    read_client_frame 1000 9 mask keys_bytes key_a (omega arith) (omega arith) (omega arith)
      mask-IsByte keys_bytes-IsByte

read_frame-write_frame_example :
    read_frame 1000 (write_frame keys_bytes ++ key_a) ≡ ok (keys_bytes, key_a)
read_frame-write_frame_example =
    read_frame-write_frame 1000 (omega arith) keys_bytes key_a (omega arith)

read_frame-announcement_example :
    read_frame 1000 (announcement (2 ^ 63) (mask_bytes mask) ++ []) ≡ panic
read_frame-announcement_example =
    read_frame-announcement 1000 (2 ^ 63) (mask_bytes mask) [] (omega arith) (omega arith) refl

abbrev three_lines : List Bytes
three_lines = text "KEYS" ∷ text "QUIT" ∷ text "NUKE" ∷ []

handle_connection_lem_example :
    (w : Bytes) × ((handle_connection platform (λ xs. xs) system_at three_lines engine).written
      ≡ text
          "rawth v1.0.0 — your bytes, your disk, your rules\r\nType HELP for available commands, QUIT to disconnect\r\nrawth> "
        ++ w)
    × Talks platform
        (λ xs. xs)
        system_at
        0
        three_lines
        engine
        w
        (handle_connection platform (λ xs. xs) system_at three_lines engine).engine
        (handle_connection platform (λ xs. xs) system_at three_lines engine).ending
handle_connection_lem_example =
    handle_connection_lem platform (λ xs. xs) system_at three_lines engine

abbrev shown : Result → Bytes
shown r = r.message

abbrev sent : List (Mask × Bytes)
sent = (mask, keys_bytes) ∷ (mask, []) ∷ []

abbrev loop_on_sent : Session
loop_on_sent = ws_read_loop platform shown system_at 1000 3 0 (text_frames sent) engine

ws_read_loop-frames_example :
    Exchanges platform shown system_at 0
      (keys_bytes ∷ [] ∷ [])
      engine
      loop_on_sent.written
      loop_on_sent.engine
      loop_on_sent.ending
ws_read_loop-frames_example =
    ws_read_loop-frames platform shown system_at 1000 (omega arith) 3 0 sent engine
      ((mask-IsByte, keys_bytes-IsByte, omega arith), ((mask-IsByte, tt, omega arith), tt))
      (omega arith)

ws_session_lem_example :
    (w : Bytes) × ((ws_session platform shown system_at 1000 key_a (mask_bytes mask) engine).written
      ≡ (handshake key_a ++ write_frame welcome) ++ w)
    × Converses platform shown system_at 1000 0
        (mask_bytes mask)
        engine
        w
        (ws_session platform shown system_at 1000 key_a (mask_bytes mask) engine).engine
        (ws_session platform shown system_at 1000 key_a (mask_bytes mask) engine).ending
ws_session_lem_example = ws_session_lem platform shown system_at 1000 key_a (mask_bytes mask) engine

handle_query_lem_example :
    Queried platform
      (λ (r : Result). r.message)
      (λ xs. some xs)
      (system_at 9)
      (record { method = text "POST"; upgrade = []; websocket_key = []; body = text "PEEK a" })
      engine
handle_query_lem_example =
    handle_query_lem platform (λ (r : Result). r.message) (λ xs. some xs) (system_at 9)
      (record { method = text "POST"; upgrade = []; websocket_key = []; body = text "PEEK a" })
      engine items (system-IsRemovable 9) loaded.1 (omega (arith, loaded.2))
