-- ===== src/Server/Upgrade.antt =====
-- internal/server/http.go, `handleWebSocket`: the guards in front of a WebSocket session.
use rawth.Base.{ℕ, Bool, [], ◌∷◌, ◌⊎◌, inl, inr, if◌then◌else◌}
use rawth.Bytes.{Bytes}
use rawth.Bytes.Text.{text}
use rawth.Rql.Executor.{Platform, Answers, Result}
use rawth.Storage.Engine.{Engine}
use rawth.Server.Session.{Session}
use rawth.Server.WebSocket.{compute_accept_key, ws_session}
use rawth.Server.Http.{Request, Response, http_error}

-- What the web server does when the handler asks for the connection: it cannot give it, it fails
-- with an error's text, or it gives a connection on which the bytes come.
pub data Hijack : Type 0 where
  unsupported : Hijack
  failed : Bytes → Hijack
  granted : Bytes → Hijack

-- `asks_websocket` is the test that a header contains `websocket` in any case.
module _ (os : Platform) (format_json : Result → Bytes) (at : ℕ → Answers) (max_alloc : ℕ)
    (asks_websocket : Bytes → Bool) (sha1 base64 : Bytes → Bytes) where
  abbrev take_over : Bytes → Hijack → Engine → Response ⊎ Session
  take_over key unsupported e = inl (http_error (text "webserver doesn't support hijacking") 500)
  take_over key (failed message) e = inl (http_error message 500)
  take_over key (granted input) e =
      inr (ws_session os format_json at max_alloc (compute_accept_key sha1 base64 key) input e)

  abbrev with_key : Bytes → Hijack → Engine → Response ⊎ Session
  with_key [] h e = inl (http_error (text "missing Sec-WebSocket-Key") 400)
  with_key (c ∷ cs) h e = take_over (c ∷ cs) h e

  unfoldable pub handle_web_socket : Request → Hijack → Engine → Response ⊎ Session
  unfolding ws_session
  handle_web_socket r h e =
      if asks_websocket r.upgrade
      then with_key r.websocket_key h e
      else inl (http_error (text "expected WebSocket upgrade") 400)
