-- ===== src/Server/Http.antt =====
-- internal/server/http.go: the handlers of the REST interface. The encoder of package json and the
-- decoding of a body are arguments; an error page is what `http.Error` writes.
use rawth.Base.{
  ℕ, ◌+◌, ◌<◌, ◌≡◌, ◌≢◌, refl, ap, ◌∙◌, inl, inr, ◌⊎◌, true, false, not, List, [], ◌∷◌, ◌++◌,
  Option, none, some, if◌then◌else◌, ok, panic, Bool-cases,
}
use rawth.Bytes.{Bytes, equal_bytes}
use rawth.Bytes.Text.{text}
use rawth.Rql.Executor.{Platform, Answers, Result, failure, execute}
use rawth.Rql.Lexer.Scan.{Breaks}
use rawth.Rql.Executor.Safe.{IsRemovable, Executes, answers, crashes, execute_lem}
use rawth.Storage.Node.View.{Entry}
use rawth.Storage.Engine.Deadlines.{equal_bytes-eq, equal_bytes_refl}
use rawth.Storage.Engine.Reads.{Contains}
use rawth.Storage.Monad.{M, ◌>>=◌, pure}
use rawth.Storage.Engine
use rawth.Storage.Engine.{Engine, EngineStats}

-- `upgrade` and `websocket_key` are the headers `Upgrade` and `Sec-WebSocket-Key`, empty when missing.
pub record Request : Type 0 where
  pub method : Bytes
  pub upgrade : Bytes
  pub websocket_key : Bytes
  pub body : Bytes

pub record Response : Type 0 where
  pub headers : List (Bytes × Bytes)
  pub status : ℕ
  pub content : Bytes

abbrev pub cors_headers : List (Bytes × Bytes)
cors_headers =
    (text "Access-Control-Allow-Origin", text "*")
    ∷ (text "Access-Control-Allow-Methods", text "GET, POST, OPTIONS")
    ∷ (text "Access-Control-Allow-Headers", text "Content-Type")
    ∷ []

-- `corsMiddleware`
unfoldable pub cors : (Request → M Engine Response) → Request → M Engine Response
cors next r =
    let respond = λ (e : Engine). next r e in
    if equal_bytes r.method (text "OPTIONS")
    then pure (record { headers = cors_headers; status = 204; content = [] })
    else (do w ← respond; pure (record w { headers = cors_headers ++ w.headers }))

abbrev pub json_headers : List (Bytes × Bytes)
json_headers = (text "Content-Type", text "application/json") ∷ []

abbrev pub http_error : Bytes → ℕ → Response
http_error message status = record {
  headers =
      (text "Content-Type", text "text/plain; charset=utf-8")
      ∷ (text "X-Content-Type-Options", text "nosniff")
      ∷ [];
  status = status;
  content = message ++ text "\n";
}

abbrev pub json_response : Bytes → Response
json_response content = record { headers = json_headers; status = 200; content = content }

-- `handleHealth`; `encode` is the encoder on a map from texts to texts.
unfoldable pub handle_health : (List (Bytes × Bytes) → Bytes) → M Engine Response
handle_health encode = pure (
    json_response (
      encode (
        (text "status", text "alive")
        ∷ (text "engine", text "rawth")
        ∷ (text "version", text "1.0.0")
        ∷ [])))

-- `marshal` is `json.Marshal` of a result, `decode_query` the query in a body, if it decodes.
module _ (os : Platform) (marshal : Result → Bytes) (decode_query : Bytes → Option Bytes)
    (a : Answers) where
  abbrev pub invalid_body : Response
  invalid_body = record {
    headers = json_headers;
    status = 400;
    content =
        marshal (failure (text "invalid JSON body — send {\"query\": \"your RQL here\"}"))
        ++ text "\n";
  }

  abbrev on_query : Option Bytes → M Engine Response
  on_query none = pure invalid_body
  on_query (some query) = do result ← execute os a query; pure (json_response (marshal result))

  unfoldable pub handle_query : Request → M Engine Response
  unfolding execute
  handle_query r =
      let run = λ (e : Engine). on_query (decode_query r.body) e in
      if not (equal_bytes r.method (text "POST"))
      then pure (http_error (text "method not allowed — POST only") 405)
      else run

  -- `encode_stats` is the encoder on statistics, with its newline.
  unfoldable pub handle_stats : (EngineStats → Bytes) → M Engine Response
  handle_stats encode_stats = do
    stats ← Engine.stats os.uptime a.now
    pure (json_response (encode_stats stats))

  -- How a request to `/api/query` ends: the method and the body decide which of them it is.
  pub data Queried (r : Request) (e : Engine) : Type 0 where
    turned_away :
        (w : Response)
        → r.method ≢ text "POST"
        → handle_query r e ≡ (ok w, e)
        → w.status ≡ 405
        → Queried r e
    not_json :
        (w : Response)
        → r.method ≡ text "POST"
        → decode_query r.body ≡ none
        → handle_query r e ≡ (ok w, e)
        → w.status ≡ 400
        → Queried r e
    executed :
        (query : Bytes) (res : Result) (u : Engine) (w : Response)
        → r.method ≡ text "POST"
        → decode_query r.body ≡ some query
        → execute os a query e ≡ (ok res, u)
        → handle_query r e ≡ (ok w, u)
        → (w.status ≡ 200) × (w.content ≡ marshal res)
        → ((left : List Entry) × Contains u left) ⊎ (res.is_ok ≡ false)
        → Queried r e
    broken :
        (query : Bytes)
        → r.method ≡ text "POST"
        → decode_query r.body ≡ some query
        → Breaks (os.trim_space query)
        → handle_query r e ≡ (panic, e)
        → Queried r e

  module _ (r : Request) (e : Engine) where
    not_posted :
        equal_bytes r.method (text "POST") ≡ false
        → handle_query r e ≡ (ok (http_error (text "method not allowed — POST only") 405), e)
    unfolding handle_query
    not_posted m = rw m refl

    posted :
        (o : Option Bytes)
        → equal_bytes r.method (text "POST") ≡ true
        → decode_query r.body ≡ o
        → handle_query r e ≡ on_query o e
    unfolding handle_query
    posted o m d = rw (m, d) refl

  query-answered :
      (query : Bytes) (e u : Engine) (res : Result)
      → execute os a query e ≡ (ok res, u)
      → on_query (some query) e ≡ (ok (json_response (marshal res)), u)
  query-answered query e u res q = rw q refl

  query-broken :
      (query : Bytes) (e : Engine)
      → execute os a query e ≡ (panic, e)
      → on_query (some query) e ≡ (panic, e)
  query-broken query e q = rw q refl

  -- On an engine whose database holds some entries, with page numbers left and a database file
  -- that can be removed and made anew, a request to `/api/query` that is no POST is answered with
  -- the status 405, and a POST whose body is not JSON with 400, and both leave the engine; any
  -- other POST is answered with 200 and the JSON of the result of `Execute` on the query, after
  -- which the database holds entries or the result is a failure, or it breaks off when a quoted
  -- text of the query ends in an unfinished escape.
  pub handle_query_lem :
      (r : Request) (e : Engine) (es : List Entry)
      → IsRemovable a
      → Contains e es
      → e.db.header.page_count + e.db.header.page_count + 1 < 4294967296
      → Queried r e
  handle_query_lem r e es sane rep room = elim (Bool-cases (equal_bytes r.method (text "POST"))) [
    | inr m ↦
        turned_away _
          (λ p. cc (ap (λ x. equal_bytes x (text "POST")) p ∙ equal_bytes_refl (text "POST"), m))
          (not_posted r e m) refl
    | inl m ↦ by_body m (decode_query r.body) refl
  ]
    where
      by_execution :
          equal_bytes r.method (text "POST") ≡ true
          → (query : Bytes) → decode_query r.body ≡ some query
          → Executes os a sane e es rep room query
          → Queried r e
      by_execution m query d (answers (res, u, q, left)) =
          executed query res u _ (equal_bytes-eq r.method (text "POST") m) d q
            (posted r e (some query) m d ∙ query-answered query e u res q) (refl, refl) left
      by_execution m query d (crashes b q) =
          broken query (equal_bytes-eq r.method (text "POST") m) d b
            (posted r e (some query) m d ∙ query-broken query e q)

      by_body :
          equal_bytes r.method (text "POST") ≡ true
          → (o : Option Bytes) → decode_query r.body ≡ o
          → Queried r e
      by_body m none d =
          not_json _ (equal_bytes-eq r.method (text "POST") m) d (posted r e none m d) refl
      by_body m (some query) d = by_execution m query d (execute_lem os a sane e es rep room query)
