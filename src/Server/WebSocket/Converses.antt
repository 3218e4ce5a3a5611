-- ===== src/Server/WebSocket/Converses.antt =====
-- internal/server/http.go: what is said on a WebSocket connection, frame by frame.
use rawth.Base.{
  ℕ, zero, suc, ◌+◌, ◌≤◌, ◌<◌, ◌≡◌, ◌≢◌, refl, sym, [], ◌∷◌, ◌++◌, length, arith, Outcome, ok, err,
  panic, stuck,
}
use rawth.Bytes.{Bytes}
use rawth.Rql.Executor.{Platform, Answers, Result, execute}
use rawth.Rql.Executor.Faultless.{NoFault, execute-NoFault}
use rawth.Storage.Fault.{Fault}
use rawth.Storage.Engine.{Engine}
use rawth.Server.Frame.{FrameError, read_frame, write_frame}
use rawth.Server.Frame.Progress.{Leaves, read_frame-Leaves}
use rawth.Server.Session.{Session, Ending, hung_up, crashed, ran_out, ends_with, write_first}
use rawth.Server.WebSocket.{
  handshake, welcome, send_result, on_query, on_frame, ws_read_loop, ws_session,
}

module _ (os : Platform) (format_json : Result → Bytes) (at : ℕ → Answers) (max_alloc : ℕ) where
  open os use {trim_space}

  -- The bytes `input` that a client sends, its `i`-th frame first, on an engine: what is written, the
  -- engine that is left, and how the session ends. It runs out only where an execution does.
  pub data Converses : ℕ → Bytes → Engine → Bytes → Engine → Ending → Type 0 where
    hangs_up :
        (i : ℕ) (input : Bytes) (e : Engine) (f : FrameError)
        → read_frame max_alloc input ≡ err f
        → Converses i input e [] e hung_up
    breaks :
        (i : ℕ) (input : Bytes) (e : Engine)
        → read_frame max_alloc input ≡ panic
        → Converses i input e [] e crashed
    passes_blank :
        (i : ℕ) (input payload later : Bytes) (e u : Engine) (w : Bytes) (x : Ending)
        → read_frame max_alloc input ≡ ok (payload, later)
        → trim_space payload ≡ []
        → Converses (i + 1) later e w u x
        → Converses i input e w u x
    replies :
        (i : ℕ) (input payload later : Bytes) (e v u : Engine) (res : Result) (w : Bytes)
        (x : Ending)
        → read_frame max_alloc input ≡ ok (payload, later)
        → trim_space payload ≢ []
        → execute os (at i) (trim_space payload) e ≡ (ok res, v)
        → Converses (i + 1) later v w u x
        → Converses i input e (write_frame (format_json res) ++ w) u x
    crashes :
        (i : ℕ) (input payload later : Bytes) (e v : Engine)
        → read_frame max_alloc input ≡ ok (payload, later)
        → trim_space payload ≢ []
        → execute os (at i) (trim_space payload) e ≡ (panic, v)
        → Converses i input e [] v crashed
    runs_out :
        (i : ℕ) (input payload later : Bytes) (e v : Engine)
        → read_frame max_alloc input ≡ ok (payload, later)
        → trim_space payload ≢ []
        → execute os (at i) (trim_space payload) e ≡ (stuck, v)
        → Converses i input e [] v ran_out

  module _ (a : Answers) (rest : Engine → Session) (payload : Bytes) (e : Engine)
      (Goal : Session → Type 0) (blank : trim_space payload ≡ [] → Goal (rest e))
      (answered : (v : Engine) (res : Result)
        → trim_space payload ≢ []
        → execute os a (trim_space payload) e ≡ (ok res, v)
        → Goal (write_first (write_frame (format_json res)) (rest v)))
      (fatal : (v : Engine)
        → trim_space payload ≢ []
        → execute os a (trim_space payload) e ≡ (panic, v)
        → Goal (ends_with crashed [] v))
      (endless : (v : Engine)
        → trim_space payload ≢ []
        → execute os a (trim_space payload) e ≡ (stuck, v)
        → Goal (ends_with ran_out [] v)) where
    sent :
        trim_space payload ≢ []
        → (r : Outcome Fault Result × Engine) → execute os a (trim_space payload) e ≡ r
        → NoFault r
        → Goal (send_result os format_json at max_alloc rest r)
    sent t (ok res, v) x n = answered v res t x
    sent t (err y, v) x n = absurd n
    sent t (panic, v) x n = fatal v t x
    sent t (stuck, v) x n = endless v t x

    -- Every way in which a message is treated
    pub queried :
        (xs : Bytes)
        → trim_space payload ≡ xs
        → Goal (on_query os format_json at max_alloc a rest xs e)
    queried [] t = blank t
    queried (c ∷ cs) t =
        rw (sym t) (sent (λ z. cc (z, t)) _ refl (execute-NoFault os a (trim_space payload) e))

  abbrev Spoken : ℕ → Bytes → Engine → Session → Type 0
  Spoken i input e s = Converses i input e s.written s.engine s.ending

  framed :
      (i : ℕ) (input : Bytes) (e : Engine) (rest : Bytes → Engine → Session)
      → ((later : Bytes) (u : Engine)
          → length later + 2 ≤ length input
          → Spoken (i + 1) later u (rest later u))
      → (r : Outcome FrameError (Bytes × Bytes)) → read_frame max_alloc input ≡ r
      → Leaves 2 (length input) r
      → Spoken i input e (on_frame os format_json at max_alloc (at i) rest r e)
  framed i input e rest later (ok (payload, left)) q l =
      queried (at i) (rest left) payload e (Spoken i input e)
        (λ t. passes_blank i input payload left e _ _ _ q t (later left e l))
        (λ v res t x. replies i input payload left e v _ res _ _ q t x (later left v l))
        (λ v t x. crashes i input payload left e v q t x)
        (λ v t x. runs_out i input payload left e v q t x) (trim_space payload) refl
  framed i input e rest later (err f) q l = hangs_up i input e f q
  framed i input e rest later panic q l = breaks i input e q
  framed i input e rest later stuck q l = absurd l

  ws_read_loop-Spoken :
      (fuel i : ℕ) (input : Bytes) (e : Engine)
      → length input < fuel
      → Spoken i input e (ws_read_loop os format_json at max_alloc fuel i input e)
  unfolding ws_read_loop
  ws_read_loop-Spoken zero i input e h = absurd (omega (arith, h))
  ws_read_loop-Spoken (suc fuel) i input e h =
      framed i input e (λ later u. ws_read_loop os format_json at max_alloc fuel (i + 1) later u)
        (λ later u l. ws_read_loop-Spoken fuel (i + 1) later u (omega (arith, h, l)))
        (read_frame max_alloc input) refl (read_frame-Leaves max_alloc input)

  -- On any bytes from the client, the session of `handleWebSocket` ends: it writes the answer to
  -- the handshake and the welcome, and then takes frame after frame from the bytes; a blank
  -- payload is passed over, any other one is executed on the engine that the one before leaves and
  -- answered with one frame, the JSON of the result; a close frame or bytes that are no frame end
  -- the session, as does a panic of the reading or of an execution. The fuel of the loop never
  -- runs out; that of an execution may.
  pub ws_session_lem :
      (accept_key input : Bytes) (e : Engine)
      → (w : Bytes) × ((ws_session os format_json at max_alloc accept_key input e).written
          ≡ (handshake accept_key ++ write_frame welcome) ++ w)
        × Converses 0 input e w
            (ws_session os format_json at max_alloc accept_key input e).engine
            (ws_session os format_json at max_alloc accept_key input e).ending
  unfolding ws_session
  ws_session_lem accept_key input e = (
    (ws_read_loop os format_json at max_alloc (suc (length input)) 0 input e).written,
    refl,
    ws_read_loop-Spoken (suc (length input)) 0 input e (omega arith),
  )
