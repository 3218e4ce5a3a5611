-- ===== src/Server/WebSocket/Exchanges.antt =====
-- internal/server/http.go: the messages of a WebSocket connection, and what they are answered with.
use rawth.Base.{
  ℕ, zero, suc, ◌+◌, ◌^◌, ◌≤◌, ◌<◌, ◌≡◌, ◌≢◌, refl, List, [], ◌∷◌, ◌++◌, length, arith, Outcome, ok,
  panic, stuck, All,
}
use rawth.Bytes.{Bytes, IsByte}
use rawth.Rql.Executor.{Platform, Answers, Result, execute}
use rawth.Storage.Engine.{Engine}
use rawth.Server.Frame.{FrameError, read_frame, write_frame}
use rawth.Server.Frame.Client.{
  Mask, mask_bytes, client_frame, FrameRead, closes, pings, carries, read_client_frame,
}
use rawth.Server.Session.{Session, Ending, hung_up, crashed, ran_out}
use rawth.Server.WebSocket.{ws_read_loop}
use rawth.Server.WebSocket.Converses.{queried}

-- The bytes of text frames
abbrev pub text_frames : List (Mask × Bytes) → Bytes
text_frames [] = []
text_frames ((m, payload) ∷ ms) = client_frame 1 m payload ++ text_frames ms

abbrev pub payloads : List (Mask × Bytes) → List Bytes
payloads [] = []
payloads ((m, payload) ∷ ms) = payload ∷ payloads ms

module _ (os : Platform) (format_json : Result → Bytes) (at : ℕ → Answers) where
  open os use {trim_space}

  -- Messages on an engine, the first of them the `i`-th frame: what is written, the engine that is left,
  -- and how the session ends. Behind the messages the client is gone.
  pub data Exchanges : ℕ → List Bytes → Engine → Bytes → Engine → Ending → Type 0 where
    is_gone : (i : ℕ) (e : Engine) → Exchanges i [] e [] e hung_up
    is_blank :
        (i : ℕ) (m : Bytes) (ms : List Bytes) (e u : Engine) (w : Bytes) (x : Ending)
        → trim_space m ≡ []
        → Exchanges (i + 1) ms e w u x
        → Exchanges i (m ∷ ms) e w u x
    is_answered :
        (i : ℕ) (m : Bytes) (ms : List Bytes) (e v u : Engine) (res : Result) (w : Bytes)
        (x : Ending)
        → trim_space m ≢ []
        → execute os (at i) (trim_space m) e ≡ (ok res, v)
        → Exchanges (i + 1) ms v w u x
        → Exchanges i (m ∷ ms) e (write_frame (format_json res) ++ w) u x
    is_fatal :
        (i : ℕ) (m : Bytes) (ms : List Bytes) (e v : Engine)
        → trim_space m ≢ []
        → execute os (at i) (trim_space m) e ≡ (panic, v)
        → Exchanges i (m ∷ ms) e [] v crashed
    is_endless :
        (i : ℕ) (m : Bytes) (ms : List Bytes) (e v : Engine)
        → trim_space m ≢ []
        → execute os (at i) (trim_space m) e ≡ (stuck, v)
        → Exchanges i (m ∷ ms) e [] v ran_out

carried :
    (payload rest : Bytes) (r : Outcome FrameError (Bytes × Bytes))
    → FrameRead 1 payload rest r
    → r ≡ ok (payload, rest)
carried payload rest r (closes o q) = absurd (omega (arith, o))
carried payload rest r (pings o q) = absurd (omega (arith, o))
carried payload rest r (carries o p q) = q

module _ (os : Platform) (format_json : Result → Bytes) (at : ℕ → Answers) (max_alloc : ℕ) where
  open os use {trim_space}

  -- A mask and a payload that `make` has room for
  abbrev pub IsMessage : Mask × Bytes → Type 0
  IsMessage (m, payload) =
      All IsByte (mask_bytes m) × All IsByte payload × (length payload ≤ max_alloc)

  abbrev Exchanged : ℕ → List Bytes → Engine → Session → Type 0
  Exchanged i ms e s = Exchanges os format_json at i ms e s.written s.engine s.ending

  module _ (limit : max_alloc < 2 ^ 63) where
    first_frame :
        (m : Mask) (payload rest : Bytes)
        → IsMessage (m, payload)
        → read_frame max_alloc (client_frame 1 m payload ++ rest) ≡ ok (payload, rest)
    first_frame m payload rest (masks, bytes, fits) =
        carried payload rest _
          (read_client_frame max_alloc 1 m payload rest limit fits (omega arith) masks bytes)

    -- When a client sends text frames, laid out as in RFC 6455 under any masks of four bytes, with
    -- payloads of bytes no longer than the longest slice (below 2 ^ 63), and is then gone, the
    -- loop of a WebSocket connection, with more fuel than frames, answers payload by payload: with
    -- nothing to a blank one, and to any other one with one frame, the JSON of the result of
    -- `Execute`, on the engine that the one before leaves. A panic of an execution ends the
    -- session; it ends for want of fuel only where an execution does.
    pub ws_read_loop-frames :
        (fuel i : ℕ) (ms : List (Mask × Bytes)) (e : Engine)
        → All IsMessage ms
        → length ms < fuel
        → Exchanges os format_json at i
            (payloads ms)
            e
            (ws_read_loop os format_json at max_alloc fuel i (text_frames ms) e).written
            (ws_read_loop os format_json at max_alloc fuel i (text_frames ms) e).engine
            (ws_read_loop os format_json at max_alloc fuel i (text_frames ms) e).ending
    unfolding ws_read_loop
    ws_read_loop-frames zero i ms e k h = absurd (omega (arith, h))
    ws_read_loop-frames (suc fuel) i [] e k h = is_gone i e
    ws_read_loop-frames (suc fuel) i ((m, payload) ∷ ms) e (k, ks) h =
        rw (first_frame m payload (text_frames ms) k) (
          queried os format_json at max_alloc (at i)
            (ws_read_loop os format_json at max_alloc fuel (i + 1) (text_frames ms)) payload e
            (Exchanged i (payload ∷ payloads ms) e)
            (λ t.
              is_blank i payload (payloads ms) e _ _ _ t
                (ws_read_loop-frames fuel (i + 1) ms e ks (omega (arith, h))))
            (λ v res t x.
              is_answered i payload (payloads ms) e v _ res _ _ t x
                (ws_read_loop-frames fuel (i + 1) ms v ks (omega (arith, h))))
            (λ v t x. is_fatal i payload (payloads ms) e v t x)
            (λ v t x. is_endless i payload (payloads ms) e v t x) (trim_space payload) refl)
