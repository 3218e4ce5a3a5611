-- ===== src/Server/Tcp/Talks.antt =====
-- internal/server/tcp.go: what is said on a connection, line by line.
use rawth.Base.{
  ℕ, ◌+◌, ◌≡◌, ◌≢◌, ◌⊎◌, refl, sym, ap, ap₂, ◌∙◌, inl, inr, Bool, true, false, ◌||◌, List, [], ◌∷◌,
  ◌++◌, if◌then◌else◌, Outcome, ok, err, panic, stuck, Bool-cases,
}
use rawth.Bytes.{Bytes, equal_bytes}
use rawth.Bytes.Text.{text}
use rawth.Rql.Executor.{Platform, Answers, Result, execute}
use rawth.Rql.Executor.Format.{format_text}
use rawth.Rql.Executor.Faultless.{NoFault, execute-NoFault}
use rawth.Storage.Fault.{Fault}
use rawth.Storage.Engine.{Engine}
use rawth.Storage.Engine.Deadlines.{equal_bytes-eq, equal_bytes_refl}
use rawth.Server.Session.{Session, ends_with, Ending, left, hung_up, crashed, ran_out}
use rawth.Server.Tcp.{after_execute, quits, on_line, goodbye, handle_lines, handle_connection}

module _ (os : Platform) (to_upper : Bytes → Bytes) (at : ℕ → Answers) where
  open os use {trim_space}

  -- The words that end a session.
  abbrev pub IsGoodbye : Bytes → Type 0
  IsGoodbye line = (to_upper line ≡ text "QUIT") ⊎ (to_upper line ≡ text "EXIT")

  -- Line `i` and those behind it on an engine: what is written, the engine that is left, and how the
  -- session ends. It runs out only where an execution does.
  pub data Talks : ℕ → List Bytes → Engine → Bytes → Engine → Ending → Type 0 where
    hangs_up : (i : ℕ) (e : Engine) → Talks i [] e [] e hung_up
    passes_blank :
        (i : ℕ) (line : Bytes) (lines : List Bytes) (e u : Engine) (w : Bytes) (x : Ending)
        → trim_space line ≡ []
        → Talks (i + 1) lines e w u x
        → Talks i (line ∷ lines) e (text "rawth> " ++ w) u x
    says_goodbye :
        (i : ℕ) (line : Bytes) (lines : List Bytes) (e : Engine)
        → trim_space line ≢ []
        → IsGoodbye (trim_space line)
        → Talks i (line ∷ lines) e (text "goodbye 👋\r\n") e left
    replies :
        (i : ℕ) (line : Bytes) (lines : List Bytes) (e v u : Engine) (res : Result) (w : Bytes)
        (x : Ending)
        → trim_space line ≢ []
        → (IsGoodbye (trim_space line) → ⊥)
        → execute os (at i) (trim_space line) e ≡ (ok res, v)
        → Talks (i + 1) lines v w u x
        → Talks i (line ∷ lines) e ((format_text res ++ text "\r\nrawth> ") ++ w) u x
    crashes :
        (i : ℕ) (line : Bytes) (lines : List Bytes) (e v : Engine)
        → trim_space line ≢ []
        → (IsGoodbye (trim_space line) → ⊥)
        → execute os (at i) (trim_space line) e ≡ (panic, v)
        → Talks i (line ∷ lines) e [] v crashed
    runs_out :
        (i : ℕ) (line : Bytes) (lines : List Bytes) (e v : Engine)
        → trim_space line ≢ []
        → (IsGoodbye (trim_space line) → ⊥)
        → execute os (at i) (trim_space line) e ≡ (stuck, v)
        → Talks i (line ∷ lines) e [] v ran_out

  abbrev Held : ℕ → List Bytes → Engine → Session → Type 0
  Held i lines e s = Talks i lines e s.written s.engine s.ending

  quits-true : (line : Bytes) → quits os to_upper at line ≡ true → IsGoodbye line
  quits-true line h = elim (Bool-cases (equal_bytes (to_upper line) (text "QUIT"))) [
    | inl e ↦ inl (equal_bytes-eq (to_upper line) (text "QUIT") e)
    | inr e ↦ elim (Bool-cases (equal_bytes (to_upper line) (text "EXIT"))) [
      | inl f ↦ inr (equal_bytes-eq (to_upper line) (text "EXIT") f)
      | inr f ↦ cc (ap₂ (λ a b. a || b) e f, h)
    ]
  ]

  quits-false : (line : Bytes) → quits os to_upper at line ≡ false → IsGoodbye line → ⊥
  quits-false line h (inl e) =
      cc (ap (λ x. equal_bytes x (text "QUIT")) e ∙ equal_bytes_refl (text "QUIT"), h)
  quits-false line h (inr e) = elim (Bool-cases (equal_bytes (to_upper line) (text "QUIT"))) [
    | inl f ↦ cc (ap (λ a. a || equal_bytes (to_upper line) (text "EXIT")) f, h)
    | inr f ↦ cc (
      ap₂ (λ a b. a || b) f
          (ap (λ x. equal_bytes x (text "EXIT")) e ∙ equal_bytes_refl (text "EXIT")),
      h,
    )
  ]

  module _ (i : ℕ) (line : Bytes) (lines : List Bytes) (e : Engine) (rest : Engine → Session)
      (later : (u : Engine) → Held (i + 1) lines u (rest u)) where
    executed :
        trim_space line ≢ []
        → (IsGoodbye (trim_space line) → ⊥)
        → (r : Outcome Fault Result × Engine) → execute os (at i) (trim_space line) e ≡ r
        → NoFault r
        → Held i (line ∷ lines) e (after_execute rest r)
    executed t q (ok res, u) x n = replies i line lines e u _ res _ _ t q x (later u)
    executed t q (err y, u) x n = absurd n
    executed t q (panic, u) x n = crashes i line lines e u t q x
    executed t q (stuck, u) x n = runs_out i line lines e u t q x

    spoken :
        trim_space line ≢ []
        → (b : Bool) → quits os to_upper at (trim_space line) ≡ b
        → Held i (line ∷ lines) e (
            if b
            then ends_with left goodbye e
            else after_execute rest (execute os (at i) (trim_space line) e))
    spoken t true q = says_goodbye i line lines e t (quits-true (trim_space line) q)
    spoken t false q =
        executed t (quits-false (trim_space line) q) (execute os (at i) (trim_space line) e) refl
          (execute-NoFault os (at i) (trim_space line) e)

    on_line-Held :
        (xs : Bytes)
        → trim_space line ≡ xs
        → Held i (line ∷ lines) e (on_line os to_upper at (at i) rest xs e)
    on_line-Held [] t = passes_blank i line lines e _ _ _ t (later e)
    on_line-Held (c ∷ cs) t = rw (sym t) (spoken (λ z. cc (z, t)) _ refl)

  handle_lines-Held :
      (i : ℕ) (lines : List Bytes) (e : Engine)
      → Held i lines e (handle_lines os to_upper at i lines e)
  unfolding handle_lines
  handle_lines-Held i [] e = hangs_up i e
  handle_lines-Held i (line ∷ lines) e =
      on_line-Held i line lines e (λ u. handle_lines os to_upper at (i + 1) lines u)
        (λ u. handle_lines-Held (i + 1) lines u) (trim_space line) refl

  -- What `handleConnection` writes is the banner with a prompt, and then, line by line: a prompt
  -- for a line without text; for QUIT or EXIT, as `strings.ToUpper` leaves it, the farewell, and
  -- nothing of the lines behind it is read; for any other line the text of the result of `Execute`
  -- on it and a prompt, with the lines behind it served on the engine that the execution leaves. A
  -- panic of an execution ends the session, as does the end of the lines; it ends for want of fuel
  -- only where an execution does.
  pub handle_connection_lem :
      (lines : List Bytes) (e : Engine)
      → (w : Bytes) × ((handle_connection os to_upper at lines e).written
          ≡ text
              "rawth v1.0.0 — your bytes, your disk, your rules\r\nType HELP for available commands, QUIT to disconnect\r\nrawth> "
            ++ w)
        × Talks 0 lines e w
            (handle_connection os to_upper at lines e).engine
            (handle_connection os to_upper at lines e).ending
  unfolding handle_connection
  handle_connection_lem lines e =
      ((handle_lines os to_upper at 0 lines e).written, refl, handle_lines-Held 0 lines e)
