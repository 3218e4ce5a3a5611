-- ===== src/Server/Tcp.antt =====
-- internal/server/tcp.go: one connection, from the lines that `bufio.Scanner` makes of it. Logging is
-- left out.
pub mod Talks
use rawth.Base.{
  ℕ, ◌+◌, ◌≡◌, refl, ap, ◌∙◌, sym, Bool, true, false, ◌||◌, List, [], ◌∷◌, ◌++◌, length,
  if◌then◌else◌, arith, Outcome, ok, err, panic, stuck,
}
use rawth.Bytes.{Bytes, equal_bytes}
use rawth.Bytes.Text.{text}
use rawth.Rql.Executor.{Platform, Answers, Result, execute}
use rawth.Rql.Executor.Format.{format_text}
use rawth.Storage.Fault.{Fault}
use rawth.Storage.Engine.{Engine}
use rawth.Server.Session.{Session, left, hung_up, crashed, ran_out, ends_with, write_first}

abbrev pub prompt : Bytes
prompt = text "rawth> "

abbrev pub banner : Bytes
banner =
    text "rawth v1.0.0 — your bytes, your disk, your rules\r\n"
    ++ (text "Type HELP for available commands, QUIT to disconnect\r\n" ++ prompt)

abbrev pub goodbye : Bytes
goodbye = text "goodbye 👋\r\n"

-- What follows an execution; `Execute` returns no error.
abbrev pub after_execute : (Engine → Session) → Outcome Fault Result × Engine → Session
after_execute rest (ok res, u) = write_first (format_text res ++ (text "\r\n" ++ prompt)) (rest u)
after_execute rest (panic, u) = ends_with crashed [] u
after_execute rest (err x, u) = ends_with ran_out [] u
after_execute rest (stuck, u) = ends_with ran_out [] u

-- `to_upper` is `strings.ToUpper`; `at i` is what the system answers while line `i` is executed.
module _ (os : Platform) (to_upper : Bytes → Bytes) (at : ℕ → Answers) where
  abbrev pub quits : Bytes → Bool
  quits line =
      equal_bytes (to_upper line) (text "QUIT") || equal_bytes (to_upper line) (text "EXIT")

  abbrev pub on_line : Answers → (Engine → Session) → Bytes → Engine → Session
  on_line a rest [] e = write_first prompt (rest e)
  on_line a rest (c ∷ cs) e =
      let run = after_execute rest (execute os a (c ∷ cs) e) in
      if quits (c ∷ cs) then ends_with left goodbye e else run

  -- The loop over the lines
  unfoldable pub handle_lines : ℕ → List Bytes → Engine → Session
  unfolding execute format_text
  handle_lines i [] e = ends_with hung_up [] e
  handle_lines i (line ∷ lines) e =
      let rest = λ (u : Engine). handle_lines (i + 1) lines u in
      on_line (at i) rest (os.trim_space line) e

  unfoldable pub handle_connection : List Bytes → Engine → Session
  unfolding handle_lines
  handle_connection lines e = write_first banner (handle_lines 0 lines e)
