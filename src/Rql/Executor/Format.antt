-- ===== src/Rql/Executor/Format.antt =====
-- internal/rql/executor.go: `FormatText`.
use rawth.Base.{ℕ, ◌+◌, List, [], ◌∷◌, ◌++◌, if◌then◌else◌}
use rawth.Bytes.{Bytes}
use rawth.Bytes.Text.{text}
use rawth.Bytes.Decimal.{decimal}
use rawth.Rql.Executor.{Result, Payload, no_data, key_list, statistics}

-- The lines of a listing, from number `i` on
abbrev pub numbered : ℕ → List Bytes → Bytes
numbered i [] = []
numbered i (k ∷ ks) =
    text "  " ++ (decimal i ++ (text ") " ++ (k ++ (text "\n" ++ numbered (i + 1) ks))))

abbrev figure : Bytes → ℕ → Bytes
figure label n = label ++ (decimal n ++ text "\n")

abbrev pub payload_text : Payload → Bytes
payload_text no_data = []
payload_text (key_list ks) = text "\n" ++ numbered 1 ks
payload_text (statistics s) =
    text "\n"
    ++ figure (text "  Keys:       ") s.key_count
    ++ figure (text "  Tree Depth: ") s.tree_depth
    ++ figure (text "  Pages:      ") s.page_count
    ++ (text "  File Size:  " ++ (decimal s.file_size ++ text " bytes\n"))
    ++ figure (text "  Puts:       ") s.put_count
    ++ figure (text "  Gets:       ") s.get_count
    ++ figure (text "  Deletes:    ") s.delete_count
    ++ (text "  Uptime:     " ++ (s.uptime ++ text "\n"))

unfoldable pub format_text : Result → Bytes
format_text r =
    if r.is_ok
    then (elim r.value [ [] ↦ r.message ++ payload_text r.payload | c ∷ cs ↦ r.value ])
    else text "ERR: " ++ r.message
