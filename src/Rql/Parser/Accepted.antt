-- ===== src/Rql/Parser/Accepted.antt =====
-- internal/rql/parser.go: `parseCommand` accepts the statements of the grammar and nothing else.
use rawth.Base.{
  ℕ, ◌≡◌, ◌≢◌, refl, sym, ap, ◌∙◌, inl, inr, Bool, true, false, List, [], Option, none, some,
  if◌then◌else◌, Outcome, ok, err, Bool-cases,
}
use rawth.Bytes.{Bytes}
use rawth.Rql.Fault.{
  ParseError, Verb, yoink_verb, yeet_verb, peek_verb, empty_command, unknown_command,
  ttl_requires_number,
}
use rawth.Rql.Token.{
  Token, TokenType, shove, yoink, yeet, peek, keys, nuke, stats, help, ttl, string, ident, number,
  eof, illegal, same_type,
}
use rawth.Rql.Parser.{
  Command, CommandType, command, cmd_yoink, cmd_yeet, cmd_peek, cmd_keys, cmd_nuke, cmd_stats,
  cmd_help, Parser, current, parse_int, is_key, is_value, parse_lifetime, timed, parse_shove,
  parse_key, parse_word, parse_command,
}
use rawth.Rql.Parser.Grammar.{
  token_at, kind_at, literal_at, start, KeyStatement, yoinks, yeets, peeks, WordStatement,
  lists_keys, nukes, shows_stats, shows_help, Grammar, shoves, expires, asks, says, Parses, accepts,
  rejects, same_type-true, same_type_refl, same_type-false, current-at, shoves-accepted, no_key,
  no_value, with_ttl, key-accepted, key-rejected,
}

-- The switch of `parseCommand`, over the kind of the first token.
abbrev dispatch : List Token → Bytes → TokenType → Outcome ParseError Command
dispatch ts literal k = elim k [
  | shove ↦ parse_shove (start ts)
  | yoink ↦ parse_key yoink_verb cmd_yoink (start ts)
  | yeet ↦ parse_key yeet_verb cmd_yeet (start ts)
  | peek ↦ parse_key peek_verb cmd_peek (start ts)
  | keys ↦ parse_word cmd_keys (start ts)
  | nuke ↦ parse_word cmd_nuke (start ts)
  | stats ↦ parse_word cmd_stats (start ts)
  | help ↦ parse_word cmd_help (start ts)
  | eof ↦ err empty_command
  | _ ↦ err (unknown_command literal)
]

parse_command-current :
    (ts : List Token)
    → parse_command (start ts) ≡ dispatch ts (current (start ts)).literal (current (start ts)).kind
unfolding parse_command
parse_command-current ts = refl

parse_lifetime-timed :
    (cmd : Command) (tok : Token) (p : Parser)
    → parse_lifetime cmd (ok (tok, p)) ≡ timed cmd tok.literal (parse_int tok.literal)
unfolding parse_lifetime
parse_lifetime-timed cmd tok p = refl

module _ (ts : List Token) where
  dispatch_at :
      (k : TokenType)
      → kind_at ts 0 ≡ k
      → parse_command (start ts) ≡ dispatch ts (literal_at ts 0) k
  dispatch_at k e =
      parse_command-current ts
      ∙ ap (λ t. dispatch ts t.literal t.kind) (current-at ts 0)
      ∙ ap (dispatch ts (literal_at ts 0)) e

  -- What stands behind `TTL`.
  abbrev timing : Bool → Outcome Token (Token × Parser)
  timing numeral =
      if numeral then ok (token_at ts 4, record { tokens = ts; pos = 5 }) else err (token_at ts 4)

  lifetime_read :
      (cmd : Command) (o : Option ℕ)
      → same_type (kind_at ts 4) number ≡ true
      → parse_int (literal_at ts 4) ≡ o
      → parse_lifetime cmd (timing (same_type (kind_at ts 4) number))
        ≡ timed cmd (literal_at ts 4) o
  lifetime_read cmd o e n =
      ap (λ b. parse_lifetime cmd (timing b)) e
      ∙ parse_lifetime-timed cmd (token_at ts 4) _
      ∙ ap (timed cmd (literal_at ts 4)) n

  lifetime_missing :
      (cmd : Command)
      → same_type (kind_at ts 4) number ≡ false
      → parse_lifetime cmd (timing (same_type (kind_at ts 4) number))
        ≡ err (ttl_requires_number (token_at ts 4))
  unfolding parse_lifetime
  lifetime_missing cmd h = ap (λ b. parse_lifetime cmd (timing b)) h

  word_read : (kind : CommandType) → parse_word kind (start ts) ≡ ok (command kind [])
  unfolding parse_word
  word_read kind = refl

  complete : (cmd : Command) → Grammar ts cmd → parse_command (start ts) ≡ ok cmd
  complete _ (shoves e k v n) =
      dispatch_at shove e ∙ shoves-accepted ts k v (same_type-false (kind_at ts 3) ttl n)
  complete _ (expires seconds e k v t n i) =
      dispatch_at shove e
      ∙ with_ttl ts k v (ap (λ x. same_type x ttl) t ∙ same_type_refl ttl)
      ∙ lifetime_read _ (some seconds) (ap (λ x. same_type x number) n ∙ same_type_refl number) i
  complete _ (asks _ _ _ yoinks e k) = dispatch_at yoink e ∙ key-accepted ts yoink_verb cmd_yoink k
  complete _ (asks _ _ _ yeets e k) = dispatch_at yeet e ∙ key-accepted ts yeet_verb cmd_yeet k
  complete _ (asks _ _ _ peeks e k) = dispatch_at peek e ∙ key-accepted ts peek_verb cmd_peek k
  complete _ (says _ _ lists_keys e) = dispatch_at keys e ∙ word_read cmd_keys
  complete _ (says _ _ nukes e) = dispatch_at nuke e ∙ word_read cmd_nuke
  complete _ (says _ _ shows_stats e) = dispatch_at stats e ∙ word_read cmd_stats
  complete _ (says _ _ shows_help e) = dispatch_at help e ∙ word_read cmd_help

  rejected :
      (e : ParseError) → parse_command (start ts) ≡ err e → Parses ts (parse_command (start ts))
  rejected e q = rejects e q (λ cmd g. clash (sym (complete cmd g) ∙ q))
    where
      clash : {cmd : Command} → ok cmd ≢ err e
      clash c = cc

  accepted : (cmd : Command) → Grammar ts cmd → Parses ts (parse_command (start ts))
  accepted cmd g = accepts cmd (complete cmd g) g

  key_statement :
      (k : TokenType) (verb : Verb) (kind : CommandType)
      → KeyStatement k verb kind
      → kind_at ts 0 ≡ k
      → parse_command (start ts) ≡ parse_key verb kind (start ts)
      → Parses ts (parse_command (start ts))
  key_statement k verb kind st e q = elim (Bool-cases (is_key (kind_at ts 1))) [
    | inl h ↦ accepted _ (asks k verb kind st e h)
    | inr h ↦ rejected _ (q ∙ key-rejected ts verb kind h)
  ]

  shove_statement : kind_at ts 0 ≡ shove → Parses ts (parse_command (start ts))
  shove_statement e = elim (Bool-cases (is_key (kind_at ts 1))) [
    | inr k ↦ rejected _ (dispatch_at shove e ∙ no_key ts k)
    | inl k ↦ elim (Bool-cases (is_value (kind_at ts 2))) [
      | inr v ↦ rejected _ (dispatch_at shove e ∙ no_value ts k v)
      | inl v ↦ elim (Bool-cases (same_type (kind_at ts 3) ttl)) [
        | inr t ↦ accepted _ (shoves e k v (λ q. other q t))
        | inl t ↦ elim (Bool-cases (same_type (kind_at ts 4) number)) [
          | inr n ↦ rejected _ (dispatch_at shove e ∙ with_ttl ts k v t ∙ lifetime_missing _ n)
          | inl n ↦ number_read k v t n (parse_int (literal_at ts 4)) refl
        ]
      ]
    ]
  ]
    where
      other : kind_at ts 3 ≡ ttl → same_type (kind_at ts 3) ttl ≢ false
      other q t = cc (ap (λ x. same_type x ttl) q ∙ same_type_refl ttl, t)

      number_read :
          is_key (kind_at ts 1) ≡ true
          → is_value (kind_at ts 2) ≡ true
          → same_type (kind_at ts 3) ttl ≡ true
          → same_type (kind_at ts 4) number ≡ true
          → (o : Option ℕ) → parse_int (literal_at ts 4) ≡ o
          → Parses ts (parse_command (start ts))
      number_read k v t n none i =
          rejected _ (dispatch_at shove e ∙ with_ttl ts k v t ∙ lifetime_read _ none n i)
      number_read k v t n (some seconds) i = accepted _ (
          expires seconds e k v (same_type-true (kind_at ts 3) ttl t)
            (same_type-true (kind_at ts 4) number n) i)

-- On any tokens `parseCommand` accepts a command that the grammar spells with these tokens, or it
-- returns an error, and then the grammar has no command for them.
pub parse_command_lem : (ts : List Token) → Parses ts (parse_command (start ts))
parse_command_lem ts = go (kind_at ts 0) refl
  where
    word :
        (k : TokenType) (kind : CommandType)
        → WordStatement k kind
        → kind_at ts 0 ≡ k
        → Parses ts (parse_command (start ts))
    word k kind st e = accepted ts _ (says k kind st e)

    unknown :
        parse_command (start ts) ≡ err (unknown_command (literal_at ts 0))
        → Parses ts (parse_command (start ts))
    unknown = rejected ts _

    go : (k : TokenType) → kind_at ts 0 ≡ k → Parses ts (parse_command (start ts))
    go shove e = shove_statement ts e
    go yoink e = key_statement ts yoink yoink_verb cmd_yoink yoinks e (dispatch_at ts yoink e)
    go yeet e = key_statement ts yeet yeet_verb cmd_yeet yeets e (dispatch_at ts yeet e)
    go peek e = key_statement ts peek peek_verb cmd_peek peeks e (dispatch_at ts peek e)
    go keys e = word keys cmd_keys lists_keys e
    go nuke e = word nuke cmd_nuke nukes e
    go stats e = word stats cmd_stats shows_stats e
    go help e = word help cmd_help shows_help e
    go eof e = rejected ts empty_command (dispatch_at ts eof e)
    go ttl e = unknown (dispatch_at ts ttl e)
    go string e = unknown (dispatch_at ts string e)
    go ident e = unknown (dispatch_at ts ident e)
    go number e = unknown (dispatch_at ts number e)
    go illegal e = unknown (dispatch_at ts illegal e)
