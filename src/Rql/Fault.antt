-- ===== src/Rql/Fault.antt =====
-- The errors that internal/rql/parser.go returns, one constructor for each message.
use rawth.Rql.Token.{Token}
use rawth.Bytes.{Bytes}

-- The statements that take a key.
pub data Verb : Type 0 where
  shove_verb yoink_verb yeet_verb peek_verb : Verb

pub data ParseError : Type 0 where
  empty_command : ParseError
  unknown_command : Bytes → ParseError
  expected_key : Verb → Token → ParseError
  expected_value : Token → ParseError
  ttl_requires_number : Token → ParseError
  invalid_ttl : Bytes → ParseError
