-- ===== src/Rql.antt =====
-- internal/rql: the query language, from text to tokens, commands and their results.
pub mod Token
pub mod Fault
pub mod Lexer
pub mod Parser
pub mod Executor
pub mod Tests
