-- ===== src/Parser.antt =====
-- parser/: the lexer.
pub mod Token
pub mod Lexer
pub mod TokenName
