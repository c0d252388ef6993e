-- ===== src/Frontend.antt =====
-- The front end: bytes to tokens to syntax trees.
pub mod Token
pub mod Lexer
pub mod Ast
pub mod Parser
