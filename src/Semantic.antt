-- ===== src/Semantic.antt =====
-- The semantic analysis: symbols, the analyzer that fills the table, the typing relation that it
-- decides, and the scopes that it keeps.
pub mod Symbols
pub mod Analyzer
pub mod Typing
pub mod Scopes
pub mod Merges
pub mod Statements
mod Tests
