-- ===== src/Driver.antt =====
-- The driver: its command line, its stages and its output.
pub mod CommandLine
pub mod Options
pub mod Pipeline
pub mod Output
mod Tests
