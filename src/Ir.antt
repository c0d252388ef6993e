-- ===== src/Ir.antt =====
-- The intermediate representation: its modules, the generator that builds one from a tree, and the
-- verifier that checks one.
pub mod Module
pub mod Generator
pub mod Verifier
pub mod Blocks
pub mod Numbering
pub mod Generation
pub mod Branches
pub mod Programs
pub mod Counts
pub mod Validity
pub mod Valid
mod Tests
