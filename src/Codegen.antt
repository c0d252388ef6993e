-- ===== src/Codegen.antt =====
-- The code generator: the storage of tensors, and the lowering of modules to calls of LLVM.
pub mod Storage
pub mod Llvm
pub mod Lowering
pub mod Reached
pub mod Visits
pub mod Lookups
pub mod Composed
pub mod Optimizer
pub mod Sizes
mod Tests
