-- ===== src/Codegen/Llvm.antt =====
-- What src/codegen/llvm/LLVMCodeGenerator.cpp calls of LLVM. `D` is the type `double`.
use ocelotl_tensor.Base.{ℕ, ◌≡◌, Option, Text, length}
use ocelotl_tensor.Ir.Verifier.{IdMap, find_id}

pub data LlvmType : Type 0 where
  int1_type int64_type double_type : LlvmType

-- The arithmetic of the builder, `CreateAdd` and so on.
pub data Arithmetic : Type 0 where
  create_f_add create_add create_f_sub create_sub create_f_mul create_mul create_f_div
        create_s_div :
      Arithmetic

-- `llvm::CmpInst::Predicate`.
pub data Predicate : Type 0 where
  fcmp_oeq fcmp_une fcmp_olt fcmp_ole fcmp_ogt fcmp_oge : Predicate
  icmp_eq icmp_ne icmp_slt icmp_sle icmp_sgt icmp_sge : Predicate

-- A call of LLVM with its arguments, where `V` is the type `llvm::Value *`, a callee included, and
-- `B` the type `llvm::BasicBlock *`.
pub data Call (D V B : Type 0) : Type 0 where
  insert_alloc_function insert_free_function : Call D V B
  set_insert_point : B → Call D V B
  create_alloca : Text → Call D V B
  store_null : V → Call D V B
  call_alloc : V → ℕ → ℕ → Text → Call D V B
  create_store : V → V → Call D V B
  constant_int : ℕ → Call D V B
  constant_fp : D → Call D V B
  create_binary : Arithmetic → V → V → Text → Call D V B
  create_cmp : Predicate → V → V → Text → Call D V B
  create_phi : LlvmType → ℕ → Text → Call D V B
  add_incoming : V → V → B → Call D V B
  create_br : B → Call D V B
  create_cond_br : V → B → B → Call D V B
  create_load : V → Call D V B
  call_free : V → V → Call D V B
  create_trunc : V → Text → Call D V B
  create_ret : V → Call D V B

-- LLVM, with `S` for the state of the module and the builder. The result of a call that has none is
-- not used.
pub record Llvm (D S V B : Type 0) : Type 0 where
  -- The module "ocelotl_module" with its function "main", which takes nothing and returns i32.
  pub main_function : S
  pub create_block : Text → S → B × S
  pub perform : Call D V B → S → V × S
  -- `llvm::verifyModule`: the message, if the module is not valid.
  pub verify_module : S → Option Text

-- The order in which a loop visits a `std::unordered_map` with id keys: it visits every entry once.
pub record IdIteration : Type 1 where
  pub arrange : (V : Type 0) → IdMap V → IdMap V
  pub find_id-arrange : (V : Type 0) (k : ℕ) (m : IdMap V) → find_id k (arrange V m) ≡ find_id k m
  pub length-arrange : (V : Type 0) (m : IdMap V) → length (arrange V m) ≡ length m
