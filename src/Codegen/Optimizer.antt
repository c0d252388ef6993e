-- ===== src/Codegen/Optimizer.antt =====
-- The optimizer: src/codegen/llvm/LLVMOptimizer.cpp, behind the code generator.
use ocelotl_tensor.Base.{[], ◌≡◌, refl, Option, none, some, Text, bytes_of, inl, inr, Option-cases}
use ocelotl_tensor.Base.Results.{Result, ok, err, ◌>>=◌, Post, value, error, Post-bind, Post-ok}
use ocelotl_tensor.Ir.Module.{Module}
use ocelotl_tensor.Ir.Verifier.{IdMap, verify, Verified}
use ocelotl_tensor.Codegen.Llvm.{Llvm, IdIteration, set_insert_point}
use ocelotl_tensor.Codegen.Lowering.{
  no_block, invalid_llvm, invalid_ir, at, create_blocks, create_all_slots, lower_blocks,
  needs_runtime, insert_runtime, lower_module, generate_llvm, find_return_type, all_value_types,
  require_i64,
}
use ocelotl_tensor.Driver.CommandLine.{OptimizationLevel, o0, o1, o2, o3}

-- `llvm::OptimizationLevel`, as far as `toLLVMLevel` uses it.
pub data LlvmLevel : Type 0 where
  llvm_o0 llvm_o1 llvm_o2 llvm_o3 : LlvmLevel

-- A module that is not valid, "before" or "after" the passes.
pub record OptimizerError : Type 0 where
  pub phase : Text
  pub diagnostic : Text

abbrev pub to_llvm_level : OptimizationLevel → LlvmLevel
to_llvm_level o0 = llvm_o0
to_llvm_level o1 = llvm_o1
to_llvm_level o2 = llvm_o2
to_llvm_level o3 = llvm_o3

module _ {D S V B : Type 0} (llvm : Llvm D S V B) where
  -- `verify`.
  unfoldable pub verify_phase : S → Text → Result {0} OptimizerError Unit
  verify_phase s phase = elim (llvm.verify_module s) [
    | none ↦ ok tt
    | some diagnostic ↦ err (record { phase = phase; diagnostic = diagnostic })
  ]

-- `run_pipeline` builds the default pipeline of a level and runs it on a module.
module _ {D S V B : Type 0} (llvm : Llvm D S V B) (run_pipeline : LlvmLevel → S → S) where
  unfoldable pub optimize : S → OptimizationLevel → Result OptimizerError S
  unfolding verify_phase
  optimize s level = verify_phase llvm s (bytes_of "before") >>= λ _. elim level [
    | o0 ↦ ok s
    | o1 ↦
        let t = run_pipeline (to_llvm_level o1) s in
        verify_phase llvm t (bytes_of "after") >>= λ _. ok t
    | o2 ↦
        let t = run_pipeline (to_llvm_level o2) s in
        verify_phase llvm t (bytes_of "after") >>= λ _. ok t
    | o3 ↦
        let t = run_pipeline (to_llvm_level o3) s in
        verify_phase llvm t (bytes_of "after") >>= λ _. ok t
  ]

-- The optimizer behind its first check.
passes-Post :
    {D S V B : Type 0} (llvm : Llvm D S V B) (t : S)
    → Post
        (λ t. llvm.verify_module t ≡ none)
        (λ e. e.phase ≡ bytes_of "after")
        (verify_phase llvm t (bytes_of "after") >>= λ _. ok t)
unfolding verify_phase
passes-Post llvm t = elim (Option-cases (llvm.verify_module t)) [
  | inl valid ↦ rw (verify_phase, valid) (value valid)
  | inr (message, bad) ↦ rw (verify_phase, bad) (error refl)
]

module _ {D S V B : Type 0} (llvm : Llvm D S V B) (run_pipeline : LlvmLevel → S → S) (s : S)
    (valid : llvm.verify_module s ≡ none) where
  optimize-o0 : optimize llvm run_pipeline s o0 ≡ ok s
  unfolding optimize verify_phase
  optimize-o0 = rw (optimize, verify_phase, valid) refl

  optimize-Post :
      (level : OptimizationLevel)
      → Post
          (λ t. llvm.verify_module t ≡ none)
          (λ e. e.phase ≡ bytes_of "after")
          (optimize llvm run_pipeline s level)
  unfolding optimize verify_phase
  optimize-Post o0 = rw (optimize, verify_phase, valid) (value valid)
  optimize-Post o1 = rw (optimize, verify_phase, valid) (passes-Post llvm (run_pipeline llvm_o1 s))
  optimize-Post o2 = rw (optimize, verify_phase, valid) (passes-Post llvm (run_pipeline llvm_o2 s))
  optimize-Post o3 = rw (optimize, verify_phase, valid) (passes-Post llvm (run_pipeline llvm_o3 s))

any_result : {E A : Type 0} (r : Result E A) → Post (λ _. Unit) (λ _. Unit) r
any_result (ok a) = value tt
any_result (err e) = error tt

module _ {D S V B : Type 0} (llvm : Llvm D S V B) (ids : IdIteration) where
  finished-verify_module :
      (s : S)
      → Post
          (λ t. llvm.verify_module t ≡ none)
          (λ _. Unit)
          (elim (llvm.verify_module s) [ none ↦ ok s | some message ↦ err (invalid_llvm message) ])
  finished-verify_module s = elim (Option-cases (llvm.verify_module s)) [
    | inl valid ↦ rw valid (value valid)
    | inr (message, bad) ↦ rw bad (error tt)
  ]

  lower_module-verify_module :
      (m : Module D)
      → Post (λ t. llvm.verify_module t ≡ none) (λ _. Unit) (lower_module {D = D} llvm ids m)
  unfolding lower_module
  lower_module-verify_module m =
      Post-bind (any_result (at (no_block m.entry) m.entry created.0)) λ entry _.
        let made =
          create_all_slots llvm m.blocks [] (llvm.perform (set_insert_point entry) created.1).1 in
        Post-bind
          (any_result (
            lower_blocks llvm ids
              (record {
                allocate = functions.0.0;
                release = functions.0.1;
                blocks = created.0;
                slots = made.0;
              })
              m.blocks [] made.1))
          λ s _. finished-verify_module s
    where
      functions : (Option V × Option V) × S
      functions = insert_runtime {D = D} llvm ids (needs_runtime m.blocks) llvm.main_function

      created : IdMap B × S
      created = create_blocks llvm m.blocks [] functions.1

  verified-verify_module :
      (m : Module D) (r : Verified Unit)
      → Post {0}
          (λ t. llvm.verify_module t ≡ none)
          (λ _. Unit)
          (elim r [
            | err e ↦ err (invalid_ir e)
            | ok _ ↦ find_return_type (all_value_types m.blocks []) m.blocks >>= λ type.
                require_i64 type >>= λ _. lower_module {D = D} llvm ids m
          ])
  verified-verify_module m (err e) = error tt
  verified-verify_module m (ok u) =
      Post-bind (any_result (find_return_type (all_value_types m.blocks []) m.blocks))
        λ type _. Post-bind (any_result (require_i64 type)) λ _ _. lower_module-verify_module m

  -- A module that the code generator returns is left as it is at the level O0; at every level, if the
  -- optimizer refuses it, then behind the passes, and what it returns is valid.
  pub optimize-generate_llvm :
      (run_pipeline : LlvmLevel → S → S) (m : Module D) (s : S)
      → generate_llvm {D = D} llvm ids m ≡ ok s
      → (optimize llvm run_pipeline s o0 ≡ ok s)
        × ((level : OptimizationLevel)
            → Post
                (λ t. llvm.verify_module t ≡ none)
                (λ e. e.phase ≡ bytes_of "after")
                (optimize llvm run_pipeline s level))
  unfolding generate_llvm
  optimize-generate_llvm run_pipeline m s made =
      let valid : llvm.verify_module s ≡ none =
        Post-ok (verified-verify_module m (verify m)) made in
      (optimize-o0 llvm run_pipeline s valid, optimize-Post llvm run_pipeline s valid)
