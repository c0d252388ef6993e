-- ===== src/Codegen/Lowering.antt =====
-- The code generator: LLVMCodeGenerator::generate of src/codegen/llvm/LLVMCodeGenerator.cpp.
use ocelotl_tensor.Base.{
  ℕ, ◌^◌, ◌-◌, Bool, true, false, not, ◌&&◌, ◌||◌, Option, none, some, List, [], ◌∷◌, ◌++◌, Text,
  bytes_of, list_eq, if◌then◌else◌, length, ltb,
}
use ocelotl_tensor.Base.Maps.{is_some}
use ocelotl_tensor.Base.Results.{Result, ok, err, ◌>>=◌}
use ocelotl_tensor.Frontend.Ast.{TensorType}
use ocelotl_tensor.Semantic.Analyzer.{i1, i64, f64, is_scalar}
use ocelotl_tensor.Ir.Module.{
  BinaryKind, add_kind, subtract_kind, multiply_kind, divide_kind, CompareKind, equal_kind,
  not_equal_kind, less_kind, less_equal_kind, greater_kind, greater_equal_kind, PhiIncoming,
  Operation, tensor_decl_op, constant_int_op, constant_float_op, binary_op, compare_op, phi_op,
  matmul_op, relu_op, Terminator, branch_op, cond_branch_op, return_op, BasicBlock, Module,
  result_of, type_of,
}
use ocelotl_tensor.Ir.Verifier.{IrVerificationError, IdMap, find_id, verify}
use ocelotl_tensor.Codegen.Storage.{StorageError, tensor_storage_size}
use ocelotl_tensor.Codegen.Llvm.{
  LlvmType, int1_type, int64_type, double_type, Arithmetic, create_f_add, create_add, create_f_sub,
  create_sub, create_f_mul, create_mul, create_f_div, create_s_div, Predicate, fcmp_oeq, fcmp_une,
  fcmp_olt, fcmp_ole, fcmp_ogt, fcmp_oge, icmp_eq, icmp_ne, icmp_slt, icmp_sle, icmp_sgt, icmp_sge,
  insert_alloc_function, insert_free_function, set_insert_point, create_alloca, store_null,
  call_alloc, create_store, constant_int, constant_fp, create_binary, create_cmp, create_phi,
  add_incoming, create_br, create_cond_br, create_load, call_free, create_trunc, create_ret, Llvm,
  IdIteration,
}

-- The errors, one for each `throw`, and one for each map whose `at` has no entry and for each empty
-- `std::optional` that is read.
pub data LoweringError : Type 0 where
  invalid_ir : IrVerificationError → LoweringError
  return_not_i64 unsupported_phi_type too_many_phi_operands not_implemented no_callee :
      LoweringError
  storage : StorageError → LoweringError
  no_type no_block no_predecessor no_value no_slot no_terminator : ℕ → LoweringError
  invalid_llvm : Text → LoweringError

abbrev pub Lowered : Type 0 → Type 0
Lowered A = Result LoweringError A

-- `emplace` and `at`.
unfoldable pub emplace_id : {V : Type 0} → ℕ → V → IdMap V → IdMap V
unfolding find_id
emplace_id k v m = if is_some (find_id k m) then m else (k, v) ∷ m

unfoldable pub at : {V : Type 0} → LoweringError → ℕ → IdMap V → Lowered V
unfolding find_id
at e k m = elim (find_id k m) [ none ↦ err e | some v ↦ ok v ]

unfoldable pub lower_type : TensorType → Option LlvmType
unfolding list_eq
lower_type type =
    if not (is_scalar type)
    then none
    else (if list_eq type.element_type i1
        then some int1_type
        else (if list_eq type.element_type i64
            then some int64_type
            else (if list_eq type.element_type f64 then some double_type else none)))

-- The builder's method for an operator, and the name of its result.
abbrev pub lower_binary : BinaryKind → Bool → Arithmetic × Text
lower_binary add_kind floating = (if floating then create_f_add else create_add, bytes_of "add")
lower_binary subtract_kind floating =
    (if floating then create_f_sub else create_sub, bytes_of "sub")
lower_binary multiply_kind floating =
    (if floating then create_f_mul else create_mul, bytes_of "mul")
lower_binary divide_kind floating =
    (if floating then create_f_div else create_s_div, bytes_of "div")

abbrev pub lower_compare : CompareKind → Bool → Predicate
lower_compare equal_kind floating = if floating then fcmp_oeq else icmp_eq
lower_compare not_equal_kind floating = if floating then fcmp_une else icmp_ne
lower_compare less_kind floating = if floating then fcmp_olt else icmp_slt
lower_compare less_equal_kind floating = if floating then fcmp_ole else icmp_sle
lower_compare greater_kind floating = if floating then fcmp_ogt else icmp_sgt
lower_compare greater_equal_kind floating = if floating then fcmp_oge else icmp_sge

module _ {D : Type 0} where
  -- The first loop: the types of the values, and whether the runtime is needed.
  unfoldable pub value_types : List (Operation D) → IdMap TensorType → IdMap TensorType
  unfolding emplace_id
  value_types [] types = types
  value_types (o ∷ os) types = value_types os (emplace_id (result_of o) (type_of o) types)

  unfoldable pub all_value_types : List (BasicBlock D) → IdMap TensorType → IdMap TensorType
  unfolding value_types
  all_value_types [] types = types
  all_value_types (b ∷ bs) types = all_value_types bs (value_types b.operations types)

  abbrev pub is_tensor_decl : Operation D → Bool
  is_tensor_decl (tensor_decl_op _ _ _) = true
  is_tensor_decl _ = false

  unfoldable pub declares_tensor : List (Operation D) → Bool
  declares_tensor [] = false
  declares_tensor (o ∷ os) = is_tensor_decl o || declares_tensor os

  unfoldable pub needs_runtime : List (BasicBlock D) → Bool
  unfolding declares_tensor
  needs_runtime [] = false
  needs_runtime (b ∷ bs) = declares_tensor b.operations || needs_runtime bs

  -- The second loop, up to the first return; every block has a terminator, since it is verified.
  unfoldable pub find_return_type :
      IdMap TensorType → List (BasicBlock D) → Lowered (Option TensorType)
  unfolding at
  find_return_type types [] = ok none
  find_return_type types (b ∷ bs) = elim b.terminator [
    | none ↦ find_return_type types bs
    | some t ↦ elim t [
      | return_op v ↦ at (no_type v) v types >>= λ type. ok (some type)
      | branch_op _ ↦ find_return_type types bs
      | cond_branch_op _ _ _ ↦ find_return_type types bs
    ]
  ]

unfoldable pub require_i64 : Option TensorType → Lowered Unit
unfolding list_eq
require_i64 none = err return_not_i64
require_i64 (some type) =
    if list_eq type.element_type i64 && is_scalar type then ok tt else err return_not_i64

module _ {D S V B : Type 0} (llvm : Llvm D S V B) where
  -- The loop that creates the blocks.
  unfoldable pub create_blocks : List (BasicBlock D) → IdMap B → S → IdMap B × S
  unfolding emplace_id
  create_blocks [] blocks s = (blocks, s)
  create_blocks (b ∷ bs) blocks s =
      let (block, s1) = llvm.create_block b.name s in
      create_blocks bs (emplace_id b.id block blocks) s1

  -- The loop that creates the slots: one for each tensor, which holds null.
  unfoldable pub create_slots : List (Operation D) → IdMap V → S → IdMap V × S
  unfolding emplace_id
  create_slots [] slots s = (slots, s)
  create_slots (tensor_decl_op result name _ ∷ os) slots s =
      let (slot, s1) = llvm.perform (create_alloca (name ++ bytes_of ".cleanup")) s in
      create_slots os (emplace_id result slot slots) (llvm.perform (store_null slot) s1).1
  create_slots (_ ∷ os) slots s = create_slots os slots s

  unfoldable pub create_all_slots : List (BasicBlock D) → IdMap V → S → IdMap V × S
  unfolding create_slots
  create_all_slots [] slots s = (slots, s)
  create_all_slots (b ∷ bs) slots s =
      let (more, s1) = create_slots b.operations slots s in create_all_slots bs more s1

  -- What the lowering of the operations only reads: the functions of the runtime, the blocks and the
  -- slots.
  pub record Frame : Type 0 where
    pub allocate : Option V
    pub release : Option V
    pub blocks : IdMap B
    pub slots : IdMap V

  -- The loop over the incoming values of a phi.
  unfoldable pub add_all_incoming : V → List PhiIncoming → IdMap B → IdMap V → S → Lowered S
  unfolding at
  add_all_incoming phi [] blocks values s = ok s
  add_all_incoming phi (i ∷ rest) blocks values s =
      at (no_value i.value) i.value values >>= λ value.
      at (no_predecessor i.predecessor) i.predecessor blocks >>= λ predecessor.
      add_all_incoming phi rest blocks values
        (llvm.perform (add_incoming phi value predecessor) s).1

  -- The visitor of operations, which gives the values and the state behind one.
  unfoldable pub lower_operation : Frame → Operation D → IdMap V → S → Lowered (IdMap V × S)
  unfolding at emplace_id tensor_storage_size lower_type add_all_incoming list_eq
  lower_operation frame (tensor_decl_op result name type) values s = elim frame.allocate [
    | none ↦ err no_callee
    | some allocate ↦ elim (tensor_storage_size type) [
      | err e ↦ err (storage e)
      | ok size ↦
          let (pointer, s1) =
            llvm.perform (call_alloc allocate size 64 (name ++ bytes_of ".storage")) s in
          at (no_slot result) result frame.slots >>= λ slot.
          ok (emplace_id result pointer values, (llvm.perform (create_store pointer slot) s1).1)
    ]
  ]
  lower_operation frame (constant_int_op result n _) values s =
      let (constant, s1) = llvm.perform (constant_int n) s in
      ok (emplace_id result constant values, s1)
  lower_operation frame (constant_float_op result d _) values s =
      let (constant, s1) = llvm.perform (constant_fp d) s in
      ok (emplace_id result constant values, s1)
  lower_operation frame (binary_op result kind lhs rhs type) values s =
      at (no_value lhs) lhs values >>= λ l. at (no_value rhs) rhs values >>= λ r.
      (let (method, name) = lower_binary kind (list_eq type.element_type f64) in
        let (v, s1) = llvm.perform (create_binary method l r name) s in
        ok (emplace_id result v values, s1))
  lower_operation frame (compare_op result kind lhs rhs operand_type) values s =
      at (no_value lhs) lhs values >>= λ l. at (no_value rhs) rhs values >>= λ r.
      (let predicate = lower_compare kind (list_eq operand_type.element_type f64) in
        let (v, s1) = llvm.perform (create_cmp predicate l r (bytes_of "cmp")) s in
        ok (emplace_id result v values, s1))
  lower_operation frame (phi_op result type incoming) values s = elim (lower_type type) [
    | none ↦ err unsupported_phi_type
    | some t ↦
        if ltb (2 ^ 32 - 1) (length incoming)
        then err too_many_phi_operands
        else (let (phi, s1) = llvm.perform (create_phi t (length incoming) (bytes_of "merge")) s in
            add_all_incoming phi incoming frame.blocks (emplace_id result phi values) s1 >>= λ s2.
            ok (emplace_id result phi values, s2))
  ]
  lower_operation frame (matmul_op _ _ _ _) values s = err not_implemented
  lower_operation frame (relu_op _ _ _) values s = err not_implemented

  unfoldable pub lower_operations : Frame → List (Operation D) → IdMap V → S → Lowered (IdMap V × S)
  unfolding lower_operation
  lower_operations frame [] values s = ok (values, s)
  lower_operations frame (o ∷ os) values s =
      lower_operation frame o values s >>= λ p. lower_operations frame os p.0 p.1

  -- The loop over the slots in front of a return.
  unfoldable pub release_all : Option V → IdMap V → S → Lowered S
  release_all release [] s = ok s
  release_all release ((_, slot) ∷ slots) s = elim release [
    | none ↦ err no_callee
    | some callee ↦
        let (pointer, s1) = llvm.perform (create_load slot) s in
        release_all release slots (llvm.perform (call_free callee pointer) s1).1
  ]

module _ {D S V B : Type 0} (llvm : Llvm D S V B) (order : IdIteration) where
  -- The visitor of terminators.
  unfoldable pub lower_terminator :
      Frame {D = D} {S = S} llvm → Terminator → IdMap V → S → Lowered S
  unfolding at release_all
  lower_terminator frame (branch_op target) values s =
      at (no_block target) target frame.blocks >>= λ block. ok (llvm.perform (create_br block) s).1
  lower_terminator frame (cond_branch_op condition true_target false_target) values s =
      at (no_value condition) condition values >>= λ c.
      at (no_block true_target) true_target frame.blocks >>= λ t.
      at (no_block false_target) false_target frame.blocks >>= λ f.
      ok (llvm.perform (create_cond_br c t f) s).1
  lower_terminator frame (return_op v) values s =
      release_all llvm frame.release (order.arrange V frame.slots) s >>= λ s1.
      at (no_value v) v values >>= λ value.
      (let (status, s2) = llvm.perform (create_trunc value (bytes_of "exit.status")) s1 in
        ok (llvm.perform (create_ret status) s2).1)

  -- The loop over the blocks.
  unfoldable pub lower_blocks :
      Frame {D = D} {S = S} llvm → List (BasicBlock D) → IdMap V → S → Lowered S
  unfolding at lower_operations lower_terminator
  lower_blocks frame [] values s = ok s
  lower_blocks frame (b ∷ bs) values s = at (no_block b.id) b.id frame.blocks >>= λ block.
      lower_operations llvm frame b.operations values (llvm.perform (set_insert_point block) s).1
      >>= λ p. elim b.terminator [
        | none ↦ err (no_terminator b.id)
        | some t ↦ lower_terminator frame t p.0 p.1 >>= λ s2. lower_blocks frame bs p.0 s2
      ]

  -- The functions of the runtime, if a tensor is declared.
  unfoldable pub insert_runtime : Bool → S → (Option V × Option V) × S
  insert_runtime false s = ((none, none), s)
  insert_runtime true s =
      let (allocate, s1) = llvm.perform insert_alloc_function s in
      let (release, s2) = llvm.perform insert_free_function s1 in
      ((some allocate, some release), s2)

  -- `generate` behind its checks of the module.
  unfoldable pub lower_module : Module D → Lowered S
  unfolding insert_runtime needs_runtime create_blocks create_all_slots lower_blocks at
  lower_module m =
      let (functions, s1) = insert_runtime (needs_runtime m.blocks) llvm.main_function in
      let (blocks, s2) = create_blocks llvm m.blocks [] s1 in
      at (no_block m.entry) m.entry blocks >>= λ entry.
      (let (slots, s3) =
          create_all_slots llvm m.blocks [] (llvm.perform (set_insert_point entry) s2).1 in
        let frame : Frame {D = D} {S = S} llvm = record {
          allocate = functions.0;
          release = functions.1;
          blocks = blocks;
          slots = slots;
        } in
        lower_blocks frame m.blocks [] s3 >>= λ s. elim (llvm.verify_module s) [
          | none ↦ ok s
          | some message ↦ err (invalid_llvm message)
        ])

  unfoldable pub generate_llvm : Module D → Lowered S
  unfolding verify all_value_types find_return_type require_i64 lower_module
  generate_llvm m = elim (verify m) [
    | err e ↦ err (invalid_ir e)
    | ok _ ↦ find_return_type (all_value_types m.blocks []) m.blocks >>= λ type.
        require_i64 type >>= λ _. lower_module m
  ]
