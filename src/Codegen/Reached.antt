-- ===== src/Codegen/Reached.antt =====
-- The maps that src/codegen/llvm/LLVMCodeGenerator.cpp fills before it lowers a module.
use ocelotl_tensor.Base.{
  ◌++◌, bytes_of, ℕ, ◌≡◌, inl, inr, refl, ◌∙◌, subst, Bool, true, false, ◌&&◌, ◌||◌, some, List, [],
  ◌∷◌, arith, Bool-cases, Option-cases, ◌==◌, ltb,
}
use ocelotl_tensor.Base.Maps.{is_some}
use ocelotl_tensor.Base.Results.{ok, Post, value, error, Post-bind, ◌>>=◌}
use ocelotl_tensor.Frontend.Ast.{TensorType}
use ocelotl_tensor.Ir.Module.{
  Operation, tensor_decl_op, constant_int_op, constant_float_op, binary_op, compare_op, phi_op,
  matmul_op, relu_op, Terminator, branch_op, cond_branch_op, return_op, BasicBlock, result_of,
  type_of,
}
use ocelotl_tensor.Ir.Verifier.{IdMap, find_id}
use ocelotl_tensor.Ir.Blocks.{results_in, definitions_of}
use ocelotl_tensor.Ir.Counts.{All, blocks_of}
use ocelotl_tensor.Ir.Validity.{value_of}
use ocelotl_tensor.Codegen.Llvm.{create_alloca, store_null, Llvm}
use ocelotl_tensor.Codegen.Lowering.{
  is_tensor_decl, LoweringError, invalid_ir, too_many_phi_operands, no_callee, no_type, no_block,
  no_predecessor, no_slot, no_terminator, emplace_id, at, value_types, all_value_types,
  declares_tensor, needs_runtime, find_return_type, create_blocks, create_slots, create_all_slots,
}

-- The errors of a lookup of something else than an operand, and those of an empty optional; if the
-- module is one that has been generated, also those of a lookup of a phi's predecessor, of a phi with
-- too many of them, and of a module that the verifier rejects.
unfoldable pub is_missing : Bool → LoweringError → Bool
is_missing generated no_callee = true
is_missing generated (no_type _) = true
is_missing generated (no_block _) = true
is_missing generated (no_slot _) = true
is_missing generated (no_terminator _) = true
is_missing generated (no_predecessor _) = generated
is_missing generated too_many_phi_operands = generated
is_missing generated (invalid_ir _) = generated
is_missing generated _ = false

abbrev pub IsOther : Bool → LoweringError → Type 0
unfolding is_missing
IsOther generated e = is_missing generated e ≡ false

abbrev pub has_key : {V : Type 0} → ℕ → IdMap V → Bool
unfolding find_id
has_key k m = is_some (find_id k m)

has_key-emplace :
    {V : Type 0} (k j : ℕ) (v : V) (m : IdMap V)
    → has_key k (emplace_id j v m) ≡ has_key k m || (j == k)
unfolding emplace_id find_id
has_key-emplace k j v m = elim (Bool-cases (has_key j m)) [
  | inl there ↦ elim (Bool-cases (j == k)) [
    | inl same ↦
        let e : j ≡ k = ground (arith, same) in
        let h : has_key k m ≡ true = subst (λ x. has_key x m ≡ true) e there in
        ground (arith, there, h)
    | inr other ↦ ground (arith, there, other)
  ]
  | inr new ↦ ground (arith, new)
]

pub at-has_key :
    {V : Type 0} (generated : Bool) (e : LoweringError) (k : ℕ) (m : IdMap V)
    → has_key k m ≡ true
    → Post (λ _. Unit) (IsOther generated) (at e k m)
unfolding at
at-has_key generated e k m h = elim (Option-cases (find_id k m)) [
  | inl missing ↦ absurd (ground (arith, h, missing))
  | inr (v, found) ↦ rw (at, found) (value tt)
]

pub at-IsOther :
    {V : Type 0} (generated : Bool) (e : LoweringError) (k : ℕ) (m : IdMap V)
    → IsOther generated e
    → Post (λ _. Unit) (IsOther generated) (at e k m)
unfolding at
at-IsOther generated e k m h = elim (Option-cases (find_id k m)) [
  | inl missing ↦ rw (at, missing) (error h)
  | inr (v, found) ↦ rw (at, found) (value tt)
]

module _ {D : Type 0} where
  has_key-value_types :
      (k : ℕ) (os : List (Operation D)) (types : IdMap TensorType)
      → has_key k (value_types os types) ≡ has_key k types || ltb 0 (results_in k os)
  unfolding value_types results_in
  has_key-value_types k [] types = ground arith
  has_key-value_types k (o ∷ os) types = ground (
    arith,
    has_key-value_types k os (emplace_id (result_of o) (type_of o) types),
    has_key-emplace k (result_of o) (type_of o) types,
  )

  pub has_key-all_value_types :
      (k : ℕ) (bs : List (BasicBlock D)) (types : IdMap TensorType)
      → has_key k (all_value_types bs types) ≡ has_key k types || ltb 0 (definitions_of k bs)
  unfolding all_value_types definitions_of
  has_key-all_value_types k [] types = ground arith
  has_key-all_value_types k (b ∷ bs) types = ground (
    arith,
    has_key-all_value_types k bs (value_types b.operations types),
    has_key-value_types k b.operations types,
  )

  -- Whether the tensor `k` is declared.
  unfoldable pub declares : ℕ → List (Operation D) → Bool
  declares k [] = false
  declares k (o ∷ os) = (is_tensor_decl o && (result_of o == k)) || declares k os

  unfoldable pub all_declares : ℕ → List (BasicBlock D) → Bool
  unfolding declares
  all_declares k [] = false
  all_declares k (b ∷ bs) = declares k b.operations || all_declares k bs

  return-IsOther :
      (generated : Bool) (types : IdMap TensorType) (bs : List (BasicBlock D)) (t : Terminator)
      → All (λ v. has_key v types ≡ true) (value_of (some t))
      → Post {0} (λ _. Unit) (IsOther generated) (find_return_type types bs)
      → Post {0}
          (λ _. Unit)
          (IsOther generated)
          (elim t [
            | return_op v ↦ at (no_type v) v types >>= λ type. ok (some type)
            | branch_op _ ↦ find_return_type types bs
            | cond_branch_op _ _ _ ↦ find_return_type types bs
          ])
  unfolding value_of
  return-IsOther generated types bs (branch_op _) known rest = rest
  return-IsOther generated types bs (cond_branch_op _ _ _) known rest = rest
  return-IsOther generated types bs (return_op v) (known, _) rest =
      Post-bind (at-has_key generated (no_type v) v types known) λ type _. value tt

  pub find_return_type-IsOther :
      (generated : Bool) (types : IdMap TensorType) (bs : List (BasicBlock D))
      → All (λ b. All (λ v. has_key v types ≡ true) (value_of b.terminator)) bs
      → Post (λ _. Unit) (IsOther generated) (find_return_type types bs)
  unfolding find_return_type
  find_return_type-IsOther generated types [] h = value tt
  find_return_type-IsOther generated types (b ∷ bs) (h, hs) = elim (Option-cases b.terminator) [
    | inl open_ ↦ rw (find_return_type, open_) (find_return_type-IsOther generated types bs hs)
    | inr (t, e) ↦
        rw (find_return_type, e)
          (return-IsOther generated types bs t
            (subst (λ x. All (λ v. has_key v types ≡ true) (value_of x)) e h)
            (find_return_type-IsOther generated types bs hs))
  ]

  module _ {S V B : Type 0} (llvm : Llvm D S V B) where
    pub has_key-create_blocks :
        (k : ℕ) (bs : List (BasicBlock D)) (blocks : IdMap B) (s : S)
        → has_key k (create_blocks llvm bs blocks s).0 ≡ has_key k blocks || ltb 0 (blocks_of k bs)
    unfolding create_blocks blocks_of
    has_key-create_blocks k [] blocks s = ground arith
    has_key-create_blocks k (b ∷ bs) blocks s =
        let made = llvm.create_block b.name s in
        ground (
          arith,
          has_key-create_blocks k bs (emplace_id b.id made.0 blocks) made.1,
          has_key-emplace k b.id made.0 blocks,
        )

    has_key-create_slots :
        (k : ℕ) (os : List (Operation D)) (slots : IdMap V) (s : S)
        → has_key k (create_slots llvm os slots s).0 ≡ has_key k slots || declares k os
    unfolding create_slots declares
    has_key-create_slots k [] slots s = ground arith
    has_key-create_slots k (tensor_decl_op r n t ∷ os) slots s =
        let made = llvm.perform (create_alloca (n ++ bytes_of ".cleanup")) s in
        ground (
          arith,
          has_key-create_slots k os (emplace_id r made.0 slots)
              (llvm.perform (store_null made.0) made.1).1,
          has_key-emplace k r made.0 slots,
        )
    has_key-create_slots k (constant_int_op _ _ _ ∷ os) slots s = has_key-create_slots k os slots s
    has_key-create_slots k (constant_float_op _ _ _ ∷ os) slots s =
        has_key-create_slots k os slots s
    has_key-create_slots k (binary_op _ _ _ _ _ ∷ os) slots s = has_key-create_slots k os slots s
    has_key-create_slots k (compare_op _ _ _ _ _ ∷ os) slots s = has_key-create_slots k os slots s
    has_key-create_slots k (phi_op _ _ _ ∷ os) slots s = has_key-create_slots k os slots s
    has_key-create_slots k (matmul_op _ _ _ _ ∷ os) slots s = has_key-create_slots k os slots s
    has_key-create_slots k (relu_op _ _ _ ∷ os) slots s = has_key-create_slots k os slots s

    pub has_key-create_all_slots :
        (k : ℕ) (bs : List (BasicBlock D)) (slots : IdMap V) (s : S)
        → has_key k (create_all_slots llvm bs slots s).0 ≡ has_key k slots || all_declares k bs
    unfolding create_all_slots all_declares
    has_key-create_all_slots k [] slots s = ground arith
    has_key-create_all_slots k (b ∷ bs) slots s =
        let made = create_slots llvm b.operations slots s in
        ground (
          arith,
          has_key-create_all_slots k bs made.0 made.1,
          has_key-create_slots k b.operations slots s,
        )

    create_slots-plain :
        (os : List (Operation D)) (slots : IdMap V) (s : S)
        → declares_tensor os ≡ false
        → (create_slots llvm os slots s).0 ≡ slots
    unfolding create_slots declares_tensor
    create_slots-plain [] slots s h = refl
    create_slots-plain (tensor_decl_op _ _ _ ∷ os) slots s h = cc h
    create_slots-plain (constant_int_op _ _ _ ∷ os) slots s h = create_slots-plain os slots s h
    create_slots-plain (constant_float_op _ _ _ ∷ os) slots s h = create_slots-plain os slots s h
    create_slots-plain (binary_op _ _ _ _ _ ∷ os) slots s h = create_slots-plain os slots s h
    create_slots-plain (compare_op _ _ _ _ _ ∷ os) slots s h = create_slots-plain os slots s h
    create_slots-plain (phi_op _ _ _ ∷ os) slots s h = create_slots-plain os slots s h
    create_slots-plain (matmul_op _ _ _ _ ∷ os) slots s h = create_slots-plain os slots s h
    create_slots-plain (relu_op _ _ _ ∷ os) slots s h = create_slots-plain os slots s h

    -- A module without tensors has no slots.
    pub create_all_slots-plain :
        (bs : List (BasicBlock D)) (slots : IdMap V) (s : S)
        → needs_runtime bs ≡ false
        → (create_all_slots llvm bs slots s).0 ≡ slots
    unfolding create_all_slots needs_runtime
    create_all_slots-plain [] slots s h = refl
    create_all_slots-plain (b ∷ bs) slots s h =
        let made = create_slots llvm b.operations slots s in
        create_all_slots-plain bs made.0 made.1 (ground (arith, h))
        ∙ create_slots-plain b.operations slots s (ground (arith, h))
