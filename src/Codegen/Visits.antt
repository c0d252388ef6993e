-- ===== src/Codegen/Visits.antt =====
-- The lookups of src/codegen/llvm/LLVMCodeGenerator.cpp for an operation.
use ocelotl_tensor.Base.{
  ◌++◌, ◌^◌, ◌-◌, bytes_of, ℕ, ◌≤◌, ◌≡◌, inl, inr, refl, Bool, true, false, List, [], ◌∷◌, arith,
  length, Bool-cases, Option-cases, ltb,
}
use ocelotl_tensor.Base.Maps.{is_some}
use ocelotl_tensor.Base.Results.{Result, ok, err, Post, value, error, Post-bind, ◌>>=◌}
use ocelotl_tensor.Ir.Module.{
  PhiIncoming, Operation, tensor_decl_op, constant_int_op, constant_float_op, binary_op, compare_op,
  phi_op, matmul_op, relu_op,
}
use ocelotl_tensor.Ir.Verifier.{IdMap}
use ocelotl_tensor.Ir.Counts.{All, All-map}
use ocelotl_tensor.Codegen.Storage.{StorageError, tensor_storage_size}
use ocelotl_tensor.Codegen.Llvm.{call_alloc, create_store, Llvm}
use ocelotl_tensor.Codegen.Lowering.{
  storage, no_predecessor, no_value, no_slot, emplace_id, at, lower_type, declares_tensor, Frame,
  add_all_incoming, lower_operation, lower_operations,
}
use ocelotl_tensor.Codegen.Reached.{is_missing, IsOther, has_key, at-has_key, at-IsOther, declares}

-- The phis of a module that has been generated: `P` holds of the blocks that their values come from,
-- of which there are two at most.
unfoldable pub Known : {D : Type 0} → (ℕ → Type 0) → Operation D → Type 0
Known P (phi_op _ _ incoming) = All (λ i. P i.predecessor) incoming × (length incoming ≤ 2)
Known P _ = Unit

pub Known-map :
    {D : Type 0} {P Q : ℕ → Type 0} (o : Operation D)
    → ((k : ℕ) → P k → Q k)
    → Known P o
    → Known Q o
unfolding Known
Known-map (tensor_decl_op _ _ _) f h = tt
Known-map (constant_int_op _ _ _) f h = tt
Known-map (constant_float_op _ _ _) f h = tt
Known-map (binary_op _ _ _ _ _) f h = tt
Known-map (compare_op _ _ _ _ _) f h = tt
Known-map (phi_op _ _ incoming) f (h, l) = (All-map incoming (λ i. f i.predecessor) h, l)
Known-map (matmul_op _ _ _ _) f h = tt
Known-map (relu_op _ _ _) f h = tt

module _ {D : Type 0} where
  module _ {S V B : Type 0} (llvm : Llvm D S V B) (generated : Bool) where
    predecessor-IsOther :
        (k : ℕ) (blocks : IdMap B)
        → (generated ≡ true → has_key k blocks ≡ true)
        → Post (λ _. Unit) (IsOther generated) (at (no_predecessor k) k blocks)
    unfolding is_missing
    predecessor-IsOther k blocks h = elim (Bool-cases generated) [
      | inl yes_ ↦ at-has_key generated (no_predecessor k) k blocks (h yes_)
      | inr no_ ↦ at-IsOther generated (no_predecessor k) k blocks no_
    ]

    add_all_incoming-IsOther :
        (phi : V) (incoming : List PhiIncoming) (blocks : IdMap B) (values : IdMap V) (s : S)
        → (generated ≡ true → All (λ i. has_key i.predecessor blocks ≡ true) incoming)
        → Post (λ _. Unit) (IsOther generated) (add_all_incoming llvm phi incoming blocks values s)
    unfolding add_all_incoming is_missing
    add_all_incoming-IsOther phi [] blocks values s h = value tt
    add_all_incoming-IsOther phi (i ∷ rest) blocks values s h =
        Post-bind (at-IsOther generated (no_value i.value) i.value values refl) λ v _.
          Post-bind (predecessor-IsOther i.predecessor blocks (λ g. (h g).0))
            λ b _. add_all_incoming-IsOther phi rest blocks values _ (λ g. (h g).1)

    -- What the frame has for the operations: the function and the slot of each declaration.
    pub record Serves (frame : Frame {D = D} {S = S} llvm) (os : List (Operation D)) : Type 0 where
      pub slots : (k : ℕ) → declares k os ≡ true → has_key k frame.slots ≡ true
      pub allocate : declares_tensor os ≡ true → is_some frame.allocate ≡ true
      pub phis : generated ≡ true → All (Known (λ k. has_key k frame.blocks ≡ true)) os

    stored-IsOther :
        (frame : Frame {D = D} {S = S} llvm) (result : ℕ) (f : ℕ → V × S) (values : IdMap V)
        (next : V → V × S → S) (size : Result StorageError ℕ)
        → has_key result frame.slots ≡ true
        → Post {A = IdMap V × S}
            (λ _. Unit)
            (IsOther generated)
            (elim size [
              | err e ↦ err (storage e)
              | ok n ↦ at (no_slot result) result frame.slots >>= λ slot.
                  ok (emplace_id result (f n).0 values, next slot (f n))
            ])
    unfolding is_missing
    stored-IsOther frame result f values next (err e) h = error refl
    stored-IsOther frame result f values next (ok n) h =
        Post-bind (at-has_key generated (no_slot result) result frame.slots h) λ slot _. value tt

    few_operands :
        (incoming : List PhiIncoming)
        → ltb (2 ^ 32 - 1) (length incoming) ≡ true
        → (generated ≡ true → length incoming ≤ 2)
        → generated ≡ false
    few_operands incoming many h = elim (Bool-cases generated) [
      | inl yes_ ↦ absurd (ground (arith, many, h yes_))
      | inr no_ ↦ no_
    ]

    lower_operation-IsOther :
        (frame : Frame {D = D} {S = S} llvm) (o : Operation D) (values : IdMap V) (s : S)
        → Serves frame (o ∷ [])
        → Post (λ _. Unit) (IsOther generated) (lower_operation llvm frame o values s)
    unfolding lower_operation is_missing declares declares_tensor Known
    lower_operation-IsOther frame (tensor_decl_op r n t) values s serves =
        elim (Option-cases frame.allocate) [
          | inl none_ ↦ absurd (ground (arith, serves.allocate refl, none_))
          | inr (callee, e) ↦
              rw (lower_operation, e)
                (stored-IsOther frame r
                  (λ size. llvm.perform (call_alloc callee size 64 (n ++ bytes_of ".storage")) s)
                  values (λ slot p. (llvm.perform (create_store p.0 slot) p.1).1)
                  (tensor_storage_size t) (serves.slots r (ground arith)))
        ]
    lower_operation-IsOther frame (constant_int_op _ _ _) values s serves = value tt
    lower_operation-IsOther frame (constant_float_op _ _ _) values s serves = value tt
    lower_operation-IsOther frame (binary_op _ _ l r _) values s serves =
        Post-bind (at-IsOther generated (no_value l) l values refl)
          λ v _. Post-bind (at-IsOther generated (no_value r) r values refl) λ w _. value tt
    lower_operation-IsOther frame (compare_op _ _ l r _) values s serves =
        Post-bind (at-IsOther generated (no_value l) l values refl)
          λ v _. Post-bind (at-IsOther generated (no_value r) r values refl) λ w _. value tt
    lower_operation-IsOther frame (phi_op r t incoming) values s serves =
        elim (Option-cases (lower_type t)) [
          | inl none_ ↦ rw (lower_operation, none_) (error refl)
          | inr (u, e) ↦ elim (Bool-cases (ltb (2 ^ 32 - 1) (length incoming))) [
            | inl many ↦
                rw (lower_operation, e, many)
                  (error (few_operands incoming many (λ g. (serves.phis g).0.1)))
            | inr few ↦
                rw (lower_operation, e, few)
                  (Post-bind
                    (add_all_incoming-IsOther _ incoming frame.blocks _ _
                      (λ g. (serves.phis g).0.0))
                    λ s2 _. value tt)
          ]
        ]
    lower_operation-IsOther frame (matmul_op _ _ _ _) values s serves = error refl
    lower_operation-IsOther frame (relu_op _ _ _) values s serves = error refl

    Serves-rest :
        (frame : Frame {D = D} {S = S} llvm) (o : Operation D) (os : List (Operation D))
        → Serves frame (o ∷ os)
        → Serves frame (o ∷ []) × Serves frame os
    unfolding declares declares_tensor
    Serves-rest frame o os serves = (
      record {
        slots = λ k h. serves.slots k (ground (arith, h));
        allocate = λ h. serves.allocate (ground (arith, h));
        phis = λ g. ((serves.phis g).0, tt);
      },
      record {
        slots = λ k h. serves.slots k (ground (arith, h));
        allocate = λ h. serves.allocate (ground (arith, h));
        phis = λ g. (serves.phis g).1;
      },
    )

    pub lower_operations-IsOther :
        (frame : Frame {D = D} {S = S} llvm) (os : List (Operation D)) (values : IdMap V) (s : S)
        → Serves frame os
        → Post (λ _. Unit) (IsOther generated) (lower_operations llvm frame os values s)
    unfolding lower_operations
    lower_operations-IsOther frame [] values s serves = value tt
    lower_operations-IsOther frame (o ∷ os) values s serves =
        let (one, rest) = Serves-rest frame o os serves in
        Post-bind (lower_operation-IsOther frame o values s one)
          λ p _. lower_operations-IsOther frame os p.0 p.1 rest
