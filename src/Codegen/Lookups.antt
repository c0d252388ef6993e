-- ===== src/Codegen/Lookups.antt =====
-- The lookups of src/codegen/llvm/LLVMCodeGenerator.cpp for a terminator, a block and a module.
use ocelotl_tensor.Base.{
  Text, list_eq, ℕ, ◌<◌, ◌≡◌, ◌⊎◌, inl, inr, refl, ap, subst, Bool, true, false, ◌&&◌, Option, none,
  some, List, [], ◌∷◌, arith, length, Bool-cases, Option-cases,
}
use ocelotl_tensor.Base.Maps.{is_some}
use ocelotl_tensor.Base.Results.{ok, err, Post, value, error, Post-bind, Post-err, ◌>>=◌}
use ocelotl_tensor.Frontend.Ast.{TensorType}
use ocelotl_tensor.Semantic.Analyzer.{i64, is_scalar}
use ocelotl_tensor.Ir.Module.{Terminator, branch_op, cond_branch_op, return_op, BasicBlock, Module}
use ocelotl_tensor.Ir.Verifier.{IdMap, verify, Verified}
use ocelotl_tensor.Ir.Counts.{All, All-map, blocks_of}
use ocelotl_tensor.Ir.Validity.{IsGraph, verify-IsGraph, targets_of, value_of}
use ocelotl_tensor.Codegen.Llvm.{set_insert_point, Llvm, IdIteration}
use ocelotl_tensor.Codegen.Lowering.{
  LoweringError, invalid_ir, no_block, no_value, invalid_llvm, all_value_types, needs_runtime,
  find_return_type, require_i64, create_blocks, create_all_slots, Frame, release_all,
  lower_terminator, lower_blocks, insert_runtime, lower_module, generate_llvm,
}
use ocelotl_tensor.Codegen.Reached.{
  is_missing, IsOther, has_key, at-has_key, at-IsOther, has_key-all_value_types, all_declares,
  find_return_type-IsOther, has_key-create_blocks, has_key-create_all_slots, create_all_slots-plain,
}
use ocelotl_tensor.Codegen.Visits.{Known, Known-map, lower_operations-IsOther}

module _ {D : Type 0} where
  module _ {S V B : Type 0} (llvm : Llvm D S V B) (generated : Bool) where
    release_all-IsOther :
        (release : Option V) (slots : IdMap V) (s : S)
        → (is_some release ≡ true) ⊎ (slots ≡ [])
        → Post (λ _. Unit) (IsOther generated) (release_all {D = D} llvm release slots s)
    unfolding release_all
    release_all-IsOther release [] s h = value tt
    release_all-IsOther none (_ ∷ slots) s h = absurd (ground (arith, h))
    release_all-IsOther (some callee) (_ ∷ slots) s h =
        release_all-IsOther (some callee) slots _ (inl refl)

    module _ (order : IdIteration) where
      arrange_empty : (slots : IdMap V) → slots ≡ [] → order.arrange V slots ≡ []
      arrange_empty slots e = ground (arith, order.length-arrange V slots, ap length e)

      lower_terminator-IsOther :
          (frame : Frame {D = D} {S = S} llvm) (t : Terminator) (values : IdMap V) (s : S)
          → (is_some frame.release ≡ true) ⊎ (frame.slots ≡ [])
          → All (λ k. has_key k frame.blocks ≡ true) (targets_of (some t))
          → Post
              (λ _. Unit)
              (IsOther generated)
              (lower_terminator {D = D} llvm order frame t values s)
      unfolding lower_terminator targets_of is_missing
      lower_terminator-IsOther frame (branch_op k) values s r (known, _) =
          Post-bind (at-has_key generated (no_block k) k frame.blocks known) λ b _. value tt
      lower_terminator-IsOther frame (cond_branch_op v k l) values s r (first, (second, _)) =
          Post-bind (at-IsOther generated (no_value v) v values refl) λ c _.
            Post-bind (at-has_key generated (no_block k) k frame.blocks first) λ b _.
              Post-bind (at-has_key generated (no_block l) l frame.blocks second) λ b2 _. value tt
      lower_terminator-IsOther frame (return_op v) values s r targets =
          Post-bind
            (release_all-IsOther frame.release (order.arrange V frame.slots) s (elim r [
              | inl there ↦ inl there
              | inr empty ↦ inr (arrange_empty frame.slots empty)
            ]))
            λ s1 _. Post-bind (at-IsOther generated (no_value v) v values refl) λ w _. value tt

      -- What the frame has for the blocks.
      record Holds (frame : Frame {D = D} {S = S} llvm) (bs : List (BasicBlock D)) : Type 0 where
        slots : (k : ℕ) → all_declares k bs ≡ true → has_key k frame.slots ≡ true
        allocate : needs_runtime bs ≡ true → is_some frame.allocate ≡ true
        release : (is_some frame.release ≡ true) ⊎ (frame.slots ≡ [])
        blocks : (k : ℕ) → 0 < blocks_of k bs → has_key k frame.blocks ≡ true
        targets : All (λ b. All (λ k. has_key k frame.blocks ≡ true) (targets_of b.terminator)) bs
        ended : All (λ b. is_some b.terminator ≡ true) bs
        phis :
            generated ≡ true
            → All (λ b. All (Known (λ k. has_key k frame.blocks ≡ true)) b.operations) bs

      lower_blocks-IsOther :
          (frame : Frame {D = D} {S = S} llvm) (bs : List (BasicBlock D)) (values : IdMap V) (s : S)
          → Holds frame bs
          → Post (λ _. Unit) (IsOther generated) (lower_blocks {D = D} llvm order frame bs values s)
      unfolding lower_blocks all_declares needs_runtime blocks_of
      lower_blocks-IsOther frame [] values s h = value tt
      lower_blocks-IsOther frame (b ∷ bs) values s h =
          Post-bind
            (at-has_key generated (no_block b.id) b.id frame.blocks (h.blocks b.id (ground arith)))
            λ block _.
              Post-bind
                (lower_operations-IsOther llvm generated frame b.operations values _ (record {
                  slots = λ k d. h.slots k (ground (arith, d));
                  allocate = λ d. h.allocate (ground (arith, d));
                  phis = λ g. (h.phis g).0;
                }))
                λ p _. elim (Option-cases b.terminator) [
                  | inl open_ ↦ absurd (ground (arith, h.ended.0, open_))
                  | inr (t, e) ↦ rw e (
                      Post-bind
                        (lower_terminator-IsOther frame t p.0 p.1 h.release (
                          subst (λ x. All (λ k. has_key k frame.blocks ≡ true) (targets_of x)) e
                            h.targets.0))
                        λ s2 _. lower_blocks-IsOther frame bs p.0 s2 (record {
                          slots = λ k d. h.slots k (ground (arith, d));
                          allocate = λ d. h.allocate (ground (arith, d));
                          release = h.release;
                          blocks = λ k l. h.blocks k (ground (arith, l));
                          targets = h.targets.1;
                          ended = h.ended.1;
                          phis = λ g. (h.phis g).1;
                        }))
                ]

      inserted-allocate :
          (r : Bool) (s : S) → r ≡ true → is_some (insert_runtime {D = D} llvm order r s).0.0 ≡ true
      unfolding insert_runtime
      inserted-allocate true s h = refl
      inserted-allocate false s h = cc h

      inserted-release :
          (r : Bool) (s : S) → r ≡ true → is_some (insert_runtime {D = D} llvm order r s).0.1 ≡ true
      unfolding insert_runtime
      inserted-release true s h = refl
      inserted-release false s h = cc h

      finished-IsOther :
          (s : S) (checked : Option Text)
          → Post {0}
              (λ _. Unit)
              (IsOther generated)
              (elim checked [ none ↦ ok s | some message ↦ err (invalid_llvm message) ])
      unfolding is_missing
      finished-IsOther s none = value tt
      finished-IsOther s (some message) = error refl

      lower_module-IsOther :
          (m : Module D)
          → IsGraph m
          → (generated ≡ true
              → All (λ b. All (Known (λ k. 0 < blocks_of k m.blocks)) b.operations) m.blocks)
          → Post (λ _. Unit) (IsOther generated) (lower_module {D = D} llvm order m)
      unfolding lower_module
      lower_module-IsOther m g phis =
          let found : (k : ℕ) → 0 < blocks_of k m.blocks → has_key k blocks ≡ true =
            λ k l. ground (arith, has_key-create_blocks llvm k m.blocks [] functions.1, l) in
          Post-bind
            (at-has_key generated (no_block m.entry) m.entry blocks
              (found m.entry (omega (arith, g.entry))))
            λ entry _.
              let s2 = (llvm.perform (set_insert_point entry) created.1).1 in
              let made = create_all_slots llvm m.blocks [] s2 in
              Post-bind
                (lower_blocks-IsOther
                  (record {
                    allocate = functions.0.0;
                    release = functions.0.1;
                    blocks = blocks;
                    slots = made.0;
                  })
                  m.blocks [] made.1
                  (record {
                    slots =
                        λ k d. ground (arith, has_key-create_all_slots llvm k m.blocks [] s2, d);
                    allocate = inserted-allocate (needs_runtime m.blocks) llvm.main_function;
                    release = elim (Bool-cases (needs_runtime m.blocks)) [
                      | inl needed ↦
                          inl (inserted-release (needs_runtime m.blocks) llvm.main_function needed)
                      | inr plain ↦ inr (create_all_slots-plain llvm m.blocks [] s2 plain)
                    ];
                    blocks = found;
                    targets =
                        All-map m.blocks
                          (λ b.
                            All-map (targets_of b.terminator) (λ k e. found k (omega (arith, e))))
                          g.targets;
                    ended = g.ended;
                    phis = λ yes_.
                        All-map m.blocks (λ b. All-map b.operations (λ o. Known-map o found))
                          (phis yes_);
                  }))
                λ s _. finished-IsOther s (llvm.verify_module s)
        where
          functions : (Option V × Option V) × S
          functions = insert_runtime {D = D} llvm order (needs_runtime m.blocks) llvm.main_function

          created : IdMap B × S
          created = create_blocks llvm m.blocks [] functions.1

          blocks : IdMap B
          blocks = created.0

      require_i64-IsOther :
          (type : Option TensorType) → Post (λ _. Unit) (IsOther generated) (require_i64 type)
      unfolding require_i64 is_missing
      require_i64-IsOther none = error refl
      require_i64-IsOther (some type) =
          elim (Bool-cases (list_eq type.element_type i64 && is_scalar type)) [
            | inl yes_ ↦ rw (require_i64, yes_) (value tt)
            | inr no_ ↦ rw (require_i64, no_) (error refl)
          ]

      verified-IsOther :
          (m : Module D) (r : Verified Unit)
          → (generated ≡ true
              → (r ≡ ok tt)
                × All (λ b. All (Known (λ k. 0 < blocks_of k m.blocks)) b.operations) m.blocks)
          → verify m ≡ r
          → Post {0}
              (λ _. Unit)
              (IsOther generated)
              (elim r [
                | err e ↦ err (invalid_ir e)
                | ok _ ↦ find_return_type (all_value_types m.blocks []) m.blocks >>= λ type.
                    require_i64 type >>= λ _. lower_module {D = D} llvm order m
              ])
      unfolding is_missing
      verified-IsOther m (err e) phis h =
          error (elim (Bool-cases generated) [ inl yes_ ↦ cc ((phis yes_).0) | inr no_ ↦ no_ ])
      verified-IsOther m (ok tt) phis h =
          let g = verify-IsGraph m h in
          Post-bind
            (find_return_type-IsOther generated (all_value_types m.blocks []) m.blocks (
              All-map m.blocks
                (λ b u.
                  All-map (value_of b.terminator)
                    (λ v e. ground (arith, has_key-all_value_types v m.blocks [], e)) u.1)
                g.used))
            λ type _.
              Post-bind (require_i64-IsOther type)
                λ _ _. lower_module-IsOther m g (λ yes_. (phis yes_).1)

      pub generate_llvm-IsOther :
          (m : Module D)
          → (generated ≡ true
              → (verify m ≡ ok tt)
                × All (λ b. All (Known (λ k. 0 < blocks_of k m.blocks)) b.operations) m.blocks)
          → Post (λ _. Unit) (IsOther generated) (generate_llvm {D = D} llvm order m)
      unfolding generate_llvm
      generate_llvm-IsOther m phis = verified-IsOther m (verify m) phis refl

module _ {D S V B : Type 0} (llvm : Llvm D S V B) (order : IdIteration) where
  -- Whatever the module and whatever LLVM does, the code generator finds every block that a
  -- terminator or the module names, the slot of every tensor, the type of a value that it returns,
  -- an end of every block, and the functions of the runtime where it calls them.
  pub generate_llvm-is_missing :
      (m : Module D) (e : LoweringError)
      → generate_llvm {D = D} llvm order m ≡ err e
      → is_missing false e ≡ false
  unfolding is_missing
  generate_llvm-is_missing m e =
      Post-err (generate_llvm-IsOther llvm false order m (λ h. absurd (cc h)))
