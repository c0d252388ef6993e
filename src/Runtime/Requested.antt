-- ===== src/Runtime/Requested.antt =====
-- The requests for storage of a whole module that src/codegen/llvm/LLVMCodeGenerator.cpp generates, and
-- that the runtime serves them.
use ocelotl_tensor.Base.{
  [], ◌^◌, ◌-◌, ◌≤◌, ◌≡◌, refl, sym, ◌∙◌, subst, Bool, true, false, List, ◌∷◌, append-nil,
  Option-cases, inl, inr,
}
use ocelotl_tensor.Base.Results.{ok, err, Post, value, error, Post-bind, Post-map, Post-ok}
use ocelotl_tensor.Ir.Module.{
  Operation, tensor_decl_op, constant_int_op, constant_float_op, binary_op, compare_op, phi_op,
  matmul_op, relu_op, Terminator, branch_op, cond_branch_op, return_op, BasicBlock, Module,
}
use ocelotl_tensor.Ir.Verifier.{IdMap, Verified, verify}
use ocelotl_tensor.Codegen.Llvm.{IdIteration}
use ocelotl_tensor.Codegen.Lowering.{
  create_blocks, create_slots, create_all_slots, Frame, at, no_value, no_block, all_value_types,
  find_return_type, require_i64, needs_runtime, lower_terminator, lower_blocks, insert_runtime,
  lower_module, generate_llvm,
}
use ocelotl_tensor.Runtime.{CLibrary}
use ocelotl_tensor.Runtime.Logs.{
  Log, requests, tensors_of, tensors_in, Requested, Grows, same, Grows-trans, any,
  release_all-Grows, lower_operations-Grows,
}

module _ {S P : Type 0} (c : CLibrary S P) (D : Type 0) (wide : c.size_max ≡ 2 ^ 64 - 1)
    (small : c.pointer_size ≤ 64) (ids : IdIteration) where
  lower_terminator-Grows :
      (frame : Frame {D = D} requests) (t : Terminator) (values : IdMap (Unit {0})) (log : Log)
      → Post (Grows c [] log) (λ _. Unit) (lower_terminator requests ids frame t values log)
  unfolding lower_terminator
  lower_terminator-Grows frame (branch_op k) values log =
      Post-bind (any (at (no_block k) k frame.blocks)) λ b _. value (same c log)
  lower_terminator-Grows frame (cond_branch_op v k l) values log =
      Post-bind (any (at (no_value v) v values)) λ w _.
        Post-bind (any (at (no_block k) k frame.blocks))
          λ b _. Post-bind (any (at (no_block l) l frame.blocks)) λ b2 _. value (same c log)
  lower_terminator-Grows frame (return_op v) values log =
      Post-bind (release_all-Grows c D frame.release (ids.arrange (Unit {0}) frame.slots) log)
        λ log1 h. Post-bind (any (at (no_value v) v values)) λ w _. value h

  lower_blocks-Grows :
      (frame : Frame {D = D} requests) (bs : List (BasicBlock D)) (values : IdMap (Unit {0}))
      (log : Log)
      → Post
          (Grows c (tensors_in bs) log)
          (λ _. Unit)
          (lower_blocks requests ids frame bs values log)
  unfolding lower_blocks
  lower_blocks-Grows frame [] values log = value (same c log)
  lower_blocks-Grows frame (b ∷ bs) values log =
      Post-bind (any (at (no_block b.id) b.id frame.blocks)) λ block _.
        Post-bind (lower_operations-Grows c D wide small frame b.operations values log) λ p h.
          elim (Option-cases b.terminator) [
            | inl open_ ↦ rw open_ (error tt)
            | inr (t, e) ↦ rw e (
                Post-bind (lower_terminator-Grows frame t p.0 p.1) λ log2 k.
                  Post-map
                    (λ log3 l.
                      Grows-trans c (tensors_of b.operations) (tensors_in bs) log log2 log3
                        (subst (λ ts. Grows c ts log log2) (append-nil (tensors_of b.operations))
                          (Grows-trans c (tensors_of b.operations) [] log p.1 log2 h k))
                        l)
                    (lower_blocks-Grows frame bs p.0 log2))
          ]

  -- Nothing is requested before the blocks.
  inserted : (r : Bool) (log : Log) → (insert_runtime {D = D} requests ids r log).1 ≡ log
  unfolding insert_runtime
  inserted true log = refl
  inserted false log = refl

  created :
      (bs : List (BasicBlock D)) (blocks : IdMap (Unit {0})) (log : Log)
      → (create_blocks requests bs blocks log).1 ≡ log
  unfolding create_blocks
  created [] blocks log = refl
  created (b ∷ bs) blocks log = created bs _ log

  slots_created :
      (os : List (Operation D)) (slots : IdMap (Unit {0})) (log : Log)
      → (create_slots requests os slots log).1 ≡ log
  unfolding create_slots
  slots_created [] slots log = refl
  slots_created (tensor_decl_op _ _ _ ∷ os) slots log = slots_created os _ log
  slots_created (constant_int_op _ _ _ ∷ os) slots log = slots_created os slots log
  slots_created (constant_float_op _ _ _ ∷ os) slots log = slots_created os slots log
  slots_created (binary_op _ _ _ _ _ ∷ os) slots log = slots_created os slots log
  slots_created (compare_op _ _ _ _ _ ∷ os) slots log = slots_created os slots log
  slots_created (phi_op _ _ _ ∷ os) slots log = slots_created os slots log
  slots_created (matmul_op _ _ _ _ ∷ os) slots log = slots_created os slots log
  slots_created (relu_op _ _ _ ∷ os) slots log = slots_created os slots log

  all_slots_created :
      (bs : List (BasicBlock D)) (slots : IdMap (Unit {0})) (log : Log)
      → (create_all_slots requests bs slots log).1 ≡ log
  unfolding create_all_slots
  all_slots_created [] slots log = refl
  all_slots_created (b ∷ bs) slots log =
      let made = create_slots requests b.operations slots log in
      all_slots_created bs made.0 made.1 ∙ slots_created b.operations slots log

  lower_module-Grows :
      (m : Module D)
      → Post (Grows c (tensors_in m.blocks) []) (λ _. Unit) (lower_module requests ids m)
  unfolding lower_module
  lower_module-Grows m =
      let functions = insert_runtime {D = D} requests ids (needs_runtime m.blocks) [] in
      let made = create_blocks requests m.blocks [] functions.1 in
      Post-bind (any (at (no_block m.entry) m.entry made.0)) λ entry _.
        let slots = create_all_slots requests m.blocks [] made.1 in
        let empty : slots.1 ≡ [] =
          all_slots_created m.blocks [] made.1
          ∙ created m.blocks [] functions.1
          ∙ inserted (needs_runtime m.blocks) [] in
        Post-bind
          (lower_blocks-Grows
            (record {
              allocate = functions.0.0;
              release = functions.0.1;
              blocks = made.0;
              slots = slots.0;
            })
            m.blocks [] slots.1)
          λ log h. value (subst (λ l. Grows c (tensors_in m.blocks) l log) empty h)

  generate_llvm-Grows :
      (m : Module D) (r : Verified Unit)
      → verify m ≡ r
      → Post (Grows c (tensors_in m.blocks) []) (λ _. Unit) (generate_llvm requests ids m)
  unfolding generate_llvm
  generate_llvm-Grows m (err e) h = rw (generate_llvm, h) (error tt)
  generate_llvm-Grows m (ok _) h =
      rw (generate_llvm, h)
        (Post-bind (any (find_return_type (all_value_types m.blocks []) m.blocks))
          λ type _. Post-bind (any (require_i64 type)) λ _ _. lower_module-Grows m)

-- Where a size has 64 bits and a pointer 64 bytes at most, the calls of ocelotl_rt_v1_alloc in a
-- module that the code generator builds are one for each tensor that is declared, in order, with
-- the exact size of its storage, and the runtime refuses the arguments of none: whatever the state
-- of the thread, it passes them to `posix_memalign`, and answers with the pointer if that gives 0,
-- and with no pointer and the message of the failure if not.
pub generate_llvm-Requested :
    {D S P : Type 0} (c : CLibrary S P) (ids : IdIteration) (m : Module D) (log : Log)
    → c.size_max ≡ 2 ^ 64 - 1
    → c.pointer_size ≤ 64
    → generate_llvm requests ids m ≡ ok log
    → Requested c (tensors_in m.blocks) log
generate_llvm-Requested {D = D} c ids m log wide small h =
    let (new, e, all) = Post-ok (generate_llvm-Grows c D wide small ids m (verify m) refl) h in
    subst (Requested c (tensors_in m.blocks)) (sym e) all
