-- ===== src/Runtime/Logs.antt =====
-- What an LLVM that writes down the calls of ocelotl_rt_v1_alloc has behind the operations of a block
-- that src/codegen/llvm/LLVMCodeGenerator.cpp lowers.
use ocelotl_tensor.Base.{
  [], ℕ, ◌^◌, ◌-◌, ◌≤◌, ◌≡◌, ◌⊎◌, refl, sym, ap, ◌∙◌, subst, Option, none, some, List, ◌∷◌, ◌++◌,
  append_assoc, append-nil, length, ltb, Bool-cases, Option-cases, inl, inr,
}
use ocelotl_tensor.Base.Results.{ok, err, Result, Post, value, error, Post-bind, Post-map}
use ocelotl_tensor.Frontend.Ast.{TensorType}
use ocelotl_tensor.Ir.Module.{
  PhiIncoming, Operation, tensor_decl_op, constant_int_op, constant_float_op, binary_op, compare_op,
  phi_op, matmul_op, relu_op, BasicBlock,
}
use ocelotl_tensor.Ir.Verifier.{IdMap}
use ocelotl_tensor.Codegen.Llvm.{Call, call_alloc, Llvm}
use ocelotl_tensor.Codegen.Storage.{tensor_storage_size}
use ocelotl_tensor.Codegen.Sizes.{HasStorage}
use ocelotl_tensor.Codegen.Lowering.{
  Frame, add_all_incoming, lower_type, at, no_value, no_predecessor, no_slot, lower_operation,
  lower_operations, release_all,
}
use ocelotl_tensor.Runtime.{CLibrary}
use ocelotl_tensor.Runtime.Requests.{IsServed, tensor_storage_size-IsServed}

-- A size and an alignment.
abbrev pub Log : Type 0
Log = List (ℕ × ℕ)

-- An LLVM that writes down the size and the alignment of each call of ocelotl_rt_v1_alloc that it
-- is given to build, and nothing else.
abbrev note : {D : Type 0} → Call D (Unit {0}) (Unit {0}) → Log → Unit {0} × Log
note (call_alloc _ size alignment _) log = (tt, log ++ (size, alignment) ∷ [])
note _ log = (tt, log)

abbrev pub requests : {D : Type 0} → Llvm D Log (Unit {0}) (Unit {0})
requests = record {
  main_function = [];
  create_block = λ name log. (tt, log);
  perform = note;
  verify_module = λ log. none;
}

-- The types of the tensors that operations declare, and those that blocks do.
abbrev pub tensors_of : {D : Type 0} → List (Operation D) → List TensorType
tensors_of [] = []
tensors_of (tensor_decl_op _ _ type ∷ os) = type ∷ tensors_of os
tensors_of (_ ∷ os) = tensors_of os

abbrev pub tensors_in : {D : Type 0} → List (BasicBlock D) → List TensorType
tensors_in [] = []
tensors_in (b ∷ bs) = tensors_of b.operations ++ tensors_in bs

tensors_of-cons :
    {D : Type 0} (o : Operation D) (os : List (Operation D))
    → tensors_of (o ∷ []) ++ tensors_of os ≡ tensors_of (o ∷ os)
tensors_of-cons (tensor_decl_op _ _ _) os = refl
tensors_of-cons (constant_int_op _ _ _) os = refl
tensors_of-cons (constant_float_op _ _ _) os = refl
tensors_of-cons (binary_op _ _ _ _ _) os = refl
tensors_of-cons (compare_op _ _ _ _ _) os = refl
tensors_of-cons (phi_op _ _ _) os = refl
tensors_of-cons (matmul_op _ _ _ _) os = refl
tensors_of-cons (relu_op _ _ _) os = refl

pub any : {E A : Type 0} (r : Result E A) → Post (λ _. Unit) (λ _. Unit) r
any (ok a) = value tt
any (err e) = error tt

Result-cases : {E A : Type 0} (r : Result E A) → ((a : A) × (r ≡ ok a)) ⊎ ((e : E) × (r ≡ err e))
Result-cases (ok a) = inl (a, refl)
Result-cases (err e) = inr (e, refl)

module _ {S P : Type 0} (c : CLibrary S P) where
  -- One request for each tensor, in order, of the size of its storage, which the runtime serves.
  pub data Requested : List TensorType → Log → Type 0 where
    no_requests : Requested [] []
    request :
        (t : TensorType) (size alignment : ℕ) {ts : List TensorType} {log : Log}
        → HasStorage t size
        → IsServed c size alignment
        → Requested ts log
        → Requested (t ∷ ts) ((size, alignment) ∷ log)

  Requested-append :
      {ts us : List TensorType} {log more : Log}
      → Requested ts log
      → Requested us more
      → Requested (ts ++ us) (log ++ more)
  Requested-append no_requests k = k
  Requested-append (request t n a s v h) k = request t n a s v (Requested-append h k)

  -- What is written down behind a log.
  abbrev pub Grows : List TensorType → Log → Log → Type 0
  Grows ts log log' = (new : Log) × (log' ≡ log ++ new) × Requested ts new

  pub same : (log : Log) → Grows [] log log
  same log = ([], sym (append-nil log), no_requests)

  pub Grows-trans :
      (ts us : List TensorType) (a b d : Log) → Grows ts a b → Grows us b d → Grows (ts ++ us) a d
  Grows-trans ts us a b d (new, e, h) (more, e', k) =
      (new ++ more, e' ∙ ap (λ x. x ++ more) e ∙ append_assoc a new more, Requested-append h k)

  module _ (D : Type 0) where
    add_all_incoming-Grows :
        (phi : Unit {0}) (incoming : List PhiIncoming) (blocks values : IdMap (Unit {0}))
        (log : Log)
        → Post
            (Grows [] log)
            (λ _. Unit)
            (add_all_incoming {D = D} requests phi incoming blocks values log)
    unfolding add_all_incoming
    add_all_incoming-Grows phi [] blocks values log = value (same log)
    add_all_incoming-Grows phi (i ∷ rest) blocks values log =
        Post-bind (any (at (no_value i.value) i.value values)) λ v _.
          Post-bind (any (at (no_predecessor i.predecessor) i.predecessor blocks))
            λ b _. add_all_incoming-Grows phi rest blocks values log

    pub release_all-Grows :
        (release : Option (Unit {0})) (slots : IdMap (Unit {0})) (log : Log)
        → Post (Grows [] log) (λ _. Unit) (release_all {D = D} requests release slots log)
    unfolding release_all
    release_all-Grows release [] log = value (same log)
    release_all-Grows none (_ ∷ slots) log = error tt
    release_all-Grows (some callee) (_ ∷ slots) log = release_all-Grows (some callee) slots log

    module _ (wide : c.size_max ≡ 2 ^ 64 - 1) (small : c.pointer_size ≤ 64) where
      lower_operation-Grows :
          (frame : Frame {D = D} requests) (o : Operation D) (values : IdMap (Unit {0})) (log : Log)
          → Post
              (λ p. Grows (tensors_of (o ∷ [])) log p.1)
              (λ _. Unit)
              (lower_operation requests frame o values log)
      unfolding lower_operation
      lower_operation-Grows frame (tensor_decl_op result name type) values log =
          elim (Option-cases frame.allocate) [
            | inl e ↦ rw e (error tt)
            | inr (allocate, e) ↦ elim (Result-cases (tensor_storage_size type)) [
              | inr (x, f) ↦ rw (e, lower_operation, f) (error tt)
              | inl (size, f) ↦
                  let (storage, served) = tensor_storage_size-IsServed c type size wide small f in
                  rw (e, lower_operation, f)
                    (Post-bind (any (at (no_slot result) result frame.slots)) λ slot _.
                      value
                        ((size, 64) ∷ [], refl, request type size 64 storage served no_requests))
            ]
          ]
      lower_operation-Grows frame (constant_int_op result n _) values log = value (same log)
      lower_operation-Grows frame (constant_float_op result d _) values log = value (same log)
      lower_operation-Grows frame (binary_op result kind lhs rhs type) values log =
          Post-bind (any (at (no_value lhs) lhs values))
            λ l _. Post-bind (any (at (no_value rhs) rhs values)) λ r _. value (same log)
      lower_operation-Grows frame (compare_op result kind lhs rhs operand_type) values log =
          Post-bind (any (at (no_value lhs) lhs values))
            λ l _. Post-bind (any (at (no_value rhs) rhs values)) λ r _. value (same log)
      lower_operation-Grows frame (phi_op result type incoming) values log =
          elim (Option-cases (lower_type type)) [
            | inl e ↦ rw (lower_operation, e) (error tt)
            | inr (t, e) ↦ elim (Bool-cases (ltb (2 ^ 32 - 1) (length incoming))) [
              | inl many ↦ rw (lower_operation, e, many) (error tt)
              | inr few ↦
                  rw (lower_operation, e, few)
                    (Post-bind (add_all_incoming-Grows tt incoming frame.blocks _ log)
                      λ s h. value h)
            ]
          ]
      lower_operation-Grows frame (matmul_op _ _ _ _) values log = error tt
      lower_operation-Grows frame (relu_op _ _ _) values log = error tt

      pub lower_operations-Grows :
          (frame : Frame {D = D} requests) (os : List (Operation D)) (values : IdMap (Unit {0}))
          (log : Log)
          → Post
              (λ p. Grows (tensors_of os) log p.1)
              (λ _. Unit)
              (lower_operations requests frame os values log)
      unfolding lower_operations
      lower_operations-Grows frame [] values log = value (same log)
      lower_operations-Grows frame (o ∷ os) values log =
          Post-bind (lower_operation-Grows frame o values log) λ p h.
            Post-map
              (λ q k.
                subst (λ ts. Grows ts log q.1) (tensors_of-cons o os)
                  (Grows-trans (tensors_of (o ∷ [])) (tensors_of os) log p.1 q.1 h k))
              (lower_operations-Grows frame os p.0 p.1)
