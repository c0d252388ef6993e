-- ===== src/Ir/Valid/Checking.antt =====
-- The third loop of src/ir/IRVerifier.cpp: it finds nothing wrong with the operations of a valid list
-- of blocks, and nothing with the terminators but returns of different types.
use ocelotl_tensor.Base.{
  ℕ, suc, ◌+◌, ◌≡◌, inl, inr, refl, ap, ◌∙◌, subst, Bool, true, false, ◌&&◌, Option, none, some,
  List, [], ◌∷◌, arith, get_elem?, Bool-cases, ◌==◌, leb, all, list_eq_refl,
}
use ocelotl_tensor.Base.Maps.{is_some}
use ocelotl_tensor.Base.Results.{ok, Post, value, error, Post-bind, Post-map}
use ocelotl_tensor.Frontend.Ast.{TensorType}
use ocelotl_tensor.Semantic.Analyzer.{scalar, i1, same_type}
use ocelotl_tensor.Ir.Module.{
  PhiIncoming, Operation, tensor_decl_op, constant_int_op, constant_float_op, binary_op, compare_op,
  phi_op, matmul_op, relu_op, Terminator, branch_op, cond_branch_op, return_op, BasicBlock,
}
use ocelotl_tensor.Ir.Verifier.{
  Definition, IdMap, find_id, has_id, same_ids, predecessors_of, require_value, require_operand,
  check_incoming, check_operation, check_operations, check_terminator, check_blocks,
}
use ocelotl_tensor.Ir.Blocks.{PlacedFrom}
use ocelotl_tensor.Ir.Valid.{DefinedAt, Operand, Merges, Fine, Closed, BlockFine, edge}
use ocelotl_tensor.Ir.Valid.Steps.{by_index}
use ocelotl_tensor.Ir.Valid.Collecting.{IsReturns}
use ocelotl_tensor.Ir.Valid.Predecessors.{jumps}

same_type_refl : (t : TensorType) → same_type t t ≡ true
unfolding same_type
same_type_refl t = ground (arith, list_eq_refl t.element_type, list_eq_refl t.shape)

all-of : (f : ℕ → Bool) (s : List ℕ) → ((k : ℕ) → has_id k s ≡ true → f k ≡ true) → all f s ≡ true
unfolding has_id
all-of f [] h = refl
all-of f (j ∷ s) h = ground (arith, h j (ground arith), all-of f s (λ k i. h k (ground (arith, i))))

module _ {D : Type 0} (bs : List (BasicBlock D)) (ds : IdMap Definition) (p : IdMap (List ℕ))
    (found : (v i j : ℕ) (t : TensorType)
      → DefinedAt bs v i j t
      → find_id v ds ≡ some (record { block = i; operation_index = j; type = t }))
    (reached : (k i : ℕ) → jumps p k i ≡ edge bs k i) where
  require_value-found :
      (v i j : ℕ) (t : TensorType)
      → DefinedAt bs v i j t
      → require_value ds v ≡ ok (record { block = i; operation_index = j; type = t })
  unfolding require_value
  require_value-found v i j t d = rw (require_value, found v i j t d) refl

  require_operand-ok :
      (block index v : ℕ) (t : TensorType)
      → Operand bs block index v t
      → require_operand ds v t block index ≡ ok tt
  unfolding require_operand
  require_operand-ok block index v t o =
      let early : ((o.in_block == block) && leb index o.in_index) ≡ false =
        elim (Bool-cases (o.in_block == block)) [
          | inl same ↦ ground (arith, o.before (ground (arith, same)))
          | inr other ↦ ground (arith, other)
        ] in
      rw
        (
          require_operand,
          require_value-found v o.in_block o.in_index t o.defined,
          same_type_refl t,
          early,
        )
        refl

  check_incoming-ok :
      (block index : ℕ) (t : TensorType) (incoming : List PhiIncoming)
      → (m : Merges bs block index t incoming)
      → check_incoming ds t block index incoming []
        ≡ ok (m.second.predecessor ∷ m.first.predecessor ∷ [])
  unfolding check_incoming has_id
  check_incoming-ok block index t incoming m =
      rw
        (
          m.both,
          require_operand-ok block index m.first.value t m.first_value,
          require_operand-ok block index m.second.value t m.second_value,
          m.differ,
        )
        refl

  incoming-same :
      (block index : ℕ) (t : TensorType) (incoming : List PhiIncoming)
      → (m : Merges bs block index t incoming)
      → same_ids (m.second.predecessor ∷ m.first.predecessor ∷ []) (predecessors_of block p) ≡ true
  unfolding same_ids has_id jumps
  incoming-same block index t incoming m =
      let both = m.second.predecessor ∷ m.first.predecessor ∷ [] in
      let from : all (λ k. has_id k both) (predecessors_of block p) ≡ true =
        all-of (λ k. has_id k both) (predecessors_of block p)
          (λ k h. ground (arith, h, reached k block, m.edges k)) in
      ground (
        arith,
        from,
        reached m.first.predecessor block,
        m.edges m.first.predecessor,
        reached m.second.predecessor block,
        m.edges m.second.predecessor,
      )

  check_operation-ok :
      (b : BasicBlock D) (block index : ℕ) (o : Operation D)
      → b.id ≡ block
      → Fine bs block index o
      → check_operation ds p b index o ≡ ok tt
  unfolding check_operation Fine
  check_operation-ok b block index (tensor_decl_op _ _ _) at f = refl
  check_operation-ok b block index (constant_int_op _ _ _) at f = refl
  check_operation-ok b block index (constant_float_op _ _ _) at f = refl
  check_operation-ok b block index (binary_op _ _ l r t) at (f, g) =
      rw (at, require_operand-ok block index l t f, require_operand-ok block index r t g) refl
  check_operation-ok b block index (compare_op _ _ l r t) at (f, g) =
      rw (at, require_operand-ok block index l t f, require_operand-ok block index r t g) refl
  check_operation-ok b block index (phi_op _ t incoming) at m =
      rw (at, check_incoming-ok block index t incoming m, incoming-same block index t incoming m)
        refl
  check_operation-ok b block index (matmul_op _ l r _) at ((t, f), (u, g)) =
      rw
        (
          require_value-found l f.in_block f.in_index t f.defined,
          require_value-found r g.in_block g.in_index u g.defined,
        )
        refl
  check_operation-ok b block index (relu_op _ v _) at (t, f) =
      rw (require_value-found v f.in_block f.in_index t f.defined) refl

  check_operations-ok :
      (b : BasicBlock D) (block index : ℕ) (os : List (Operation D))
      → b.id ≡ block
      → ((j : ℕ) (o : Operation D) → get_elem? os j ≡ some o → Fine bs block (index + j) o)
      → check_operations ds p b index os ≡ ok tt
  unfolding check_operations
  check_operations-ok b block index [] at f = refl
  check_operations-ok b block index (o ∷ os) at f =
      rw
        (check_operation-ok b block index o at (
          subst (λ n. Fine bs block n o) (let e : index + 0 ≡ index = omega arith in e)
            (f 0 o refl)))
        (check_operations-ok b block (suc index) os at (λ j x h.
          subst (λ n. Fine bs block n x) (let e : index + suc j ≡ suc index + j = omega arith in e)
            (f (suc j) x h)))

  -- What is known of the type of the returns behind a terminator.
  abbrev Keeps : Option Terminator → Option TensorType → Option TensorType → Type 0
  Keeps t before after =
      (is_some before ≡ true → is_some after ≡ true)
      × ((v : ℕ) → t ≡ some (return_op v) → is_some after ≡ true)

  check_terminator-Keeps :
      (t : Option Terminator) (before : Option TensorType)
      → ((u : Terminator) → t ≡ some u → Closed bs u)
      → Post (Keeps t before) IsReturns (check_terminator ds t before)
  unfolding check_terminator Closed
  check_terminator-Keeps none before c = value (λ h. h, λ v e. cc e)
  check_terminator-Keeps (some (branch_op k)) before c = value (λ h. h, λ v e. cc e)
  check_terminator-Keeps (some (cond_branch_op v k l)) before c =
      let (d, _, _) = c (cond_branch_op v k l) refl in
      rw
        (
          require_value-found v d.in_block d.in_index (scalar i1) d.defined,
          same_type_refl (scalar i1),
        )
        (value (λ h. h, λ u e. cc e))
  check_terminator-Keeps (some (return_op v)) none c =
      let (t, d) = c (return_op v) refl in
      rw (require_value-found v d.in_block d.in_index t d.defined) (value (λ h. refl, λ u e. refl))
  check_terminator-Keeps (some (return_op v)) (some type) c =
      let (t, d) = c (return_op v) refl in
      elim (Bool-cases (same_type type t)) [
        | inl same ↦
            rw (require_value-found v d.in_block d.in_index t d.defined, same)
              (value (λ h. refl, λ u e. refl))
        | inr other ↦
            rw (require_value-found v d.in_block d.in_index t d.defined, other) (error refl)
      ]

  pub record Checks (i : ℕ) (cs : List (BasicBlock D)) (before after : Option TensorType)
      : Type 0 where
    pub kept : is_some before ≡ true → is_some after ≡ true
    pub returned :
        (k v : ℕ) (b : BasicBlock D)
        → get_elem? cs k ≡ some b
        → b.terminator ≡ some (return_op v)
        → is_some after ≡ true

  pub check_blocks-Checks :
      (i : ℕ) (cs : List (BasicBlock D)) (before : Option TensorType)
      → PlacedFrom i cs
      → ((k : ℕ) (b : BasicBlock D) → get_elem? cs k ≡ some b → BlockFine bs (i + k) b)
      → Post (Checks i cs before) IsReturns (check_blocks ds p cs before)
  unfolding check_blocks PlacedFrom
  check_blocks-Checks i [] before placed f =
      value (record { kept = λ h. h; returned = λ k v b h. cc h })
  check_blocks-Checks i (b ∷ cs) before (at, placed) f =
      let fine : BlockFine bs i b =
        subst (λ n. BlockFine bs n b) (let e : i + 0 ≡ i = omega arith in e) (f 0 b refl) in
      rw
        (check_operations-ok b i 0 b.operations at (λ j o h.
          subst (λ n. Fine bs i n o) (let e : j ≡ 0 + j = omega arith in e)
            (fine.operations j o h)))
        (Post-bind (check_terminator-Keeps b.terminator before fine.closed) λ after k.
          Post-map
            (λ last c. record {
              kept = λ h. c.kept (k.0 h);
              returned =
                  by_index _
                    (λ v x h ends.
                      let same : b ≡ x = cc h in
                      c.kept (k.1 v (ap (λ y. y.terminator) same ∙ ends)))
                    (λ j v x h ends. c.returned j v x h ends);
            })
            (check_blocks-Checks (suc i) cs after placed (λ j x h.
              subst (λ n. BlockFine bs n x) (let e : i + suc j ≡ suc i + j = omega arith in e)
                (f (suc j) x h))))
