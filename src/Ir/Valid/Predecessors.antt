-- ===== src/Ir/Valid/Predecessors.antt =====
-- The second loop of src/ir/IRVerifier.cpp: the predecessors that it finds are the blocks that jump
-- to a block.
use ocelotl_tensor.Base.{
  ℕ, suc, ◌+◌, ◌<◌, ◌≡◌, inl, inr, refl, ◌∙◌, subst, Bool, true, ◌&&◌, ◌||◌, Option, none, some,
  List, [], ◌∷◌, arith, get_elem?, Bool-cases, ◌==◌, ltb,
}
use ocelotl_tensor.Base.Results.{ok, Post, value, Post-bind, Post-map}
use ocelotl_tensor.Ir.Module.{Terminator, branch_op, cond_branch_op, return_op, BasicBlock}
use ocelotl_tensor.Ir.Verifier.{
  IdMap, has_id, insert_id, predecessors_of, insert_predecessor, require_block, add_edges,
  find_predecessors,
}
use ocelotl_tensor.Ir.Validity.{targets_of}
use ocelotl_tensor.Ir.Blocks.{PlacedFrom}
use ocelotl_tensor.Ir.Valid.Steps.{by_index}
use ocelotl_tensor.Ir.Valid.{edge}
use ocelotl_tensor.Ir.Valid.Collecting.{IsReturns}

has-insert : (k j : ℕ) (s : List ℕ) → has_id k (insert_id j s) ≡ has_id k s || (j == k)
unfolding insert_id has_id
has-insert k j s = elim (Bool-cases (has_id j s)) [
  | inl there ↦ elim (Bool-cases (j == k)) [
    | inl same ↦
        let e : j ≡ k = ground (arith, same) in
        let h : has_id k s ≡ true = subst (λ x. has_id x s ≡ true) e there in
        rw there (ground (arith, h))
    | inr other ↦ rw there (ground (arith, other))
  ]
  | inr new ↦ ground (arith, new)
]

-- `k` jumps to `t`, according to the map `p`.
unfoldable pub jumps : IdMap (List ℕ) → ℕ → ℕ → Bool
unfolding has_id predecessors_of
jumps p k t = has_id k (predecessors_of t p)

jumps-insert :
    (k t target block : ℕ) (p : IdMap (List ℕ))
    → jumps (insert_predecessor target block p) k t ≡ jumps p k t || ((target == t) && (block == k))
unfolding jumps insert_predecessor predecessors_of has_id
jumps-insert k t target block [] = ground arith
jumps-insert k t target block ((j, s) ∷ p) =
    ground (arith, jumps-insert k t target block p, has-insert k block s)

require_block-ok : (ids : List ℕ) (k : ℕ) → has_id k ids ≡ true → require_block ids k ≡ ok tt
require_block-ok ids k h = rw (require_block, h) refl

module _ (size : ℕ) (ids : List ℕ) (known : (k : ℕ) → has_id k ids ≡ ltb k size) where
  -- Every target is one of the blocks.
  abbrev pub Inside : Option Terminator → Type 0
  Inside none = Unit
  Inside (some (branch_op k)) = k < size
  Inside (some (cond_branch_op v k l)) = (k < size) × (l < size)
  Inside (some (return_op v)) = Unit

  add_edges-jumps :
      (id : ℕ) (t : Option Terminator) (p : IdMap (List ℕ))
      → Inside t
      → Post
          (λ q. (k i : ℕ) → jumps q k i ≡ jumps p k i || ((id == k) && has_id i (targets_of t)))
          IsReturns
          (add_edges ids id t p)
  unfolding add_edges targets_of has_id
  add_edges-jumps id none p h = value (λ k i. ground arith)
  add_edges-jumps id (some (return_op v)) p h = value (λ k i. ground arith)
  add_edges-jumps id (some (branch_op a)) p l =
      rw (require_block-ok ids a (ground (arith, known a, l)))
        (value (λ k i. ground (arith, jumps-insert k i a id p)))
  add_edges-jumps id (some (cond_branch_op v a b)) p (l, m) =
      rw
        (
          require_block-ok ids a (ground (arith, known a, l)),
          require_block-ok ids b (ground (arith, known b, m)),
        )
        (value (λ k i.
          ground
            (arith, jumps-insert k i b id (insert_predecessor a id p), jumps-insert k i a id p)))

  module _ {D : Type 0} where
    -- What the loop over the blocks from `i` on adds to the predecessors.
    pub record Adds (i : ℕ) (bs : List (BasicBlock D)) (p q : IdMap (List ℕ)) : Type 0 where
      pub old : (k t : ℕ) → k < i → jumps q k t ≡ jumps p k t
      pub new : (k t : ℕ) → jumps q (i + k) t ≡ jumps p (i + k) t || edge bs k t

    pub find_predecessors-Adds :
        (i : ℕ) (bs : List (BasicBlock D)) (p : IdMap (List ℕ))
        → PlacedFrom i bs
        → ((k : ℕ) (b : BasicBlock D) → get_elem? bs k ≡ some b → Inside b.terminator)
        → Post (Adds i bs p) IsReturns (find_predecessors ids bs p)
    unfolding find_predecessors PlacedFrom edge
    find_predecessors-Adds i [] p placed inside =
        value (record { old = λ k t l. refl; new = λ k t. ground arith })
    find_predecessors-Adds i (b ∷ bs) p (at, placed) inside =
        Post-bind (add_edges-jumps b.id b.terminator p (inside 0 b refl)) λ q h.
          Post-map
            (λ r a. record {
              old = λ k t l. a.old k t (omega (arith, l)) ∙ ground (arith, h k t, at, l);
              new =
                  by_index _
                    (λ t.
                      subst (λ n. jumps r n t ≡ jumps p n t || has_id t (targets_of b.terminator))
                        (omega arith) (a.old i t (omega arith) ∙ ground (arith, h i t, at)))
                    (λ k. λ t.
                      let step : jumps r (suc i + k) t ≡ jumps p (suc i + k) t || edge bs k t =
                        ground (arith, a.new k t, h (suc i + k) t, at) in
                      subst (λ n. jumps r n t ≡ jumps p n t || edge bs k t) (omega arith) step);
            })
            (find_predecessors-Adds (suc i) bs q placed (λ k. inside (suc k)))
