-- ===== src/Ir/Valid/Accepting.antt =====
-- src/ir/IRVerifier.cpp on a valid module: it finds no fault but returns of different types.
use ocelotl_tensor.Base.{
  ℕ, ◌+◌, ◌<◌, ◌≤◌, ◌≡◌, ◌≢◌, refl, ap, ◌∙◌, subst, true, Option, none, some, List, [], ◌∷◌, arith,
  length, get_elem?, if◌then◌else◌, ltb,
}
use ocelotl_tensor.Base.Maps.{is_some}
use ocelotl_tensor.Base.Results.{ok, err, Post, value, Post-bind}
use ocelotl_tensor.Frontend.Ast.{TensorType}
use ocelotl_tensor.Ir.Module.{Terminator, branch_op, cond_branch_op, return_op, BasicBlock, Module}
use ocelotl_tensor.Ir.Verifier.{
  IrVerificationError, no_basic_blocks, no_return, Verified, Definition, IdMap, find_id, has_id,
  predecessors_of, verify_graph, verify,
}
use ocelotl_tensor.Ir.Blocks.{definitions_of, PlacedFrom}
use ocelotl_tensor.Ir.Valid.{DefinedAt, Closed, AllFine, BlockFine, edge}
use ocelotl_tensor.Ir.Valid.Runs.{Returns}
use ocelotl_tensor.Ir.Valid.Collecting.{IsReturns, Collects, define_blocks-Collects}
use ocelotl_tensor.Ir.Valid.Predecessors.{jumps, Inside, find_predecessors-Adds}
use ocelotl_tensor.Ir.Valid.Checking.{check_blocks-Checks}

nonempty-Post :
    {A : Type 0} {P : Unit {0} → Type 0} {Q : IrVerificationError → Type 0} (xs : List A)
    {r : Verified Unit}
    → 0 < length xs
    → Post P Q r
    → Post P Q (elim xs [ [] ↦ err no_basic_blocks | _ ∷ _ ↦ r ])
nonempty-Post [] l h = absurd (omega (arith, l))
nonempty-Post (_ ∷ _) l h = h

required-Post :
    (r : Option TensorType)
    → is_some r ≡ true
    → Post {0} (λ _. Unit) IsReturns (if is_some r then ok tt else err no_return)
required-Post r h = rw h (value tt)

module _ {D : Type 0} where
  -- A module as the verifier demands it, but for the types of its returns.
  pub record IsValid (m : Module D) : Type 0 where
    pub fine : AllFine m.blocks
    pub placed : PlacedFrom 0 m.blocks
    pub single : (v : ℕ) → definitions_of v m.blocks ≤ 1
    pub ended : (k : ℕ) (b : BasicBlock D) → get_elem? m.blocks k ≡ some b → b.terminator ≢ none
    pub entry : m.entry < length m.blocks
    pub returned : Returns m.blocks

  Inside-Closed :
      (bs : List (BasicBlock D)) (ids : List ℕ) (known : (k : ℕ) → has_id k ids ≡ ltb k (length bs))
      (t : Option Terminator)
      → ((u : Terminator) → t ≡ some u → Closed bs u)
      → Inside (length bs) ids known t
  unfolding Closed
  Inside-Closed bs ids known none c = tt
  Inside-Closed bs ids known (some (branch_op k)) c = c (branch_op k) refl
  Inside-Closed bs ids known (some (cond_branch_op v k l)) c =
      let (_, a, b) = c (cond_branch_op v k l) refl in (a, b)
  Inside-Closed bs ids known (some (return_op v)) c = tt

  module _ (m : Module D) (s : IsValid m) where
    verify_graph-Accepts :
        (p : List ℕ × IdMap Definition)
        → Collects 0 m.blocks [] p
        → Post (λ _. Unit) IsReturns (verify_graph m p.0 p.1)
    unfolding verify_graph jumps predecessors_of has_id
    verify_graph-Accepts p c =
        let known : (k : ℕ) → has_id k p.0 ≡ ltb k (length m.blocks) =
          λ k. c.ids k ∙ ap (ltb k) (omega arith) in
        let here : has_id m.entry p.0 ≡ true = ground (arith, known m.entry, s.entry) in
        rw (verify_graph, here)
          (Post-bind
            (find_predecessors-Adds (length m.blocks) p.0 known 0 m.blocks [] s.placed
              (λ k b at. Inside-Closed m.blocks p.0 known b.terminator (s.fine k b at).closed))
            λ q a.
              Post-bind
                (check_blocks-Checks m.blocks p.1 q found
                  (λ k i.
                    let z : 0 + k ≡ k = omega arith in
                    subst (λ n. jumps q n i ≡ edge m.blocks k i) z (a.new k i))
                  0 m.blocks none s.placed
                  (λ k b at.
                    let z : k ≡ 0 + k = omega arith in
                    subst (λ n. BlockFine m.blocks n b) z (s.fine k b at)))
                λ r checks. required-Post r (
                  checks.returned s.returned.index s.returned.returned s.returned.block
                    s.returned.there s.returned.ends))
      where
        found :
            (v i j : ℕ) (t : TensorType)
            → DefinedAt m.blocks v i j t
            → find_id v p.1 ≡ some (record { block = i; operation_index = j; type = t })
        found v i j t d =
            let z : 0 + i ≡ i = omega arith in
            cc (c.found i j d.found d.operation d.at_block d.at_index, d.result, d.type, z)

    -- The verifier lets a valid module through, unless its returns have different types.
    pub verify-Accepts : Post (λ _. Unit) IsReturns (verify m)
    unfolding verify has_id find_id
    verify-Accepts = nonempty-Post m.blocks (omega (arith, s.entry)) (
        Post-bind
          (define_blocks-Collects 0 m.blocks [] [] s.placed (λ k b at. (s.fine k b at).phis) s.ended
            (λ k. ground arith) (λ v. omega (arith, s.single v)))
          λ p c. verify_graph-Accepts p c)
