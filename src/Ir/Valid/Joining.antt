-- ===== src/Ir/Valid/Joining.antt =====
-- The block behind a conditional in src/ir/IRGenerator.cpp, and the jumps that lead to it.
use ocelotl_tensor.Base.{
  ℕ, suc, ◌<◌, ◌≤◌, ◌≡◌, ◌≢◌, inl, inr, refl, sym, ap, ◌∙◌, subst, Bool, true, false, ◌||◌, none,
  some, List, [], ◌∷◌, ◌++◌, arith, length, length-append, get_elem?, Bool-cases, Option-cases,
  ◌==◌, ltb,
}
use ocelotl_tensor.Ir.Module.{Terminator, BasicBlock, branch_op, cond_branch_op, return_op}
use ocelotl_tensor.Ir.Verifier.{has_id}
use ocelotl_tensor.Ir.Validity.{targets_of}
use ocelotl_tensor.Ir.Generator.{modify, with_terminator}
use ocelotl_tensor.Ir.Blocks.{length-modify, get_elem?-lt}
use ocelotl_tensor.Ir.Valid.{edge, Closed, AllFine}
use ocelotl_tensor.Ir.Valid.Steps.{
  get_elem?-modify, get_elem?-modify_ne, get_elem?-append, get_elem?-append_length, edge-of,
  edge-at, edge-open, edge-past,
}
use ocelotl_tensor.Ir.Valid.Rewiring.{Rewires, Rewires-refl, Rewires-append, Rewires-set}

module _ {D : Type 0} where
  targets-fresh :
      (bs : List (BasicBlock D)) (t : Terminator) (n : ℕ)
      → Closed bs t
      → length bs ≤ n
      → has_id n (targets_of (some t)) ≡ false
  unfolding Closed has_id targets_of
  targets-fresh bs (branch_op k) n c l = ground (arith, c, l)
  targets-fresh bs (cond_branch_op v k m) n (_, a, b) l = ground (arith, a, b, l)
  targets-fresh bs (return_op v) n c l = refl

  -- No block jumps to a block that is not there.
  edge-fresh :
      (bs : List (BasicBlock D)) (k n : ℕ) → AllFine bs → length bs ≤ n → edge bs k n ≡ false
  edge-fresh bs k n w l = elim (Bool-cases (ltb k (length bs))) [
    | inr past ↦ edge-past bs k n (ground (arith, past))
    | inl inside ↦
        let (b, here) = get_elem?-lt bs k (ground (arith, inside)) in
        elim (Option-cases b.terminator) [
          | inl open_ ↦ edge-open bs k n b here open_
          | inr (t, e) ↦
              edge-at bs k n b here
              ∙ (ap (λ x. has_id n (targets_of x)) e
                  ∙ targets-fresh bs t n ((w k b here).closed t e) l)
        ]
  ]

  -- The blocks with a new one at `n`, to which exactly those jump that pass the test.
  pub record Ending (n : ℕ) (bs cs : List (BasicBlock D)) (jumps : ℕ → Bool) : Type 0 where
    pub rewires : Rewires n bs cs
    pub count : length cs ≡ suc n
    pub new : BasicBlock D
    pub there : get_elem? cs n ≡ some new
    pub empty : new.operations ≡ []
    pub open_ : new.terminator ≡ none
    pub kept : (i : ℕ) → i < n → jumps i ≡ false → get_elem? cs i ≡ get_elem? bs i
    pub ended :
        (i : ℕ) (c : BasicBlock D) → jumps i ≡ true → get_elem? cs i ≡ some c → c.terminator ≢ none
    pub edges : (k : ℕ) → edge cs k n ≡ jumps k

  pub Ending-append :
      (bs : List (BasicBlock D)) (b : BasicBlock D)
      → AllFine bs
      → b.operations ≡ []
      → b.terminator ≡ none
      → Ending (length bs) bs (bs ++ b ∷ []) (λ k. false)
  Ending-append bs b w empty open_ = record {
    rewires = Rewires-append (length bs) bs bs b (omega arith) empty open_ (Rewires-refl bs);
    count = omega (arith, length-append bs (b ∷ []));
    new = b;
    there = get_elem?-append_length bs [] b;
    empty = empty;
    open_ = open_;
    kept = λ i l h. get_elem?-append bs (b ∷ []) i l;
    ended = λ i c h. cc h;
    edges = λ k. elim (Bool-cases (ltb k (length bs))) [
      | inl old ↦
          edge-of bs (bs ++ b ∷ []) k (length bs)
            (get_elem?-append bs (b ∷ []) k (ground (arith, old)))
          ∙ edge-fresh bs k (length bs) w (omega arith)
      | inr behind ↦ elim (Bool-cases (k == length bs)) [
        | inl same ↦
            let e : length bs ≡ k = ground (arith, same) in
            subst (λ x. edge (bs ++ b ∷ []) x (length bs) ≡ false) e
              (edge-open (bs ++ b ∷ []) (length bs) (length bs) b (get_elem?-append_length bs [] b)
                open_)
        | inr more ↦
            edge-past (bs ++ b ∷ []) k (length bs)
              (ground (arith, behind, more, length-append bs (b ∷ [])))
      ]
    ];
  }

  pub Ending-set :
      (n : ℕ) (bs cs : List (BasicBlock D)) (jumps : ℕ → Bool) (id : ℕ) (b : BasicBlock D)
      → id < n
      → jumps id ≡ false
      → get_elem? bs id ≡ some b
      → b.terminator ≡ none
      → Ending n bs cs jumps
      → Ending n bs (modify (with_terminator (branch_op n)) id cs) (λ k. (k == id) || jumps k)
  unfolding Closed has_id targets_of
  Ending-set n bs cs jumps id b l free here open_ e = record {
    rewires =
        Rewires-set n bs cs id b (branch_op n) at_id open_ (λ i below. ground (arith, below))
          (omega (arith, e.count)) e.rewires;
    count = length-modify f id cs ∙ e.count;
    new = e.new;
    there = get_elem?-modify_ne f id n cs (omega (arith, l)) ∙ e.there;
    empty = e.empty;
    open_ = e.open_;
    kept = λ i below h.
        get_elem?-modify_ne f id i cs (ground (arith, h)) ∙ e.kept i below (ground (arith, h));
    ended = λ i c h at. elim (Bool-cases (i == id)) [
      | inl same ↦
          let is : id ≡ i = ground (arith, same) in
          let is_c : f b ≡ c = cc (get_elem?-modify f id cs b at_id, at, is) in
          (λ x. cc (ap (λ y. y.terminator) is_c ∙ x))
      | inr other ↦
          e.ended i c (ground (arith, h, other))
            (sym (get_elem?-modify_ne f id i cs (ground (arith, other))) ∙ at)
    ];
    edges = λ k. elim (Bool-cases (k == id)) [
      | inl same ↦
          let is : id ≡ k = ground (arith, same) in
          let yes_ : edge (modify f id cs) id n ≡ true =
            edge-at (modify f id cs) id n (f b) (get_elem?-modify f id cs b at_id) ∙ ground arith in
          ground (arith, same, ap (λ x. edge (modify f id cs) x n) is, yes_)
      | inr other ↦
          edge-of cs (modify f id cs) k n (get_elem?-modify_ne f id k cs (ground (arith, other)))
          ∙ ground (arith, other, e.edges k)
    ];
  }
    where
      f : BasicBlock D → BasicBlock D
      f = with_terminator (branch_op n)

      at_id : get_elem? cs id ≡ some b
      at_id = e.kept id l free ∙ here
