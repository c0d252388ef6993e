-- ===== src/Ir/Valid/Rewiring.antt =====
-- New blocks and new terminators in src/ir/IRGenerator.cpp: what keeps the list of blocks valid while
-- a conditional opens its branches and joins them.
use ocelotl_tensor.Base.{
  ℕ, ◌<◌, ◌≤◌, ◌≡◌, ◌⊎◌, inl, inr, refl, sym, ap, ◌∙◌, subst, false, none, some, List, [], ◌∷◌,
  ◌++◌, arith, length, length-append, get_elem?, ◌==◌, Bool-cases, ltb,
}
use ocelotl_tensor.Ir.Module.{Terminator, BasicBlock}
use ocelotl_tensor.Ir.Verifier.{has_id}
use ocelotl_tensor.Ir.Validity.{targets_of}
use ocelotl_tensor.Ir.Generator.{modify, with_terminator}
use ocelotl_tensor.Ir.Blocks.{length-modify}
use ocelotl_tensor.Ir.Valid.{
  edge, Closed, PhisFirst, AllFine, Extends, Extends-refl, Extends-trans, Fine-Extends,
  Closed-Extends,
}
use ocelotl_tensor.Ir.Valid.Steps.{
  get_elem?-modify, get_elem?-modify_ne, get_elem?-append, get_elem?-append_length, lt-length,
  Changes-DefinedAt, edge-of, edge-at, edge-open, edge-past,
}

module _ {D : Type 0} where
  append_block-Extends :
      (n : ℕ) (bs : List (BasicBlock D)) (b : BasicBlock D)
      → b.terminator ≡ none
      → Extends n bs (bs ++ b ∷ [])
  append_block-Extends n bs b open_ = record {
    defs = λ v i j t d. record {
      found = d.found;
      at_block = get_elem?-append bs (b ∷ []) i (lt-length bs i d.found d.at_block) ∙ d.at_block;
      operation = d.operation;
      at_index = d.at_index;
      result = d.result;
      type = d.type;
    };
    edges = λ k i l. elim (Bool-cases (ltb k (length bs))) [
      | inl old ↦
          edge-of bs (bs ++ b ∷ []) k i (get_elem?-append bs (b ∷ []) k (ground (arith, old)))
      | inr new ↦ elim (Bool-cases (k == length bs)) [
        | inl same ↦
            let e : length bs ≡ k = ground (arith, same) in
            subst (λ x. edge (bs ++ b ∷ []) x i ≡ edge bs x i) e
              (edge-open (bs ++ b ∷ []) (length bs) i b (get_elem?-append_length bs [] b) open_
                ∙ sym (edge-past bs (length bs) i (omega arith)))
        | inr more ↦
            edge-past (bs ++ b ∷ []) k i (ground (arith, new, more, length-append bs (b ∷ [])))
            ∙ sym (edge-past bs k i (ground (arith, new)))
      ]
    ];
    longer = omega (arith, length-append bs (b ∷ []));
  }

  pub set_terminator-Extends :
      (n : ℕ) (bs : List (BasicBlock D)) (id : ℕ) (b : BasicBlock D) (t : Terminator)
      → get_elem? bs id ≡ some b
      → b.terminator ≡ none
      → ((i : ℕ) → i < n → has_id i (targets_of (some t)) ≡ false)
      → Extends n bs (modify (with_terminator t) id bs)
  set_terminator-Extends n bs id b t here open_ fresh = record {
    defs = Changes-DefinedAt bs cs id b (with_terminator t b) (record {
      was = here;
      now = get_elem?-modify (with_terminator t) id bs b here;
      others = λ i ne l. get_elem?-modify_ne (with_terminator t) id i bs (λ e. ne (sym e));
      kept = λ j x h. h;
    });
    edges = λ k i l. elim (Bool-cases (id == k)) [
      | inl same ↦
          let e : id ≡ k = ground (arith, same) in
          subst (λ x. edge cs x i ≡ edge bs x i) e
            (edge-at cs id i (with_terminator t b)
                (get_elem?-modify (with_terminator t) id bs b here)
              ∙ fresh i l
              ∙ sym (edge-open bs id i b here open_))
      | inr other ↦
          edge-of bs cs k i
            (get_elem?-modify_ne (with_terminator t) id k bs (ground (arith, other)))
    ];
    longer = omega (arith, length-modify (with_terminator t) id bs);
  }
    where
      cs : List (BasicBlock D)
      cs = modify (with_terminator t) id bs

  -- The first `n` blocks, with more terminators, and behind them blocks without operations.
  pub record Rewires (n : ℕ) (bs cs : List (BasicBlock D)) : Type 0 where
    pub extends : Extends n bs cs
    pub old :
        (i : ℕ) (c : BasicBlock D)
        → i < n
        → get_elem? cs i ≡ some c
        → (b : BasicBlock D) × (get_elem? bs i ≡ some b)
          × (c.operations ≡ b.operations)
          × ((t : Terminator) → c.terminator ≡ some t → (b.terminator ≡ some t) ⊎ Closed cs t)
    pub new :
        (i : ℕ) (c : BasicBlock D)
        → n ≤ i
        → get_elem? cs i ≡ some c
        → (c.operations ≡ []) × ((t : Terminator) → c.terminator ≡ some t → Closed cs t)

  pub Rewires-AllFine :
      (n : ℕ) (bs cs : List (BasicBlock D)) → Rewires n bs cs → AllFine bs → AllFine cs
  unfolding PhisFirst
  Rewires-AllFine n bs cs r w i c h = elim (Bool-cases (ltb i n)) [
    | inl before ↦
        let l : i < n = ground (arith, before) in
        let (b, was, same, ends) = r.old i c l h in
        let f = w i b was in
        record {
          operations = λ j o at.
              Fine-Extends n bs cs i j o r.extends l
                (f.operations j o (ap (λ x. get_elem? x j) (sym same) ∙ at));
          phis = subst (PhisFirst false) (sym same) f.phis;
          closed = λ t e. elim (ends t e) [
            | inl b_ends ↦ Closed-Extends n bs cs t r.extends (f.closed t b_ends)
            | inr closed ↦ closed
          ];
        }
    | inr behind ↦
        let (empty, ends) = r.new i c (ground (arith, behind)) h in
        record {
          operations = λ j o at. absurd (cc (ap (λ x. get_elem? x j) (sym empty) ∙ at));
          phis = subst (PhisFirst false) (sym empty) tt;
          closed = ends;
        }
  ]

  pub Rewires-refl : (bs : List (BasicBlock D)) → Rewires (length bs) bs bs
  Rewires-refl bs = record {
    extends = Extends-refl (length bs) bs;
    old = λ i c l h. (c, h, refl, λ t e. inl e);
    new = λ i c l h. absurd (omega (arith, lt-length bs i c h));
  }

  pub Rewires-append :
      (n : ℕ) (bs cs : List (BasicBlock D)) (b : BasicBlock D)
      → n ≤ length cs
      → b.operations ≡ []
      → b.terminator ≡ none
      → Rewires n bs cs
      → Rewires n bs (cs ++ b ∷ [])
  Rewires-append n bs cs b le empty open_ r =
      let e = append_block-Extends n cs b open_ in
      record {
        extends = Extends-trans n n bs cs (cs ++ b ∷ []) (omega arith) r.extends e;
        old = λ i c l h.
            let was : get_elem? cs i ≡ some c =
              sym (get_elem?-append cs (b ∷ []) i (omega (arith, l, le))) ∙ h in
            let (x, at, same, ends) = r.old i c l was in
            (
              x,
              at,
              same,
              λ t d. elim (ends t d) [
                | inl o ↦ inl o
                | inr closed ↦ inr (Closed-Extends n cs (cs ++ b ∷ []) t e closed)
              ],
            );
        new = λ i c l h. elim (Bool-cases (ltb i (length cs))) [
          | inl before ↦
              let was : get_elem? cs i ≡ some c =
                sym (get_elem?-append cs (b ∷ []) i (ground (arith, before))) ∙ h in
              let (none_of, ends) = r.new i c l was in
              (none_of, λ t d. Closed-Extends n cs (cs ++ b ∷ []) t e (ends t d))
          | inr last ↦
              let at : i ≡ length cs =
                ground (arith, last, lt-length (cs ++ b ∷ []) i c h, length-append cs (b ∷ [])) in
              let is : b ≡ c = cc (get_elem?-append_length cs [] b, h, at) in
              (
                ap (λ x. x.operations) (sym is) ∙ empty,
                λ t d. absurd (cc (sym open_ ∙ (ap (λ x. x.terminator) is ∙ d))),
              )
        ];
      }

  pub Rewires-set :
      (n : ℕ) (bs cs : List (BasicBlock D)) (id : ℕ) (c : BasicBlock D) (t : Terminator)
      → get_elem? cs id ≡ some c
      → c.terminator ≡ none
      → ((i : ℕ) → i < n → has_id i (targets_of (some t)) ≡ false)
      → Closed cs t
      → Rewires n bs cs
      → Rewires n bs (modify (with_terminator t) id cs)
  Rewires-set n bs cs id c t here open_ fresh closed r = record {
    extends = Extends-trans n n bs cs ds (omega arith) r.extends e;
    old = λ i d l h. elim (Bool-cases (id == i)) [
      | inl same ↦
          let at : id ≡ i = ground (arith, same) in
          let is : with_terminator t c ≡ d = cc (now, h, at) in
          let (x, was, ops, _) = r.old i c l (ap (get_elem? cs) (sym at) ∙ here) in
          (
            x,
            was,
            ap (λ y. y.operations) (sym is) ∙ ops,
            λ u v. inr (subst (Closed ds) (cc (is, v)) (Closed-Extends n cs ds t e closed)),
          )
      | inr other ↦
          let was : get_elem? cs i ≡ some d =
            sym (get_elem?-modify_ne (with_terminator t) id i cs (ground (arith, other))) ∙ h in
          let (x, at, ops, ends) = r.old i d l was in
          (
            x,
            at,
            ops,
            λ u v. elim (ends u v) [ inl o ↦ inl o | inr f ↦ inr (Closed-Extends n cs ds u e f) ],
          )
    ];
    new = λ i d l h. elim (Bool-cases (id == i)) [
      | inl same ↦
          let at : id ≡ i = ground (arith, same) in
          let is : with_terminator t c ≡ d = cc (now, h, at) in
          let (ops, _) = r.new i c l (ap (get_elem? cs) (sym at) ∙ here) in
          (
            ap (λ y. y.operations) (sym is) ∙ ops,
            λ u v. subst (Closed ds) (cc (is, v)) (Closed-Extends n cs ds t e closed),
          )
      | inr other ↦
          let was : get_elem? cs i ≡ some d =
            sym (get_elem?-modify_ne (with_terminator t) id i cs (ground (arith, other))) ∙ h in
          let (ops, ends) = r.new i d l was in (ops, λ u v. Closed-Extends n cs ds u e (ends u v))
    ];
  }
    where
      ds : List (BasicBlock D)
      ds = modify (with_terminator t) id cs

      e : Extends n cs ds
      e = set_terminator-Extends n cs id c t here open_ fresh

      now : get_elem? ds id ≡ some (with_terminator t c)
      now = get_elem?-modify (with_terminator t) id cs c here
