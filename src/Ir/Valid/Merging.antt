-- ===== src/Ir/Valid/Merging.antt =====
-- The values behind a conditional in src/ir/IRGenerator.cpp: one phi for each name that the branches
-- leave with different values.
use ocelotl_tensor.Base.{
  ℕ, suc, ◌≡◌, ◌≢◌, inl, inr, refl, sym, ◌∙◌, subst, true, false, ◌||◌, List, [], ◌∷◌, ◌++◌, arith,
  length, get_elem?, Text, list_eq, list_eq_iff, list_eq_refl, Bool-cases, Option-cases, ◌==◌,
}
use ocelotl_tensor.Base.Maps.{
  Map, find, emplace, assign, find-emplace, find-assign, Distinct, emplace-Distinct,
}
use ocelotl_tensor.Base.Results.{Post, value, error, Post-bind, Post-map, Post-and, Post-weaken}
use ocelotl_tensor.Semantic.Analyzer.{same_type}
use ocelotl_tensor.Ir.Module.{PhiIncoming, Operation, phi_op, BasicBlock}
use ocelotl_tensor.Ir.Verifier.{is_phi}
use ocelotl_tensor.Ir.Generator.{ValueInfo, IrGenerator, with_operation, emit}
use ocelotl_tensor.Ir.Generator.ControlFlow.{merge_values}
use ocelotl_tensor.Ir.Valid.{
  Defined, Fine, edge, PhisFirst, Extends, Extends-refl, Extends-trans, Defined-Extends,
}
use ocelotl_tensor.Ir.Valid.Steps.{lt-length}
use ocelotl_tensor.Ir.Valid.State.{
  IsOwn, same_type→eq, Typed, Ready, Whole, Built, Operand-end, emit-Built, emit-There,
}
use ocelotl_tensor.Ir.Valid.Runs.{Runs, Whole-with}

abbrev incoming : ℕ → ℕ → ValueInfo → ValueInfo → List PhiIncoming
incoming then_end else_end v w =
    record { predecessor = then_end; value = v.value }
    ∷ record { predecessor = else_end; value = w.value }
    ∷ []

module _ {D : Type 0} where
  unfoldable pub AllPhi : List (Operation D) → Type 0
  AllPhi [] = Unit
  AllPhi (o ∷ os) = (is_phi o ≡ true) × AllPhi os

  AllPhi-append :
      (os : List (Operation D)) (o : Operation D)
      → is_phi o ≡ true
      → AllPhi os
      → AllPhi (os ++ o ∷ [])
  unfolding AllPhi
  AllPhi-append [] o e h = (e, tt)
  AllPhi-append (x ∷ os) o e (h, k) = (h, AllPhi-append os o e k)

  AllPhi-PhisFirst : (os : List (Operation D)) → AllPhi os → PhisFirst false os
  unfolding AllPhi PhisFirst
  AllPhi-PhisFirst [] h = tt
  AllPhi-PhisFirst (o ∷ os) (h, k) =
      (ground (arith, h), subst (λ b. PhisFirst b os) (ground (arith, h)) (AllPhi-PhisFirst os k))

  pub Typed-Extends :
      (n : ℕ) (bs cs : List (BasicBlock D)) (m : Map ValueInfo)
      → Extends n bs cs
      → Typed bs m
      → Typed cs m
  Typed-Extends n bs cs m e t k v h = Defined-Extends n bs cs v.value v.type e (t k v h)

  pub Typed-emplace :
      (bs : List (BasicBlock D)) (k : Text) (v : ValueInfo) (m : Map ValueInfo)
      → Defined bs v.value v.type
      → Typed bs m
      → Typed bs (emplace k v m)
  Typed-emplace bs k v m d t j w h = elim (Option-cases (find j m)) [
    | inr (u, old) ↦
        let e : u ≡ w = ground (arith, find-emplace j k v m, h, old) in
        subst (λ x. Defined bs x.value x.type) e (t j u old)
    | inl new ↦
        let e : v ≡ w = ground (arith, find-emplace j k v m, h, new) in
        subst (λ x. Defined bs x.value x.type) e d
  ]

  pub Typed-assign :
      (bs : List (BasicBlock D)) (k : Text) (v : ValueInfo) (m : Map ValueInfo)
      → Defined bs v.value v.type
      → Typed bs m
      → Typed bs (assign k v m)
  Typed-assign bs k v m d t j w h = elim (Bool-cases (list_eq k j)) [
    | inl same ↦
        let e : v ≡ w = ground (arith, find-assign j k v m, h, same) in
        subst (λ x. Defined bs x.value x.type) e d
    | inr other ↦ t j w (ground (arith, find-assign j k v m, h, other))
  ]

  -- Every entry stands for a value that is defined with the type that is kept for it.
  pub AllTyped : List (BasicBlock D) → Map ValueInfo → Type 0
  AllTyped bs [] = Unit
  AllTyped bs ((k, v) ∷ m) = Defined bs v.value v.type × AllTyped bs m

  pub AllTyped-Extends :
      (n : ℕ) (bs cs : List (BasicBlock D)) (m : Map ValueInfo)
      → Extends n bs cs
      → AllTyped bs m
      → AllTyped cs m
  unfolding AllTyped
  AllTyped-Extends n bs cs [] e h = tt
  AllTyped-Extends n bs cs ((k, v) ∷ m) e (h, r) =
      (Defined-Extends n bs cs v.value v.type e h, AllTyped-Extends n bs cs m e r)

  pub Typed-AllTyped :
      (bs : List (BasicBlock D)) (m : Map ValueInfo) → Distinct m → Typed bs m → AllTyped bs m
  unfolding AllTyped find
  Typed-AllTyped bs [] d t = tt
  Typed-AllTyped bs ((k, v) ∷ m) (fresh, d) t = (
    t k v (rw (find, list_eq_refl k) refl),
    Typed-AllTyped bs m d (λ j u h. t j u (ground (arith, list_eq_iff k j, h, fresh))),
  )

  -- What the phis leave behind in the block `id`.
  pub record Merged (id : ℕ) (g h : IrGenerator D) : Type 0 where
    pub whole : Whole h
    pub ready : Ready id h
    pub extends : (n : ℕ) → Extends n g.ir.blocks h.ir.blocks
    pub frame : (i : ℕ) → i ≢ id → get_elem? h.ir.blocks i ≡ get_elem? g.ir.blocks i
    pub count : length h.ir.blocks ≡ length g.ir.blocks
    pub entry : h.ir.entry ≡ g.ir.entry

  Merged-step :
      (id : ℕ) (g : IrGenerator D) (p : ValueInfo × IrGenerator D) (m : Map ValueInfo)
      (h : IrGenerator D)
      → Built id g p
      → Merged id (record p.1 { values = m }) h
      → Merged id g h
  Merged-step id g p m h b k = record {
    whole = k.whole;
    ready = k.ready;
    extends = λ n.
        Extends-trans n n g.ir.blocks p.1.ir.blocks h.ir.blocks (omega arith) (b.extends n)
          (k.extends n);
    frame = λ i ne. k.frame i ne ∙ b.frame i ne;
    count = k.count ∙ b.count;
    entry = k.entry ∙ b.entry;
  }

  pub Runs-Merged : (id : ℕ) (g h : IrGenerator D) → Merged id g h → Runs id g h
  Runs-Merged id g h k = record {
    whole = k.whole;
    extends = k.extends (length g.ir.blocks);
    entry = k.entry;
    frame = λ i ne l. k.frame i ne;
    current = λ c e.
        let same : id ≡ c = cc (k.ready.current, e) in
        (subst (λ x. Ready x h) same k.ready, inl (sym same));
    ended = λ i x there open_. elim (Bool-cases (i == id)) [
      | inl same ↦ inl (ground (arith, same, k.ready.current))
      | inr other ↦
          inr (ground (arith, other), omega (arith, lt-length h.ir.blocks i x there, k.count))
    ];
    returned = λ e. absurd (cc (k.ready.current, e));
  }

  module _ (then_end else_end id : ℕ) (es : Map ValueInfo) where
    -- The block `id` is reached from the ends of the two branches, and has nothing but phis.
    pub record Meets (g : IrGenerator D) : Type 0 where
      pub whole : Whole g
      pub ready : Ready id g
      pub phis : AllPhi ready.block.operations
      pub edges : (k : ℕ) → edge g.ir.blocks k id ≡ ((k == then_end) || (k == else_end))
      pub typed : Typed g.ir.blocks es

    phi-Post :
        (v w : ValueInfo) (name : Text) (g : IrGenerator D)
        → (then_end == else_end) ≡ false
        → Meets g
        → Defined g.ir.blocks v.value v.type
        → Defined g.ir.blocks w.value v.type
        → Post
            (λ u. Built id g u × Meets (record u.1 { values = emplace name u.0 u.1.values }))
            IsOwn
            (emit g (λ result. phi_op result v.type (incoming then_end else_end v w)) v.type)
    unfolding Fine
    phi-Post v w name g differ s first second =
        Post-weaken
          (λ u b.
            let (b, there) = b in
            (
              b,
              record {
                whole =
                    Whole-with u.1 u.1.current_block_id (emplace name u.0 u.1.values) b.whole
                      (Typed-emplace u.1.ir.blocks name u.0 u.1.values b.defined b.whole.typed)
                      (emplace-Distinct name u.0 u.1.values b.whole.distinct);
                ready = record {
                  current = b.ready.current;
                  block = with_operation o s.ready.block;
                  here = there;
                  open_ = s.ready.open_;
                };
                phis = AllPhi-append s.ready.block.operations o refl s.phis;
                edges = λ k. (b.extends (suc id)).edges k id (omega arith) ∙ s.edges k;
                typed = Typed-Extends 0 g.ir.blocks u.1.ir.blocks es (b.extends 0) s.typed;
              },
            ))
          (λ e q. q.0)
          (Post-and
            (emit-Built id g (λ result. phi_op result v.type (incoming then_end else_end v w))
              v.type (λ n. refl) (λ n. refl) s.whole s.ready
              (record {
                first = record { predecessor = then_end; value = v.value };
                second = record { predecessor = else_end; value = w.value };
                both = refl;
                differ = differ;
                first_value =
                    Operand-end g.ir.blocks id s.ready.block v.value v.type s.ready.here first;
                second_value =
                    Operand-end g.ir.blocks id s.ready.block w.value v.type s.ready.here second;
                edges = s.edges;
              })
              (AllPhi-PhisFirst (s.ready.block.operations ++ o ∷ [])
                (AllPhi-append s.ready.block.operations o refl s.phis)))
            (emit-There id g (λ result. phi_op result v.type (incoming then_end else_end v w))
              v.type s.ready))
      where
        o : Operation D
        o = phi_op g.next_value_id v.type (incoming then_end else_end v w)

    pub merge_values-Merged :
        (more : Map ValueInfo) (g : IrGenerator D)
        → (then_end == else_end) ≡ false
        → Meets g
        → AllTyped g.ir.blocks more
        → Post (Merged id g) IsOwn (merge_values then_end else_end es more g)
    unfolding merge_values AllTyped
    merge_values-Merged [] g differ s a = value (record {
      whole = s.whole;
      ready = s.ready;
      extends = λ n. Extends-refl n g.ir.blocks;
      frame = λ i ne. refl;
      count = refl;
      entry = refl;
    })
    merge_values-Merged ((name, v) ∷ more) g differ s (d, a) = elim (Option-cases (find name es)) [
      | inl missing ↦ rw (merge_values, missing) (merge_values-Merged more g differ s a)
      | inr (w, found) ↦ elim (Bool-cases (same_type v.type w.type)) [
        | inr differs ↦ rw (merge_values, found, differs) (error (λ x. cc))
        | inl same ↦ elim (Bool-cases (v.value == w.value)) [
          | inl one ↦
              rw (merge_values, found, same, one)
                (Post-map
                  (λ h k. record {
                    whole = k.whole;
                    ready = k.ready;
                    extends = k.extends;
                    frame = k.frame;
                    count = k.count;
                    entry = k.entry;
                  })
                  (merge_values-Merged more (record g { values = emplace name v g.values }) differ
                    (record {
                      whole =
                          Whole-with g g.current_block_id (emplace name v g.values) s.whole
                            (Typed-emplace g.ir.blocks name v g.values d s.whole.typed)
                            (emplace-Distinct name v g.values s.whole.distinct);
                      ready = record {
                        current = s.ready.current;
                        block = s.ready.block;
                        here = s.ready.here;
                        open_ = s.ready.open_;
                      };
                      phis = s.phis;
                      edges = s.edges;
                      typed = s.typed;
                    })
                    a))
          | inr two ↦
              rw (merge_values, found, same, two)
                (Post-bind
                  (phi-Post v w name g differ s d (
                    subst (Defined g.ir.blocks w.value) (sym (same_type→eq v.type w.type same))
                      (s.typed name w found)))
                  λ u b.
                    Post-map (λ h k. Merged-step id g u (emplace name u.0 u.1.values) h b.0 k)
                      (merge_values-Merged more
                        (record u.1 { values = emplace name u.0 u.1.values }) differ b.1
                        (AllTyped-Extends 0 g.ir.blocks u.1.ir.blocks more (b.0.extends 0) a)))
        ]
      ]
    ]
