-- ===== src/Ir/Valid/Runs.antt =====
-- What a statement of src/ir/IRGenerator.cpp does to the blocks: it changes none but the current one,
-- and each block that it leaves open is the one that is current behind it.
use ocelotl_tensor.Base.{
  ℕ, ◌<◌, ◌≤◌, ◌≡◌, ◌≢◌, ◌⊎◌, inl, inr, refl, sym, ◌∙◌, subst, Option, none, some, List, arith,
  length, get_elem?, Bool-cases, ◌==◌,
}
use ocelotl_tensor.Base.Maps.{Map, Distinct}
use ocelotl_tensor.Ir.Module.{Terminator, BasicBlock, return_op}
use ocelotl_tensor.Ir.Verifier.{has_id}
use ocelotl_tensor.Ir.Validity.{targets_of}
use ocelotl_tensor.Ir.Generator.{ValueInfo, IrGenerator, modify, with_terminator, set_terminator}
use ocelotl_tensor.Ir.Blocks.{length-modify}
use ocelotl_tensor.Ir.Valid.{Closed, Extends, Extends-trans, Defined-Extends}
use ocelotl_tensor.Ir.Valid.Steps.{get_elem?-modify, get_elem?-modify_ne, lt-length}
use ocelotl_tensor.Ir.Valid.Rewiring.{
  set_terminator-Extends, Rewires-AllFine, Rewires-refl, Rewires-set,
}
use ocelotl_tensor.Ir.Valid.State.{Typed, Ready, Whole, Built}

module _ {D : Type 0} where
  pub record Returns (bs : List (BasicBlock D)) : Type 0 where
    pub index : ℕ
    pub block : BasicBlock D
    pub returned : ℕ
    pub there : get_elem? bs index ≡ some block
    pub ends : block.terminator ≡ some (return_op returned)

  pub record Runs (id : ℕ) (g h : IrGenerator D) : Type 0 where
    pub whole : Whole h
    pub extends : Extends (length g.ir.blocks) g.ir.blocks h.ir.blocks
    pub frame :
        (i : ℕ)
        → i ≢ id
        → i < length g.ir.blocks
        → get_elem? h.ir.blocks i ≡ get_elem? g.ir.blocks i
    pub current :
        (c : ℕ) → h.current_block_id ≡ some c → Ready c h × ((c ≡ id) ⊎ (length g.ir.blocks ≤ c))
    pub ended :
        (i : ℕ) (b : BasicBlock D)
        → get_elem? h.ir.blocks i ≡ some b
        → b.terminator ≡ none
        → (h.current_block_id ≡ some i) ⊎ ((i ≢ id) × (i < length g.ir.blocks))
    pub entry : h.ir.entry ≡ g.ir.entry
    pub returned : h.current_block_id ≡ none → Returns h.ir.blocks

  -- A second statement, in the block that the first one leaves current.
  pub Runs-trans :
      (id c : ℕ) (g h k : IrGenerator D)
      → Runs id g h
      → h.current_block_id ≡ some c
      → Runs c h k
      → Runs id g k
  Runs-trans id c g h k r at s =
      let (_, where_) = r.current c at in
      record {
        whole = s.whole;
        extends =
            Extends-trans (length g.ir.blocks) (length h.ir.blocks) g.ir.blocks h.ir.blocks
              k.ir.blocks r.extends.longer r.extends s.extends;
        frame = λ i ne l.
            s.frame i (ground (arith, where_, ne, l)) (omega (arith, l, r.extends.longer))
            ∙ r.frame i ne l;
        current = λ d e.
            let (ready, from) = s.current d e in
            (ready, ground (arith, from, where_, r.extends.longer));
        ended = λ i b there open_. elim (s.ended i b there open_) [
          | inl now ↦ inl now
          | inr (other, l) ↦ elim (r.ended i b (sym (s.frame i other l) ∙ there) open_) [
            | inl was ↦ absurd (other (cc (was, at)))
            | inr before ↦ inr before
          ]
        ];
        entry = s.entry ∙ r.entry;
        returned = s.returned;
      }

  pub Whole-with :
      (g : IrGenerator D) (current : Option ℕ) (m : Map ValueInfo)
      → Whole g
      → Typed g.ir.blocks m
      → Distinct m
      → Whole (record g { current_block_id = current; values = m })
  Whole-with g current m w t d = record {
    fine = w.fine;
    typed = t;
    counted = w.counted;
    distinct = d;
  }

  pub Ready-with :
      (id : ℕ) (g : IrGenerator D) (m : Map ValueInfo)
      → Ready id g
      → Ready id (record g { values = m })
  Ready-with id g m r = record {
    current = r.current;
    block = r.block;
    here = r.here;
    open_ = r.open_;
  }

  -- A statement that only emits, and then sets the values anew.
  pub Runs-Built :
      (id : ℕ) (g : IrGenerator D) (p : ValueInfo × IrGenerator D) (m : Map ValueInfo)
      → Built id g p
      → Typed p.1.ir.blocks m
      → Distinct m
      → Runs id g (record p.1 { values = m })
  Runs-Built id g p m b t d = record {
    whole = Whole-with p.1 p.1.current_block_id m b.whole t d;
    extends = b.extends (length g.ir.blocks);
    entry = b.entry;
    frame = λ i ne l. b.frame i ne;
    current = λ c e.
        let same : id ≡ c = cc (b.ready.current, e) in
        (
          subst (λ x. Ready x (record p.1 { values = m })) same (Ready-with id p.1 m b.ready),
          inl (sym same),
        );
    ended = λ i x there open_. elim (Bool-cases (i == id)) [
      | inl same ↦ inl (ground (arith, same, b.ready.current))
      | inr other ↦
          inr (ground (arith, other), omega (arith, lt-length p.1.ir.blocks i x there, b.count))
    ];
    returned = λ e. absurd (cc (b.ready.current, e));
  }

  -- A return.
  pub Runs-return :
      (id : ℕ) (g : IrGenerator D) (p : ValueInfo × IrGenerator D)
      → Built id g p
      → Runs id g (record (set_terminator p.1 id (return_op p.0.value)) { current_block_id = none })
  unfolding set_terminator Closed has_id targets_of
  Runs-return id g p b = record {
    whole = record {
      fine =
          Rewires-AllFine (length bs) bs cs
            (Rewires-set (length bs) bs bs id b.ready.block t b.ready.here b.ready.open_
              (λ i l. refl) (p.0.type, b.defined) (Rewires-refl bs))
            b.whole.fine;
      typed = λ k v h. Defined-Extends 0 bs cs v.value v.type (extends 0) (b.whole.typed k v h);
      counted = length-modify (with_terminator t) id bs ∙ b.whole.counted;
      distinct = b.whole.distinct;
    };
    extends =
        Extends-trans (length g.ir.blocks) (length g.ir.blocks) g.ir.blocks bs cs (omega arith)
          (b.extends (length g.ir.blocks)) (extends (length g.ir.blocks));
    frame =
        λ i ne l. get_elem?-modify_ne (with_terminator t) id i bs (λ e. ne (sym e)) ∙ b.frame i ne;
    current = λ c e. cc e;
    ended = λ i x there open_. elim (Bool-cases (i == id)) [
      | inl same ↦ let at : id ≡ i = ground (arith, same) in absurd (cc (now, there, at, open_))
      | inr other ↦ inr (
        ground (arith, other),
        omega (arith, lt-length cs i x there, length-modify (with_terminator t) id bs, b.count),
      )
    ];
    entry = b.entry;
    returned = λ e. record {
      index = id;
      block = with_terminator t b.ready.block;
      returned = p.0.value;
      there = now;
      ends = refl;
    };
  }
    where
      bs : List (BasicBlock D)
      bs = p.1.ir.blocks

      t : Terminator
      t = return_op p.0.value

      cs : List (BasicBlock D)
      cs = modify (with_terminator t) id bs

      extends : (n : ℕ) → Extends n bs cs
      extends n =
          set_terminator-Extends n bs id b.ready.block t b.ready.here b.ready.open_ (λ i l. refl)

      now : get_elem? cs id ≡ some (with_terminator t b.ready.block)
      now = get_elem?-modify (with_terminator t) id bs b.ready.block b.ready.here
