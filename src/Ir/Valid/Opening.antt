-- ===== src/Ir/Valid/Opening.antt =====
-- The branches of a conditional in src/ir/IRGenerator.cpp: their two blocks, and the jump to them.
use ocelotl_tensor.Base.{
  ℕ, suc, ◌<◌, ◌≡◌, ◌≢◌, inl, inr, refl, sym, ap, ◌∙◌, subst, true, ◌&&◌, none, some, List, [], ◌∷◌,
  ◌++◌, arith, length, length-append, get_elem?, bytes_of, list_eq, list_eq→eq, Bool-cases,
}
use ocelotl_tensor.Base.Results.{Post, value, error}
use ocelotl_tensor.Frontend.Ast.{TensorType}
use ocelotl_tensor.Semantic.Analyzer.{scalar, i1, is_scalar}
use ocelotl_tensor.Ir.Module.{Terminator, BasicBlock, cond_branch_op}
use ocelotl_tensor.Ir.Verifier.{has_id}
use ocelotl_tensor.Ir.Validity.{targets_of}
use ocelotl_tensor.Ir.Generator.{
  ValueInfo, IrGenerator, modify, with_terminator, create_block, set_terminator,
}
use ocelotl_tensor.Ir.Generator.ControlFlow.{open_branches}
use ocelotl_tensor.Ir.Blocks.{length-modify}
use ocelotl_tensor.Ir.Branches.{opened_blocks}
use ocelotl_tensor.Ir.Valid.{Defined, Closed, Extends, Defined-Extends}
use ocelotl_tensor.Ir.Valid.Steps.{
  get_elem?-modify, get_elem?-modify_ne, get_elem?-append, get_elem?-append_length, lt-length,
}
use ocelotl_tensor.Ir.Valid.Rewiring.{
  Rewires, Rewires-AllFine, Rewires-refl, Rewires-append, Rewires-set,
}
use ocelotl_tensor.Ir.Valid.State.{IsOwn, Ready, Whole}

is_scalar→eq : (t : TensorType) → list_eq t.element_type i1 && is_scalar t ≡ true → t ≡ scalar i1
is_scalar→eq t h =
    let e : t.element_type ≡ i1 = list_eq→eq t.element_type i1 (ground (arith, h)) in
    let s : t.shape ≡ [] = ground (arith, h) in cc (e, s)

module _ {D : Type 0} where
  -- The generator in the first branch, and the block of the second.
  pub record Opens (id : ℕ) (g : IrGenerator D) (o : IrGenerator D × ℕ) : Type 0 where
    pub whole : Whole o.0
    pub first : Ready (length g.ir.blocks) o.0
    pub extends : Extends (length g.ir.blocks) g.ir.blocks o.0.ir.blocks
    pub frame :
        (i : ℕ)
        → i ≢ id
        → i < length g.ir.blocks
        → get_elem? o.0.ir.blocks i ≡ get_elem? g.ir.blocks i
    pub closed : (b : BasicBlock D) → get_elem? o.0.ir.blocks id ≡ some b → b.terminator ≢ none
    pub second : o.1 ≡ suc (length g.ir.blocks)
    pub second_block : BasicBlock D
    pub second_there : get_elem? o.0.ir.blocks (suc (length g.ir.blocks)) ≡ some second_block
    pub second_open : second_block.terminator ≡ none
    pub count : length o.0.ir.blocks ≡ suc (suc (length g.ir.blocks))
    pub values : o.0.values ≡ g.values
    pub entry : o.0.ir.entry ≡ g.ir.entry

  opened_blocks-Opens :
      (v : ValueInfo) (id : ℕ) (g : IrGenerator D)
      → Whole g
      → Ready id g
      → Defined g.ir.blocks v.value (scalar i1)
      → Opens id g (opened_blocks v id g)
  unfolding opened_blocks create_block set_terminator Closed has_id targets_of
  opened_blocks-Opens v id g w r d = record {
    whole = record {
      fine = Rewires-AllFine (length bs) bs ds rewires w.fine;
      typed =
          λ k u h. Defined-Extends (length bs) bs ds u.value u.type rewires.extends (w.typed k u h);
      counted = omega (arith, total, w.counted);
      distinct = w.distinct;
    };
    first = record {
      current = ap some (sym w.counted);
      block = first_block;
      here =
          get_elem?-modify_ne (with_terminator t) id (length bs) cs (omega (arith, inside))
          ∙ (get_elem?-append (bs ++ first_block ∷ []) (second_block_ ∷ []) (length bs)
                (omega (arith, length-append bs (first_block ∷ [])))
              ∙ get_elem?-append_length bs [] first_block);
      open_ = refl;
    };
    extends = rewires.extends;
    frame = λ i ne l. get_elem?-modify_ne (with_terminator t) id i cs (λ e. ne (sym e)) ∙ below i l;
    closed = λ b h e. cc (get_elem?-modify (with_terminator t) id cs r.block at_id, h, e);
    second = ap suc (sym w.counted);
    second_block = second_block_;
    second_there =
        get_elem?-modify_ne (with_terminator t) id (suc (length bs)) cs (omega (arith, inside))
        ∙ subst (λ n. get_elem? cs n ≡ some second_block_)
            (omega (arith, length-append bs (first_block ∷ [])))
            (get_elem?-append_length (bs ++ first_block ∷ []) [] second_block_);
    second_open = refl;
    count = total;
    values = refl;
    entry = refl;
  }
    where
      bs : List (BasicBlock D)
      bs = g.ir.blocks

      first_block : BasicBlock D
      first_block = record {
        id = g.next_block_id;
        name = bytes_of "if.then";
        operations = [];
        terminator = none;
      }

      second_block_ : BasicBlock D
      second_block_ = record {
        id = suc g.next_block_id;
        name = bytes_of "if.else";
        operations = [];
        terminator = none;
      }

      cs : List (BasicBlock D)
      cs = (bs ++ first_block ∷ []) ++ second_block_ ∷ []

      t : Terminator
      t = cond_branch_op v.value g.next_block_id (suc g.next_block_id)

      ds : List (BasicBlock D)
      ds = modify (with_terminator t) id cs

      inside : id < length bs
      inside = lt-length bs id r.block r.here

      below : (i : ℕ) → i < length bs → get_elem? cs i ≡ get_elem? bs i
      below i l =
          get_elem?-append (bs ++ first_block ∷ []) (second_block_ ∷ []) i
            (omega (arith, l, length-append bs (first_block ∷ [])))
          ∙ get_elem?-append bs (first_block ∷ []) i l

      at_id : get_elem? cs id ≡ some r.block
      at_id = below id inside ∙ r.here

      size : length cs ≡ suc (suc (length bs))
      size = omega (
        arith,
        length-append (bs ++ first_block ∷ []) (second_block_ ∷ []),
        length-append bs (first_block ∷ []),
      )

      total : length ds ≡ suc (suc (length bs))
      total = length-modify (with_terminator t) id cs ∙ size

      appended : Rewires (length bs) bs cs
      appended =
          Rewires-append (length bs) bs (bs ++ first_block ∷ []) second_block_
            (omega (arith, length-append bs (first_block ∷ []))) refl refl
            (Rewires-append (length bs) bs bs first_block (omega arith) refl refl (Rewires-refl bs))

      rewires : Rewires (length bs) bs ds
      rewires =
          Rewires-set (length bs) bs cs id r.block t at_id r.open_
            (λ i l. ground (arith, l, w.counted))
            (
              Defined-Extends (length bs) bs cs v.value (scalar i1) appended.extends d,
              omega (arith, size, w.counted),
              omega (arith, size, w.counted),
            )
            appended

  pub open_branches-Opens :
      (v : ValueInfo) (id : ℕ) (g : IrGenerator D)
      → Whole g
      → Ready id g
      → Defined g.ir.blocks v.value v.type
      → Post (Opens id g) IsOwn (open_branches v g)
  unfolding open_branches opened_blocks
  open_branches-Opens v id g w r d =
      elim (Bool-cases (list_eq v.type.element_type i1 && is_scalar v.type)) [
        | inr other ↦ simp (open_branches, other) (error (λ x. cc))
        | inl scalar_i1 ↦
            simp (open_branches, scalar_i1, r.current)
              (value (
                opened_blocks-Opens v id g w r
                  (subst (Defined g.ir.blocks v.value) (is_scalar→eq v.type scalar_i1) d)))
      ]
