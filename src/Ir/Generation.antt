-- ===== src/Ir/Generation.antt =====
-- The ids that whole statements and programs get in src/ir/IRGenerator.cpp.
use ocelotl_tensor.Base.{
  ℕ, ◌<◌, ◌≤◌, ◌≡◌, inl, inr, refl, sym, ap, ◌∙◌, subst, Bool, true, false, Option, none, some, [],
  ◌∷◌, arith, length, length-append, if◌then◌else◌, Text, Bool-cases, Option-cases, list_eq,
  list_eq_iff,
}
use ocelotl_tensor.Base.Maps.{
  Map, find, emplace, assign, find-emplace, find-assign, Distinct, emplace-Distinct,
}
use ocelotl_tensor.Base.Results.{ok, err, Post, value, error, Post-bind}
use ocelotl_tensor.Semantic.Symbols.{SymbolTable, lookup}
use ocelotl_tensor.Ir.Module.{Terminator, BasicBlock, return_op, tensor_decl_op}
use ocelotl_tensor.Ir.Generator.{
  GenerationError, duplicate_value, ValueInfo, IrGenerator, with_terminator, create_block,
  set_terminator,
}
use ocelotl_tensor.Ir.Generator.ControlFlow.{generate_tensor_declaration, generate_return}
use ocelotl_tensor.Ir.Blocks.{
  length-modify, get_elem?-lt, definitions_of-terminator, definitions_of-append, PlacedFrom-modify,
  PlacedFrom-append,
}
use ocelotl_tensor.Ir.Numbering.{Numbered, Bounded, IsFound, At, Emitted, emit-Emitted}

-- The invariant of the generator between two statements.
pub record Sound {D : Type 0} (g : IrGenerator D) : Type 0 where
  pub numbered : Numbered g
  pub bounded : Bounded g.next_value_id g.values
  pub distinct : Distinct g.values
  pub active : (id : ℕ) → g.current_block_id ≡ some id → id < g.next_block_id

-- What a statement does to a generator in that state.
pub record Grown {D : Type 0} (g h : IrGenerator D) : Type 0 where
  pub sound : Sound h
  pub values : g.next_value_id ≤ h.next_value_id
  pub blocks : g.next_block_id ≤ h.next_block_id

pub assign-Distinct :
    {V : Type 0} (k : Text) (v : V) (m : Map V) → Distinct m → Distinct (assign k v m)
unfolding find assign
assign-Distinct k v [] d = (refl, tt)
assign-Distinct k v ((j, w) ∷ m) (h, d) = elim (Bool-cases (list_eq j k)) [
  | inl e ↦ rw e (h, d)
  | inr e ↦ rw e (
    ground (arith, find-assign j k v m, list_eq_iff k j, list_eq_iff j k),
    assign-Distinct k v m d,
  )
]

Bounded-emplace :
    (n : ℕ) (k : Text) (v : ValueInfo) (m : Map ValueInfo)
    → v.value < n
    → Bounded n m
    → Bounded n (emplace k v m)
Bounded-emplace n k v m l b j w h = elim (Option-cases (find j m)) [
  | inr (u, old) ↦
      let e : u ≡ w = ground (arith, find-emplace j k v m, h, old) in
      subst (λ x. x.value < n) e (b j u old)
  | inl new ↦
      let e : v ≡ w = ground (arith, find-emplace j k v m, h, new) in subst (λ x. x.value < n) e l
]

Bounded-assign :
    (n : ℕ) (k : Text) (v : ValueInfo) (m : Map ValueInfo)
    → v.value < n
    → Bounded n m
    → Bounded n (assign k v m)
Bounded-assign n k v m l b j w h = elim (Bool-cases (list_eq k j)) [
  | inl same ↦
      let e : v ≡ w = ground (arith, find-assign j k v m, h, same) in subst (λ x. x.value < n) e l
  | inr other ↦ b j w (ground (arith, find-assign j k v m, h, other))
]

module _ {D : Type 0} where
  pub Grown-refl : (g : IrGenerator D) → Sound g → Grown g g
  Grown-refl g s = record { sound = s; values = omega arith; blocks = omega arith }

  pub Grown-trans : (g h k : IrGenerator D) → Grown g h → Grown h k → Grown g k
  Grown-trans g h k a b = record {
    sound = b.sound;
    values = omega (arith, a.values, b.values);
    blocks = omega (arith, a.blocks, b.blocks);
  }

  pub set_terminator-Numbered :
      (g : IrGenerator D) (id : ℕ) (terminator : Terminator)
      → Numbered g
      → Numbered (set_terminator g id terminator)
  unfolding set_terminator
  set_terminator-Numbered g id terminator w = record {
    placed = PlacedFrom-modify (with_terminator terminator) 0 id g.ir.blocks (λ b. refl) w.placed;
    counted = length-modify (with_terminator terminator) id g.ir.blocks ∙ w.counted;
    single = λ v. definitions_of-terminator v terminator id g.ir.blocks ∙ w.single v;
  }

  pub create_block-Numbered :
      (g : IrGenerator D) (name : Text) → Numbered g → Numbered (create_block g name).0
  unfolding create_block
  create_block-Numbered g name w = record {
    placed = PlacedFrom-append 0 g.ir.blocks new w.placed (omega (arith, w.counted));
    counted = omega (arith, length-append g.ir.blocks (new ∷ []), w.counted);
    single = λ v. definitions_of-append v g.ir.blocks new refl ∙ w.single v;
  }
    where
      new : BasicBlock D
      new = record { id = g.next_block_id; name = name; operations = []; terminator = none }

  pub Numbered-with :
      (g : IrGenerator D) (current : Option ℕ) (m : Map ValueInfo)
      → Numbered g
      → Numbered (record g { current_block_id = current; values = m })
  Numbered-with g current m w = record { placed = w.placed; counted = w.counted; single = w.single }

  pub At-Sound : (id : ℕ) (g : IrGenerator D) → Sound g → g.current_block_id ≡ some id → At id g
  At-Sound id g s c = (c, s.active id c)

  pub Sound-Emitted :
      (g : IrGenerator D) (p : ValueInfo × IrGenerator D) → Sound g → Emitted g p → Sound p.1
  Sound-Emitted g p s e = record {
    numbered = e.numbered;
    bounded = λ k v h. omega (arith, s.bounded k v (ap (find k) (sym e.values) ∙ h), e.more);
    distinct = subst Distinct (sym e.values) s.distinct;
    active = λ id h. omega (arith, s.active id (sym e.current ∙ h), e.blocks);
  }

  pub Grown-Emitted :
      (g : IrGenerator D) (p : ValueInfo × IrGenerator D) → Sound g → Emitted g p → Grown g p.1
  Grown-Emitted g p s e = record {
    sound = Sound-Emitted g p s e;
    values = e.more;
    blocks = omega (arith, e.blocks);
  }

  -- A name is bound to a value, by either of the two ways of the map.
  pub Sound-emplace :
      (name : Text) (v : ValueInfo) (g : IrGenerator D)
      → v.value < g.next_value_id
      → Sound g
      → Sound (record g { values = emplace name v g.values })
  Sound-emplace name v g l s = record {
    numbered = Numbered-with g g.current_block_id (emplace name v g.values) s.numbered;
    bounded = Bounded-emplace g.next_value_id name v g.values l s.bounded;
    distinct = emplace-Distinct name v g.values s.distinct;
    active = s.active;
  }

  pub Sound-assign :
      (name : Text) (v : ValueInfo) (g : IrGenerator D)
      → v.value < g.next_value_id
      → Sound g
      → Sound (record g { values = assign name v g.values })
  Sound-assign name v g l s = record {
    numbered = Numbered-with g g.current_block_id (assign name v g.values) s.numbered;
    bounded = Bounded-assign g.next_value_id name v g.values l s.bounded;
    distinct = assign-Distinct name v g.values s.distinct;
    active = s.active;
  }

  unless-Post :
      {g h : IrGenerator D} (b : Bool) (e : GenerationError)
      → IsFound e
      → Grown g h
      → Post (Grown g) IsFound (if b then err e else ok h)
  unless-Post true e f h = error f
  unless-Post false e f h = value h

  pub generate_tensor_declaration-Grown :
      (symbols : SymbolTable) (id : ℕ) (g : IrGenerator D) (name : Text)
      → Sound g
      → At id g
      → Post (Grown g) IsFound (generate_tensor_declaration symbols g name)
  unfolding generate_tensor_declaration
  generate_tensor_declaration-Grown symbols id g name s here =
      elim (Option-cases (lookup symbols name)) [
        | inl missing ↦ rw (generate_tensor_declaration, missing) (error (cc, cc))
        | inr (symbol, found) ↦
            rw (generate_tensor_declaration, found)
              (Post-bind
                (emit-Emitted id g (λ result. tensor_decl_op result name symbol.type) symbol.type
                  (λ n. refl) s.numbered here)
                λ v ev.
                  unless-Post _ (duplicate_value name) (cc, cc)
                    (record {
                      sound = Sound-emplace name v.0 v.1 ev.value_is (Sound-Emitted g v s ev);
                      values = ev.more;
                      blocks = omega (arith, ev.blocks);
                    }))
      ]

  pub generate_return-At :
      (v : ValueInfo) (id : ℕ) (g : IrGenerator D)
      → g.current_block_id ≡ some id
      → id < length g.ir.blocks
      → generate_return v g
        ≡ ok (record (set_terminator g id (return_op v.value)) { current_block_id = none })
  unfolding generate_return
  generate_return-At v id g c l = let (b, e) = get_elem?-lt g.ir.blocks id l in ground (arith, c, e)

  pub generate_return-Grown :
      (v : ValueInfo) (id : ℕ) (g : IrGenerator D)
      → Sound g
      → At id g
      → Post (Grown g) IsFound (generate_return v g)
  unfolding set_terminator
  generate_return-Grown v id g s (c, l) =
      rw (generate_return-At v id g c (omega (arith, l, s.numbered.counted))) (
        value (record {
          sound = record {
            numbered =
                Numbered-with (set_terminator g id (return_op v.value)) none g.values
                  (set_terminator-Numbered g id (return_op v.value) s.numbered);
            bounded = s.bounded;
            distinct = s.distinct;
            active = λ i h. cc h;
          };
          values = omega arith;
          blocks = omega arith;
        }))
