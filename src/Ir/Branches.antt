-- ===== src/Ir/Branches.antt =====
-- Conditionals in src/ir/IRGenerator.cpp: the blocks that they open, and the values behind them.
use ocelotl_tensor.Base.{
  ℕ, suc, ◌<◌, ◌≤◌, ◌≡◌, inl, inr, refl, sym, ◌∙◌, Option, none, some, List, [], ◌∷◌, arith, ◌==◌,
  bytes_of, Bool-cases, Option-cases, list_eq, list_eq_iff, list_eq_refl, ◌&&◌,
}
use ocelotl_tensor.Base.Maps.{Map, find, emplace, Distinct, Iteration}
use ocelotl_tensor.Base.Results.{Post, value, error, Post-bind, Post-map}
use ocelotl_tensor.Semantic.Analyzer.{same_type, i1, is_scalar}
use ocelotl_tensor.Ir.Module.{branch_op, phi_op, cond_branch_op, PhiIncoming}
use ocelotl_tensor.Ir.Generator.{ValueInfo, IrGenerator, create_block, set_terminator}
use ocelotl_tensor.Ir.Generator.ControlFlow.{
  merge_values, branch_from, join_branches, open_branches,
}
use ocelotl_tensor.Ir.Generation.{
  Sound, Grown, Grown-refl, Grown-trans, set_terminator-Numbered, create_block-Numbered,
  Numbered-with, Sound-Emitted, Sound-emplace,
}
use ocelotl_tensor.Ir.Numbering.{Numbered, Bounded, IsFound, At, At-Emitted, emit-Emitted}

-- Every entry stands for a value that was created.
abbrev AllBelow : ℕ → Map ValueInfo → Type 0
AllBelow n [] = Unit
AllBelow n ((k, v) ∷ m) = (v.value < n) × AllBelow n m

AllBelow-mono : (a b : ℕ) (m : Map ValueInfo) → a ≤ b → AllBelow a m → AllBelow b m
AllBelow-mono a b [] h below = tt
AllBelow-mono a b ((k, v) ∷ m) h (l, below) = (omega (arith, l, h), AllBelow-mono a b m h below)

Bounded-AllBelow : (n : ℕ) (m : Map ValueInfo) → Distinct m → Bounded n m → AllBelow n m
unfolding find
Bounded-AllBelow n [] d bound = tt
Bounded-AllBelow n ((k, v) ∷ m) (fresh, d) bound = (
  bound k v (rw (find, list_eq_refl k)),
  Bounded-AllBelow n m d (λ j u h. bound j u (ground (arith, list_eq_iff k j, h, fresh))),
)

module _ {D : Type 0} where
  merge_values-Grown :
      (then_end else_end id : ℕ) (es more : Map ValueInfo) (g : IrGenerator D)
      → Sound g
      → At id g
      → AllBelow g.next_value_id more
      → Post (Grown g) IsFound (merge_values then_end else_end es more g)
  unfolding merge_values
  merge_values-Grown t e id es [] g s here below = value (Grown-refl g s)
  merge_values-Grown t e id es ((name, v) ∷ more) g s here (l, below) =
      elim (Option-cases (find name es)) [
        | inl missing ↦
            rw (merge_values, missing) (merge_values-Grown t e id es more g s here below)
        | inr (w, found) ↦ elim (Bool-cases (same_type v.type w.type)) [
          | inr differs ↦ rw (merge_values, found, differs) (error (cc, cc))
          | inl same ↦ elim (Bool-cases (v.value == w.value)) [
            | inl one ↦
                rw (merge_values, found, same, one)
                  (let kept =
                      merge_values-Grown t e id es more
                        (record g { values = emplace name v g.values }) (Sound-emplace name v g l s)
                        here below in
                    Post-map
                      (λ h k. record { sound = k.sound; values = k.values; blocks = k.blocks })
                      kept)
            | inr two ↦
                rw (merge_values, found, same, two)
                  (Post-bind
                    (emit-Emitted id g (λ result. phi_op result v.type (incoming w)) v.type
                      (λ n. refl) s.numbered here)
                    λ u eu.
                      Post-map
                        (λ h k. record {
                          sound = k.sound;
                          values = omega (arith, eu.more, k.values);
                          blocks = omega (arith, eu.blocks, k.blocks);
                        })
                        (merge_values-Grown t e id es more
                          (record u.1 { values = emplace name u.0 u.1.values })
                          (Sound-emplace name u.0 u.1 eu.value_is (Sound-Emitted g u s eu))
                          (At-Emitted id g u here eu)
                          (AllBelow-mono g.next_value_id u.1.next_value_id more eu.more below)))
          ]
        ]
      ]
    where
      incoming : ValueInfo → List PhiIncoming
      incoming w =
          record { predecessor = t; value = v.value }
          ∷ record { predecessor = e; value = w.value }
          ∷ []

  branch_from-Numbered :
      (end : Option ℕ) (target : ℕ) (g : IrGenerator D)
      → Numbered g
      → Numbered (branch_from end target g)
  branch_from-Numbered none target g w = w
  branch_from-Numbered (some id) target g w = set_terminator-Numbered g id (branch_op target) w

  pub branch_from-ids :
      (end : Option ℕ) (target : ℕ) (g : IrGenerator D)
      → ((branch_from end target g).next_value_id ≡ g.next_value_id)
        × ((branch_from end target g).next_block_id ≡ g.next_block_id)
  unfolding set_terminator
  branch_from-ids none target g = (refl, refl)
  branch_from-ids (some id) target g = (refl, refl)

  -- The end block, which is current, with the ends of the branches that go there.
  unfoldable pub end_block : Option ℕ → Option ℕ → IrGenerator D → Map ValueInfo → IrGenerator D
  end_block a b g m =
      record (branch_from a (create_block g (bytes_of "if.end")).1 (
        branch_from b (create_block g (bytes_of "if.end")).1
          (create_block g (bytes_of "if.end")).0)) {
            current_block_id = some (create_block g (bytes_of "if.end")).1;
            values = m;
          }

  end_block-Grown :
      (a b : Option ℕ) (g : IrGenerator D) (m : Map ValueInfo)
      → Sound g
      → Bounded g.next_value_id m
      → Distinct m
      → Grown g (end_block a b g m)
  unfolding end_block create_block
  end_block-Grown a b g m s bound d =
      let n = (create_block g (bytes_of "if.end")).1 in
      let g1 = (create_block g (bytes_of "if.end")).0 in
      let g2 = branch_from b n g1 in
      let g3 = branch_from a n g2 in
      let (v2, b2) = branch_from-ids b n g1 in
      let (v3, b3) = branch_from-ids a n g2 in
      record {
        sound = record {
          numbered = Numbered-with g3 (some n) m (
              branch_from-Numbered a n g2 (
                branch_from-Numbered b n g1
                  (create_block-Numbered g (bytes_of "if.end") s.numbered)));
          bounded = λ k v h. omega (arith, bound k v h, v2, v3);
          distinct = d;
          active = λ id h. (let e : n ≡ id = cc h in omega (arith, e, b2, b3));
        };
        values = omega (arith, v2, v3);
        blocks = omega (arith, b2, b3);
      }

  pub join_branches-Grown :
      (order : Iteration) (before then_values : Map ValueInfo) (then_end : Option ℕ)
      (g : IrGenerator D)
      → Sound g
      → Bounded g.next_value_id before
      → Distinct before
      → Bounded g.next_value_id then_values
      → Distinct then_values
      → Post (Grown g) IsFound (join_branches order before then_end then_values g)
  unfolding join_branches end_block
  join_branches-Grown order before then_values none g s bb bd tb td =
      elim (Option-cases g.current_block_id) [
        | inl left ↦
            simp (join_branches, left)
              (value (record {
                sound = record {
                  numbered = Numbered-with g none before s.numbered;
                  bounded = bb;
                  distinct = bd;
                  active = λ i h. cc h;
                };
                values = omega arith;
                blocks = omega arith;
              }))
        | inr (else_end, c) ↦
            simp (join_branches, c)
              (value (end_block-Grown (some else_end) none g g.values s s.bounded s.distinct))
      ]
  join_branches-Grown order before then_values (some t) g s bb bd tb td =
      elim (Option-cases g.current_block_id) [
        | inl left ↦
            simp (join_branches, left) (value (end_block-Grown none (some t) g then_values s tb td))
        | inr (else_end, c) ↦
            simp (join_branches, c)
              (let joined = end_block (some else_end) (some t) g [] in
                let grown =
                  end_block-Grown (some else_end) (some t) g [] s (λ k v h. unfold find in cc h)
                    tt in
                let entries = order.arrange ValueInfo then_values in
                let below =
                  Bounded-AllBelow g.next_value_id entries
                    (order.arrange-Distinct ValueInfo then_values td)
                    (λ k v h. tb k v (sym (order.find-arrange ValueInfo k then_values td) ∙ h)) in
                Post-map (λ h k. Grown-trans g joined h grown k)
                  (merge_values-Grown t else_end (create_block g (bytes_of "if.end")).1 g.values
                    entries joined grown.sound (refl, grown.sound.active _ refl)
                    (AllBelow-mono g.next_value_id joined.next_value_id entries grown.values
                      below)))
      ]

  -- The generator in the first branch, and the block of the second.
  pub record Opened (g : IrGenerator D) (p : IrGenerator D × ℕ) : Type 0 where
    pub grown : Grown g p.0
    pub values : p.0.values ≡ g.values
    pub second : p.1 < p.0.next_block_id

  -- The two blocks of a conditional, behind the block that branches to them.
  unfoldable pub opened_blocks : ValueInfo → ℕ → IrGenerator D → IrGenerator D × ℕ
  opened_blocks v id g =
      let (h, then_block) = create_block g (bytes_of "if.then") in
      let (k, else_block) = create_block h (bytes_of "if.else") in
      (
        record (set_terminator k id (cond_branch_op v.value then_block else_block)) {
          current_block_id = some then_block;
        },
        else_block,
      )

  opened_blocks-Opened :
      (v : ValueInfo) (id : ℕ) (g : IrGenerator D) → Sound g → Opened g (opened_blocks v id g)
  unfolding opened_blocks create_block set_terminator
  opened_blocks-Opened v id g s =
      let h = (create_block g (bytes_of "if.then")).0 in
      let k = (create_block h (bytes_of "if.else")).0 in
      record {
        grown = record {
          sound = record {
            numbered =
                Numbered-with
                  (set_terminator k id
                    (cond_branch_op v.value g.next_block_id (suc g.next_block_id)))
                  (some g.next_block_id) g.values
                  (set_terminator-Numbered k id _
                    (create_block-Numbered h _ (create_block-Numbered g _ s.numbered)));
            bounded = s.bounded;
            distinct = s.distinct;
            active = λ i e. (let same : g.next_block_id ≡ i = cc e in omega (arith, same));
          };
          values = omega arith;
          blocks = omega arith;
        };
        values = refl;
        second = omega arith;
      }

  pub open_branches-Opened :
      (v : ValueInfo) (id : ℕ) (g : IrGenerator D)
      → Sound g
      → At id g
      → Post (Opened g) IsFound (open_branches v g)
  unfolding open_branches opened_blocks
  open_branches-Opened v id g s (c, l) =
      elim (Bool-cases (list_eq v.type.element_type i1 && is_scalar v.type)) [
        | inr other ↦ simp (open_branches, other) (error (cc, cc))
        | inl scalar_i1 ↦ simp (open_branches, scalar_i1, c) (value (opened_blocks-Opened v id g s))
      ]
