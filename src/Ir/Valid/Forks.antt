-- ===== src/Ir/Valid/Forks.antt =====
-- The generator of src/ir/IRGenerator.cpp behind the two branches of a conditional, and the block at
-- which they meet.
use ocelotl_tensor.Base.{
  ℕ, suc, ◌<◌, ◌≤◌, ◌≡◌, ◌≢◌, ◌⊎◌, inl, inr, refl, sym, ap, ◌∙◌, subst, Bool, true, false, ◌||◌,
  Option, none, some, List, [], arith, length, get_elem?, bytes_of, Bool-cases, ◌==◌,
}
use ocelotl_tensor.Base.Maps.{Map, Distinct}
use ocelotl_tensor.Ir.Module.{BasicBlock}
use ocelotl_tensor.Ir.Generator.{ValueInfo, IrGenerator, create_block, set_terminator}
use ocelotl_tensor.Ir.Generator.ControlFlow.{branch_from}
use ocelotl_tensor.Ir.Branches.{end_block, branch_from-ids}
use ocelotl_tensor.Ir.Valid.{edge, Extends, Extends-trans, Defined-Extends}
use ocelotl_tensor.Ir.Valid.Steps.{lt-length}
use ocelotl_tensor.Ir.Valid.Rewiring.{Rewires-AllFine}
use ocelotl_tensor.Ir.Valid.State.{Typed, Ready, Whole}
use ocelotl_tensor.Ir.Valid.Runs.{Returns, Runs}
use ocelotl_tensor.Ir.Valid.Joining.{Ending, Ending-append, Ending-set}

-- The jump of a branch that has not returned.
unfoldable pub leaves : Option ℕ → ℕ → Bool
leaves none k = false
leaves (some i) k = k == i

-- The test for a jump to the end block.
abbrev pub joins : Option ℕ → Option ℕ → ℕ → Bool
unfolding leaves
joins a b k = leaves a k || (leaves b k || false)

leaves_self : (a : Option ℕ) (i : ℕ) → a ≡ some i → leaves a i ≡ true
unfolding leaves
leaves_self none i e = cc e
leaves_self (some j) i e = (let same : j ≡ i = cc e in ground (arith, same))

pub leaves-other : (a : Option ℕ) (i : ℕ) → a ≢ some i → leaves a i ≡ false
unfolding leaves
leaves-other none i h = refl
leaves-other (some j) i h = elim (Bool-cases (i == j)) [
  | inl same ↦ absurd (h (ap some (sym (ground (arith, same)))))
  | inr other ↦ other
]

leaves-true : (a : Option ℕ) (i : ℕ) → leaves a i ≡ true → a ≡ some i
unfolding leaves
leaves-true none i e = cc e
leaves-true (some j) i e = ap some (ground (arith, e))

module _ {D : Type 0} where
  abbrev pub Open : List (BasicBlock D) → ℕ → Type 0
  Open bs i = (b : BasicBlock D) × (get_elem? bs i ≡ some b) × (b.terminator ≡ none)

  -- `end` is the open block of the first branch, that of the second is current in `x`.
  pub record Forked (id : ℕ) (g x : IrGenerator D) (end : Option ℕ) : Type 0 where
    pub whole : Whole x
    pub extends : Extends (length g.ir.blocks) g.ir.blocks x.ir.blocks
    pub frame :
        (i : ℕ)
        → i ≢ id
        → i < length g.ir.blocks
        → get_elem? x.ir.blocks i ≡ get_elem? g.ir.blocks i
    pub first : (i : ℕ) → end ≡ some i → (length g.ir.blocks ≤ i) × Open x.ir.blocks i
    pub second :
        (i : ℕ) → x.current_block_id ≡ some i → (length g.ir.blocks ≤ i) × Open x.ir.blocks i
    pub apart : (i : ℕ) → x.current_block_id ≡ some i → leaves end i ≡ false
    pub ended :
        (i : ℕ) (b : BasicBlock D)
        → get_elem? x.ir.blocks i ≡ some b
        → b.terminator ≡ none
        → (x.current_block_id ≡ some i) ⊎ ((end ≡ some i) ⊎ ((i ≢ id) × (i < length g.ir.blocks)))
    pub entry : x.ir.entry ≡ g.ir.entry
    pub returned : x.current_block_id ≡ none → end ≡ none → Returns x.ir.blocks

  branch_from-entry :
      (end : Option ℕ) (target : ℕ) (g : IrGenerator D)
      → (branch_from end target g).ir.entry ≡ g.ir.entry
  unfolding set_terminator
  branch_from-entry none target g = refl
  branch_from-entry (some id) target g = refl

  Ending-from :
      (n : ℕ) (a : Option ℕ) (bs : List (BasicBlock D)) (g : IrGenerator D) (jumps : ℕ → Bool)
      → ((i : ℕ) → a ≡ some i → (jumps i ≡ false) × Open bs i)
      → n ≡ length bs
      → Ending n bs g.ir.blocks jumps
      → Ending n bs (branch_from a n g).ir.blocks (λ k. leaves a k || jumps k)
  unfolding leaves set_terminator
  Ending-from n none bs g jumps h size e = e
  Ending-from n (some i) bs g jumps h size e =
      let (free, there) = h i refl in
      let (b, here, open_) = there in
      Ending-set n bs g.ir.blocks jumps i b (omega (arith, size, lt-length bs i b here)) free here
        open_ e

  pub end_block-Ending :
      (id : ℕ) (g x : IrGenerator D) (a end : Option ℕ) (m : Map ValueInfo)
      → a ≡ x.current_block_id
      → Forked id g x end
      → Ending x.next_block_id x.ir.blocks (end_block a end x m).ir.blocks (joins a end)
  unfolding end_block create_block leaves
  end_block-Ending id g x a end m is f =
      let n = x.next_block_id in
      let h = (create_block x (bytes_of "if.end")).0 in
      let counted = f.whole.counted in
      Ending-from n a x.ir.blocks (branch_from end n h) (λ k. leaves end k || false)
        (λ i e.
          let now : x.current_block_id ≡ some i = sym is ∙ e in
          (ground (arith, f.apart i now), (f.second i now).1))
        (sym counted)
        (Ending-from n end x.ir.blocks h (λ k. false) (λ i e. (refl, (f.first i e).1)) (sym counted)
          (subst (λ k. Ending k x.ir.blocks h.ir.blocks (λ _. false)) counted
            (Ending-append x.ir.blocks _ f.whole.fine refl refl)))

  -- The generator behind the end block.
  pub record Joined (id : ℕ) (g x h : IrGenerator D) (a end : Option ℕ) : Type 0 where
    pub runs : Runs id g h
    pub ready : Ready x.next_block_id h
    pub empty : ready.block.operations ≡ []
    pub extends : Extends x.next_block_id x.ir.blocks h.ir.blocks
    pub edges : (k : ℕ) → edge h.ir.blocks k x.next_block_id ≡ joins a end k

  pub end_block-Joined :
      (id : ℕ) (g x : IrGenerator D) (a end : Option ℕ) (m : Map ValueInfo)
      → a ≡ x.current_block_id
      → Forked id g x end
      → Typed x.ir.blocks m
      → Distinct m
      → Joined id g x (end_block a end x m) a end
  unfolding end_block create_block leaves set_terminator
  end_block-Joined id g x a end m is f typed d = record {
    runs = record {
      whole = record {
        fine = Rewires-AllFine n x.ir.blocks h.ir.blocks e.rewires f.whole.fine;
        typed = λ k v found.
            Defined-Extends n x.ir.blocks h.ir.blocks v.value v.type e.rewires.extends
              (typed k v found);
        counted = omega (arith, e.count, next);
        distinct = d;
      };
      extends =
          Extends-trans (length g.ir.blocks) n g.ir.blocks x.ir.blocks h.ir.blocks
            (omega (arith, f.extends.longer, counted)) f.extends e.rewires.extends;
      frame = λ i ne l.
          e.kept i (omega (arith, l, f.extends.longer, counted)) (old i l) ∙ f.frame i ne l;
      current = λ c at.
          let same : n ≡ c = cc at in
          (subst (λ k. Ready k h) same ready, inr (omega (arith, same, f.extends.longer, counted)));
      ended = λ i b there open_. elim (Bool-cases (i == n)) [
        | inl last ↦ let same : i ≡ n = ground (arith, last) in inl (ap some (sym same))
        | inr before ↦
            let l : i < n = ground (arith, before, lt-length h.ir.blocks i b there, e.count) in
            elim (Bool-cases (joins a end i)) [
              | inl jumps ↦ absurd (e.ended i b jumps there open_)
              | inr stays ↦ elim (f.ended i b (sym (e.kept i l stays) ∙ there) open_) [
                | inl now ↦ absurd (ground (arith, leaves_self a i (is ∙ now), stays))
                | inr (inl was) ↦ absurd (ground (arith, leaves_self end i was, stays))
                | inr (inr other) ↦ inr other
              ]
            ]
      ];
      entry = same_entry ∙ f.entry;
      returned = λ none_. cc none_;
    };
    ready = ready;
    empty = e.empty;
    extends = e.rewires.extends;
    edges = e.edges;
  }
    where
      n : ℕ
      n = x.next_block_id

      h : IrGenerator D
      h = end_block a end x m

      e : Ending n x.ir.blocks h.ir.blocks (joins a end)
      e = end_block-Ending id g x a end m is f

      counted : length x.ir.blocks ≡ n
      counted = f.whole.counted

      created : IrGenerator D
      created = (create_block x (bytes_of "if.end")).0

      next : h.next_block_id ≡ suc n
      next = (branch_from-ids a n (branch_from end n created)).1 ∙ (branch_from-ids end n created).1

      same_entry : h.ir.entry ≡ x.ir.entry
      same_entry =
          branch_from-entry a n (branch_from end n created) ∙ branch_from-entry end n created

      ready : Ready n h
      ready = record { current = refl; block = e.new; here = e.there; open_ = e.open_ }

      -- No block from before the conditional jumps to its end.
      old : (i : ℕ) → i < length g.ir.blocks → joins a end i ≡ false
      old i l = elim (Bool-cases (leaves a i)) [
        | inl from_a ↦ absurd (omega (arith, l, (f.second i (sym is ∙ leaves-true a i from_a)).0))
        | inr not_a ↦ elim (Bool-cases (leaves end i)) [
          | inl from_end ↦ absurd (omega (arith, l, (f.first i (leaves-true end i from_end)).0))
          | inr not_end ↦ ground (arith, not_a, not_end)
        ]
      ]
