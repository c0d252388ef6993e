-- ===== src/Ir/Valid/Meeting.antt =====
-- A conditional of src/ir/IRGenerator.cpp behind its two branches.
use ocelotl_tensor.Base.{
  ℕ, suc, ◌<◌, ◌≤◌, ◌≡◌, ◌≢◌, inl, inr, refl, sym, ap, ◌∙◌, subst, Option, none, some, [], arith,
  length, get_elem?, Bool-cases, Option-cases, ◌==◌,
}
use ocelotl_tensor.Base.Maps.{Map, find, Distinct, Iteration}
use ocelotl_tensor.Base.Results.{Post, value, Post-map}
use ocelotl_tensor.Ir.Generator.{ValueInfo, IrGenerator, create_block}
use ocelotl_tensor.Ir.Generator.ControlFlow.{merge_values, join_branches}
use ocelotl_tensor.Ir.Branches.{end_block}
use ocelotl_tensor.Ir.Valid.{Extends-trans}
use ocelotl_tensor.Ir.Valid.Steps.{lt-length}
use ocelotl_tensor.Ir.Valid.State.{IsOwn, Typed, Ready, Built}
use ocelotl_tensor.Ir.Valid.Runs.{Runs, Runs-trans, Whole-with}
use ocelotl_tensor.Ir.Valid.Opening.{Opens}
use ocelotl_tensor.Ir.Valid.Forks.{leaves, leaves-other, Forked, Joined, end_block-Joined}
use ocelotl_tensor.Ir.Valid.Merging.{
  AllPhi, Typed-Extends, AllTyped-Extends, Typed-AllTyped, Runs-Merged, merge_values-Merged,
}

module _ {D : Type 0} where
  -- Both branches have returned.
  Runs-returned :
      (id : ℕ) (g x : IrGenerator D) (m : Map ValueInfo)
      → Forked id g x none
      → x.current_block_id ≡ none
      → Typed x.ir.blocks m
      → Distinct m
      → Runs id g (record x { current_block_id = none; values = m })
  Runs-returned id g x m f left typed d = record {
    whole = Whole-with x none m f.whole typed d;
    extends = f.extends;
    frame = f.frame;
    current = λ c e. cc e;
    ended = λ i b there open_. elim (f.ended i b there open_) [
      | inl now ↦ absurd (cc (now, left))
      | inr (inl was) ↦ absurd (cc was)
      | inr (inr other) ↦ inr other
    ];
    entry = f.entry;
    returned = λ e. f.returned left refl;
  }

  -- Neither branch has returned.
  join-Runs :
      (order : Iteration) (then_values : Map ValueInfo) (id t c : ℕ) (g x : IrGenerator D)
      → Forked id g x (some t)
      → x.current_block_id ≡ some c
      → Typed x.ir.blocks then_values
      → Distinct then_values
      → Post (Runs id g) IsOwn (
          merge_values t c x.values
            (order.arrange ValueInfo then_values)
            (end_block (some c) (some t) x []))
  unfolding create_block end_block leaves AllPhi
  join-Runs order then_values id t c g x f at typed d =
      Post-map (λ h k. Runs-trans id n g joined h j.runs refl (Runs-Merged n joined h k))
        (merge_values-Merged t c n x.values entries joined (ground (arith, f.apart c at))
          (record {
            whole = j.runs.whole;
            ready = j.ready;
            phis = subst AllPhi (sym j.empty) tt;
            edges = λ k. j.edges k ∙ ground arith;
            typed = Typed-Extends n x.ir.blocks joined.ir.blocks x.values j.extends f.whole.typed;
          })
          (AllTyped-Extends n x.ir.blocks joined.ir.blocks entries j.extends (
            Typed-AllTyped x.ir.blocks entries (order.arrange-Distinct ValueInfo then_values d)
              (λ k v h. typed k v (sym (order.find-arrange ValueInfo k then_values d) ∙ h)))))
    where
      n : ℕ
      n = x.next_block_id

      joined : IrGenerator D
      joined = end_block (some c) (some t) x []

      entries : Map ValueInfo
      entries = order.arrange ValueInfo then_values

      j : Joined id g x joined (some c) (some t)
      j = end_block-Joined id g x (some c) (some t) [] (sym at) f (λ k v h. unfold find in cc h) tt

  pub join_branches-Runs :
      (order : Iteration) (before then_values : Map ValueInfo) (then_end : Option ℕ) (id : ℕ)
      (g x : IrGenerator D)
      → Forked id g x then_end
      → Typed x.ir.blocks before
      → Distinct before
      → Typed x.ir.blocks then_values
      → Distinct then_values
      → Post (Runs id g) IsOwn (join_branches order before then_end then_values x)
  unfolding join_branches end_block
  join_branches-Runs order before then_values none id g x f bt bd tt_ td =
      elim (Option-cases x.current_block_id) [
        | inl left ↦ simp (join_branches, left) (value (Runs-returned id g x before f left bt bd))
        | inr (c, at) ↦
            simp (join_branches, at)
              (value
                (end_block-Joined id g x (some c) none x.values (sym at) f f.whole.typed
                  f.whole.distinct).runs)
      ]
  join_branches-Runs order before then_values (some t) id g x f bt bd tt_ td =
      elim (Option-cases x.current_block_id) [
        | inl left ↦
            simp (join_branches, left)
              (value (end_block-Joined id g x none (some t) then_values (sym left) f tt_ td).runs)
        | inr (c, at) ↦
            simp (join_branches, at) (join-Runs order then_values id t c g x f at tt_ td)
      ]

  -- The second branch starts in its block, with the values from before the first.
  pub second-Ready :
      (id : ℕ) (g : IrGenerator D) (o : IrGenerator D × ℕ) (t : IrGenerator D)
      → Opens id g o
      → Runs (length g.ir.blocks) o.0 t
      → Ready
          (suc (length g.ir.blocks))
          (record t { current_block_id = some o.1; values = o.0.values })
  second-Ready id g o t opens r = record {
    current = ap some opens.second;
    block = opens.second_block;
    here =
        r.frame (suc (length g.ir.blocks)) (omega arith) (omega (arith, opens.count))
        ∙ opens.second_there;
    open_ = opens.second_open;
  }

  pub branches-Forked :
      (id : ℕ) (g : IrGenerator D) (v : ValueInfo × IrGenerator D) (o : IrGenerator D × ℕ)
      (t x : IrGenerator D)
      → Built id g v
      → Opens id v.1 o
      → Runs (length v.1.ir.blocks) o.0 t
      → Runs
          (suc (length v.1.ir.blocks))
          (record t { current_block_id = some o.1; values = o.0.values })
          x
      → Forked id g x t.current_block_id
  branches-Forked id g v o t x b opens r s = record {
    whole = s.whole;
    extends =
        Extends-trans n l g.ir.blocks t.ir.blocks x.ir.blocks
          (omega (arith, b.count, opens.count, r.extends.longer))
          (Extends-trans n (length o.0.ir.blocks) g.ir.blocks o.0.ir.blocks t.ir.blocks
            (omega (arith, b.count, opens.count))
            (Extends-trans n m g.ir.blocks v.1.ir.blocks o.0.ir.blocks (omega (arith, b.count))
              (b.extends n) opens.extends)
            r.extends)
          s.extends;
    frame = λ i ne below.
        second_same i (omega (arith, below, b.count))
          (omega (arith, below, b.count, opens.count, r.extends.longer))
        ∙ (r.frame i (λ e. omega (arith, e, below, b.count))
              (omega (arith, below, b.count, opens.count))
            ∙ (opens.frame i ne (omega (arith, below, b.count)) ∙ b.frame i ne));
    first = λ i e.
        let (ready, from) = r.current i e in
        let le : m ≤ i = ground (arith, from, opens.count) in
        (
          omega (arith, le, b.count),
          (
            ready.block,
            second_same i (ground (arith, from, opens.count))
                  (lt-length t.ir.blocks i ready.block ready.here)
                ∙ ready.here,
            ready.open_,
          ),
        );
    second = λ i e.
        let (ready, from) = s.current i e in
        (
          ground (arith, from, b.count, opens.count, r.extends.longer),
          (ready.block, ready.here, ready.open_),
        );
    apart = λ i e. leaves-other t.current_block_id i (λ was.
        let (ready, from) = r.current i was in
        let below : i < l = lt-length t.ir.blocks i ready.block ready.here in
        ground (arith, from, below, (s.current i e).1, opens.count));
    ended = λ i y there open_. elim (s.ended i y there open_) [
      | inl now ↦ inl now
      | inr (other, below) ↦
          let in_t = sym (s.frame i other below) ∙ there in
          elim (r.ended i y in_t open_) [
            | inl was ↦ inr (inl was)
            | inr (not_first, in_o) ↦
                let at_o = sym (r.frame i not_first in_o) ∙ in_t in
                elim (Bool-cases (i == id)) [
                  | inl same ↦
                      let is : i ≡ id = ground (arith, same) in
                      absurd (opens.closed y (ap (get_elem? o.0.ir.blocks) (sym is) ∙ at_o) open_)
                  | inr differs ↦ inr (
                      inr (
                        ground (arith, differs),
                        ground (arith, not_first, other, in_o, opens.count, b.count),
                      ))
                ]
          ]
    ];
    entry = s.entry ∙ (r.entry ∙ (opens.entry ∙ b.entry));
    returned = λ e _. s.returned e;
  }
    where
      n : ℕ
      n = length g.ir.blocks

      m : ℕ
      m = length v.1.ir.blocks

      l : ℕ
      l = length t.ir.blocks

      second_same : (i : ℕ) → i ≢ suc m → i < l → get_elem? x.ir.blocks i ≡ get_elem? t.ir.blocks i
      second_same i ne below = s.frame i ne below
