-- ===== src/Ir/Valid/Collecting.antt =====
-- The first loop of src/ir/IRVerifier.cpp: on a valid list of blocks it finds every block and every
-- definition.
use ocelotl_tensor.Base.{
  ℕ, suc, ◌+◌, ◌≤◌, ◌≡◌, ◌≢◌, inl, inr, refl, ap, ◌∙◌, subst, Bool, true, false, not, ◌||◌, none,
  some, List, [], ◌∷◌, arith, length, get_elem?, Option-cases, if◌then◌else◌, ltb,
}
use ocelotl_tensor.Base.Maps.{is_some}
use ocelotl_tensor.Base.Results.{Post, value, Post-bind, Post-map}
use ocelotl_tensor.Ir.Module.{Operation, BasicBlock, result_of, type_of}
use ocelotl_tensor.Ir.Verifier.{
  IrVerificationError, inconsistent_returns, Definition, IdMap, find_id, has_id, is_phi,
  define_operations, define_blocks,
}
use ocelotl_tensor.Ir.Blocks.{results_in, definitions_of, PlacedFrom}
use ocelotl_tensor.Ir.Valid.Steps.{by_index}
use ocelotl_tensor.Ir.Valid.{PhisFirst}

abbrev pub IsReturns : IrVerificationError → Type 0
IsReturns e = e ≡ inconsistent_returns

-- How often a map of definitions defines `v`.
abbrev pub known : ℕ → IdMap Definition → ℕ
unfolding find_id
known v ds = if is_some (find_id v ds) then 1 else 0

module _ {D : Type 0} where
  abbrev pub definition_of : ℕ → ℕ → Operation D → Definition
  definition_of block index o = record { block = block; operation_index = index; type = type_of o }

  record Defines (block index : ℕ) (os : List (Operation D)) (more : ℕ → ℕ)
      (ds es : IdMap Definition) : Type 0 where
    fresh : (v : ℕ) → known v es + more v ≤ 1
    kept : (v : ℕ) (d : Definition) → find_id v ds ≡ some d → find_id v es ≡ some d
    found :
        (j : ℕ) (o : Operation D)
        → get_elem? os j ≡ some o
        → find_id (result_of o) es ≡ some (definition_of block (index + j) o)

  define_operations-Defines :
      (block : BasicBlock D) (saw : Bool) (index : ℕ) (os : List (Operation D)) (more : ℕ → ℕ)
      (ds : IdMap Definition)
      → PhisFirst saw os
      → ((v : ℕ) → known v ds + (results_in v os + more v) ≤ 1)
      → Post (Defines block.id index os more ds) IsReturns (define_operations block saw index os ds)
  unfolding define_operations PhisFirst results_in find_id
  define_operations-Defines block saw index [] more ds phis fresh =
      value
        (record { fresh = λ v. omega (arith, fresh v); kept = λ v d h. h; found = λ j o h. cc h })
  define_operations-Defines block saw index (o ∷ os) more ds (first, phis) fresh =
      let new : is_some (find_id (result_of o) ds) ≡ false = ground (arith, fresh (result_of o)) in
      rw (define_operations, first, new)
        (Post-map
          (λ es k. record {
            fresh = k.fresh;
            kept = λ v d h. k.kept v d (ground (arith, h, new));
            found =
                by_index _
                  (λ x h.
                    let same : o ≡ x = cc h in
                    subst
                      (λ y. find_id (result_of y) es ≡ some (definition_of block.id (index + 0) y))
                      same
                      (k.kept (result_of o) (definition_of block.id (index + 0) o) (ground arith)))
                  (λ j. λ x h.
                    subst (λ n. find_id (result_of x) es ≡ some (definition_of block.id n x))
                      (omega arith) (k.found j x h));
          })
          (define_operations-Defines block (saw || not (is_phi o)) (suc index) os more
            ((result_of o, definition_of block.id index o) ∷ ds) phis
            (λ v. ground (arith, fresh v, new))))

  -- What the loop over the blocks from `i` on adds to the ids and the definitions.
  pub record Collects (i : ℕ) (bs : List (BasicBlock D)) (ds : IdMap Definition)
      (p : List ℕ × IdMap Definition) : Type 0 where
    pub ids : (k : ℕ) → has_id k p.0 ≡ ltb k (i + length bs)
    pub kept : (v : ℕ) (d : Definition) → find_id v ds ≡ some d → find_id v p.1 ≡ some d
    pub found :
        (k j : ℕ) (b : BasicBlock D) (o : Operation D)
        → get_elem? bs k ≡ some b
        → get_elem? b.operations j ≡ some o
        → find_id (result_of o) p.1 ≡ some (definition_of (i + k) j o)

  pub define_blocks-Collects :
      (i : ℕ) (bs : List (BasicBlock D)) (ids : List ℕ) (ds : IdMap Definition)
      → PlacedFrom i bs
      → ((k : ℕ) (b : BasicBlock D) → get_elem? bs k ≡ some b → PhisFirst false b.operations)
      → ((k : ℕ) (b : BasicBlock D) → get_elem? bs k ≡ some b → b.terminator ≢ none)
      → ((k : ℕ) → has_id k ids ≡ ltb k i)
      → ((v : ℕ) → known v ds + definitions_of v bs ≤ 1)
      → Post (Collects i bs ds) IsReturns (define_blocks bs ids ds)
  unfolding define_blocks PlacedFrom definitions_of has_id
  define_blocks-Collects i [] ids ds placed phis ended here fresh = value (record {
    ids = λ k. here k ∙ ap (ltb k) (omega arith);
    kept = λ v d h. h;
    found = λ k j b o h. cc h;
  })
  define_blocks-Collects i (b ∷ bs) ids ds (at, placed) phis ended here fresh =
      let new : has_id b.id ids ≡ false = ground (arith, here b.id, at) in
      let ends : is_some b.terminator ≡ true = elim (Option-cases b.terminator) [
        | inl open_ ↦ absurd (ended 0 b refl open_)
        | inr (t, e) ↦ ap is_some e
      ] in
      rw (define_blocks, new, ends)
        (Post-bind
          (define_operations-Defines b false 0 b.operations (λ v. definitions_of v bs) ds
            (phis 0 b refl) (λ v. omega (arith, fresh v)))
          λ es d.
            Post-map
              (λ p c. record {
                ids = λ k. c.ids k ∙ ap (ltb k) (omega arith);
                kept = λ v x h. c.kept v x (d.kept v x h);
                found =
                    by_index _
                      (λ j x o h in_x.
                        let same : b ≡ x = cc h in
                        subst (λ n. find_id (result_of o) p.1 ≡ some (definition_of n j o))
                          (omega (arith, at))
                          (c.kept (result_of o) (definition_of b.id j o) (
                            subst (λ n. find_id (result_of o) es ≡ some (definition_of b.id n o))
                              (let e : 0 + j ≡ j = omega arith in e)
                              (d.found j o (ap (λ y. get_elem? y.operations j) same ∙ in_x)))))
                      (λ k. λ j x o h in_x.
                        subst (λ n. find_id (result_of o) p.1 ≡ some (definition_of n j o))
                          (omega arith) (c.found k j x o h in_x));
              })
              (define_blocks-Collects (suc i) bs (b.id ∷ ids) es placed (λ k. phis (suc k))
                (λ k. ended (suc k)) (λ k. ground (arith, here k, at)) d.fresh))
