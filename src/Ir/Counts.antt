-- ===== src/Ir/Counts.antt =====
-- The first loop of the verifier, in src/ir/IRVerifier.cpp: how often it finds each id.
use ocelotl_tensor.Base.{
  ℕ, suc, ◌+◌, ◌≡◌, inl, inr, refl, Bool, true, false, not, ◌&&◌, ◌||◌, List, [], ◌∷◌, arith,
  if◌then◌else◌, ◌==◌, Bool-cases,
}
use ocelotl_tensor.Base.Maps.{is_some}
use ocelotl_tensor.Base.Results.{ok, err, Post, value, error, Post-bind, Post-map, Post-ok}
use ocelotl_tensor.Ir.Module.{Operation, BasicBlock, result_of, type_of}
use ocelotl_tensor.Ir.Blocks.{results_in, definitions_of}
use ocelotl_tensor.Ir.Verifier.{
  Verified, Definition, IdMap, find_id, has_id, is_phi, define_operations, define_blocks,
}

-- `P` holds of every element.
abbrev pub All : {A : Type 0} → (A → Type 0) → List A → Type 0
All P [] = Unit
All P (x ∷ xs) = P x × All P xs

pub All-map :
    {A : Type 0} {P Q : A → Type 0} (xs : List A) → ((x : A) → P x → Q x) → All P xs → All Q xs
All-map [] f h = tt
All-map (x ∷ xs) f (h, hs) = (f x h, All-map xs f hs)

abbrev pub one_if : Bool → ℕ
one_if b = if b then 1 else 0

one_if-find_id :
    {V : Type 0} (v r : ℕ) (w : V) (m : IdMap V)
    → is_some (find_id r m) ≡ false
    → one_if (is_some (find_id v ((r, w) ∷ m)))
      ≡ (if r == v then 1 else 0) + one_if (is_some (find_id v m))
unfolding find_id
one_if-find_id v r w m new = elim (Bool-cases (r == v)) [
  | inl same ↦
      let e : r ≡ v = ground (arith, same) in
      let h : is_some (find_id v m) ≡ false = rw (← e) new in rw (find_id, same, h) (omega arith)
  | inr other ↦ rw (find_id, other) (omega arith)
]

one_if-has_id :
    (v r : ℕ) (s : List ℕ)
    → has_id r s ≡ false
    → one_if (has_id v (r ∷ s)) ≡ (if r == v then 1 else 0) + one_if (has_id v s)
unfolding has_id
one_if-has_id v r s new = elim (Bool-cases (r == v)) [
  | inl same ↦
      let e : r ≡ v = ground (arith, same) in
      let h : has_id v s ≡ false = rw (← e) new in rw (has_id, same, h) (omega arith)
  | inr other ↦ rw (has_id, other) (omega arith)
]

module _ {D : Type 0} where
  -- How many blocks have the id `k`.
  unfoldable pub blocks_of : ℕ → List (BasicBlock D) → ℕ
  blocks_of k [] = 0
  blocks_of k (b ∷ blocks) = (if b.id == k then 1 else 0) + blocks_of k blocks

  abbrev defined_by : BasicBlock D → ℕ → Operation D → Definition
  defined_by block index operation = record {
    block = block.id;
    operation_index = index;
    type = type_of operation;
  }

  define_operations-counts :
      (v : ℕ) (block : BasicBlock D) (saw : Bool) (index : ℕ) (operations : List (Operation D))
      (definitions : IdMap Definition)
      → Post
          (λ defined.
            results_in v operations + one_if (is_some (find_id v definitions))
            ≡ one_if (is_some (find_id v defined)))
          (λ _. Unit)
          (define_operations block saw index operations definitions)
  unfolding define_operations results_in
  define_operations-counts v block saw index [] definitions = value (omega arith)
  define_operations-counts v block saw index (o ∷ operations) definitions =
      elim (Bool-cases (is_phi o && saw)) [
        | inl late ↦ rw (define_operations, late) (error tt)
        | inr fine ↦ elim (Bool-cases (is_some (find_id (result_of o) definitions))) [
          | inl twice ↦ rw (define_operations, fine, twice) (error tt)
          | inr new ↦
              rw (define_operations, fine, new)
                (Post-map
                  (λ defined h. omega (
                    arith,
                    h,
                    one_if-find_id v (result_of o) (defined_by block index o) definitions new,
                  ))
                  (define_operations-counts v block (saw || not (is_phi o)) (suc index) operations
                    _))
        ]
      ]

  -- What the first loop over the blocks assures of them.
  pub record Counted (blocks : List (BasicBlock D)) (before : List ℕ × IdMap Definition)
      (behind : List ℕ × IdMap Definition) : Type 0 where
    pub ids : (k : ℕ) → blocks_of k blocks + one_if (has_id k before.0) ≡ one_if (has_id k behind.0)
    pub values :
        (v : ℕ)
        → definitions_of v blocks + one_if (is_some (find_id v before.1))
          ≡ one_if (is_some (find_id v behind.1))
    pub ended : All (λ b. is_some b.terminator ≡ true) blocks

  define_operations-all :
      (block : BasicBlock D) (definitions : IdMap Definition)
      → Post
          (λ defined.
            (v : ℕ)
            → results_in v block.operations + one_if (is_some (find_id v definitions))
              ≡ one_if (is_some (find_id v defined)))
          (λ _. Unit)
          (define_operations block false 0 block.operations definitions)
  define_operations-all block definitions =
      go (define_operations block false 0 block.operations definitions) refl
    where
      go :
          (r : Verified (IdMap Definition))
          → define_operations block false 0 block.operations definitions ≡ r
          → Post
              (λ defined.
                (v : ℕ)
                → results_in v block.operations + one_if (is_some (find_id v definitions))
                  ≡ one_if (is_some (find_id v defined)))
              (λ _. Unit)
              r
      go (err e) h = error tt
      go (ok defined) h =
          value
            λ v. Post-ok (define_operations-counts v block false 0 block.operations definitions) h

  pub define_blocks-Counted :
      (blocks : List (BasicBlock D)) (ids : List ℕ) (definitions : IdMap Definition)
      → Post (Counted blocks (ids, definitions)) (λ _. Unit) (define_blocks blocks ids definitions)
  unfolding define_blocks blocks_of definitions_of
  define_blocks-Counted [] ids definitions =
      value (record { ids = λ k. omega arith; values = λ v. omega arith; ended = tt })
  define_blocks-Counted (b ∷ blocks) ids definitions = elim (Bool-cases (has_id b.id ids)) [
    | inl twice ↦ rw (define_blocks, twice) (error tt)
    | inr new ↦ elim (Bool-cases (is_some b.terminator)) [
      | inr open_ ↦ rw (define_blocks, new, open_) (error tt)
      | inl closed ↦
          rw (define_blocks, new, closed)
            (Post-bind (define_operations-all b definitions) λ defined counts.
              Post-map
                (λ p c. record {
                  ids = λ k. omega (arith, c.ids k, one_if-has_id k b.id ids new);
                  values = λ v. omega (arith, c.values v, counts v);
                  ended = (closed, c.ended);
                })
                (define_blocks-Counted blocks (b.id ∷ ids) defined))
    ]
  ]
