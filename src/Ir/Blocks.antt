-- ===== src/Ir/Blocks.antt =====
-- What src/ir/IRGenerator.cpp does to the list of basic blocks: the ids of the blocks, and how often
-- a value is defined in them.
use ocelotl_tensor.Base.{
  ℕ, zero, suc, ◌+◌, ◌<◌, ◌≡◌, refl, ap, some, List, [], ◌∷◌, ◌++◌, arith, length, get_elem?,
  if◌then◌else◌, ◌==◌,
}
use ocelotl_tensor.Ir.Module.{Operation, Terminator, BasicBlock, result_of}
use ocelotl_tensor.Ir.Generator.{modify, with_operation, with_terminator}

module _ {A : Type 0} (f : A → A) where
  pub length-modify : (i : ℕ) (xs : List A) → length (modify f i xs) ≡ length xs
  length-modify i [] = refl
  length-modify zero (x ∷ xs) = refl
  length-modify (suc i) (x ∷ xs) = ap suc (length-modify i xs)

module _ {A : Type 0} where
  pub get_elem?-lt : (xs : List A) (i : ℕ) → i < length xs → (x : A) × (get_elem? xs i ≡ some x)
  get_elem?-lt [] i h = absurd (omega arith)
  get_elem?-lt (x ∷ xs) zero h = (x, refl)
  get_elem?-lt (x ∷ xs) (suc i) h = get_elem?-lt xs i (omega arith)

module _ {D : Type 0} where
  -- How many operations define the value `v`.
  unfoldable pub results_in : ℕ → List (Operation D) → ℕ
  results_in v [] = 0
  results_in v (operation ∷ operations) =
      (if result_of operation == v then 1 else 0) + results_in v operations

  unfoldable pub definitions_of : ℕ → List (BasicBlock D) → ℕ
  unfolding results_in
  definitions_of v [] = 0
  definitions_of v (b ∷ blocks) = results_in v b.operations + definitions_of v blocks

  results_in-append :
      (v : ℕ) (operations : List (Operation D)) (operation : Operation D)
      → results_in v (operations ++ operation ∷ [])
        ≡ results_in v operations + (if result_of operation == v then 1 else 0)
  unfolding results_in
  results_in-append v [] operation = omega arith
  results_in-append v (o ∷ operations) operation =
      omega (arith, results_in-append v operations operation)

  pub definitions_of-operation :
      (v : ℕ) (operation : Operation D) (i : ℕ) (blocks : List (BasicBlock D))
      → i < length blocks
      → definitions_of v (modify (with_operation operation) i blocks)
        ≡ definitions_of v blocks + (if result_of operation == v then 1 else 0)
  unfolding definitions_of
  definitions_of-operation v operation i [] h = absurd (omega arith)
  definitions_of-operation v operation zero (b ∷ blocks) h =
      omega (arith, results_in-append v b.operations operation)
  definitions_of-operation v operation (suc i) (b ∷ blocks) h =
      omega (arith, definitions_of-operation v operation i blocks (omega arith))

  pub definitions_of-terminator :
      (v : ℕ) (terminator : Terminator) (i : ℕ) (blocks : List (BasicBlock D))
      → definitions_of v (modify (with_terminator terminator) i blocks) ≡ definitions_of v blocks
  unfolding definitions_of
  definitions_of-terminator v terminator i [] = refl
  definitions_of-terminator v terminator zero (b ∷ blocks) = refl
  definitions_of-terminator v terminator (suc i) (b ∷ blocks) =
      ap (λ n. results_in v b.operations + n) (definitions_of-terminator v terminator i blocks)

  -- A block without operations, behind the others.
  pub definitions_of-append :
      (v : ℕ) (blocks : List (BasicBlock D)) (b : BasicBlock D)
      → b.operations ≡ []
      → definitions_of v (blocks ++ b ∷ []) ≡ definitions_of v blocks
  unfolding definitions_of results_in
  definitions_of-append v [] b e = rw (definitions_of, e) refl
  definitions_of-append v (c ∷ blocks) b e =
      ap (λ n. results_in v c.operations + n) (definitions_of-append v blocks b e)

  -- Every block has its position, counted from `i`, as its id.
  unfoldable pub PlacedFrom : ℕ → List (BasicBlock D) → Type 0
  PlacedFrom i [] = Unit
  PlacedFrom i (b ∷ blocks) = (b.id ≡ i) × PlacedFrom (suc i) blocks

  pub PlacedFrom-modify :
      (f : BasicBlock D → BasicBlock D) (i j : ℕ) (blocks : List (BasicBlock D))
      → ((b : BasicBlock D) → (f b).id ≡ b.id)
      → PlacedFrom i blocks
      → PlacedFrom i (modify f j blocks)
  unfolding PlacedFrom
  PlacedFrom-modify f i j [] same h = tt
  PlacedFrom-modify f i zero (b ∷ blocks) same (e, h) = (cc (same b, e), h)
  PlacedFrom-modify f i (suc j) (b ∷ blocks) same (e, h) =
      (e, PlacedFrom-modify f (suc i) j blocks same h)

  pub PlacedFrom-append :
      (i : ℕ) (blocks : List (BasicBlock D)) (b : BasicBlock D)
      → PlacedFrom i blocks
      → b.id ≡ i + length blocks
      → PlacedFrom i (blocks ++ b ∷ [])
  unfolding PlacedFrom
  PlacedFrom-append i [] b h e = (omega (arith, e), tt)
  PlacedFrom-append i (c ∷ blocks) b (e', h) e =
      (e', PlacedFrom-append (suc i) blocks b h (omega (arith, e)))
