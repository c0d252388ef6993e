-- ===== src/Base/Maps.antt =====
-- `std::unordered_map` with text keys, as a list of entries: a new key goes to the end, and the
-- order in which a loop visits the entries is a parameter.
use mathlib.Core.Path.{◌≡◌, refl}
use mathlib.Core.Bool.{Bool, true, false}
use mathlib.Core.Logic.{inl, inr}
use mathlib.Core.Option.{Option, none, some}
use mathlib.Core.List.{List, [], ◌∷◌}
use native.Mathlib.Omega.{arith}
use ocelotl_tensor.Base.Tests.{if◌then◌else◌, Bool-cases}
use ocelotl_tensor.Base.Texts.{Text, list_eq, list_eq_iff}

abbrev pub Map : Type 0 → Type 0
Map V = List (Text × V)

module _ {V : Type 0} where
  unfoldable pub find : Text → Map V → Option V
  find k [] = none
  find k ((j, v) ∷ m) = if list_eq j k then some v else find k m

  -- `emplace`: an entry whose key is there already is kept.
  unfoldable pub emplace : Text → V → Map V → Map V
  emplace k v [] = (k, v) ∷ []
  emplace k v ((j, w) ∷ m) = if list_eq j k then (j, w) ∷ m else (j, w) ∷ emplace k v m

  -- `m[k] = v`.
  unfoldable pub assign : Text → V → Map V → Map V
  assign k v [] = (k, v) ∷ []
  assign k v ((j, w) ∷ m) = if list_eq j k then (j, v) ∷ m else (j, w) ∷ assign k v m

abbrev pub is_some {ℓ} : {A : Type ℓ} → Option A → Bool
is_some none = false
is_some (some a) = true

abbrev pub or_else {ℓ} : {A : Type ℓ} → Option A → Option A → Option A
or_else none o = o
or_else (some a) o = some a

module _ {V : Type 0} where
  pub find-emplace :
      (k j : Text) (v : V) (m : Map V)
      → find k (emplace j v m) ≡ or_else (find k m) (if list_eq j k then some v else none)
  unfolding find emplace
  find-emplace k j v [] = ground arith
  find-emplace k j v ((i, w) ∷ m) =
      ground (arith, list_eq_iff i k, list_eq_iff j k, list_eq_iff i j, find-emplace k j v m)

  pub find-assign :
      (k j : Text) (v : V) (m : Map V)
      → find k (assign j v m) ≡ (if list_eq j k then some v else find k m)
  unfolding find assign
  find-assign k j v [] = ground arith
  find-assign k j v ((i, w) ∷ m) =
      ground (arith, list_eq_iff i k, list_eq_iff j k, list_eq_iff i j, find-assign k j v m)

-- No key stands twice.
abbrev pub Distinct : {V : Type 0} → Map V → Type 0
Distinct [] = Unit
Distinct ((k, v) ∷ m) = (find k m ≡ none) × Distinct m

pub emplace-Distinct :
    {V : Type 0} (k : Text) (v : V) (m : Map V) → Distinct m → Distinct (emplace k v m)
unfolding find emplace
emplace-Distinct k v [] d = (refl, tt)
emplace-Distinct k v ((j, w) ∷ m) (h, d) = elim (Bool-cases (list_eq j k)) [
  | inl e ↦ rw e (h, d)
  | inr e ↦ rw e (
    ground (arith, find-emplace j k v m, list_eq_iff k j, list_eq_iff j k),
    emplace-Distinct k v m d,
  )
]

-- The order in which a loop visits the entries of a map: any one that keeps them.
pub record Iteration : Type 1 where
  pub arrange : (V : Type 0) → Map V → Map V
  pub find-arrange :
      (V : Type 0) (k : Text) (m : Map V) → Distinct m → find k (arrange V m) ≡ find k m
  pub arrange-Distinct : (V : Type 0) (m : Map V) → Distinct m → Distinct (arrange V m)
