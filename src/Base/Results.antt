-- ===== src/Base/Results.antt =====
-- Fallible code: a value or an error, and what holds of either.
use mathlib.Core.Path.{◌≡◌, refl, subst}

pub data Result {ℓ} (E : Type 0) (A : Type ℓ) : Type ℓ where
  ok : A → Result E A
  err : E → Result E A

-- `P` holds of the value, `Q` of the error.
pub data Post {ℓ} {E : Type 0} {A : Type ℓ} (P : A → Type 0) (Q : E → Type 0)
    : Result E A → Type ℓ where
  value : {a : A} → P a → Post P Q (ok a)
  error : {e : E} → Q e → Post P Q (err e)

module _ {ℓ κ} {E : Type 0} {A : Type ℓ} {B : Type κ} where
  infixl 5 ◌>>=◌
  abbrev pub ◌>>=◌ : Result E A → (A → Result E B) → Result E B
  ok a >>= f = f a
  err e >>= f = err e

  -- A chain that succeeds has succeeded in its first part, whose value the second part takes.
  pub >>=-eq-ok :
      {y : B} (before : Result E A) (after : A → Result E B)
      → before >>= after ≡ ok y
      → (x : A) × (after x ≡ ok y) × (before ≡ ok x)
  >>=-eq-ok (err why) after done = cc
  >>=-eq-ok (ok x) after done = (x, done, refl)

  pub Post-bind :
      {P : A → Type 0} {R : B → Type 0} {Q : E → Type 0} {m : Result E A} {f : A → Result E B}
      → Post P Q m
      → ((a : A) → P a → Post R Q (f a))
      → Post R Q (m >>= f)
  Post-bind (value {a} h) k = k a h
  Post-bind (error h) k = error h

module _ {ℓ} {E : Type 0} {A : Type ℓ} {P : A → Type 0} {Q : E → Type 0} where
  pub Post-ok : {r : Result E A} {a : A} → Post P Q r → r ≡ ok a → P a
  Post-ok (value h) e = subst P (cc) h
  Post-ok (error h) e = cc

  pub Post-err : {r : Result E A} {x : E} → Post P Q r → r ≡ err x → Q x
  Post-err (value h) e = cc
  Post-err (error h) e = subst Q (cc) h

module _ {ℓ} {E : Type 0} {A : Type ℓ} {P R : A → Type 0} {Q : E → Type 0} where
  pub Post-map : {r : Result E A} → ((a : A) → P a → R a) → Post P Q r → Post R Q r
  Post-map k (value {a} h) = value (k a h)
  Post-map k (error h) = error h

module _ {ℓ} {E : Type 0} {A : Type ℓ} {P R : A → Type 0} {Q S : E → Type 0} where
  pub Post-and :
      {r : Result E A} → Post P Q r → Post R S r → Post (λ a. P a × R a) (λ e. Q e × S e) r
  Post-and (value h) k = value (h, Post-ok k refl)
  Post-and (error h) k = error (h, Post-err k refl)

  pub Post-weaken :
      {r : Result E A} → ((a : A) → P a → R a) → ((e : E) → Q e → S e) → Post P Q r → Post R S r
  Post-weaken f g (value {a} h) = value (f a h)
  Post-weaken f g (error {e} h) = error (g e h)
