-- ===== src/Frontend/Parser/Literals.antt =====
-- The integer literals of src/frontend/Parser.cpp are read as decimal numbers.
use native.Mathlib.Nat.{pow-succ'}
use ocelotl_tensor.Base.{
  ℕ, ◌+◌, ◌-◌, ◌*◌, ◌^◌, ◌≡◌, ◌∙◌, sym, ap, Text, [], ◌∷◌, none, some, if◌then◌else◌, ltb, length,
  arith,
}
use ocelotl_tensor.Frontend.Parser.{digits_value, stoull, stoll}
use ocelotl_tensor.Frontend.Parser.Grammar.{decimal_value, IsNumber}

next_place : (acc d x v : ℕ) → (acc * 10 + d) * x + v ≡ acc * (10 * x) + (d * x + v)
next_place acc d x v = grind arith

digits_value-decimal_value :
    (acc : ℕ) (cs : Text) → digits_value acc cs ≡ acc * 10 ^ length cs + decimal_value cs
unfolding digits_value decimal_value
digits_value-decimal_value acc [] = omega arith
digits_value-decimal_value acc (c ∷ cs) =
    digits_value-decimal_value (acc * 10 + (c - b'0')) cs
    ∙ next_place acc (c - b'0') (10 ^ length cs) (decimal_value cs)
    ∙ ap (λ x. acc * x + decimal_value (c ∷ cs)) (sym (pow-succ' 10 (length cs)))

bounded-IsNumber :
    (bound : ℕ) (lexeme : Text) (n : ℕ)
    → (if ltb (digits_value 0 lexeme) bound then some (digits_value 0 lexeme) else none) ≡ some n
    → IsNumber bound lexeme n
bounded-IsNumber bound lexeme n h = ground (arith, h, digits_value-decimal_value 0 lexeme)

pub stoull-IsNumber : (lexeme : Text) (n : ℕ) → stoull lexeme ≡ some n → IsNumber (2 ^ 64) lexeme n
unfolding stoull
stoull-IsNumber = bounded-IsNumber (2 ^ 64)

pub stoll-IsNumber : (lexeme : Text) (n : ℕ) → stoll lexeme ≡ some n → IsNumber (2 ^ 63) lexeme n
unfolding stoll
stoll-IsNumber = bounded-IsNumber (2 ^ 63)
