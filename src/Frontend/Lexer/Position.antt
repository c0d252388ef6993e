-- ===== src/Frontend/Lexer/Position.antt =====
-- Where the lexer of src/frontend/Lexer.cpp stands: a lexer that has taken `pre` of its source and
-- has `rest` before it, and the loops over such a lexer.
use ocelotl_tensor.Base.{
  ◌∙◌, ap, ℕ, zero, suc, ◌-◌, ◌≤◌, ◌≡◌, refl, Bool, true, false, [], ◌∷◌, ◌++◌, append_assoc,
  append-nil, arith, Text, length, take_while, drop_while, length-append, get_or-length,
  drop-length, take-length, Bool-cases, inl, inr,
}
use ocelotl_tensor.Frontend.Token.{SourceLocation, start_location}
use ocelotl_tensor.Frontend.Lexer.{
  lexeme_from, Lexer, lexer_of, is_at_end, peek, peek_next, next_location, advance, advance_while,
}

unfoldable pub position_from : SourceLocation → Text → SourceLocation
position_from at [] = at
position_from at (c ∷ cs) = position_from (next_location at c) cs

-- The location of the byte behind `pre`.
unfoldable pub position : Text → SourceLocation
unfolding position_from
position = position_from start_location

position_from-append :
    (at : SourceLocation) (xs ys : Text)
    → position_from at (xs ++ ys) ≡ position_from (position_from at xs) ys
unfolding position_from
position_from-append at [] ys = refl
position_from-append at (c ∷ xs) ys = position_from-append (next_location at c) xs ys

pub position-snoc : (pre : Text) (c : ℕ) → position (pre ++ c ∷ []) ≡ next_location (position pre) c
unfolding position
position-snoc pre c = position_from-append start_location pre (c ∷ [])

-- The lexer that has taken `pre` and has `rest` before it.
abbrev pub lexer_at : Text → Text → Lexer
lexer_at pre rest = record { source = pre ++ rest; current = length pre; location = position pre }

pub lexer_of_lem : (source : Text) → lexer_of source ≡ lexer_at [] source
unfolding position
lexer_of_lem source = refl

pub is_at_end-nil : (pre : Text) → is_at_end (lexer_at pre []) ≡ true
unfolding is_at_end
is_at_end-nil pre = ground (arith, length-append pre [])

pub is_at_end-cons :
    (pre : Text) (c : ℕ) (rest : Text) → is_at_end (lexer_at pre (c ∷ rest)) ≡ false
unfolding is_at_end
is_at_end-cons pre c rest = ground (arith, length-append pre (c ∷ rest))

pub peek-nil : (pre : Text) → peek (lexer_at pre []) ≡ 0
unfolding peek
peek-nil pre = rw (is_at_end-nil pre)

pub peek-cons : (pre : Text) (c : ℕ) (rest : Text) → peek (lexer_at pre (c ∷ rest)) ≡ c
unfolding peek
peek-cons pre c rest = rw (is_at_end-cons pre c rest, get_or-length pre rest c 0)

pub advance-cons :
    (pre : Text) (c : ℕ) (rest : Text)
    → advance (lexer_at pre (c ∷ rest)) ≡ lexer_at (pre ++ c ∷ []) rest
unfolding advance
advance-cons pre c rest = rw (
  is_at_end-cons pre c rest,
  get_or-length pre rest c 0,
  append_assoc,
  position-snoc pre c,
  length-append pre (c ∷ []),
)

-- `peekNext` of a lexer in front of `rest`.
abbrev pub second : Text → ℕ
second (_ ∷ d ∷ _) = d
second _ = 0

pub peek_next-at : (pre rest : Text) → peek_next (lexer_at pre rest) ≡ second rest
unfolding peek_next
peek_next-at pre [] = ground (arith, length-append pre [])
peek_next-at pre (c ∷ []) = ground (arith, length-append pre (c ∷ []))
peek_next-at pre (c ∷ d ∷ rest) = ground (
  arith,
  length-append pre (c ∷ d ∷ rest),
  get_or-length (pre ++ c ∷ []) rest d 0,
  append_assoc pre (c ∷ []) (d ∷ rest),
  length-append pre (c ∷ []),
)

pub lexeme_from-at : (pre w rest : Text) → lexeme_from (lexer_at (pre ++ w) rest) (length pre) ≡ w
unfolding lexeme_from
lexeme_from-at pre w rest =
    let e : length (pre ++ w) - length pre ≡ length w = omega (arith, length-append pre w) in
    rw (e, append_assoc, drop-length pre (w ++ rest), take-length w rest)

-- A loop whose test reads the next byte, and fails at the end, takes the longest prefix of bytes
-- that pass, as long as it has fuel for what is left of the source.
pub advance_while-at :
    (test : Lexer → Bool) (p : ℕ → Bool)
    → ((pre : Text) → test (lexer_at pre []) ≡ false)
    → ((pre : Text) (c : ℕ) (rest : Text) → test (lexer_at pre (c ∷ rest)) ≡ p c)
    → (fuel : ℕ) (pre rest : Text) → length rest ≤ fuel
    → advance_while test fuel (lexer_at pre rest)
      ≡ lexer_at (pre ++ take_while p rest) (drop_while p rest)
unfolding advance_while
advance_while-at test p hn hc zero pre [] h = simp append-nil
advance_while-at test p hn hc zero pre (c ∷ rest) h = absurd (omega arith)
advance_while-at test p hn hc (suc fuel) pre [] h = rw (advance_while, hn pre) (simp append-nil)
advance_while-at test p hn hc (suc fuel) pre (c ∷ rest) h = elim (Bool-cases (p c)) [
  | inl e ↦
      rw (advance_while, hc pre c rest, e, advance-cons pre c rest)
        (advance_while-at test p hn hc fuel (pre ++ c ∷ []) rest (omega arith)
          ∙ ap (λ t. lexer_at t (drop_while p rest))
              (append_assoc pre (c ∷ []) (take_while p rest)))
  | inr e ↦ rw (advance_while, hc pre c rest, e) (simp append-nil)
]
