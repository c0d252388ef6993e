-- ===== src/Frontend/Lexer/Bounds.antt =====
-- What the location that src/frontend/Lexer.cpp counts up says of the text before it.
use ocelotl_tensor.Base.{
  ℕ, ◌+◌, ◌≤◌, ◌<◌, ◌≡◌, refl, [], ◌∷◌, ◌++◌, arith, Text, ◌==◌, if◌then◌else◌, length,
  length-append,
}
use ocelotl_tensor.Frontend.Token.{SourceLocation, start_location}
use ocelotl_tensor.Frontend.Lexer.{next_location}
use ocelotl_tensor.Frontend.Lexer.Position.{position, position_from}

-- The newlines of a text, and the bytes behind the last one; `seen` bytes stood on its first line
-- already.
pub newlines : Text → ℕ
newlines [] = 0
newlines (c ∷ cs) = if c == 10 then newlines cs + 1 else newlines cs

pub last_line_from : ℕ → Text → ℕ
last_line_from seen [] = seen
last_line_from seen (c ∷ cs) = last_line_from (if c == 10 then 0 else seen + 1) cs

position_from_lem :
    (at : SourceLocation) (seen : ℕ) (cs : Text)
    → at.column ≡ seen + 1
    → position_from at cs ≡ record {
      line = at.line + newlines cs;
      column = last_line_from seen cs + 1;
      offset = at.offset + length cs;
    }
unfolding position_from newlines last_line_from
position_from_lem at seen [] h = ground arith
position_from_lem at seen (c ∷ cs) h =
    ground (arith, position_from_lem (next_location at c) (if c == 10 then 0 else seen + 1) cs)

-- The location counts newlines, bytes since the last newline, and bytes, the first two from 1.
pub position_lem :
    (pre : Text)
    → position pre
      ≡ record { line = newlines pre + 1; column = last_line_from 0 pre + 1; offset = length pre }
unfolding position
position_lem pre = ground (arith, position_from_lem start_location 0 pre refl)

newlines-le : (cs : Text) → newlines cs ≤ length cs
unfolding newlines
newlines-le [] = omega arith
newlines-le (c ∷ cs) = ground (arith, newlines-le cs)

last_line-le : (seen : ℕ) (cs : Text) → last_line_from seen cs ≤ seen + length cs
unfolding last_line_from
last_line-le seen [] = omega arith
last_line-le seen (c ∷ cs) = ground (arith, last_line-le 0 cs, last_line-le (seen + 1) cs)

-- In a source of at least two bytes fewer than `std::size_t` has values, no counter of a location
-- wraps, wherever the lexer stands.
pub position_bounds :
    (pre rest : Text) (limit : ℕ)
    → length (pre ++ rest) + 1 < limit
    → ((position pre).line < limit)
      × ((position pre).column < limit)
      × ((position pre).offset < limit)
position_bounds pre rest limit h = rw (position_lem pre) (
  omega (arith, length-append pre rest, newlines-le pre),
  omega (arith, length-append pre rest, last_line-le 0 pre),
  omega (arith, length-append pre rest),
)
