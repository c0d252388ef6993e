-- ===== src/Frontend/Lexer/Scan.antt =====
-- An independent description of one token of src/frontend/Lexer.cpp, over the bytes that are left,
-- and the proof that `nextToken` reads exactly that.
use ocelotl_tensor.Base.{
  ℕ, ◌≡◌, Bool, true, false, not, ◌&&◌, ◌||◌, List, [], ◌∷◌, ◌++◌, append_assoc, append-nil, arith,
  Text, bytes_of, ◌==◌, if◌then◌else◌, length, take, drop, take_while, ==_iff, drop_while,
  length-append, Bool-cases, inl, inr,
}
use ocelotl_tensor.Frontend.Token.{
  TokenKind, Token, end_of_file, integer_literal, float_literal, colon, comma, equal, equal_equal,
  bang_equal, plus, minus, star, slash, less, less_equal, greater, greater_equal, left_bracket,
  right_bracket, left_paren, right_paren, left_brace, right_brace, unknown, to_string,
}
use ocelotl_tensor.Frontend.Lexer.{
  Lexer, is_alpha, is_word, is_digit, is_space, is_at_end, peek, advance_while, skip_whitespace,
  make_token, keyword_kind, lex_identifier_or_keyword, lex_digits, lex_fraction, lex_number,
  with_equal, lex_symbol, lex_token, next_token,
}
use ocelotl_tensor.Frontend.Lexer.Position.{
  position, lexer_at, second, is_at_end-nil, is_at_end-cons, peek-nil, peek-cons, advance-cons,
  peek_next-at, lexeme_from-at, advance_while-at,
}

-- What a token is, and the bytes that it takes and leaves.
pub record Lexeme : Type 0 where
  pub kind : TokenKind
  pub taken : Text
  pub left : Text

abbrev pub scan_word : Text → Lexeme
scan_word cs =
    let word = take_while is_word cs in
    record { kind = keyword_kind word; taken = word; left = drop_while is_word cs }

-- The digits before the point, and with `.` and a digit after them, the fraction too.
abbrev pub scan_fraction : Text → Text → Lexeme
scan_fraction whole [] = record { kind = integer_literal; taken = whole; left = [] }
scan_fraction whole (c ∷ cs) =
    if c == b'.' && is_digit (second (c ∷ cs))
    then record {
      kind = float_literal;
      taken = whole ++ c ∷ take_while is_digit cs;
      left = drop_while is_digit cs;
    }
    else record { kind = integer_literal; taken = whole; left = c ∷ cs }

abbrev pub scan_number : Text → Lexeme
scan_number cs = scan_fraction (take_while is_digit cs) (drop_while is_digit cs)

-- The symbols in the order in which they are tried: those of two bytes first.
abbrev pub symbols : List TokenKind
symbols =
    equal_equal ∷ bang_equal ∷ less_equal ∷ greater_equal ∷ colon ∷ comma ∷ equal ∷ plus ∷ minus
    ∷ star ∷ slash ∷ less ∷ greater ∷ left_bracket ∷ right_bracket ∷ left_paren ∷ right_paren
    ∷ left_brace ∷ right_brace ∷ []

abbrev pub has_prefix : Text → Text → Bool
has_prefix [] cs = true
has_prefix (x ∷ xs) [] = false
has_prefix (x ∷ xs) (c ∷ cs) = c == x && has_prefix xs cs

-- The first symbol of a list whose spelling the text begins with; `unknown` takes one byte.
abbrev pub scan_symbol : List TokenKind → Text → Lexeme
scan_symbol [] cs = record { kind = unknown; taken = take 1 cs; left = drop 1 cs }
scan_symbol (k ∷ ks) cs =
    let spelling = to_string k in
    if has_prefix spelling cs
    then record { kind = k; taken = spelling; left = drop (length spelling) cs }
    else scan_symbol ks cs

abbrev pub scan : Text → Lexeme
scan [] = record { kind = end_of_file; taken = []; left = [] }
scan (c ∷ cs) =
    if is_alpha c || c == b'_'
    then scan_word (c ∷ cs)
    else if is_digit c
    then scan_number (c ∷ cs)
    else scan_symbol symbols (c ∷ cs)

-- The token and the lexer behind a lexeme that begins behind `pre`.
abbrev pub token_at : Text → Lexeme → Token × Lexer
token_at pre x = (
  record { kind = x.kind; lexeme = x.taken; location = position pre },
  lexer_at (pre ++ x.taken) x.left,
)

lex_digits-at :
    (pre rest : Text)
    → lex_digits (lexer_at pre rest)
      ≡ lexer_at (pre ++ take_while is_digit rest) (drop_while is_digit rest)
unfolding lex_digits is_digit
lex_digits-at pre rest =
    advance_while-at (λ m. is_digit (peek m)) is_digit (λ p. rw (peek-nil p))
      (λ p c r. rw (peek-cons p c r)) _ pre rest (omega (arith, length-append pre rest))

words-at :
    (pre rest : Text)
    → advance_while (λ m. is_word (peek m)) (length (pre ++ rest)) (lexer_at pre rest)
      ≡ lexer_at (pre ++ take_while is_word rest) (drop_while is_word rest)
unfolding is_word is_alpha is_digit
words-at pre rest =
    advance_while-at (λ m. is_word (peek m)) is_word (λ p. rw (peek-nil p))
      (λ p c r. rw (peek-cons p c r)) _ pre rest (omega (arith, length-append pre rest))

skip_whitespace-at :
    (pre rest : Text)
    → skip_whitespace (lexer_at pre rest)
      ≡ lexer_at (pre ++ take_while is_space rest) (drop_while is_space rest)
unfolding skip_whitespace
skip_whitespace-at pre rest =
    advance_while-at (λ k. not (is_at_end k) && is_space (peek k)) is_space
      (λ p. rw (is_at_end-nil p)) (λ p c r. rw (is_at_end-cons p c r, peek-cons p c r)) _ pre rest
      (omega (arith, length-append pre rest))

lex_word-at :
    (pre rest : Text)
    → lex_identifier_or_keyword (lexer_at pre rest) ≡ token_at pre (scan_word rest)
unfolding lex_identifier_or_keyword make_token
lex_word-at pre rest = rw (words-at pre rest, lexeme_from-at pre (take_while is_word rest) _)

regroup :
    (pre whole : Text) (c : ℕ) (t : Text)
    → ((pre ++ whole) ++ c ∷ []) ++ t ≡ pre ++ (whole ++ c ∷ t)
regroup pre whole c t = simp append_assoc

lex_fraction-at :
    (pre whole rest : Text)
    → lex_fraction (lexer_at (pre ++ whole) rest) (length pre) (position pre)
      ≡ token_at pre (scan_fraction whole rest)
unfolding lex_fraction make_token
lex_fraction-at pre whole [] = rw (peek-nil (pre ++ whole), lexeme_from-at pre whole [])
lex_fraction-at pre whole (c ∷ cs) = elim (Bool-cases (c == b'.' && is_digit (second (c ∷ cs)))) [
  | inl e ↦ rw (
    peek-cons (pre ++ whole) c cs,
    peek_next-at (pre ++ whole) (c ∷ cs),
    e,
    advance-cons (pre ++ whole) c cs,
    lex_digits-at ((pre ++ whole) ++ c ∷ []) cs,
    regroup pre whole c (take_while is_digit cs),
    lexeme_from-at pre (whole ++ c ∷ take_while is_digit cs) (drop_while is_digit cs),
  )
  | inr e ↦ rw (
    peek-cons (pre ++ whole) c cs,
    peek_next-at (pre ++ whole) (c ∷ cs),
    e,
    lexeme_from-at pre whole (c ∷ cs),
  )
]

lex_number-at : (pre rest : Text) → lex_number (lexer_at pre rest) ≡ token_at pre (scan_number rest)
unfolding lex_number
lex_number-at pre rest =
    rw (lex_digits-at pre rest)
      (lex_fraction-at pre (take_while is_digit rest) (drop_while is_digit rest))

-- A token of one or two bytes, decided by the byte that follows.
abbrev scan_equal : ℕ → Text → TokenKind → TokenKind → Lexeme
scan_equal c cs longer shorter =
    if has_prefix (bytes_of "=") cs
    then record { kind = longer; taken = c ∷ b'=' ∷ []; left = drop 1 cs }
    else record { kind = shorter; taken = c ∷ []; left = cs }

with_equal-at :
    (pre : Text) (c : ℕ) (cs : Text) (longer shorter : TokenKind)
    → with_equal (lexer_at (pre ++ c ∷ []) cs) longer shorter (length pre) (position pre)
      ≡ token_at pre (scan_equal c cs longer shorter)
unfolding with_equal make_token
with_equal-at pre c [] longer shorter =
    rw (peek-nil (pre ++ c ∷ []), lexeme_from-at pre (c ∷ []) [])
with_equal-at pre c (d ∷ cs) longer shorter = elim (Bool-cases (d == b'=')) [
  | inl e ↦ rw (
    peek-cons (pre ++ c ∷ []) d cs,
    (==_iff d b'=').0 e,
    advance-cons (pre ++ c ∷ []) b'=' cs,
    append_assoc pre (c ∷ []) (b'=' ∷ []),
    lexeme_from-at pre (c ∷ b'=' ∷ []) cs,
  )
  | inr e ↦ rw (peek-cons (pre ++ c ∷ []) d cs, e, lexeme_from-at pre (c ∷ []) (d ∷ cs))
]

lex_symbol-at :
    (pre : Text) (c : ℕ) (cs : Text)
    → lex_symbol c (lexer_at (pre ++ c ∷ []) cs) (length pre) (position pre)
      ≡ token_at pre (scan_symbol symbols (c ∷ cs))
unfolding lex_symbol to_string make_token
lex_symbol-at pre c cs = ground (
  arith,
  lexeme_from-at pre (c ∷ []) cs,
  with_equal-at pre c cs equal_equal equal,
  with_equal-at pre c cs bang_equal unknown,
  with_equal-at pre c cs less_equal less,
  with_equal-at pre c cs greater_equal greater,
)

lex_token-at : (pre rest : Text) → lex_token (lexer_at pre rest) ≡ token_at pre (scan rest)
unfolding lex_token
lex_token-at pre [] = rw (is_at_end-nil pre) (simp append-nil)
lex_token-at pre (c ∷ cs) =
    rw
      (
        is_at_end-cons pre c cs,
        peek-cons pre c cs,
        advance-cons pre c cs,
        lex_word-at pre (c ∷ cs),
        lex_number-at pre (c ∷ cs),
        lex_symbol-at pre c cs,
      )
      (ground arith)

-- `nextToken` behind `pre` skips the longest run of white space, and its token is the one that
-- `scan` reads there.
pub next_token-at :
    (pre rest : Text)
    → next_token (lexer_at pre rest)
      ≡ token_at (pre ++ take_while is_space rest) (scan (drop_while is_space rest))
unfolding next_token
next_token-at pre rest = rw (skip_whitespace-at pre rest) (lex_token-at _ _)
