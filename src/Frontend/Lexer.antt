-- ===== src/Frontend/Lexer.antt =====
-- The lexer: include/ocelotl/frontend/Lexer.hpp and src/frontend/Lexer.cpp. Where the source
-- mutates `current_` and `location_`, the model returns the new lexer. A byte is a number, and
-- the character classes are those of the C locale.
pub mod Position
pub mod Scan
pub mod Tokens
pub mod Bounds
mod Tests
use ocelotl_tensor.Base.{
  ℕ, zero, suc, ◌+◌, ◌-◌, Bool, true, false, not, ◌&&◌, ◌||◌, Text, bytes_of, list_eq, leb, ◌==◌,
  if◌then◌else◌, length, get_or, take, drop,
}
use ocelotl_tensor.Frontend.Token.{
  SourceLocation, start_location, TokenKind, Token, end_of_file, identifier, integer_literal,
  float_literal, kw_tensor, kw_return, kw_if, kw_else, colon, comma, equal, equal_equal, bang_equal,
  plus, minus, star, slash, less, less_equal, greater, greater_equal, left_bracket, right_bracket,
  left_paren, right_paren, left_brace, right_brace, unknown,
}

pub record Lexer : Type 0 where
  pub source : Text
  pub current : ℕ
  pub location : SourceLocation

-- The constructor of the class.
abbrev pub lexer_of : Text → Lexer
lexer_of source = record { source = source; current = 0; location = start_location }

-- `std::isdigit`, `std::isalpha`, `std::isalnum` and the test of the identifier loop.
pub is_digit : ℕ → Bool
is_digit c = leb b'0' c && leb c b'9'

pub is_alpha : ℕ → Bool
is_alpha c = (leb b'a' c && leb c b'z') || (leb b'A' c && leb c b'Z')

pub is_word : ℕ → Bool
is_word c = (is_alpha c || is_digit c) || c == b'_'

pub is_space : ℕ → Bool
is_space c = (c == 32 || c == 9) || (c == 13 || c == 10)

pub is_at_end : Lexer → Bool
is_at_end l = leb (length l.source) l.current

pub peek : Lexer → ℕ
peek l = if is_at_end l then 0 else get_or l.source l.current 0

pub peek_next : Lexer → ℕ
peek_next l = if leb (length l.source) (l.current + 1) then 0 else get_or l.source (l.current + 1) 0

-- The location after one more byte.
abbrev pub next_location : SourceLocation → ℕ → SourceLocation
next_location at c =
    if c == 10
    then record { line = at.line + 1; column = 1; offset = at.offset + 1 }
    else record { line = at.line; column = at.column + 1; offset = at.offset + 1 }

-- `advance`; the byte that it returns is used nowhere, and is `peek`.
pub advance : Lexer → Lexer
advance l = if is_at_end l then l else (record l {
  current = l.current + 1;
  location = next_location l.location (get_or l.source l.current 0);
})

-- `while (test) advance();`. Each round takes a byte, so the length of the source is enough fuel.
pub advance_while : (Lexer → Bool) → ℕ → Lexer → Lexer
advance_while test zero l = l
advance_while test (suc fuel) l = elim (test l) [
  | true ↦ advance_while test fuel (advance l)
  | false ↦ l
]

pub skip_whitespace : Lexer → Lexer
skip_whitespace l = advance_while (λ k. not (is_at_end k) && is_space (peek k)) (length l.source) l

-- `source_.substr(startOffset, current_ - startOffset)`.
pub lexeme_from : Lexer → ℕ → Text
lexeme_from l start_offset = take (l.current - start_offset) (drop start_offset l.source)

pub make_token : Lexer → TokenKind → ℕ → SourceLocation → Token
make_token l kind start_offset start = record {
  kind = kind;
  lexeme = lexeme_from l start_offset;
  location = start;
}

-- The `if` chain over the keywords.
pub keyword_kind : Text → TokenKind
keyword_kind lexeme =
    if list_eq lexeme (bytes_of "tensor")
    then kw_tensor
    else if list_eq lexeme (bytes_of "return")
    then kw_return
    else if list_eq lexeme (bytes_of "if")
    then kw_if
    else if list_eq lexeme (bytes_of "else")
    then kw_else
    else identifier

pub lex_identifier_or_keyword : Lexer → Token × Lexer
lex_identifier_or_keyword l =
    let k = advance_while (λ m. is_word (peek m)) (length l.source) l in
    (make_token k (keyword_kind (lexeme_from k l.current)) l.current l.location, k)

pub lex_digits : Lexer → Lexer
lex_digits l = advance_while (λ m. is_digit (peek m)) (length l.source) l

-- `lexNumber` behind its first loop.
pub lex_fraction : Lexer → ℕ → SourceLocation → Token × Lexer
lex_fraction k start_offset start =
    if peek k == b'.' && is_digit (peek_next k)
    then (let m = lex_digits (advance k) in (make_token m float_literal start_offset start, m))
    else (make_token k integer_literal start_offset start, k)

pub lex_number : Lexer → Token × Lexer
lex_number l = lex_fraction (lex_digits l) l.current l.location

-- A token that ends here, and one that a following `=` lengthens.
abbrev pub single : Lexer → TokenKind → ℕ → SourceLocation → Token × Lexer
single l kind start_offset start = (make_token l kind start_offset start, l)

pub with_equal : Lexer → TokenKind → TokenKind → ℕ → SourceLocation → Token × Lexer
with_equal l longer shorter start_offset start =
    if peek l == b'='
    then single (advance l) longer start_offset start
    else single l shorter start_offset start

-- The `switch` on the byte that has just been taken.
pub lex_symbol : ℕ → Lexer → ℕ → SourceLocation → Token × Lexer
lex_symbol c l start_offset start =
    if c == b':'
    then single l colon start_offset start
    else if c == b','
    then single l comma start_offset start
    else if c == b'='
    then with_equal l equal_equal equal start_offset start
    else if c == b'!'
    then with_equal l bang_equal unknown start_offset start
    else if c == b'+'
    then single l plus start_offset start
    else if c == b'-'
    then single l minus start_offset start
    else if c == b'*'
    then single l star start_offset start
    else if c == b'/'
    then single l slash start_offset start
    else if c == b'<'
    then with_equal l less_equal less start_offset start
    else if c == b'>'
    then with_equal l greater_equal greater start_offset start
    else if c == b'['
    then single l left_bracket start_offset start
    else if c == b']'
    then single l right_bracket start_offset start
    else if c == b'('
    then single l left_paren start_offset start
    else if c == b')'
    then single l right_paren start_offset start
    else if c == b'{'
    then single l left_brace start_offset start
    else if c == b'}'
    then single l right_brace start_offset start
    else single l unknown start_offset start

-- `nextToken` behind the white space.
pub lex_token : Lexer → Token × Lexer
lex_token l =
    let c = peek l in
    if is_at_end l
    then (record { kind = end_of_file; lexeme = bytes_of ""; location = l.location }, l)
    else if is_alpha c || c == b'_'
    then lex_identifier_or_keyword l
    else if is_digit c
    then lex_number l
    else lex_symbol c (advance l) l.current l.location

pub next_token : Lexer → Token × Lexer
next_token l = lex_token (skip_whitespace l)
