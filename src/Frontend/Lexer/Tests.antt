-- ===== src/Frontend/Lexer/Tests.antt =====
-- The lexer of src/frontend/Lexer.cpp on concrete inputs.
use ocelotl_tensor.Base.{
  ℕ, ◌+◌, ◌≡◌, ◌<◌, ◌^◌, refl, List, [], ◌∷◌, ◌++◌, some, none, arith, Text, bytes_of, list_eq,
  length, take_while, drop_while,
}
use ocelotl_tensor.Frontend.Token.{kind_eq, Token, less_equal, to_string}
use ocelotl_tensor.Frontend.Lexer.{
  lexer_of, is_digit, is_alpha, is_word, is_space, is_at_end, peek, peek_next, advance,
  advance_while, skip_whitespace, lexeme_from, make_token, keyword_kind, lex_identifier_or_keyword,
  lex_digits, lex_fraction, lex_number, with_equal, lex_symbol, lex_token, next_token,
}
use ocelotl_tensor.Frontend.Lexer.Position.{lexer_at, position}
use ocelotl_tensor.Frontend.Lexer.Scan.{scan, token_at, next_token-at}
use ocelotl_tensor.Frontend.Lexer.Tokens.{tokens, Covers, tokens-source, next_token-to_string}
use ocelotl_tensor.Frontend.Lexer.Bounds.{newlines, last_line_from, position_lem, position_bounds}

abbrev declaration : Text
declaration = bytes_of "tensor A: f32[2,3]"

kinds : ℕ → Text → List Text
unfolding is_digit is_alpha is_word is_space is_at_end peek peek_next advance advance_while
    skip_whitespace lexeme_from make_token keyword_kind lex_identifier_or_keyword lex_digits
    lex_fraction lex_number with_equal lex_symbol lex_token next_token tokens to_string kind_eq
    list_eq
kinds fuel source = elim (tokens fuel (lexer_of source)) [ none ↦ [] | some ts ↦ names ts ]
  where
    names : List Token → List Text
    names [] = []
    names (t ∷ ts) = to_string t.kind ∷ names ts

lex_expression :
    kinds 30 (bytes_of "X <= 1.5 != 2.")
    ≡ bytes_of "identifier"
      ∷ bytes_of "<="
      ∷ bytes_of "float_literal"
      ∷ bytes_of "!="
      ∷ bytes_of "integer_literal"
      ∷ bytes_of "unknown"
      ∷ bytes_of "eof"
      ∷ []
unfolding kinds
lex_expression = refl

tokens-source_example :
    (ts : List Token) × (tokens (length declaration + 1) (lexer_of declaration) ≡ some ts)
    × Covers [] declaration ts
tokens-source_example = tokens-source declaration

next_token-at_example :
    next_token (lexer_at (bytes_of "X =") (bytes_of " 42 + Y"))
    ≡ token_at
        (bytes_of "X =" ++ take_while is_space (bytes_of " 42 + Y"))
        (scan (drop_while is_space (bytes_of " 42 + Y")))
next_token-at_example = next_token-at (bytes_of "X =") (bytes_of " 42 + Y")

next_token-to_string_example :
    next_token (lexer_of (to_string less_equal ++ 32 ∷ bytes_of "10"))
    ≡ token_at []
        (record { kind = less_equal; taken = to_string less_equal; left = 32 ∷ bytes_of "10" })
next_token-to_string_example = next_token-to_string less_equal (bytes_of "10") refl

position_lem_example : position (10 ∷ bytes_of "ab") ≡ record {
  line = newlines (10 ∷ bytes_of "ab") + 1;
  column = last_line_from 0 (10 ∷ bytes_of "ab") + 1;
  offset = length (10 ∷ bytes_of "ab");
}
position_lem_example = position_lem (10 ∷ bytes_of "ab")

position_bounds_example :
    ((position (bytes_of "X =")).line < 2 ^ 64)
    × ((position (bytes_of "X =")).column < 2 ^ 64)
    × ((position (bytes_of "X =")).offset < 2 ^ 64)
position_bounds_example = position_bounds (bytes_of "X =") (bytes_of " 1") (2 ^ 64) (omega arith)
