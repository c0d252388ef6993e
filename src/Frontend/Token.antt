-- ===== src/Frontend/Token.antt =====
-- Tokens and source locations: include/ocelotl/frontend/Token.hpp and src/frontend/Token.cpp.
use ocelotl_tensor.Base.{ℕ, Bool, true, false, ◌≡◌, ◌≢◌, refl, Text, bytes_of, Bool-cases, inl, inr}

-- `std::size_t` is ℕ: a location counts the bytes of a text that is in memory.
pub record SourceLocation : Type 0 where
  pub line : ℕ
  pub column : ℕ
  pub offset : ℕ

-- The location that the member initialisers give.
abbrev pub start_location : SourceLocation
start_location = record { line = 1; column = 1; offset = 0 }

pub data TokenKind : Type 0 where
  end_of_file identifier integer_literal float_literal : TokenKind
  kw_tensor kw_return kw_if kw_else : TokenKind
  colon comma equal equal_equal bang_equal : TokenKind
  plus minus star slash less less_equal greater greater_equal : TokenKind
  left_bracket right_bracket left_paren right_paren left_brace right_brace : TokenKind
  unknown : TokenKind

TokenKind-discrete : Discrete TokenKind
TokenKind-discrete = hlevel

-- `==` of the enumeration.
unfoldable pub kind_eq : TokenKind → TokenKind → Bool
unfolding TokenKind-discrete
kind_eq a b = elim (TokenKind-discrete a b) [ yes _ ↦ true | no _ ↦ false ]

pub kind_eq→eq : (a b : TokenKind) → kind_eq a b ≡ true → a ≡ b
unfolding kind_eq
kind_eq→eq a b =
    elim (TokenKind-discrete a b)
      as (λ d. (elim d [ yes _ ↦ true | no _ ↦ false ]) ≡ true → a ≡ b) [
        | yes e ↦ λ _. e
        | no _ ↦ λ h. cc
      ]

pub kind_eq_refl : (a : TokenKind) → kind_eq a a ≡ true
unfolding kind_eq
kind_eq_refl a =
    elim (TokenKind-discrete a a) as (λ d. (elim d [ yes _ ↦ true | no _ ↦ false ]) ≡ true) [
      | yes e ↦ refl
      | no ne ↦ absurd (ne refl)
    ]

pub kind_eq_ne : (a b : TokenKind) → a ≢ b → kind_eq a b ≡ false
kind_eq_ne a b ne = elim (Bool-cases (kind_eq a b)) [
  | inl e ↦ absurd (ne (kind_eq→eq a b e))
  | inr e ↦ e
]

pub record Token : Type 0 where
  pub kind : TokenKind
  pub lexeme : Text
  pub location : SourceLocation

-- `toString`.
unfoldable pub to_string : TokenKind → Text
to_string end_of_file = bytes_of "eof"
to_string identifier = bytes_of "identifier"
to_string integer_literal = bytes_of "integer_literal"
to_string float_literal = bytes_of "float_literal"
to_string kw_tensor = bytes_of "tensor"
to_string kw_return = bytes_of "return"
to_string kw_if = bytes_of "if"
to_string kw_else = bytes_of "else"
to_string colon = bytes_of ":"
to_string comma = bytes_of ","
to_string equal = bytes_of "="
to_string equal_equal = bytes_of "=="
to_string bang_equal = bytes_of "!="
to_string plus = bytes_of "+"
to_string minus = bytes_of "-"
to_string star = bytes_of "*"
to_string slash = bytes_of "/"
to_string less = bytes_of "<"
to_string less_equal = bytes_of "<="
to_string greater = bytes_of ">"
to_string greater_equal = bytes_of ">="
to_string left_bracket = bytes_of "["
to_string right_bracket = bytes_of "]"
to_string left_paren = bytes_of "("
to_string right_paren = bytes_of ")"
to_string left_brace = bytes_of "{"
to_string right_brace = bytes_of "}"
to_string unknown = bytes_of "unknown"
