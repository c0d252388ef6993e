-- ===== src/Frontend/Parser/Monad.antt =====
-- The state of src/frontend/Parser.cpp, and the methods that touch it: `advance`, `check`,
-- `consume` and `throwParseError`.
use ocelotl_tensor.Base.{Bool, true, false, ◌++◌, Text, bytes_of}
use ocelotl_tensor.Base.Results
use ocelotl_tensor.Base.Results.{Result, ok, err}
use ocelotl_tensor.Frontend.Token.{SourceLocation, TokenKind, kind_eq, Token}
use ocelotl_tensor.Frontend.Lexer.{Lexer, next_token}

pub record Parser : Type 0 where
  pub lexer : Lexer
  pub current : Token

-- A parse error has a place and a message, which `what()` joins as `line:column: parse error:
-- message`; `out_of_fuel` has no counterpart in the program.
pub data Failure : Type 0 where
  parse_error : SourceLocation → Text → Failure
  out_of_fuel : Failure

abbrev pub Parses {ℓ} : Type ℓ → Type ℓ
Parses A = Parser → Result Failure (A × Parser)

abbrev pub pure {ℓ} : {A : Type ℓ} → A → Parses A
pure a p = ok (a, p)

module _ {ℓ κ} {A : Type ℓ} {B : Type κ} where
  infixl 5 ◌>>=◌ ◌>>◌
  abbrev pub ◌>>=◌ : Parses A → (A → Parses B) → Parses B
  m >>= f = λ p. Results.◌>>=◌ (m p) λ (a, q). f a q

  abbrev pub ◌>>◌ : Parses A → Parses B → Parses B
  m >> n = m >>= λ _. n

-- The parser in front of the token that a lexer reads next, which is also what the constructor
-- makes of a new lexer.
unfoldable pub parser_at : Lexer → Parser
parser_at l = let (t, l') = next_token l in record { lexer = l'; current = t }

unfoldable pub advance : Parser → Parser
unfolding parser_at
advance p = parser_at p.lexer

unfoldable pub check : Parser → TokenKind → Bool
unfolding kind_eq
check p kind = kind_eq p.current.kind kind

unfoldable pub throw_parse_error {ℓ} : {A : Type ℓ} → Token → Text → Parses A
throw_parse_error t message p = err (parse_error t.location message)

unfoldable pub consume : TokenKind → Text → Parses Token
unfolding check advance throw_parse_error
consume kind expectation p = elim (check p kind) [
  | true ↦ ok (p.current, advance p)
  | false ↦
      throw_parse_error p.current
        (bytes_of "expected "
          ++ (expectation ++ (bytes_of ", found '" ++ (p.current.lexeme ++ bytes_of "'"))))
        p
]
