-- ===== src/Frontend/Parser.antt =====
-- The recursive-descent parser: include/ocelotl/frontend/Parser.hpp and src/frontend/Parser.cpp.
-- A method takes the parser and returns what it reads with the parser as it leaves it, or what it
-- throws. A method that can call itself takes the methods below it as they are with less fuel.
pub mod Monad
pub mod Stream
pub mod Grammar
mod Literals
pub mod SoundLoops
pub mod SoundExpressions
pub mod SoundTypes
pub mod SoundStatements
pub mod Total
mod Tests
use ocelotl_tensor.Base.{
  ℕ, zero, suc, ◌+◌, ◌-◌, ◌*◌, ◌^◌, Bool, true, false, ◌||◌, List, [], ◌∷◌, ◌++◌, Option, some,
  none, Text, bytes_of, ltb, if◌then◌else◌, length,
}
use ocelotl_tensor.Base.Results.{Result, ok, err}
use ocelotl_tensor.Frontend.Token.{
  SourceLocation, TokenKind, kind_eq, Token, end_of_file, identifier, integer_literal,
  float_literal, kw_tensor, kw_return, kw_if, kw_else, colon, comma, equal, equal_equal, bang_equal,
  plus, minus, star, slash, less, less_equal, greater, greater_equal, left_bracket, right_bracket,
  left_paren, right_paren, left_brace, right_brace, unknown,
}
use ocelotl_tensor.Frontend.Ast.{
  TensorType, BinaryOperator, add, subtract, multiply, divide, not_equal, Expression,
  identifier_expr, integer_expr, float_expr, call_expr, binary_expr, Arguments, no_arguments,
  argument, Statement, tensor_decl, assignment, return_stmt, if_stmt, Statements, no_statements,
  statement, Program,
}
use ocelotl_tensor.Frontend.Parser.Monad.{
  Parser, Failure, out_of_fuel, parse_error, Parses, pure, ◌>>=◌, ◌>>◌, advance, check,
  throw_parse_error, consume,
}

-- `std::stoull` and `std::stoll` on the digits of an integer literal; `none` is `out_of_range`.
pub digits_value : ℕ → Text → ℕ
digits_value acc [] = acc
digits_value acc (c ∷ cs) = digits_value (acc * 10 + (c - b'0')) cs

unfoldable pub stoull : Text → Option ℕ
unfolding digits_value
stoull lexeme = let n = digits_value 0 lexeme in if ltb n (2 ^ 64) then some n else none

unfoldable pub stoll : Text → Option ℕ
unfolding digits_value
stoll lexeme = let n = digits_value 0 lexeme in if ltb n (2 ^ 63) then some n else none

-- The two `try` blocks around a dimension.
unfoldable pub dimension_of : Token → Parses ℕ
unfolding stoull throw_parse_error
dimension_of t = elim (stoull t.lexeme) [
  | some n ↦ pure n
  | none ↦ throw_parse_error t (bytes_of "invalid tensor dimension")
]

-- The `while` loop over the dimensions behind the first.
unfoldable pub dimension_loop : ℕ → Parses (List ℕ)
unfolding check advance consume dimension_of
dimension_loop zero p = err out_of_fuel
dimension_loop (suc f) p = elim (check p comma) [
  | true ↦
      (do
        t ← consume integer_literal (bytes_of "tensor dimension")
        n ← dimension_of t
        ns ← dimension_loop f
        pure (n ∷ ns))
        (advance p)
  | false ↦ ok ([], p)
]

unfoldable pub parse_tensor_type : ℕ → Parses TensorType
unfolding consume dimension_of dimension_loop
parse_tensor_type f = do
  element ← consume identifier (bytes_of "element type")
  consume left_bracket (bytes_of "'['")
  first ← consume integer_literal (bytes_of "tensor dimension")
  n ← dimension_of first
  ns ← dimension_loop f
  consume right_bracket (bytes_of "']'")
  pure (record { element_type = element.lexeme; shape = n ∷ ns })

unfoldable pub parse_tensor_declaration : {D : Type 0} → ℕ → Parses (Statement D)
unfolding consume parse_tensor_type
parse_tensor_declaration f = do
  tensor_token ← consume kw_tensor (bytes_of "'tensor'")
  name ← consume identifier (bytes_of "tensor name")
  consume colon (bytes_of "':'")
  type ← parse_tensor_type f
  pure (tensor_decl name.lexeme type tensor_token.location)

-- The `switch` of `makeBinary`, and the kinds that the three loops over operators accept.
abbrev pub binary_operator : TokenKind → Option BinaryOperator
binary_operator plus = some add
binary_operator minus = some subtract
binary_operator star = some multiply
binary_operator slash = some divide
binary_operator equal_equal = some BinaryOperator.equal
binary_operator bang_equal = some not_equal
binary_operator less = some BinaryOperator.less
binary_operator less_equal = some BinaryOperator.less_equal
binary_operator greater = some BinaryOperator.greater
binary_operator greater_equal = some BinaryOperator.greater_equal
binary_operator _ = none

pub is_comparison : TokenKind → Bool
unfolding kind_eq
is_comparison k =
    ((kind_eq k equal_equal || kind_eq k bang_equal) || (kind_eq k less || kind_eq k less_equal))
    || (kind_eq k greater || kind_eq k greater_equal)

pub is_additive : TokenKind → Bool
unfolding kind_eq
is_additive k = kind_eq k plus || kind_eq k minus

pub is_multiplicative : TokenKind → Bool
unfolding kind_eq
is_multiplicative k = kind_eq k star || kind_eq k slash

module _ {D : Type 0} where
  unfoldable pub make_binary : Expression D → Token → Expression D → Parses (Expression D)
  unfolding throw_parse_error
  make_binary lhs t rhs = elim (binary_operator t.kind) [
    | some op ↦ pure (binary_expr op lhs rhs t.location)
    | none ↦ throw_parse_error t (bytes_of "expected binary operator")
  ]

  -- `while (check(...)) { operatorToken = current_; advance(); e = makeBinary(e, operatorToken,
  -- operand()); }`, the loop of the three levels.
  unfoldable pub binary_loop :
      (TokenKind → Bool) → Parses (Expression D) → ℕ → Expression D → Parses (Expression D)
  unfolding advance make_binary
  binary_loop accepts operand zero lhs p = err out_of_fuel
  binary_loop accepts operand (suc f) lhs p = elim (accepts p.current.kind) [
    | true ↦
        (do rhs ← operand; e ← make_binary lhs p.current rhs; binary_loop accepts operand f e)
          (advance p)
    | false ↦ ok (lhs, p)
  ]

  -- The `while` loop over the arguments behind the first.
  unfoldable pub argument_loop : Parses (Expression D) → ℕ → Parses (Arguments D)
  unfolding check advance
  argument_loop expression zero p = err out_of_fuel
  argument_loop expression (suc f) p = elim (check p comma) [
    | true ↦ (do e ← expression; es ← argument_loop expression f; pure (argument e es)) (advance p)
    | false ↦ ok (no_arguments, p)
  ]

  -- The arguments up to the closing parenthesis.
  unfoldable pub parse_arguments : Parses (Expression D) → ℕ → Parses (Arguments D)
  unfolding check argument_loop
  parse_arguments expression f p = elim (check p right_paren) [
    | true ↦ ok (no_arguments, p)
    | false ↦ (do e ← expression; es ← argument_loop expression f; pure (argument e es)) p
  ]

  -- `parseIdentifierOrCall` behind the identifier.
  unfoldable pub parse_call : Parses (Expression D) → ℕ → Token → Parses (Expression D)
  unfolding check advance consume parse_arguments
  parse_call expression f name p = elim (check p left_paren) [
    | false ↦ ok (identifier_expr name.lexeme name.location, p)
    | true ↦
        (do
          es ← parse_arguments expression f
          consume right_paren (bytes_of "')'")
          pure (call_expr name.lexeme es name.location))
          (advance p)
  ]

  unfoldable pub parse_identifier_or_call : Parses (Expression D) → ℕ → Parses (Expression D)
  unfolding consume parse_call
  parse_identifier_or_call expression f = do
    name ← consume identifier (bytes_of "identifier")
    parse_call expression f name

  unfoldable pub integer_of : Token → Parses (Expression D)
  integer_of t = elim (stoll t.lexeme) [
    | some n ↦ pure (integer_expr n t.location)
    | none ↦ throw_parse_error t (bytes_of "invalid integer literal")
  ]

  -- `std::stod`, which throws on a value out of range, is a parameter: `double` is not modelled.
  module _ (stod : Text → Option D) where
    unfoldable pub float_of : Token → Parses (Expression D)
    float_of t = elim (stod t.lexeme) [
      | some x ↦ pure (float_expr x t.location)
      | none ↦ throw_parse_error t (bytes_of "invalid floating-point literal")
    ]

    -- The `switch` of `parsePrimary` on the kind of the current token.
    unfoldable pub primary_of : TokenKind → Parses (Expression D) → ℕ → Parses (Expression D)
    unfolding parse_identifier_or_call integer_of float_of advance consume throw_parse_error
    primary_of identifier expression f p = parse_identifier_or_call expression f p
    primary_of integer_literal expression f p = integer_of p.current (advance p)
    primary_of float_literal expression f p = float_of p.current (advance p)
    primary_of left_paren expression f p =
        (do e ← expression; consume right_paren (bytes_of "')'"); pure e) (advance p)
    primary_of _ expression f p = throw_parse_error p.current (bytes_of "expected expression") p

    unfoldable pub parse_primary : Parses (Expression D) → ℕ → Parses (Expression D)
    unfolding primary_of
    parse_primary expression f p = primary_of p.current.kind expression f p

    unfoldable pub parse_multiplicative : Parses (Expression D) → ℕ → Parses (Expression D)
    unfolding parse_primary binary_loop is_multiplicative
    parse_multiplicative expression f = do
      e ← parse_primary expression f
      binary_loop is_multiplicative (parse_primary expression f) f e

    unfoldable pub parse_additive : Parses (Expression D) → ℕ → Parses (Expression D)
    unfolding parse_multiplicative binary_loop is_additive
    parse_additive expression f = do
      e ← parse_multiplicative expression f
      binary_loop is_additive (parse_multiplicative expression f) f e

    unfoldable pub parse_comparison : Parses (Expression D) → ℕ → Parses (Expression D)
    unfolding parse_additive binary_loop is_comparison
    parse_comparison expression f = do
      e ← parse_additive expression f
      binary_loop is_comparison (parse_additive expression f) f e

    unfoldable pub parse_expression : ℕ → Parses (Expression D)
    unfolding parse_comparison
    parse_expression zero p = err out_of_fuel
    parse_expression (suc f) p = parse_comparison (parse_expression f) f p

    unfoldable pub parse_assignment : ℕ → Parses (Statement D)
    unfolding consume parse_expression
    parse_assignment f = do
      target ← consume identifier (bytes_of "assignment target")
      consume equal (bytes_of "'='")
      value ← parse_expression f
      pure (assignment target.lexeme value target.location)

    unfoldable pub parse_return_statement : ℕ → Parses (Statement D)
    unfolding consume parse_expression
    parse_return_statement f = do
      return_token ← consume kw_return (bytes_of "'return'")
      value ← parse_expression f
      pure (return_stmt value return_token.location)

    -- The statements of a block, up to its closing brace.
    unfoldable pub block_loop : Parses (Statement D) → ℕ → Parses (Statements D)
    unfolding check throw_parse_error
    block_loop parse_one zero p = err out_of_fuel
    block_loop parse_one (suc f) p = elim (check p right_brace) [
      | true ↦ ok (no_statements, p)
      | false ↦ elim (check p end_of_file) [
        | true ↦ throw_parse_error p.current (bytes_of "expected '}'") p
        | false ↦ (do s ← parse_one; ss ← block_loop parse_one f; pure (statement s ss)) p
      ]
    ]

    unfoldable pub parse_block : Parses (Statement D) → ℕ → Parses (Statements D)
    unfolding consume block_loop
    parse_block parse_one f = do
      consume left_brace (bytes_of "'{'")
      ss ← block_loop parse_one f
      consume right_brace (bytes_of "'}'")
      pure ss

    unfoldable pub parse_if_statement : Parses (Statement D) → ℕ → Parses (Statement D)
    unfolding consume parse_expression parse_block
    parse_if_statement parse_one f = do
      if_token ← consume kw_if (bytes_of "'if'")
      condition ← parse_expression f
      then_statements ← parse_block parse_one f
      consume kw_else (bytes_of "'else'")
      else_statements ← parse_block parse_one f
      pure (if_stmt condition then_statements else_statements if_token.location)

    -- The `switch` of `parseStatement` on the kind of the current token.
    unfoldable pub statement_of : TokenKind → Parses (Statement D) → ℕ → Parses (Statement D)
    unfolding parse_tensor_declaration parse_return_statement parse_if_statement parse_assignment
        throw_parse_error
    statement_of kw_tensor parse_one f p = parse_tensor_declaration f p
    statement_of kw_return parse_one f p = parse_return_statement f p
    statement_of kw_if parse_one f p = parse_if_statement parse_one f p
    statement_of identifier parse_one f p = parse_assignment f p
    statement_of unknown parse_one f p =
        throw_parse_error p.current
          (bytes_of "unknown token '" ++ (p.current.lexeme ++ bytes_of "'")) p
    statement_of _ parse_one f p = throw_parse_error p.current (bytes_of "expected statement") p

    unfoldable pub parse_statement : ℕ → Parses (Statement D)
    unfolding statement_of
    parse_statement zero p = err out_of_fuel
    parse_statement (suc f) p = statement_of p.current.kind (parse_statement f) f p

    -- The `while` loop of `parseProgram`.
    unfoldable pub program_loop : Parses (Statement D) → ℕ → Parses (Statements D)
    unfolding check
    program_loop parse_one zero p = err out_of_fuel
    program_loop parse_one (suc f) p = elim (check p end_of_file) [
      | true ↦ ok (no_statements, p)
      | false ↦ (do s ← parse_one; ss ← program_loop parse_one f; pure (statement s ss)) p
    ]

    unfoldable pub parse_program : ℕ → Parses (Program D)
    unfolding program_loop parse_statement
    parse_program f = do ss ← program_loop (parse_statement f) f; pure (record { statements = ss })
