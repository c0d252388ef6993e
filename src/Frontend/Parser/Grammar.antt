-- ===== src/Frontend/Parser/Grammar.antt =====
-- The grammar of docs/language.md, as relations between the tokens of a phrase and the tree that
-- it stands for. The operators bind at three levels, and group to the left.
use ocelotl_tensor.Base.{
  ◌+◌, ◌-◌, ◌*◌, ◌^◌, ◌<◌, length, [], ℕ, suc, ◌≡◌, List, ◌∷◌, ◌++◌, Option, some, Text,
}
use ocelotl_tensor.Frontend.Token.{
  TokenKind, Token, identifier, integer_literal, float_literal, kw_tensor, kw_return, kw_if,
  kw_else, colon, comma, equal, left_bracket, right_bracket, left_paren, right_paren, left_brace,
  right_brace,
}
use ocelotl_tensor.Frontend.Ast.{
  TensorType, BinaryOperator, add, subtract, multiply, divide, Expression, identifier_expr,
  integer_expr, float_expr, call_expr, binary_expr, Arguments, no_arguments, argument, Statement,
  tensor_decl, assignment, return_stmt, if_stmt, Statements, no_statements, statement,
}

-- The operators and the level that each binds at: `*` and `/` bind more tightly than `+` and `-`,
-- and these than the comparisons.
pub data Operator : ℕ → TokenKind → BinaryOperator → Type 0 where
  times : Operator 1 TokenKind.star multiply
  over : Operator 1 TokenKind.slash divide
  added : Operator 2 TokenKind.plus add
  less_by : Operator 2 TokenKind.minus subtract
  is_equal : Operator 3 TokenKind.equal_equal BinaryOperator.equal
  is_other : Operator 3 TokenKind.bang_equal BinaryOperator.not_equal
  is_less : Operator 3 TokenKind.less BinaryOperator.less
  is_at_most : Operator 3 TokenKind.less_equal BinaryOperator.less_equal
  is_greater : Operator 3 TokenKind.greater BinaryOperator.greater
  is_at_least : Operator 3 TokenKind.greater_equal BinaryOperator.greater_equal

-- The number that decimal digits stand for, each at its place.
unfoldable pub decimal_value : Text → ℕ
decimal_value [] = 0
decimal_value (c ∷ cs) = (c - b'0') * 10 ^ length cs + decimal_value cs

-- A literal stands for a number, which has to be below a bound.
abbrev pub IsNumber : ℕ → Text → ℕ → Type 0
IsNumber bound lexeme n = (decimal_value lexeme ≡ n) × (n < bound)

-- A phrase of level 0 is a primary; one of level n + 1 is one of level n, or a phrase of its own
-- level, an operator of that level and a phrase of level n.
mutual
  pub data Phrase (D : Type 0) (stod : Text → Option D)
      : ℕ → List Token → Expression D → Type 0 where
    name :
        (t : Token)
        → t.kind ≡ identifier
        → Phrase D stod 0 (t ∷ []) (identifier_expr t.lexeme t.location)
    integer :
        (t : Token) (n : ℕ)
        → t.kind ≡ integer_literal
        → IsNumber (2 ^ 63) t.lexeme n
        → Phrase D stod 0 (t ∷ []) (integer_expr n t.location)
    float :
        (t : Token) (x : D)
        → t.kind ≡ float_literal
        → stod t.lexeme ≡ some x
        → Phrase D stod 0 (t ∷ []) (float_expr x t.location)
    parentheses :
        (l r : Token) {ts : List Token} {e : Expression D}
        → l.kind ≡ left_paren
        → r.kind ≡ right_paren
        → Phrase D stod 3 ts e
        → Phrase D stod 0 (l ∷ (ts ++ r ∷ [])) e
    call :
        (t l r : Token) {ts : List Token} {es : Arguments D}
        → t.kind ≡ identifier
        → l.kind ≡ left_paren
        → r.kind ≡ right_paren
        → ArgumentList D stod ts es
        → Phrase D stod 0 (t ∷ l ∷ (ts ++ r ∷ [])) (call_expr t.lexeme es t.location)
    lift :
        {n : ℕ} {ts : List Token} {e : Expression D}
        → Phrase D stod n ts e
        → Phrase D stod (suc n) ts e
    binary :
        {n : ℕ} (t : Token) (op : BinaryOperator) {xs ys : List Token} {a b : Expression D}
        → Operator (suc n) t.kind op
        → Phrase D stod (suc n) xs a
        → Phrase D stod n ys b
        → Phrase D stod (suc n) (xs ++ t ∷ ys) (binary_expr op a b t.location)

  pub data ArgumentList (D : Type 0) (stod : Text → Option D)
      : List Token → Arguments D → Type 0 where
    none_given : ArgumentList D stod [] no_arguments
    given :
        {ts us : List Token} {e : Expression D} {es : Arguments D}
        → Phrase D stod 3 ts e
        → MoreArguments D stod us es
        → ArgumentList D stod (ts ++ us) (argument e es)

  pub data MoreArguments (D : Type 0) (stod : Text → Option D)
      : List Token → Arguments D → Type 0 where
    no_more : MoreArguments D stod [] no_arguments
    one_more :
        (c : Token) {ts us : List Token} {e : Expression D} {es : Arguments D}
        → c.kind ≡ comma
        → Phrase D stod 3 ts e
        → MoreArguments D stod us es
        → MoreArguments D stod (c ∷ (ts ++ us)) (argument e es)

pub data MoreDimensions : List Token → List ℕ → Type 0 where
  no_more : MoreDimensions [] []
  one_more :
      (c t : Token) (n : ℕ) {us : List Token} {ns : List ℕ}
      → c.kind ≡ comma
      → t.kind ≡ integer_literal
      → IsNumber (2 ^ 64) t.lexeme n
      → MoreDimensions us ns
      → MoreDimensions (c ∷ t ∷ us) (n ∷ ns)

pub data TensorTypePhrase : List Token → TensorType → Type 0 where
  tensor_type :
      (element l t r : Token) (n : ℕ) {us : List Token} {ns : List ℕ}
      → element.kind ≡ identifier
      → l.kind ≡ left_bracket
      → t.kind ≡ integer_literal
      → IsNumber (2 ^ 64) t.lexeme n
      → MoreDimensions us ns
      → r.kind ≡ right_bracket
      → TensorTypePhrase
          (element ∷ l ∷ t ∷ (us ++ r ∷ []))
          (record { element_type = element.lexeme; shape = n ∷ ns })

mutual
  pub data Sentence (D : Type 0) (stod : Text → Option D) : List Token → Statement D → Type 0 where
    tensor :
        (t name c : Token) {us : List Token} {type : TensorType}
        → t.kind ≡ kw_tensor
        → name.kind ≡ identifier
        → c.kind ≡ colon
        → TensorTypePhrase us type
        → Sentence D stod (t ∷ name ∷ c ∷ us) (tensor_decl name.lexeme type t.location)
    assigns :
        (target q : Token) {us : List Token} {e : Expression D}
        → target.kind ≡ identifier
        → q.kind ≡ equal
        → Phrase D stod 3 us e
        → Sentence D stod (target ∷ q ∷ us) (assignment target.lexeme e target.location)
    returns :
        (t : Token) {us : List Token} {e : Expression D}
        → t.kind ≡ kw_return
        → Phrase D stod 3 us e
        → Sentence D stod (t ∷ us) (return_stmt e t.location)
    conditional :
        (t k : Token) {cs ts us : List Token} {e : Expression D} {ss os : Statements D}
        → t.kind ≡ kw_if
        → Phrase D stod 3 cs e
        → Block D stod ts ss
        → k.kind ≡ kw_else
        → Block D stod us os
        → Sentence D stod (t ∷ (cs ++ (ts ++ k ∷ us))) (if_stmt e ss os t.location)

  pub data Block (D : Type 0) (stod : Text → Option D) : List Token → Statements D → Type 0 where
    braces :
        (l r : Token) {ts : List Token} {ss : Statements D}
        → l.kind ≡ left_brace
        → Sentences D stod ts ss
        → r.kind ≡ right_brace
        → Block D stod (l ∷ (ts ++ r ∷ [])) ss

  pub data Sentences (D : Type 0) (stod : Text → Option D)
      : List Token → Statements D → Type 0 where
    none_left : Sentences D stod [] no_statements
    next :
        {ts us : List Token} {s : Statement D} {ss : Statements D}
        → Sentence D stod ts s
        → Sentences D stod us ss
        → Sentences D stod (ts ++ us) (statement s ss)
