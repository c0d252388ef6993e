-- ===== src/Semantic/Typing.antt =====
-- The types of expressions as a relation, and `analyzeExpression` of
-- src/semantic/SemanticAnalyzer.cpp as its decision.
use ocelotl_tensor.Base.{
  ℕ, ◌≡◌, ◌↔◌, ◌⊎◌, inl, inr, refl, sym, Bool, true, false, not, ◌&&◌, some, List, [], ◌∷◌, Text,
  bytes_of, list_eq, list_eq→eq, list_eq_refl, if◌then◌else◌, ◌==◌, ==_iff, arith, Bool-cases,
  Option-cases, subst,
}
use ocelotl_tensor.Base.Results.{ok, err, Post, value, error, Post-bind, Post-map, Post-ok}
use ocelotl_tensor.Frontend.Token.{SourceLocation}
use ocelotl_tensor.Frontend.Ast.{
  TensorType, BinaryOperator, add, subtract, multiply, divide, Expression, identifier_expr,
  integer_expr, float_expr, call_expr, binary_expr, Arguments, no_arguments, argument,
}
use ocelotl_tensor.Semantic.Symbols.{Symbol, SymbolTable, lookup}
use ocelotl_tensor.Semantic.Analyzer.{
  SemanticError, Checked, scalar, i1, i64, f64, binary_result, binary_type, matmul_type,
  analyze_identifier, analyze_expression, analyze_relu, analyze_matmul,
}

abbrev pub IsNumeric : Text → Type 0
IsNumeric element = (element ≡ i64) ⊎ (element ≡ f64)

-- The operators that compare, whose result has type i1.
abbrev pub compares : BinaryOperator → Bool
compares add = false
compares subtract = false
compares multiply = false
compares divide = false
compares _ = true

abbrev pub matrix : Text → ℕ → ℕ → TensorType
matrix element m n = record { element_type = element; shape = m ∷ n ∷ [] }

-- A variable has its symbol's type, a literal is a scalar, `relu` keeps the type of its argument,
-- `matmul` takes [m, k] and [k, n] to [m, n] over one element type, and an operator takes two
-- scalars of one numeric type to one of that type, or to i1 if it compares.
pub data HasType {D : Type 0} (symbols : SymbolTable) : Expression D → TensorType → Type 0 where
  variable :
      (name : Text) (at : SourceLocation) (s : Symbol) {t : TensorType}
      → lookup symbols name ≡ some s
      → s.type ≡ t
      → HasType symbols (identifier_expr name at) t
  integer : (n : ℕ) (at : SourceLocation) → HasType symbols (integer_expr n at) (scalar i64)
  float : (x : D) (at : SourceLocation) → HasType symbols (float_expr x at) (scalar f64)
  relu :
      (callee : Text) (at : SourceLocation) {a : Expression D} {t : TensorType}
      → callee ≡ bytes_of "relu"
      → HasType symbols a t
      → HasType symbols (call_expr callee (argument a no_arguments) at) t
  matmul :
      (callee : Text) (at : SourceLocation) (element : Text) (m k n : ℕ) {a b : Expression D}
      → callee ≡ bytes_of "matmul"
      → HasType symbols a (matrix element m k)
      → HasType symbols b (matrix element k n)
      → HasType symbols
          (call_expr callee (argument a (argument b no_arguments)) at)
          (matrix element m n)
  operates :
      (op : BinaryOperator) (at : SourceLocation) (element : Text) {a b : Expression D}
      → IsNumeric element
      → HasType symbols a (scalar element)
      → HasType symbols b (scalar element)
      → HasType symbols (binary_expr op a b at) (scalar (if compares op then i1 else element))

binary_result_lem :
    (op : BinaryOperator) (element : Text)
    → binary_result op (scalar element) ≡ scalar (if compares op then i1 else element)
binary_result_lem add element = refl
binary_result_lem subtract element = refl
binary_result_lem multiply element = refl
binary_result_lem divide element = refl
binary_result_lem _ element = refl

binary_type-scalar :
    (op : BinaryOperator) (element : Text)
    → IsNumeric element
    → binary_type op (scalar element) (scalar element)
      ≡ ok (scalar (if compares op then i1 else element))
unfolding binary_type list_eq
binary_type-scalar op element (inl e) = rw (e, binary_result_lem op i64)
binary_type-scalar op element (inr e) = rw (e, binary_result_lem op f64)

matmul_type-matrix :
    (element : Text) (m k n : ℕ)
    → matmul_type (matrix element m k) (matrix element k n) (m ∷ k ∷ []) (k ∷ n ∷ [])
      ≡ ok (matrix element m n)
unfolding matmul_type
matmul_type-matrix element m k n = rw (list_eq_refl element, (==_iff k k).1 refl)

-- An expression of a type is accepted at that type.
analyze_expression_complete :
    {D : Type 0} {symbols : SymbolTable} {e : Expression D} {t : TensorType}
    → HasType symbols e t
    → analyze_expression symbols e ≡ ok t
unfolding analyze_expression list_eq
analyze_expression_complete (variable name at s h k) = rw (analyze_identifier, h, k)
analyze_expression_complete (integer n at) = refl
analyze_expression_complete (float x at) = refl
analyze_expression_complete (relu callee at h k) = rw (h, analyze_expression_complete k)
analyze_expression_complete (matmul callee at element m k n h ha hb) = rw (
  h,
  analyze_expression_complete ha,
  analyze_expression_complete hb,
  matmul_type-matrix element m k n,
)
analyze_expression_complete (operates op at element num ha hb) = rw (
  analyze_expression_complete ha,
  analyze_expression_complete hb,
  binary_type-scalar op element num,
)

-- What was accepted has the type that was given.
abbrev Sound : {D : Type 0} → SymbolTable → Expression D → Checked TensorType → Type 0
Sound symbols e = Post (HasType symbols e) (λ _. Unit)

IsNumeric-cases :
    (element : Text)
    → (not (list_eq element i64) && not (list_eq element f64)) ≡ false
    → IsNumeric element
IsNumeric-cases element h = elim (Bool-cases (list_eq element i64)) [
  | inl e ↦ inl (list_eq→eq element i64 e)
  | inr e ↦ inr (list_eq→eq element f64 (ground arith))
]

module _ {D : Type 0} (symbols : SymbolTable) where
  -- Behind the operands, whose element types and shapes are taken apart.
  binary_type-Sound :
      (op : BinaryOperator) (at : SourceLocation) (a b : Expression D) (el el' : Text)
      (sh sh' : List ℕ)
      → HasType symbols a (record { element_type = el; shape = sh })
      → HasType symbols b (record { element_type = el'; shape = sh' })
      → Sound symbols (binary_expr op a b at) (
          binary_type op
            (record { element_type = el; shape = sh })
            (record { element_type = el'; shape = sh' }))
  unfolding binary_type
  binary_type-Sound op at a b el el' [] [] ha hb = elim (Bool-cases (list_eq el el')) [
    | inr ne ↦ rw (binary_type, ne) (error tt)
    | inl same ↦ elim (Bool-cases (not (list_eq el i64) && not (list_eq el f64))) [
      | inl other ↦ rw (binary_type, same, other) (error tt)
      | inr num ↦
          rw (binary_type, same, num, binary_result_lem op el)
            (value (
              operates op at el (IsNumeric-cases el num) ha
                (subst (λ x. HasType symbols b (scalar x)) (sym (list_eq→eq el el' same)) hb)))
    ]
  ]
  binary_type-Sound op at a b el el' [] (_ ∷ _) ha hb = error tt
  binary_type-Sound op at a b el el' (_ ∷ _) sh' ha hb = error tt

  matmul_type-Sound :
      (callee : Text) (at : SourceLocation) (a b : Expression D) (el el' : Text) (sh sh' : List ℕ)
      → callee ≡ bytes_of "matmul"
      → HasType symbols a (record { element_type = el; shape = sh })
      → HasType symbols b (record { element_type = el'; shape = sh' })
      → Sound symbols (call_expr callee (argument a (argument b no_arguments)) at) (
          matmul_type
            (record { element_type = el; shape = sh })
            (record { element_type = el'; shape = sh' })
            sh
            sh')
  unfolding matmul_type
  matmul_type-Sound callee at a b el el' (m ∷ k ∷ []) (k' ∷ n ∷ []) h ha hb =
      elim (Bool-cases (list_eq el el')) [
        | inr ne ↦ rw (matmul_type, ne) (error tt)
        | inl same ↦ elim (Bool-cases (k == k')) [
          | inr ne ↦ rw (matmul_type, same, ne) (error tt)
          | inl fits ↦
              rw (matmul_type, same, fits)
                (value (
                  matmul callee at el m k n h ha
                    (rw (list_eq→eq el el' same, (==_iff k k').0 fits) hb)))
        ]
      ]
  matmul_type-Sound callee at a b el el' _ _ h ha hb = error tt

-- The dispatch of `analyzeCall` on its callee.
dispatch-Post :
    {P : TensorType → Type 0} (b c : Bool) (x y : Checked TensorType) (e : SemanticError)
    → (b ≡ true → Post P (λ _. Unit) x)
    → (c ≡ true → Post P (λ _. Unit) y)
    → Post P (λ _. Unit) (elim b [ true ↦ x | false ↦ elim c [ true ↦ y | false ↦ err e ] ])
dispatch-Post true c x y e hx hy = hx refl
dispatch-Post false true x y e hx hy = hy refl
dispatch-Post false false x y e hx hy = error tt

mutual
  unfolding analyze_expression

  analyze_expression-Sound :
      {D : Type 0} (symbols : SymbolTable) (e : Expression D)
      → Sound symbols e (analyze_expression symbols e)
  analyze_expression-Sound symbols (identifier_expr name at) =
      elim (Option-cases (lookup symbols name)) [
        | inl missing ↦ rw (analyze_identifier, missing) (error tt)
        | inr (s, found) ↦ rw (analyze_identifier, found) (value (variable name at s found refl))
      ]
  analyze_expression-Sound symbols (integer_expr n at) = value (integer n at)
  analyze_expression-Sound symbols (float_expr x at) = value (float x at)
  analyze_expression-Sound symbols (call_expr callee args at) =
      dispatch-Post (list_eq callee (bytes_of "relu")) (list_eq callee (bytes_of "matmul")) _ _ _
        (λ r. relu-Sound symbols callee at args (list_eq→eq callee (bytes_of "relu") r))
        (λ m. matmul-Sound symbols callee at args (list_eq→eq callee (bytes_of "matmul") m))
  analyze_expression-Sound symbols (binary_expr op a b at) =
      Post-bind (analyze_expression-Sound symbols a) λ lhs ha.
        Post-bind (analyze_expression-Sound symbols b) λ rhs hb.
          binary_type-Sound symbols op at a b lhs.element_type rhs.element_type lhs.shape rhs.shape
            ha hb

  relu-Sound :
      {D : Type 0} (symbols : SymbolTable) (callee : Text) (at : SourceLocation)
      (args : Arguments D)
      → callee ≡ bytes_of "relu"
      → Sound symbols (call_expr callee args at) (analyze_relu symbols args)
  relu-Sound symbols callee at no_arguments h = error tt
  relu-Sound symbols callee at (argument a no_arguments) h =
      Post-map (λ t k. relu callee at h k) (analyze_expression-Sound symbols a)
  relu-Sound symbols callee at (argument a (argument b r)) h = error tt

  matmul-Sound :
      {D : Type 0} (symbols : SymbolTable) (callee : Text) (at : SourceLocation)
      (args : Arguments D)
      → callee ≡ bytes_of "matmul"
      → Sound symbols (call_expr callee args at) (analyze_matmul symbols args)
  matmul-Sound symbols callee at no_arguments h = error tt
  matmul-Sound symbols callee at (argument a no_arguments) h = error tt
  matmul-Sound symbols callee at (argument a (argument b no_arguments)) h =
      Post-bind (analyze_expression-Sound symbols a) λ lhs ha.
        Post-bind (analyze_expression-Sound symbols b) λ rhs hb.
          matmul_type-Sound symbols callee at a b lhs.element_type rhs.element_type lhs.shape
            rhs.shape h ha hb
  matmul-Sound symbols callee at (argument a (argument b (argument c r))) h = error tt

-- `analyzeExpression` accepts an expression exactly at the type that the relation gives it.
pub analyze_expression-eq-ok_iff :
    {D : Type 0} (symbols : SymbolTable) (e : Expression D) (t : TensorType)
    → (analyze_expression symbols e ≡ ok t) ↔ HasType symbols e t
analyze_expression-eq-ok_iff symbols e t =
    (Post-ok (analyze_expression-Sound symbols e), analyze_expression_complete)
