-- ===== src/Semantic/Analyzer.antt =====
-- The analyzer: include/ocelotl/semantic/SemanticAnalyzer.hpp and
-- src/semantic/SemanticAnalyzer.cpp. What the methods read and write, `symbols_` and
-- `returnType_`, is passed along; what they throw is an error, and with it the state is gone, as
-- the compiler's driver gives up on it.
use ocelotl_tensor.Base.{
  ℕ, Bool, true, false, not, ◌&&◌, ◌||◌, Option, none, some, List, [], ◌∷◌, ◌++◌, Text, bytes_of,
  list_eq, if◌then◌else◌, ◌==◌,
}
use ocelotl_tensor.Base.Results.{Result, ok, err, ◌>>=◌}
use ocelotl_tensor.Base.Maps.{Map, Iteration}
use ocelotl_tensor.Frontend.Token.{SourceLocation, start_location}
use ocelotl_tensor.Frontend.Ast.{
  TensorType, BinaryOperator, add, subtract, multiply, divide, Expression, identifier_expr,
  integer_expr, float_expr, call_expr, binary_expr, Arguments, no_arguments, argument, Statement,
  tensor_decl, assignment, return_stmt, if_stmt, Statements, no_statements, statement, Program,
}
use ocelotl_tensor.Semantic.Symbols.{
  Symbol, SymbolTable, empty_table, lookup, contains, declare, entries,
}

-- The texts of `SemanticError`, with a location where `makeLocationPrefix` puts one in front; the
-- message on incompatible dimensions keeps its four numbers as they are.
pub data SemanticError : Type 0 where
  plain : Text → SemanticError
  located : SourceLocation → Text → SemanticError
  incompatible_dimensions : ℕ → ℕ → ℕ → ℕ → SemanticError

abbrev pub Checked {ℓ} : Type ℓ → Type ℓ
Checked A = Result SemanticError A

abbrev pub quoted : Text → Text
quoted name = bytes_of "'" ++ (name ++ bytes_of "'")

abbrev pub is_scalar : TensorType → Bool
is_scalar t = elim t.shape [ [] ↦ true | _ ↦ false ]

-- The element types and the shapes are equal.
unfoldable pub same_type : TensorType → TensorType → Bool
same_type a b = list_eq a.element_type b.element_type && list_eq a.shape b.shape

abbrev pub scalar : Text → TensorType
scalar element = record { element_type = element; shape = [] }

-- The element types that the analyzer names.
abbrev pub i1 : Text
i1 = bytes_of "i1"

abbrev pub i64 : Text
i64 = bytes_of "i64"

abbrev pub f64 : Text
f64 = bytes_of "f64"

-- The `switch` at the end of `analyzeBinary`.
abbrev pub binary_result : BinaryOperator → TensorType → TensorType
binary_result add lhs = lhs
binary_result subtract lhs = lhs
binary_result multiply lhs = lhs
binary_result divide lhs = lhs
binary_result _ lhs = scalar i1

-- `analyzeBinary` behind its operands.
unfoldable pub binary_type : BinaryOperator → TensorType → TensorType → Checked TensorType
binary_type op lhs rhs =
    if not (is_scalar lhs) || not (is_scalar rhs)
    then err (plain (bytes_of "scalar binary operator requires scalar operands"))
    else if not (list_eq lhs.element_type rhs.element_type)
    then err (plain (bytes_of "binary operator requires matching operand types"))
    else if not (list_eq lhs.element_type i64) && not (list_eq lhs.element_type f64)
    then err (plain (bytes_of "binary operator requires numeric operands"))
    else ok (binary_result op lhs)

-- The `matmul` branch of `analyzeCall` behind its operands, for two shapes.
unfoldable pub matmul_type : TensorType → TensorType → List ℕ → List ℕ → Checked TensorType
matmul_type lhs rhs (m ∷ k ∷ []) (k' ∷ n ∷ []) =
    if not (list_eq lhs.element_type rhs.element_type)
    then err (plain (bytes_of "matmul requires matching element types"))
    else if not (k == k')
    then err (incompatible_dimensions m k k' n)
    else ok (record { element_type = lhs.element_type; shape = m ∷ n ∷ [] })
matmul_type lhs rhs _ _ = err (plain (bytes_of "matmul requires rank-2 tensors"))

unfoldable pub analyze_identifier : SymbolTable → Text → Checked TensorType
unfolding lookup
analyze_identifier symbols name = elim (lookup symbols name) [
  | none ↦ err (plain (bytes_of "use of undeclared identifier " ++ quoted name))
  | some s ↦ ok s.type
]

-- A tree from the parser holds no null pointer, so the guards against one have no case.
unfoldable mutual
  unfolding analyze_identifier binary_type matmul_type

  pub analyze_expression : {D : Type 0} → SymbolTable → Expression D → Checked TensorType
  analyze_expression symbols (identifier_expr name at) = analyze_identifier symbols name
  analyze_expression symbols (integer_expr n at) = ok (scalar i64)
  analyze_expression symbols (float_expr x at) = ok (scalar f64)
  analyze_expression symbols (call_expr callee args at) = elim (list_eq callee (bytes_of "relu")) [
    | true ↦ analyze_relu symbols args
    | false ↦ elim (list_eq callee (bytes_of "matmul")) [
      | true ↦ analyze_matmul symbols args
      | false ↦ err (plain (bytes_of "unknown operation " ++ quoted callee))
    ]
  ]
  analyze_expression symbols (binary_expr op a b at) = analyze_expression symbols a >>= λ lhs.
      analyze_expression symbols b >>= λ rhs. binary_type op lhs rhs

  pub analyze_relu : {D : Type 0} → SymbolTable → Arguments D → Checked TensorType
  analyze_relu symbols (argument e no_arguments) = analyze_expression symbols e
  analyze_relu symbols _ = err (plain (bytes_of "relu expects exactly 1 argument"))

  pub analyze_matmul : {D : Type 0} → SymbolTable → Arguments D → Checked TensorType
  analyze_matmul symbols (argument a (argument b no_arguments)) =
      analyze_expression symbols a >>= λ lhs.
      analyze_expression symbols b >>= λ rhs. matmul_type lhs rhs lhs.shape rhs.shape
  analyze_matmul symbols _ = err (plain (bytes_of "matmul expects exactly 2 arguments"))

pub record SemanticAnalyzer : Type 0 where
  pub symbols : SymbolTable
  pub return_type : Option TensorType

unfoldable pub analyze_tensor_declaration :
    SemanticAnalyzer → Text → TensorType → SourceLocation → Checked SemanticAnalyzer
unfolding declare
analyze_tensor_declaration a name type at =
    let (table, inserted) =
      declare a.symbols (record { name = name; type = type; location = at }) in
    if inserted
    then ok (record a { symbols = table })
    else err (located at (bytes_of "redeclaration of symbol " ++ quoted name))

-- `analyzeAssignment` behind its right-hand side.
unfoldable pub assign_symbol : SemanticAnalyzer → Text → TensorType → Checked SemanticAnalyzer
unfolding lookup declare
assign_symbol a target inferred = elim (lookup a.symbols target) [
  | some existing ↦
      if not (list_eq existing.type.element_type inferred.element_type)
      then err (plain (bytes_of "assignment type mismatch for symbol " ++ quoted target))
      else if not (list_eq existing.type.shape inferred.shape)
      then err (plain (bytes_of "assignment shape mismatch for symbol " ++ quoted target))
      else ok a
  | none ↦
      let (table, inserted) =
        declare a.symbols (record { name = target; type = inferred; location = start_location }) in
      if inserted
      then ok (record a { symbols = table })
      else err (plain (bytes_of "failed to introduce symbol " ++ quoted target))
]

-- `analyzeReturn` behind its value.
unfoldable pub return_value :
    SemanticAnalyzer → TensorType → SourceLocation → Checked SemanticAnalyzer
unfolding same_type
return_value a type at =
    let mismatch : Bool = elim a.return_type [ none ↦ false | some t ↦ not (same_type t type) ] in
    if mismatch
    then err (plain (bytes_of "return type mismatch"))
    else if not (list_eq type.element_type i64) || not (is_scalar type)
    then err (located at (bytes_of "top-level return must have scalar i64 type"))
    else ok (record a { return_type = some type })

-- The loop of `analyzeIf` over the symbols of the first branch.
unfoldable pub merge_symbols :
    SymbolTable → SymbolTable → Map Symbol → SymbolTable → Checked SymbolTable
unfolding contains lookup declare same_type
merge_symbols before else_symbols [] into = ok into
merge_symbols before else_symbols ((name, then_symbol) ∷ more) into = elim (contains before name) [
  | true ↦ merge_symbols before else_symbols more into
  | false ↦ elim (lookup else_symbols name) [
    | none ↦ merge_symbols before else_symbols more into
    | some else_symbol ↦ elim (same_type then_symbol.type else_symbol.type) [
      | false ↦ err (plain (bytes_of "branch type mismatch for symbol " ++ quoted name))
      | true ↦ merge_symbols before else_symbols more (declare into then_symbol).0
    ]
  ]
]

-- `analyzeIf` behind its branches: `a` is the analyzer as the second branch leaves it.
unfoldable pub merge_branches :
    Iteration → SymbolTable → SymbolTable → SemanticAnalyzer → Checked SemanticAnalyzer
unfolding merge_symbols
merge_branches order before then_symbols a =
    merge_symbols before a.symbols (order.arrange Symbol (entries then_symbols)) before >>= λ table.
    ok (record a { symbols = table })

module _ (order : Iteration) {D : Type 0} where
  unfoldable mutual
    unfolding analyze_tensor_declaration assign_symbol return_value analyze_expression
        merge_branches

    pub analyze_statement : SemanticAnalyzer → Statement D → Checked SemanticAnalyzer
    analyze_statement a (tensor_decl name type at) = analyze_tensor_declaration a name type at
    analyze_statement a (assignment target value at) =
        analyze_expression a.symbols value >>= λ inferred. assign_symbol a target inferred
    analyze_statement a (return_stmt value at) =
        analyze_expression a.symbols value >>= λ type. return_value a type at
    analyze_statement a (if_stmt condition then_statements else_statements at) =
        analyze_expression a.symbols condition >>= λ type.
        elim (not (list_eq type.element_type i1) || not (is_scalar type)) [
          | true ↦ err (located at (bytes_of "if condition must have type i1"))
          | false ↦ analyze_statements a then_statements >>= λ b.
              analyze_statements (record b { symbols = a.symbols }) else_statements >>= λ c.
              merge_branches order a.symbols b.symbols c
        ]

    pub analyze_statements : SemanticAnalyzer → Statements D → Checked SemanticAnalyzer
    analyze_statements a no_statements = ok a
    analyze_statements a (statement s ss) = analyze_statement a s >>= λ b. analyze_statements b ss

  -- `analyze`, which clears what an earlier call has left.
  unfoldable pub analyze : SemanticAnalyzer → Program D → Checked SemanticAnalyzer
  unfolding analyze_statements
  analyze old program =
      analyze_statements (record { symbols = empty_table; return_type = none }) program.statements
