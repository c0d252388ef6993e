-- ===== src/Semantic/Tests.antt =====
-- The analyzer of src/semantic/SemanticAnalyzer.cpp on concrete programs.
use ocelotl_tensor.Base.{
  ℕ, ◌≡◌, ◌↔◌, ◌⊎◌, refl, false, some, none, [], ◌∷◌, Text, bytes_of, list_eq,
}
use ocelotl_tensor.Base.Maps.{Iteration, find, or_else}
use ocelotl_tensor.Base.Results.{ok}
use ocelotl_tensor.Frontend.Token.{SourceLocation, start_location}
use ocelotl_tensor.Frontend.Ast.{
  Expression, identifier_expr, integer_expr, call_expr, binary_expr, no_arguments, argument,
  assignment, if_stmt, Statements, no_statements, statement, Program, less,
}
use ocelotl_tensor.Semantic.Symbols.{
  Symbol, SymbolTable, empty_table, lookup, declare, lookup-declare,
}
use ocelotl_tensor.Semantic.Analyzer.{
  SemanticAnalyzer, scalar, i64, analyze_expression, analyze_statement, analyze_statements, analyze,
}
use ocelotl_tensor.Semantic.Typing.{HasType, matrix, analyze_expression-eq-ok_iff}
use ocelotl_tensor.Semantic.Scopes.{WellFormed, After}
use ocelotl_tensor.Semantic.Merges.{agreed, clash}
use ocelotl_tensor.Semantic.Statements.{
  analyze_statement-After, analyze-WellFormed, analyze_statement-if,
}

-- The loop over a map may visit its entries as they stand.
abbrev in_order : Iteration
in_order = record {
  arrange = λ V m. m;
  find-arrange = λ V k m d. refl;
  arrange-Distinct = λ V m d. d;
}

abbrev nowhere : SourceLocation
nowhere = start_location

abbrev var : Text → Expression ℕ
var name = identifier_expr name nowhere

abbrev number : ℕ → Expression ℕ
number n = integer_expr n nowhere

abbrev a_symbol : Symbol
a_symbol = record { name = bytes_of "A"; type = matrix (bytes_of "f32") 2 3; location = nowhere }

abbrev table : SymbolTable
table = record { symbols = (bytes_of "A", a_symbol) ∷ [] }

lookup-declare_example :
    lookup (declare table a_symbol).0 (bytes_of "A")
    ≡ or_else (lookup table (bytes_of "A")) (some a_symbol)
unfolding list_eq
lookup-declare_example = lookup-declare table a_symbol (bytes_of "A")

analyze_expression-eq-ok_iff_example :
    (analyze_expression table
        (call_expr (bytes_of "relu") (argument (var (bytes_of "A")) no_arguments) nowhere)
      ≡ ok (matrix (bytes_of "f32") 2 3))
    ↔ HasType table
        (call_expr (bytes_of "relu") (argument (var (bytes_of "A")) no_arguments) nowhere)
        (matrix (bytes_of "f32") 2 3)
analyze_expression-eq-ok_iff_example =
    analyze_expression-eq-ok_iff table
      (call_expr (bytes_of "relu") (argument (var (bytes_of "A")) no_arguments) nowhere)
      (matrix (bytes_of "f32") 2 3)

abbrev start : SemanticAnalyzer
start = record { symbols = empty_table; return_type = none }

start-WellFormed : WellFormed start.symbols
start-WellFormed = record { distinct = tt; named = λ k s e. unfold lookup find in cc e }

abbrev sets : Text → ℕ → Statements ℕ
sets name n = statement (assignment name (number n) nowhere) no_statements

-- if 1 < 2 { Y = 3 } else { Y = 4 }
abbrev condition : Expression ℕ
condition = binary_expr less (number 1) (number 2) nowhere

abbrev y_symbol : Symbol
y_symbol = record { name = bytes_of "Y"; type = scalar i64; location = nowhere }

abbrev joined : SemanticAnalyzer
joined = record { symbols = record { symbols = (bytes_of "Y", y_symbol) ∷ [] }; return_type = none }

if_runs :
    analyze_statement in_order start
      (if_stmt condition (sets (bytes_of "Y") 3) (sets (bytes_of "Y") 4) nowhere)
    ≡ ok joined
unfolding analyze_statement list_eq
if_runs = refl

analyze_statement-After_example : After start joined
analyze_statement-After_example =
    analyze_statement-After in_order start joined
      (if_stmt condition (sets (bytes_of "Y") 3) (sets (bytes_of "Y") 4) nowhere) start-WellFormed
      if_runs

analyze_statement-if_example :
    (x y : SemanticAnalyzer) × (analyze_statements in_order start (sets (bytes_of "Y") 3) ≡ ok x)
    × (analyze_statements in_order (record x { symbols = start.symbols }) (sets (bytes_of "Y") 4)
        ≡ ok y)
    × ((k : Text)
        → lookup joined.symbols k
          ≡ or_else (lookup start.symbols k) (agreed (lookup x.symbols k) (lookup y.symbols k)))
    × ((k : Text)
        → clash (lookup start.symbols k) (lookup x.symbols k) (lookup y.symbols k) ≡ false)
analyze_statement-if_example =
    analyze_statement-if in_order start joined condition (sets (bytes_of "Y") 3)
      (sets (bytes_of "Y") 4) nowhere start-WellFormed if_runs

abbrev program : Program ℕ
program = record {
  statements = statement (assignment (bytes_of "Y") (number 3) nowhere) no_statements;
}

analyze_runs : analyze in_order start program ≡ ok joined
unfolding analyze list_eq
analyze_runs = refl

analyze-WellFormed_example :
    WellFormed joined.symbols
    × ((joined.return_type ≡ none) ⊎ (joined.return_type ≡ some (scalar i64)))
analyze-WellFormed_example = analyze-WellFormed in_order start joined program analyze_runs
