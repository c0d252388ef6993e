-- ===== src/Ir/Tests.antt =====
-- The generator of src/ir/IRGenerator.cpp and the verifier of src/ir/IRVerifier.cpp on concrete
-- programs.
use ocelotl_tensor.Base.{[], ℕ, Text, List, ◌≡◌, refl, some, none, ◌∷◌, bytes_of, list_eq}
use ocelotl_tensor.Base.Maps.{Iteration}
use ocelotl_tensor.Base.Results.{ok, err}
use ocelotl_tensor.Frontend.Token.{SourceLocation, start_location}
use ocelotl_tensor.Frontend.Ast.{
  TensorType, Expression, tensor_decl, identifier_expr, integer_expr, binary_expr, assignment,
  return_stmt, if_stmt, float_expr, call_expr, argument, no_arguments, Statements, no_statements,
  statement, Program, less,
}
use ocelotl_tensor.Semantic.Symbols.{SymbolTable, empty_table}
use ocelotl_tensor.Semantic.Analyzer.{scalar, i64, analyze}
use ocelotl_tensor.Ir.Module.{
  Module, Operation, Terminator, BasicBlock, tensor_decl_op, constant_int_op, compare_op, phi_op,
  less_kind, branch_op, cond_branch_op, return_op,
}
use ocelotl_tensor.Ir.Generator.{
  unresolved_identifier, unknown_type, shape_out_of_range, verification,
}
use ocelotl_tensor.Ir.Generator.ControlFlow.{generate}
use ocelotl_tensor.Ir.Verifier.{verify, inconsistent_returns}
use ocelotl_tensor.Ir.Numbering.{IsFound}
use ocelotl_tensor.Ir.Programs.{IsNumbered, generate-IsNumbered, generate-IsFound}
use ocelotl_tensor.Ir.Validity.{IsGraph, verify-IsGraph}
use ocelotl_tensor.Ir.Valid.Accepting.{IsValid}
use ocelotl_tensor.Ir.Valid.Modules.{generate-IsValid, generate-verified}

-- The loop over a map may visit its entries as they stand.
abbrev as_stored : Iteration
as_stored = record {
  arrange = λ V m. m;
  find-arrange = λ V k m d. refl;
  arrange-Distinct = λ V m d. d;
}

abbrev here : SourceLocation
here = start_location

abbrev int : ℕ → Expression ℕ
int n = integer_expr n here

abbrev y : Expression ℕ
y = identifier_expr (bytes_of "Y") here

abbrev set_y : ℕ → Statements ℕ
set_y n = statement (assignment (bytes_of "Y") (int n) here) no_statements

-- if 1 < 2 { Y = 3 } else { Y = 4 } return Y
abbrev conditional : Program ℕ
conditional = record {
  statements =
      statement (if_stmt (binary_expr less (int 1) (int 2) here) (set_y 3) (set_y 4) here)
        (statement (return_stmt y here) no_statements);
}

abbrev conditional_ir : Module ℕ
conditional_ir = record {
  entry = 0;
  blocks =
      record {
        id = 0;
        name = bytes_of "entry";
        operations =
            constant_int_op 0 1 (scalar i64)
            ∷ constant_int_op 1 2 (scalar i64)
            ∷ compare_op 2 less_kind 0 1 (scalar i64)
            ∷ [];
        terminator = some (cond_branch_op 2 1 2);
      }
      ∷ record {
        id = 1;
        name = bytes_of "if.then";
        operations = constant_int_op 3 3 (scalar i64) ∷ [];
        terminator = some (branch_op 3);
      }
      ∷ record {
        id = 2;
        name = bytes_of "if.else";
        operations = constant_int_op 4 4 (scalar i64) ∷ [];
        terminator = some (branch_op 3);
      }
      ∷ record {
        id = 3;
        name = bytes_of "if.end";
        operations =
            phi_op 5 (scalar i64)
              (record { predecessor = 1; value = 3 } ∷ record { predecessor = 2; value = 4 } ∷ [])
            ∷ [];
        terminator = some (return_op 5);
      }
      ∷ [];
}

conditional_runs : generate as_stored empty_table conditional ≡ ok conditional_ir
unfolding generate list_eq
conditional_runs = refl

generate-IsNumbered_example : IsNumbered conditional_ir
generate-IsNumbered_example =
    generate-IsNumbered as_stored empty_table conditional conditional_ir conditional_runs

generate-IsValid_example : IsValid conditional_ir
generate-IsValid_example =
    generate-IsValid as_stored empty_table conditional conditional_ir conditional_runs

-- if 1 < 2 { return 1 } else { return 2.5 }, in which 7 stands for the number 2.5.
abbrev mixed : Program ℕ
mixed = record {
  statements =
      statement
        (if_stmt (binary_expr less (int 1) (int 2) here)
          (statement (return_stmt (int 1) here) no_statements)
          (statement (return_stmt (float_expr 7 here) here) no_statements) here)
        no_statements;
}

mixed_fails : generate as_stored empty_table mixed ≡ err (verification inconsistent_returns)
unfolding generate list_eq
mixed_fails = refl

generate-verified_example : inconsistent_returns ≡ inconsistent_returns
generate-verified_example =
    generate-verified as_stored empty_table mixed inconsistent_returns mixed_fails

-- return Y
abbrev unbound : Program ℕ
unbound = record { statements = statement (return_stmt y here) no_statements }

unbound_fails : generate as_stored empty_table unbound ≡ err (unresolved_identifier (bytes_of "Y"))
unfolding generate list_eq
unbound_fails = refl

generate-IsFound_example : IsFound (unresolved_identifier (bytes_of "Y"))
generate-IsFound_example =
    generate-IsFound as_stored empty_table unbound (unresolved_identifier (bytes_of "Y"))
      unbound_fails

conditional_verifies : verify conditional_ir ≡ ok tt
unfolding verify list_eq
conditional_verifies = refl

verify-IsGraph_example : IsGraph conditional_ir
verify-IsGraph_example = verify-IsGraph conditional_ir conditional_verifies

-- if 1 < 2 { tensor A<f32>[2] return 1 } else { return 2 }, which the analyzer accepts, and of whose
-- tensor it keeps nothing.
abbrev branch_declaration : Program ℕ
branch_declaration = record {
  statements =
      statement
        (if_stmt (binary_expr less (int 1) (int 2) here)
          (statement
            (tensor_decl (bytes_of "A") (record { element_type = bytes_of "f32"; shape = 2 ∷ [] })
              here)
            (statement (return_stmt (int 1) here) no_statements))
          (statement (return_stmt (int 2) here) no_statements) here)
        no_statements;
}

branch_declaration_is_accepted :
    analyze as_stored (record { symbols = empty_table; return_type = none }) branch_declaration
    ≡ ok (record { symbols = empty_table; return_type = some (scalar i64) })
unfolding analyze list_eq
branch_declaration_is_accepted = refl

branch_declaration_fails :
    generate as_stored empty_table branch_declaration ≡ err (unknown_type (bytes_of "A"))
unfolding generate list_eq
branch_declaration_fails = refl

abbrev vector : ℕ → TensorType
vector n = record { element_type = bytes_of "f32"; shape = n ∷ [] }

-- if 1 < 2 { tensor A<f32>[2] } else { } tensor A<f32>[3] return 1, which the analyzer accepts; the
-- generator gives the first tensor the type of the second.
abbrev declared_twice : Program ℕ
declared_twice = record {
  statements =
      statement
        (if_stmt (binary_expr less (int 1) (int 2) here)
          (statement (tensor_decl (bytes_of "A") (vector 2) here) no_statements) (set_y 4) here)
        (statement (tensor_decl (bytes_of "A") (vector 3) here)
          (statement (return_stmt (int 1) here) no_statements));
}

abbrev declared_twice_table : SymbolTable
declared_twice_table = record {
  symbols = (bytes_of "A", record { name = bytes_of "A"; type = vector 3; location = here }) ∷ [];
}

declared_twice_is_accepted :
    analyze as_stored (record { symbols = empty_table; return_type = none }) declared_twice
    ≡ ok (record { symbols = declared_twice_table; return_type = some (scalar i64) })
unfolding analyze list_eq
declared_twice_is_accepted = refl

abbrev block_ : ℕ → Text → List (Operation ℕ) → Terminator → BasicBlock ℕ
block_ n s os t = record { id = n; name = s; operations = os; terminator = some t }

declared_twice_runs :
    generate as_stored declared_twice_table declared_twice
    ≡ ok (record {
      entry = 0;
      blocks =
          block_ 0
            (bytes_of "entry")
            (constant_int_op 0 1 (scalar i64)
              ∷ constant_int_op 1 2 (scalar i64)
              ∷ compare_op 2 less_kind 0 1 (scalar i64)
              ∷ [])
            (cond_branch_op 2 1 2)
          ∷ block_ 1
              (bytes_of "if.then")
              (tensor_decl_op 3 (bytes_of "A") (vector 3) ∷ [])
              (branch_op 3)
          ∷ block_ 2 (bytes_of "if.else") (constant_int_op 4 4 (scalar i64) ∷ []) (branch_op 3)
          ∷ block_ 3
              (bytes_of "if.end")
              (tensor_decl_op 5 (bytes_of "A") (vector 3) ∷ constant_int_op 6 1 (scalar i64) ∷ [])
              (return_op 6)
          ∷ [];
    })
unfolding generate list_eq
declared_twice_runs = refl

abbrev square : TensorType
square = record { element_type = bytes_of "f32"; shape = 2 ∷ 2 ∷ [] }

abbrev a : Expression ℕ
a = identifier_expr (bytes_of "A") here

abbrev set_b : Statements ℕ
set_b =
    statement
      (assignment (bytes_of "B")
        (call_expr (bytes_of "matmul") (argument a (argument a no_arguments)) here) here)
      no_statements

-- if 1 < 2 { tensor A: f32[2, 2] B = matmul(A, A) } else { Y = 4 } tensor A: f32[3] return 1, which
-- the analyzer accepts; the generator takes the operands to have the shape [3].
abbrev product_of_square : Program ℕ
product_of_square = record {
  statements =
      statement
        (if_stmt (binary_expr less (int 1) (int 2) here)
          (statement (tensor_decl (bytes_of "A") square here) set_b) (set_y 4) here)
        (statement (tensor_decl (bytes_of "A") (vector 3) here)
          (statement (return_stmt (int 1) here) no_statements));
}

product_of_square_is_accepted :
    analyze as_stored (record { symbols = empty_table; return_type = none }) product_of_square
    ≡ ok (record { symbols = declared_twice_table; return_type = some (scalar i64) })
unfolding analyze list_eq
product_of_square_is_accepted = refl

product_of_square_fails :
    generate as_stored declared_twice_table product_of_square ≡ err shape_out_of_range
unfolding generate list_eq
product_of_square_fails = refl
