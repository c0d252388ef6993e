-- ===== src/Ir/Generator.antt =====
-- The generator: include/ocelotl/ir/IRGenerator.hpp and src/ir/IRGenerator.cpp. Its members are a
-- record that the methods pass along, except the analyzer, of which it reads only the symbol table;
-- what they throw is an error. `sameType` is the analyzer's, written
-- out again in the source. The statements are in the child.
pub mod ControlFlow
use ocelotl_tensor.Base.{
  ℕ, zero, suc, true, false, ◌&&◌, Option, none, some, List, [], ◌∷◌, ◌++◌, Text, bytes_of, list_eq,
  if◌then◌else◌, ◌==◌, get_elem?,
}
use ocelotl_tensor.Base.Maps.{Map, find, emplace, assign, is_some, Iteration}
use ocelotl_tensor.Base.Results.{Result, ok, err, ◌>>=◌}
use ocelotl_tensor.Frontend.Ast.{
  TensorType, BinaryOperator, add, subtract, multiply, divide, equal, not_equal, less, less_equal,
  greater, greater_equal, Expression, identifier_expr, integer_expr, float_expr, call_expr,
  binary_expr, Arguments, no_arguments, argument, Statement, tensor_decl, assignment, return_stmt,
  if_stmt, Statements, no_statements, statement, Program,
}
use ocelotl_tensor.Semantic.Symbols.{SymbolTable, lookup}
use ocelotl_tensor.Semantic.Analyzer.{scalar, i1, i64, f64, is_scalar, same_type}
use ocelotl_tensor.Ir.Module.{
  add_kind, subtract_kind, multiply_kind, divide_kind, equal_kind, not_equal_kind, less_kind,
  less_equal_kind, greater_kind, greater_equal_kind, Operation, tensor_decl_op, constant_int_op,
  constant_float_op, binary_op, compare_op, phi_op, matmul_op, relu_op, Terminator, branch_op,
  cond_branch_op, return_op, BasicBlock, Module,
}
use ocelotl_tensor.Ir.Verifier.{IrVerificationError, verify}

-- The messages that the generator throws, each with the name in it. The two on ranges are thrown by
-- `std::vector::at`, on the blocks or on a shape, and `verification` passes on what the verifier throws.
pub data GenerationError : Type 0 where
  unreachable_statement path_without_return condition_not_i1 operand_type_mismatch : GenerationError
  no_active_block block_out_of_range shape_out_of_range : GenerationError
  unknown_type duplicate_value unresolved_identifier unsupported_call branch_type_mismatch :
      Text → GenerationError
  verification : IrVerificationError → GenerationError

abbrev pub Generated : Type 0 → Type 0
Generated A = Result GenerationError A

pub record ValueInfo : Type 0 where
  pub value : ℕ
  pub type : TensorType

pub record IrGenerator (D : Type 0) : Type 0 where
  pub ir : Module D
  pub next_value_id : ℕ
  pub next_block_id : ℕ
  pub current_block_id : Option ℕ
  pub values : Map ValueInfo

-- The element at a position is replaced; out of range nothing is.
abbrev pub modify {ℓ} : {A : Type ℓ} → (A → A) → ℕ → List A → List A
modify f i [] = []
modify f zero (x ∷ xs) = f x ∷ xs
modify f (suc i) (x ∷ xs) = x ∷ modify f i xs

-- The `switch` of `generateBinary`, and its `default`.
unfoldable pub binary_operation :
    {D : Type 0} → BinaryOperator → ℕ → ℕ → ℕ → TensorType → Operation D
binary_operation add result lhs rhs type = binary_op result add_kind lhs rhs type
binary_operation subtract result lhs rhs type = binary_op result subtract_kind lhs rhs type
binary_operation multiply result lhs rhs type = binary_op result multiply_kind lhs rhs type
binary_operation divide result lhs rhs type = binary_op result divide_kind lhs rhs type
binary_operation equal result lhs rhs type = compare_op result equal_kind lhs rhs type
binary_operation not_equal result lhs rhs type = compare_op result not_equal_kind lhs rhs type
binary_operation less result lhs rhs type = compare_op result less_kind lhs rhs type
binary_operation less_equal result lhs rhs type = compare_op result less_equal_kind lhs rhs type
binary_operation greater result lhs rhs type = compare_op result greater_kind lhs rhs type
binary_operation greater_equal result lhs rhs type =
    compare_op result greater_equal_kind lhs rhs type

abbrev pub value_type : BinaryOperator → TensorType → TensorType
value_type add type = type
value_type subtract type = type
value_type multiply type = type
value_type divide type = type
value_type _ type = scalar i1

-- `shape.at(i)`.
abbrev pub extent_at : TensorType → ℕ → Generated ℕ
extent_at type i = elim (get_elem? type.shape i) [ none ↦ err shape_out_of_range | some n ↦ ok n ]

module _ {D : Type 0} where
  abbrev pub with_blocks : IrGenerator D → List (BasicBlock D) → IrGenerator D
  with_blocks g blocks = record g { ir = record { entry = g.ir.entry; blocks = blocks } }

  -- `createBlock`: the generator, and the id of the block that it appends.
  unfoldable pub create_block : IrGenerator D → Text → IrGenerator D × ℕ
  create_block g name = (
    record (with_blocks g (
        g.ir.blocks
        ++ record { id = g.next_block_id; name = name; operations = []; terminator = none } ∷ [])) {
          next_block_id = suc g.next_block_id;
        },
    g.next_block_id,
  )

  abbrev pub with_operation : Operation D → BasicBlock D → BasicBlock D
  with_operation operation b = record b { operations = b.operations ++ operation ∷ [] }

  -- `currentBlock().operations.emplace_back(operation)`.
  unfoldable pub emplace_back : IrGenerator D → Operation D → Generated (IrGenerator D)
  emplace_back g operation = elim g.current_block_id [
    | none ↦ err no_active_block
    | some id ↦ elim (get_elem? g.ir.blocks id) [
      | none ↦ err block_out_of_range
      | some _ ↦ ok (with_blocks g (modify (with_operation operation) id g.ir.blocks))
    ]
  ]

  -- `createValue`, and the operation that defines the new value in the current block.
  unfoldable pub emit :
      IrGenerator D → (ℕ → Operation D) → TensorType → Generated (ValueInfo × IrGenerator D)
  unfolding emplace_back
  emit g operation type =
      emplace_back (record g { next_value_id = suc g.next_value_id }) (operation g.next_value_id)
      >>= λ h. ok (record { value = g.next_value_id; type = type }, h)

  abbrev pub with_terminator : Terminator → BasicBlock D → BasicBlock D
  with_terminator terminator b = record b { terminator = some terminator }

  -- `module_.blocks[id].terminator = terminator`; the index is not checked, and is in range here.
  unfoldable pub set_terminator : IrGenerator D → ℕ → Terminator → IrGenerator D
  set_terminator g id terminator =
      with_blocks g (modify (with_terminator terminator) id g.ir.blocks)

  unfoldable pub generate_identifier : IrGenerator D → Text → Generated ValueInfo
  unfolding find
  generate_identifier g name = elim (find name g.values) [
    | none ↦ err (unresolved_identifier name)
    | some v ↦ ok v
  ]

  unfoldable mutual
    unfolding generate_identifier emit binary_operation same_type list_eq

    pub generate_expression : IrGenerator D → Expression D → Generated (ValueInfo × IrGenerator D)
    generate_expression g (identifier_expr name _) = generate_identifier g name >>= λ v. ok (v, g)
    generate_expression g (integer_expr value _) =
        emit g (λ result. constant_int_op result value (scalar i64)) (scalar i64)
    generate_expression g (float_expr value _) =
        emit g (λ result. constant_float_op result value (scalar f64)) (scalar f64)
    generate_expression g (call_expr callee arguments _) = generate_call g callee arguments
    generate_expression g (binary_expr op lhs rhs _) = generate_expression g lhs >>= λ l.
        generate_expression l.1 rhs >>= λ r.
        if same_type l.0.type r.0.type
        then emit r.1 (λ result. binary_operation op result l.0.value r.0.value l.0.type)
            (value_type op l.0.type)
        else err operand_type_mismatch

    -- `call.arguments.size()` is tested by the shape of the arguments.
    pub generate_call : IrGenerator D → Text → Arguments D → Generated (ValueInfo × IrGenerator D)
    generate_call g callee (argument e no_arguments) = elim (list_eq callee (bytes_of "relu")) [
      | true ↦ generate_expression g e >>= λ v.
          emit v.1 (λ result. relu_op result v.0.value v.0.type) v.0.type
      | false ↦ err (unsupported_call callee)
    ]
    generate_call g callee (argument e (argument e' no_arguments)) =
        elim (list_eq callee (bytes_of "matmul")) [
          | true ↦ generate_expression g e >>= λ l. generate_expression l.1 e' >>= λ r.
              extent_at l.0.type 0 >>= λ m. extent_at r.0.type 1 >>= λ n.
              let type : TensorType = record {
                element_type = l.0.type.element_type;
                shape = m ∷ n ∷ [];
              } in
              emit r.1 (λ result. matmul_op result l.0.value r.0.value type) type
          | false ↦ err (unsupported_call callee)
        ]
    generate_call g callee _ = err (unsupported_call callee)
