-- ===== src/Frontend/Ast.antt =====
-- Syntax trees: include/ocelotl/ast/AST.hpp. `D` is the type `double`. A `shared_ptr` in a tree is
-- the node itself, so that there is no null node; a vector of nodes is a type of the block.
use ocelotl_tensor.Base.{ℕ, List, Text}
use ocelotl_tensor.Frontend.Token.{SourceLocation}

-- `ast::TensorType`, and `sema::TensorType`, which has the same fields.
pub record TensorType : Type 0 where
  pub element_type : Text
  pub shape : List ℕ

pub data BinaryOperator : Type 0 where
  add subtract multiply divide : BinaryOperator
  equal not_equal less less_equal greater greater_equal : BinaryOperator

-- An integer literal has no sign, so its `std::int64_t` is a number below 2 ^ 63.
mutual
  pub data Expression (D : Type 0) : Type 0 where
    identifier_expr : Text → SourceLocation → Expression D
    integer_expr : ℕ → SourceLocation → Expression D
    float_expr : D → SourceLocation → Expression D
    call_expr : Text → Arguments D → SourceLocation → Expression D
    binary_expr : BinaryOperator → Expression D → Expression D → SourceLocation → Expression D

  pub data Arguments (D : Type 0) : Type 0 where
    no_arguments : Arguments D
    argument : Expression D → Arguments D → Arguments D

mutual
  pub data Statement (D : Type 0) : Type 0 where
    tensor_decl : Text → TensorType → SourceLocation → Statement D
    assignment : Text → Expression D → SourceLocation → Statement D
    return_stmt : Expression D → SourceLocation → Statement D
    if_stmt : Expression D → Statements D → Statements D → SourceLocation → Statement D

  pub data Statements (D : Type 0) : Type 0 where
    no_statements : Statements D
    statement : Statement D → Statements D → Statements D

pub record Program (D : Type 0) : Type 0 where
  pub statements : Statements D
