-- ===== src/Ir/Module.antt =====
-- The intermediate representation: include/ocelotl/ir/IR.hpp and src/ir/IR.cpp. Ids are positions
-- and counts of objects in memory, so they stay below 2 ^ 64. `D` is the type `double`.
use ocelotl_tensor.Base.{ℕ, List, Option, Text}
use ocelotl_tensor.Frontend.Ast.{TensorType}
use ocelotl_tensor.Semantic.Analyzer.{scalar, i1}

pub data BinaryKind : Type 0 where
  add_kind subtract_kind multiply_kind divide_kind : BinaryKind

pub data CompareKind : Type 0 where
  equal_kind not_equal_kind less_kind less_equal_kind greater_kind greater_equal_kind : CompareKind

pub record PhiIncoming : Type 0 where
  pub predecessor : ℕ
  pub value : ℕ

-- The fields in the order of the source, the result first.
pub data Operation (D : Type 0) : Type 0 where
  tensor_decl_op : ℕ → Text → TensorType → Operation D
  constant_int_op : ℕ → ℕ → TensorType → Operation D
  constant_float_op : ℕ → D → TensorType → Operation D
  binary_op : ℕ → BinaryKind → ℕ → ℕ → TensorType → Operation D
  compare_op : ℕ → CompareKind → ℕ → ℕ → TensorType → Operation D
  phi_op : ℕ → TensorType → List PhiIncoming → Operation D
  matmul_op : ℕ → ℕ → ℕ → TensorType → Operation D
  relu_op : ℕ → ℕ → TensorType → Operation D

pub data Terminator : Type 0 where
  branch_op : ℕ → Terminator
  cond_branch_op : ℕ → ℕ → ℕ → Terminator
  return_op : ℕ → Terminator

pub record BasicBlock (D : Type 0) : Type 0 where
  pub id : ℕ
  pub name : Text
  pub operations : List (Operation D)
  pub terminator : Option Terminator

pub record Module (D : Type 0) : Type 0 where
  pub entry : ℕ
  pub blocks : List (BasicBlock D)

module _ {D : Type 0} where
  abbrev pub result_of : Operation D → ℕ
  result_of (tensor_decl_op result _ _) = result
  result_of (constant_int_op result _ _) = result
  result_of (constant_float_op result _ _) = result
  result_of (binary_op result _ _ _ _) = result
  result_of (compare_op result _ _ _ _) = result
  result_of (phi_op result _ _) = result
  result_of (matmul_op result _ _ _) = result
  result_of (relu_op result _ _) = result

  -- A comparison carries the type of its operands.
  abbrev pub type_of : Operation D → TensorType
  type_of (tensor_decl_op _ _ type) = type
  type_of (constant_int_op _ _ type) = type
  type_of (constant_float_op _ _ type) = type
  type_of (binary_op _ _ _ _ type) = type
  type_of (compare_op _ _ _ _ _) = scalar i1
  type_of (phi_op _ type _) = type
  type_of (matmul_op _ _ _ type) = type
  type_of (relu_op _ _ type) = type
