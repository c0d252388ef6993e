-- ===== src/Ir/Verifier.antt =====
-- The verifier: include/ocelotl/ir/IRVerifier.hpp and src/ir/IRVerifier.cpp. It keeps no state. A
-- `std::unordered_map` with id keys is a list of entries, a `std::set` of ids the list of its
-- members.
use ocelotl_tensor.Base.{
  ℕ, suc, Bool, true, false, not, ◌&&◌, ◌||◌, Option, none, some, List, [], ◌∷◌, Text,
  if◌then◌else◌, ◌==◌, leb, all,
}
use ocelotl_tensor.Base.Maps.{is_some}
use ocelotl_tensor.Base.Results.{Result, ok, err, ◌>>=◌}
use ocelotl_tensor.Frontend.Ast.{TensorType}
use ocelotl_tensor.Semantic.Analyzer.{scalar, i1, same_type}
use ocelotl_tensor.Ir.Module.{
  PhiIncoming, Operation, binary_op, compare_op, phi_op, matmul_op, relu_op, Terminator, branch_op,
  cond_branch_op, return_op, BasicBlock, Module, result_of, type_of,
}

-- The messages of `IRVerificationError`, each with what it names.
pub data IrVerificationError : Type 0 where
  no_basic_blocks entry_missing duplicate_predecessor : IrVerificationError
  condition_not_i1 inconsistent_returns no_return : IrVerificationError
  duplicate_block no_such_block multiple_definitions no_such_value type_mismatch :
      ℕ → IrVerificationError
  used_before : ℕ → IrVerificationError
  no_terminator late_phi predecessor_mismatch : Text → IrVerificationError

abbrev pub Verified : Type 0 → Type 0
Verified A = Result IrVerificationError A

pub record Definition : Type 0 where
  pub block : ℕ
  pub operation_index : ℕ
  pub type : TensorType

-- A map with id keys.
abbrev pub IdMap : Type 0 → Type 0
IdMap V = List (ℕ × V)

module _ {V : Type 0} where
  unfoldable pub find_id : ℕ → IdMap V → Option V
  find_id k [] = none
  find_id k ((j, v) ∷ m) = if j == k then some v else find_id k m

-- Membership in a set of ids, `insert` and `==` of two sets.
unfoldable pub has_id : ℕ → List ℕ → Bool
has_id k [] = false
has_id k (j ∷ s) = if j == k then true else has_id k s

unfoldable pub insert_id : ℕ → List ℕ → List ℕ
unfolding has_id
insert_id k s = if has_id k s then s else k ∷ s

unfoldable pub same_ids : List ℕ → List ℕ → Bool
unfolding has_id
same_ids s t = all (λ k. has_id k t) s && all (λ k. has_id k s) t

-- `predecessors[target].insert(block)`, where a missing entry is an empty set.
unfoldable pub predecessors_of : ℕ → IdMap (List ℕ) → List ℕ
predecessors_of k [] = []
predecessors_of k ((j, s) ∷ m) = if j == k then s else predecessors_of k m

unfoldable pub insert_predecessor : ℕ → ℕ → IdMap (List ℕ) → IdMap (List ℕ)
unfolding insert_id
insert_predecessor target block [] = (target, block ∷ []) ∷ []
insert_predecessor target block ((j, s) ∷ m) =
    if j == target then (j, insert_id block s) ∷ m else (j, s) ∷ insert_predecessor target block m

module _ {D : Type 0} where
  abbrev pub is_phi : Operation D → Bool
  is_phi (phi_op _ _ _) = true
  is_phi _ = false

  -- The loop over the operations of a block that defines their results.
  unfoldable pub define_operations :
      BasicBlock D → Bool → ℕ → List (Operation D) → IdMap Definition → Verified (IdMap Definition)
  unfolding find_id
  define_operations block saw_non_phi index [] definitions = ok definitions
  define_operations block saw_non_phi index (operation ∷ operations) definitions =
      if is_phi operation && saw_non_phi
      then err (late_phi block.name)
      else (if is_some (find_id (result_of operation) definitions)
          then err (multiple_definitions (result_of operation))
          else define_operations block (saw_non_phi || not (is_phi operation)) (suc index)
              operations
              ((
                result_of operation,
                record { block = block.id; operation_index = index; type = type_of operation },
              )
                ∷ definitions))

  -- The first loop over the blocks.
  unfoldable pub define_blocks :
      List (BasicBlock D) → List ℕ → IdMap Definition → Verified (List ℕ × IdMap Definition)
  unfolding has_id define_operations
  define_blocks [] blocks definitions = ok (blocks, definitions)
  define_blocks (block ∷ rest) blocks definitions =
      if has_id block.id blocks
      then err (duplicate_block block.id)
      else (if is_some block.terminator
          then (define_operations block false 0 block.operations definitions >>= λ defined.
              define_blocks rest (block.id ∷ blocks) defined)
          else err (no_terminator block.name))

abbrev pub require_block : List ℕ → ℕ → Verified Unit
require_block blocks id = if has_id id blocks then ok tt else err (no_such_block id)

-- The edges of one terminator; a block without one has failed before.
unfoldable pub add_edges :
    List ℕ → ℕ → Option Terminator → IdMap (List ℕ) → Verified (IdMap (List ℕ))
unfolding has_id insert_predecessor
add_edges blocks id (some (branch_op target)) predecessors =
    require_block blocks target >>= λ _. ok (insert_predecessor target id predecessors)
add_edges blocks id (some (cond_branch_op _ true_target false_target)) predecessors =
    require_block blocks true_target >>= λ _. require_block blocks false_target >>= λ _.
    ok (insert_predecessor false_target id (insert_predecessor true_target id predecessors))
add_edges blocks id _ predecessors = ok predecessors

module _ {D : Type 0} where
  unfoldable pub find_predecessors :
      List ℕ → List (BasicBlock D) → IdMap (List ℕ) → Verified (IdMap (List ℕ))
  unfolding add_edges
  find_predecessors blocks [] predecessors = ok predecessors
  find_predecessors blocks (block ∷ rest) predecessors =
      add_edges blocks block.id block.terminator predecessors >>= λ more.
      find_predecessors blocks rest more

unfoldable pub require_value : IdMap Definition → ℕ → Verified Definition
unfolding find_id
require_value definitions value = elim (find_id value definitions) [
  | none ↦ err (no_such_value value)
  | some definition ↦ ok definition
]

unfoldable pub require_operand : IdMap Definition → ℕ → TensorType → ℕ → ℕ → Verified Unit
unfolding require_value same_type
require_operand definitions value type use_block use_index =
    require_value definitions value >>= λ definition.
    if same_type definition.type type
    then (if definition.block == use_block && leb use_index definition.operation_index
        then err (used_before value)
        else ok tt)
    else err (type_mismatch value)

-- The loop over the incoming values of a phi, with the set of its predecessors so far.
unfoldable pub check_incoming :
    IdMap Definition → TensorType → ℕ → ℕ → List PhiIncoming → List ℕ → Verified (List ℕ)
unfolding require_operand has_id insert_id
check_incoming definitions type block index [] seen = ok seen
check_incoming definitions type block index (incoming ∷ rest) seen =
    require_operand definitions incoming.value type block index >>= λ _.
    if has_id incoming.predecessor seen
    then err duplicate_predecessor
    else check_incoming definitions type block index rest (incoming.predecessor ∷ seen)

module _ {D : Type 0} where
  unfoldable pub check_operation :
      IdMap Definition → IdMap (List ℕ) → BasicBlock D → ℕ → Operation D → Verified Unit
  unfolding require_operand require_value check_incoming same_ids predecessors_of
  check_operation definitions predecessors block index (binary_op _ _ lhs rhs type) =
      require_operand definitions lhs type block.id index >>= λ _.
      require_operand definitions rhs type block.id index
  check_operation definitions predecessors block index (compare_op _ _ lhs rhs type) =
      require_operand definitions lhs type block.id index >>= λ _.
      require_operand definitions rhs type block.id index
  check_operation definitions predecessors block index (phi_op _ type incoming) =
      check_incoming definitions type block.id index incoming [] >>= λ seen.
      if same_ids seen (predecessors_of block.id predecessors)
      then ok tt
      else err (predecessor_mismatch block.name)
  check_operation definitions predecessors block index (matmul_op _ lhs rhs _) =
      require_value definitions lhs >>= λ _. require_value definitions rhs >>= λ _. ok tt
  check_operation definitions predecessors block index (relu_op _ input _) =
      require_value definitions input >>= λ _. ok tt
  check_operation definitions predecessors block index _ = ok tt

  unfoldable pub check_operations :
      IdMap Definition → IdMap (List ℕ) → BasicBlock D → ℕ → List (Operation D) → Verified Unit
  unfolding check_operation
  check_operations definitions predecessors block index [] = ok tt
  check_operations definitions predecessors block index (operation ∷ operations) =
      check_operation definitions predecessors block index operation >>= λ _.
      check_operations definitions predecessors block (suc index) operations

-- The operands of a terminator; a return gives the type of the returns from then on.
unfoldable pub check_terminator :
    IdMap Definition → Option Terminator → Option TensorType → Verified (Option TensorType)
unfolding require_value same_type
check_terminator definitions (some (cond_branch_op condition _ _)) return_type =
    require_value definitions condition >>= λ definition.
    if same_type definition.type (scalar i1) then ok return_type else err condition_not_i1
check_terminator definitions (some (return_op value)) none =
    require_value definitions value >>= λ definition. ok (some definition.type)
check_terminator definitions (some (return_op value)) (some type) =
    require_value definitions value >>= λ definition.
    if same_type type definition.type then ok (some definition.type) else err inconsistent_returns
check_terminator definitions _ return_type = ok return_type

module _ {D : Type 0} where
  -- The last loop over the blocks.
  unfoldable pub check_blocks :
      IdMap Definition
      → IdMap (List ℕ)
      → List (BasicBlock D)
      → Option TensorType
      → Verified (Option TensorType)
  unfolding check_operations check_terminator
  check_blocks definitions predecessors [] return_type = ok return_type
  check_blocks definitions predecessors (block ∷ rest) return_type =
      check_operations definitions predecessors block 0 block.operations >>= λ _.
      check_terminator definitions block.terminator return_type >>= λ found.
      check_blocks definitions predecessors rest found

  -- What `verify` does behind its first loop.
  unfoldable pub verify_graph : Module D → List ℕ → IdMap Definition → Verified Unit
  unfolding has_id find_predecessors check_blocks
  verify_graph m blocks definitions =
      if has_id m.entry blocks
      then (find_predecessors blocks m.blocks [] >>= λ predecessors.
          check_blocks definitions predecessors m.blocks none >>= λ return_type.
          if is_some return_type then ok tt else err no_return)
      else err entry_missing

  unfoldable pub verify : Module D → Verified Unit
  unfolding define_blocks verify_graph
  verify m = elim m.blocks [
    | [] ↦ err no_basic_blocks
    | _ ∷ _ ↦ define_blocks m.blocks [] [] >>= λ p. verify_graph m p.0 p.1
  ]
