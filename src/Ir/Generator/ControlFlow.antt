-- ===== src/Ir/Generator/ControlFlow.antt =====
-- The statements and programs of src/ir/IRGenerator.cpp.
use ocelotl_tensor.Base.{
  ℕ, true, false, ◌&&◌, Option, none, some, [], ◌∷◌, Text, bytes_of, list_eq, if◌then◌else◌, ◌==◌,
  get_elem?,
}
use ocelotl_tensor.Base.Maps.{Map, find, emplace, assign, is_some, Iteration}
use ocelotl_tensor.Base.Results.{ok, err, ◌>>=◌}
use ocelotl_tensor.Frontend.Ast.{
  Statement, tensor_decl, assignment, return_stmt, if_stmt, Statements, no_statements, statement,
  Program,
}
use ocelotl_tensor.Semantic.Symbols.{SymbolTable, lookup}
use ocelotl_tensor.Semantic.Analyzer.{i1, is_scalar, same_type}
use ocelotl_tensor.Ir.Module.{tensor_decl_op, phi_op, branch_op, cond_branch_op, return_op, Module}
use ocelotl_tensor.Ir.Verifier.{verify}
use ocelotl_tensor.Ir.Generator.{
  unreachable_statement, path_without_return, condition_not_i1, no_active_block, block_out_of_range,
  unknown_type, duplicate_value, branch_type_mismatch, verification, Generated, ValueInfo,
  IrGenerator, create_block, emit, set_terminator, generate_expression,
}

module _ {D : Type 0} where
  -- `generateTensorDeclaration`; `symbols` is the analyzer's table, as it stands after the whole
  -- program.
  unfoldable pub generate_tensor_declaration :
      SymbolTable → IrGenerator D → Text → Generated (IrGenerator D)
  unfolding lookup emit find emplace
  generate_tensor_declaration symbols g name = elim (lookup symbols name) [
    | none ↦ err (unknown_type name)
    | some symbol ↦ emit g (λ result. tensor_decl_op result name symbol.type) symbol.type >>= λ v.
        if is_some (find name v.1.values)
        then err (duplicate_value name)
        else ok (record v.1 { values = emplace name v.0 v.1.values })
  ]

  -- `generateReturn` behind its value.
  unfoldable pub generate_return : ValueInfo → IrGenerator D → Generated (IrGenerator D)
  unfolding set_terminator
  generate_return v g = elim g.current_block_id [
    | none ↦ err no_active_block
    | some id ↦ elim (get_elem? g.ir.blocks id) [
      | none ↦ err block_out_of_range
      | some _ ↦ ok (record (set_terminator g id (return_op v.value)) { current_block_id = none })
    ]
  ]

  -- The loop of `generateIf` over the values of the first branch that the end block sees.
  unfoldable pub merge_values :
      ℕ → ℕ → Map ValueInfo → Map ValueInfo → IrGenerator D → Generated (IrGenerator D)
  unfolding find same_type emplace emit
  merge_values then_end else_end else_values [] g = ok g
  merge_values then_end else_end else_values ((name, v) ∷ more) g = elim (find name else_values) [
    | none ↦ merge_values then_end else_end else_values more g
    | some w ↦ elim (same_type v.type w.type) [
      | false ↦ err (branch_type_mismatch name)
      | true ↦ elim (v.value == w.value) [
        | true ↦
            merge_values then_end else_end else_values more
              (record g { values = emplace name v g.values })
        | false ↦
            emit g
              (λ result. phi_op result v.type (
                record { predecessor = then_end; value = v.value }
                ∷ record { predecessor = else_end; value = w.value }
                ∷ []))
              v.type
            >>= λ u.
                merge_values then_end else_end else_values more
                  (record u.1 { values = emplace name u.0 u.1.values })
      ]
    ]
  ]

  -- `if (end) module_.blocks[*end].terminator = BranchOp{mergeBlock}`.
  abbrev pub branch_from : Option ℕ → ℕ → IrGenerator D → IrGenerator D
  branch_from none target g = g
  branch_from (some id) target g = set_terminator g id (branch_op target)

  -- `generateIf` behind its branches, whose end blocks are `then_end` and that of `g`.
  unfoldable pub join_branches :
      Iteration
      → Map ValueInfo
      → Option ℕ
      → Map ValueInfo
      → IrGenerator D
      → Generated (IrGenerator D)
  unfolding create_block set_terminator merge_values
  join_branches order before none then_values g = elim g.current_block_id [
    | none ↦ ok (record g { values = before })
    | some else_end ↦
        let (h, merge_block) = create_block g (bytes_of "if.end") in
        ok (record (branch_from (some else_end) merge_block h) {
          current_block_id = some merge_block;
        })
  ]
  join_branches order before (some then_end) then_values g =
      let (h, merge_block) = create_block g (bytes_of "if.end") in
      let joined =
        record (branch_from g.current_block_id merge_block
          (branch_from (some then_end) merge_block h)) { current_block_id = some merge_block } in
      elim g.current_block_id [
        | none ↦ ok (record joined { values = then_values })
        | some else_end ↦
            merge_values then_end else_end g.values (order.arrange ValueInfo then_values)
              (record joined { values = [] })
      ]

  -- `generateIf` from the condition's value to its first branch: the block of the condition ends,
  -- and the first branch is current. The second branch's block is the second result. A statement is
  -- only generated while a block is current, so that `*currentBlockId_` has a value.
  unfoldable pub open_branches : ValueInfo → IrGenerator D → Generated (IrGenerator D × ℕ)
  unfolding same_type create_block set_terminator
  open_branches condition g =
      if list_eq condition.type.element_type i1 && is_scalar condition.type
      then elim g.current_block_id [
        | none ↦ err no_active_block
        | some condition_block ↦
            let (h, then_block) = create_block g (bytes_of "if.then") in
            let (k, else_block) = create_block h (bytes_of "if.else") in
            ok (
              record (set_terminator k condition_block
                  (cond_branch_op condition.value then_block else_block)) {
                    current_block_id = some then_block;
                  },
              else_block,
            )
      ]
      else err condition_not_i1

  abbrev pub cleared : IrGenerator D
  cleared = record {
    ir = record { entry = 0; blocks = [] };
    next_value_id = 0;
    next_block_id = 0;
    current_block_id = none;
    values = [];
  }

  -- The generator with its members reset and the entry block current.
  unfoldable pub entered : IrGenerator D
  unfolding create_block
  entered =
      let (g, entry) = create_block cleared (bytes_of "entry") in
      record g {
        ir = record { entry = entry; blocks = g.ir.blocks };
        current_block_id = some entry;
      }

  -- The test behind the loop: a block that is still current has no terminator.
  unfoldable pub require_return : IrGenerator D → Generated Unit
  require_return g = elim g.current_block_id [
    | none ↦ ok tt
    | some id ↦ elim (get_elem? g.ir.blocks id) [
      | none ↦ err block_out_of_range
      | some block ↦ if is_some block.terminator then ok tt else err path_without_return
    ]
  ]

  abbrev pub require_verified : Module D → Generated Unit
  require_verified ir = elim (verify ir) [ err e ↦ err (verification e) | ok _ ↦ ok tt ]

module _ (order : Iteration) (symbols : SymbolTable) {D : Type 0} where
  unfoldable mutual
    unfolding generate_tensor_declaration generate_return generate_expression open_branches
        join_branches assign

    pub generate_statement : IrGenerator D → Statement D → Generated (IrGenerator D)
    generate_statement g (tensor_decl name _ _) = generate_tensor_declaration symbols g name
    generate_statement g (assignment target value _) = generate_expression g value >>= λ v.
        ok (record v.1 { values = assign target v.0 v.1.values })
    generate_statement g (return_stmt value _) =
        generate_expression g value >>= λ v. generate_return v.0 v.1
    generate_statement g (if_stmt condition then_statements else_statements _) =
        generate_expression g condition >>= λ c. open_branches c.0 c.1 >>= λ opened.
        generate_branch opened.0 then_statements >>= λ t.
        generate_branch (record t { current_block_id = some opened.1; values = opened.0.values })
          else_statements
        >>= λ e. join_branches order opened.0.values t.current_block_id t.values e

    -- The loop of `generateIf` over one branch, which stops behind a return.
    pub generate_branch : IrGenerator D → Statements D → Generated (IrGenerator D)
    generate_branch g no_statements = ok g
    generate_branch g (statement s ss) = elim g.current_block_id [
      | none ↦ ok g
      | some _ ↦ generate_statement g s >>= λ h. generate_branch h ss
    ]

  -- The loop of `generate`, which refuses a statement behind a return.
  unfoldable pub generate_statements : IrGenerator D → Statements D → Generated (IrGenerator D)
  unfolding generate_statement
  generate_statements g no_statements = ok g
  generate_statements g (statement s ss) = elim g.current_block_id [
    | none ↦ err unreachable_statement
    | some _ ↦ generate_statement g s >>= λ h. generate_statements h ss
  ]

  -- `generate`, which resets every member before it reads it.
  unfoldable pub generate : Program D → Generated (Module D)
  unfolding generate_statements entered require_return verify
  generate program = generate_statements entered program.statements >>= λ g.
      require_return g >>= λ _. require_verified g.ir >>= λ _. ok g.ir
