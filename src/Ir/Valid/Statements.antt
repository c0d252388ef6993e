-- ===== src/Ir/Valid/Statements.antt =====
-- The statements of src/ir/IRGenerator.cpp, each on a valid list of blocks.
use ocelotl_tensor.Base.{
  ℕ, suc, ◌≡◌, inl, inr, refl, Bool, true, false, none, some, length, Text, Option-cases,
  if◌then◌else◌,
}
use ocelotl_tensor.Base.Maps.{assign, emplace, emplace-Distinct, Iteration}
use ocelotl_tensor.Base.Results.{ok, err, Post, value, error, Post-bind, Post-map, ◌>>=◌}
use ocelotl_tensor.Frontend.Ast.{
  Statement, tensor_decl, assignment, return_stmt, if_stmt, Statements, no_statements, statement,
}
use ocelotl_tensor.Semantic.Symbols.{SymbolTable, lookup}
use ocelotl_tensor.Ir.Module.{tensor_decl_op}
use ocelotl_tensor.Ir.Generator.{GenerationError, duplicate_value, IrGenerator}
use ocelotl_tensor.Ir.Generator.ControlFlow.{
  generate_tensor_declaration, generate_statement, generate_branch, generate_statements,
}
use ocelotl_tensor.Ir.Generation.{assign-Distinct, generate_return-At}
use ocelotl_tensor.Ir.Valid.{Extends-refl, Fine}
use ocelotl_tensor.Ir.Valid.Steps.{lt-length}
use ocelotl_tensor.Ir.Valid.State.{IsOwn, Ready, Whole, emit_first-Built}
use ocelotl_tensor.Ir.Valid.Expressions.{generate_expression-Built}
use ocelotl_tensor.Ir.Valid.Runs.{Runs, Runs-trans, Runs-Built, Runs-return, Whole-with}
use ocelotl_tensor.Ir.Valid.Opening.{open_branches-Opens}
use ocelotl_tensor.Ir.Valid.Merging.{Typed-Extends, Typed-emplace, Typed-assign, Runs-Merged}
use ocelotl_tensor.Ir.Valid.Meeting.{join_branches-Runs, second-Ready, branches-Forked}

module _ {D : Type 0} where
  Runs-refl : (id : ℕ) (g : IrGenerator D) → Whole g → Ready id g → Runs id g g
  Runs-refl id g w r = Runs-Merged id g g (record {
    whole = w;
    ready = r;
    extends = λ n. Extends-refl n g.ir.blocks;
    frame = λ i ne. refl;
    count = refl;
    entry = refl;
  })

  unless-Runs :
      {id : ℕ} {g h : IrGenerator D} (b : Bool) (e : GenerationError)
      → IsOwn e
      → Runs id g h
      → Post (Runs id g) IsOwn (if b then err e else ok h)
  unless-Runs true e f h = error f
  unless-Runs false e f h = value h

  generate_tensor_declaration-Runs :
      (symbols : SymbolTable) (id : ℕ) (g : IrGenerator D) (name : Text)
      → Whole g
      → Ready id g
      → Post (Runs id g) IsOwn (generate_tensor_declaration symbols g name)
  unfolding generate_tensor_declaration Fine
  generate_tensor_declaration-Runs symbols id g name w r =
      elim (Option-cases (lookup symbols name)) [
        | inl missing ↦ rw (generate_tensor_declaration, missing) (error (λ x. cc))
        | inr (symbol, found) ↦
            rw (generate_tensor_declaration, found)
              (Post-bind
                (emit_first-Built id g (λ result. tensor_decl_op result name symbol.type)
                  symbol.type (λ n. refl) (λ n. refl) (λ n. refl) w r tt)
                λ v b.
                  unless-Runs _ (duplicate_value name) (λ x. cc)
                    (Runs-Built id g v (emplace name v.0 v.1.values) b
                      (Typed-emplace v.1.ir.blocks name v.0 v.1.values b.defined b.whole.typed)
                      (emplace-Distinct name v.0 v.1.values b.whole.distinct)))
      ]

  module _ (order : Iteration) (symbols : SymbolTable) where
    -- Nothing follows a return in a branch.
    generate_branch-returned :
        (g : IrGenerator D) (ss : Statements D)
        → g.current_block_id ≡ none
        → generate_branch order symbols g ss ≡ ok g
    unfolding generate_branch
    generate_branch-returned g no_statements left = refl
    generate_branch-returned g (statement s ss) left = rw left refl

    generate_branch-current :
        (g : IrGenerator D) (id : ℕ) (s : Statement D) (ss : Statements D)
        → g.current_block_id ≡ some id
        → generate_branch order symbols g (statement s ss)
          ≡ generate_statement order symbols g s >>= λ h. generate_branch order symbols h ss
    unfolding generate_branch
    generate_branch-current g id s ss at = rw at refl

    mutual
      unfolding generate_statement

      pub generate_statement-Runs :
          (g : IrGenerator D) (s : Statement D) (id : ℕ)
          → Whole g
          → Ready id g
          → Post (Runs id g) IsOwn (generate_statement order symbols g s)
      generate_statement-Runs g (tensor_decl name _ _) id w r =
          generate_tensor_declaration-Runs symbols id g name w r
      generate_statement-Runs g (assignment target e _) id w r =
          Post-bind (generate_expression-Built id g e w r) λ v b. value (
            Runs-Built id g v (assign target v.0 v.1.values) b
              (Typed-assign v.1.ir.blocks target v.0 v.1.values b.defined b.whole.typed)
              (assign-Distinct target v.0 v.1.values b.whole.distinct))
      generate_statement-Runs g (return_stmt e _) id w r =
          Post-bind (generate_expression-Built id g e w r) λ v b.
            rw
              (generate_return-At v.0 id v.1 b.ready.current
                (lt-length v.1.ir.blocks id b.ready.block b.ready.here))
              (value (Runs-return id g v b))
      generate_statement-Runs g (if_stmt e ts us _) id w r =
          Post-bind (generate_expression-Built id g e w r) λ v b.
            Post-bind (open_branches-Opens v.0 id v.1 b.whole b.ready b.defined) λ o opens.
              Post-bind (generate_branch-Runs o.0 ts (length v.1.ir.blocks) opens.whole opens.first)
                λ t rt.
                  let m = suc (length v.1.ir.blocks) in
                  let start = record t { current_block_id = some o.1; values = o.0.values } in
                  let before =
                    Typed-Extends (length o.0.ir.blocks) o.0.ir.blocks t.ir.blocks o.0.values
                      rt.extends opens.whole.typed in
                  Post-bind
                    (generate_branch-Runs start us m
                      (Whole-with t (some o.1) o.0.values rt.whole before opens.whole.distinct)
                      (second-Ready id v.1 o t opens rt))
                    λ x rx.
                      join_branches-Runs order o.0.values t.values t.current_block_id id g x
                        (branches-Forked id g v o t x b opens rt rx)
                        (Typed-Extends (length t.ir.blocks) t.ir.blocks x.ir.blocks o.0.values
                          rx.extends before)
                        opens.whole.distinct
                        (Typed-Extends (length t.ir.blocks) t.ir.blocks x.ir.blocks t.values
                          rx.extends rt.whole.typed)
                        rt.whole.distinct

      generate_branch-Runs :
          (g : IrGenerator D) (ss : Statements D) (id : ℕ)
          → Whole g
          → Ready id g
          → Post (Runs id g) IsOwn (generate_branch order symbols g ss)
      generate_branch-Runs g no_statements id w r = value (Runs-refl id g w r)
      generate_branch-Runs g (statement s ss) id w r =
          rw (generate_branch-current g id s ss r.current) (
            Post-bind (generate_statement-Runs g s id w r) λ h k.
              elim (Option-cases h.current_block_id) [
                | inl left ↦ rw (generate_branch-returned h ss left) (value k)
                | inr (c, at) ↦
                    Post-map (λ x l. Runs-trans id c g h x k at l)
                      (generate_branch-Runs h ss c k.whole (k.current c at).0)
              ])

    generate_statements-returned :
        (id : ℕ) (g h : IrGenerator D) (ss : Statements D)
        → h.current_block_id ≡ none
        → Runs id g h
        → Post (Runs id g) IsOwn (generate_statements order symbols h ss)
    unfolding generate_statements
    generate_statements-returned id g h no_statements left k = value k
    generate_statements-returned id g h (statement s ss) left k =
        rw (generate_statements, left) (error (λ x. cc))

    generate_statements-current :
        (g : IrGenerator D) (id : ℕ) (s : Statement D) (ss : Statements D)
        → g.current_block_id ≡ some id
        → generate_statements order symbols g (statement s ss)
          ≡ generate_statement order symbols g s >>= λ h. generate_statements order symbols h ss
    unfolding generate_statements
    generate_statements-current g id s ss at = rw at refl

    pub generate_statements-Runs :
        (g : IrGenerator D) (ss : Statements D) (id : ℕ)
        → Whole g
        → Ready id g
        → Post (Runs id g) IsOwn (generate_statements order symbols g ss)
    unfolding generate_statements
    generate_statements-Runs g no_statements id w r = value (Runs-refl id g w r)
    generate_statements-Runs g (statement s ss) id w r =
        rw (generate_statements-current g id s ss r.current) (
          Post-bind (generate_statement-Runs g s id w r) λ h k.
            elim (Option-cases h.current_block_id) [
              | inl left ↦ generate_statements-returned id g h ss left k
              | inr (c, at) ↦
                  Post-map (λ x l. Runs-trans id c g h x k at l)
                    (generate_statements-Runs h ss c k.whole (k.current c at).0)
            ])
