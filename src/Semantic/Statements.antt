-- ===== src/Semantic/Statements.antt =====
-- Whole statements and programs of src/semantic/SemanticAnalyzer.cpp: the invariant of the
-- analyzer, and the names that are visible behind a conditional.
use ocelotl_tensor.Base.{◌≡◌, ◌⊎◌, inl, refl, Bool, true, false, none, some, Text}
use ocelotl_tensor.Base.Maps.{Iteration, or_else}
use ocelotl_tensor.Base.Results.{
  ok, err, Post, value, error, Post-bind, Post-map, Post-ok, >>=-eq-ok,
}
use ocelotl_tensor.Frontend.Token.{SourceLocation}
use ocelotl_tensor.Frontend.Ast.{
  Expression, Statement, tensor_decl, assignment, return_stmt, if_stmt, Statements, no_statements,
  statement, Program,
}
use ocelotl_tensor.Semantic.Symbols.{empty_table, lookup}
use ocelotl_tensor.Semantic.Analyzer.{
  SemanticError, Checked, SemanticAnalyzer, scalar, i64, analyze_expression, analyze_statement,
  analyze_statements, analyze,
}
use ocelotl_tensor.Semantic.Scopes.{
  WellFormed, After, analyze_tensor_declaration-After, assign_symbol-After, return_value-After,
}
use ocelotl_tensor.Semantic.Merges.{agreed, clash, Joined, merge_branches-Joined}

any-Post : {A : Type 0} (r : Checked A) → Post (λ _. Unit) (λ _. Unit) r
any-Post (ok a) = value tt
any-Post (err e) = error tt

-- The guard on the type of a condition.
branch-Post :
    {A : Type 0} {P : A → Type 0} (b : Bool) (e : SemanticError) (r : Checked A)
    → Post P (λ _. Unit) r
    → Post P (λ _. Unit) (elim b [ true ↦ err e | false ↦ r ])
branch-Post true e r h = error tt
branch-Post false e r h = h

guard-ok :
    {A : Type 0} {x : A} (b : Bool) (e : SemanticError) (r : Checked A)
    → (elim b [ true ↦ err e | false ↦ r ]) ≡ ok x
    → r ≡ ok x
guard-ok true e r h = cc
guard-ok false e r h = h

-- Behind two branches that began at the symbols of `a`.
After-Joined :
    (a b c d : SemanticAnalyzer)
    → After a b
    → ((b.return_type ≡ none) ⊎ (b.return_type ≡ some (scalar i64))
        → (c.return_type ≡ none) ⊎ (c.return_type ≡ some (scalar i64)))
    → Joined a.symbols b.symbols c d
    → After a d
After-Joined a b c d ab bc j = record {
  formed = j.formed;
  keeps = λ k s h. rw (j.looks k, h);
  returns = λ h. rw j.return_type (bc (ab.returns h));
}

module _ (order : Iteration) {D : Type 0} where
  mutual
    unfolding analyze_statement

    statement-After :
        (a : SemanticAnalyzer) (s : Statement D)
        → WellFormed a.symbols
        → Post (After a) (λ _. Unit) (analyze_statement order a s)
    statement-After a (tensor_decl name type at) w =
        analyze_tensor_declaration-After a name type at w
    statement-After a (assignment target value_ at) w =
        Post-bind (any-Post (analyze_expression a.symbols value_))
          λ t _. assign_symbol-After a target t w
    statement-After a (return_stmt value_ at) w =
        Post-bind (any-Post (analyze_expression a.symbols value_))
          λ t _. Post-map (λ b p. p.0) (return_value-After a t at w)
    statement-After a (if_stmt c ts us at) w =
        Post-bind (any-Post (analyze_expression a.symbols c)) λ t _. branch-Post _ _ _ (
          Post-bind (statements-After a ts w) λ b ab.
            Post-bind (statements-After (record b { symbols = a.symbols }) us w) λ d bd.
              Post-map (λ e j. After-Joined a b d e ab bd.returns j)
                (merge_branches-Joined order a.symbols b.symbols d w ab.formed))

    statements-After :
        (a : SemanticAnalyzer) (ss : Statements D)
        → WellFormed a.symbols
        → Post (After a) (λ _. Unit) (analyze_statements order a ss)
    statements-After a no_statements w =
        value (record { formed = w; keeps = λ k s h. h; returns = λ h. h })
    statements-After a (statement s ss) w = Post-bind (statement-After a s w) λ b ab.
        Post-map
          (λ c bc. record {
            formed = bc.formed;
            keeps = λ k x h. bc.keeps k x (ab.keeps k x h);
            returns = λ h. bc.returns (ab.returns h);
          })
          (statements-After b ss ab.formed)

  -- A statement that is accepted, in a well-formed table, leaves it well formed, keeps every symbol
  -- with its type and its location, and records no return type but scalar i64.
  pub analyze_statement-After :
      (a b : SemanticAnalyzer) (s : Statement D)
      → WellFormed a.symbols
      → analyze_statement order a s ≡ ok b
      → After a b
  analyze_statement-After a b s w = Post-ok (statement-After a s w)

  -- A program that is accepted leaves a well-formed table, and the return type that the analyzer
  -- has recorded, if any, is scalar i64.
  pub analyze-WellFormed :
      (old a : SemanticAnalyzer) (program : Program D)
      → analyze order old program ≡ ok a
      → WellFormed a.symbols × ((a.return_type ≡ none) ⊎ (a.return_type ≡ some (scalar i64)))
  unfolding analyze
  analyze-WellFormed old a program h =
      let after = Post-ok (statements-After clear program.statements clear-WellFormed) h in
      (after.formed, after.returns (inl refl))
    where
      clear : SemanticAnalyzer
      clear = record { symbols = empty_table; return_type = none }

      clear-WellFormed : WellFormed clear.symbols
      clear-WellFormed = record { distinct = tt; named = λ k s e. unfold lookup in cc e }

  -- Both branches of an accepted conditional start from the symbols before it. Behind it a name
  -- means what it meant before; one that was free means the symbol that the first branch gave it,
  -- if the second branch gave it one too, of the same type; and any other is free.
  pub analyze_statement-if :
      (a b : SemanticAnalyzer) (c : Expression D) (ts us : Statements D) (at : SourceLocation)
      → WellFormed a.symbols
      → analyze_statement order a (if_stmt c ts us at) ≡ ok b
      → (x y : SemanticAnalyzer) × (analyze_statements order a ts ≡ ok x)
        × (analyze_statements order (record x { symbols = a.symbols }) us ≡ ok y)
        × ((k : Text)
            → lookup b.symbols k
              ≡ or_else (lookup a.symbols k) (agreed (lookup x.symbols k) (lookup y.symbols k)))
        × ((k : Text)
            → clash (lookup a.symbols k) (lookup x.symbols k) (lookup y.symbols k) ≡ false)
  unfolding analyze_statement
  analyze_statement-if a b c ts us at w h =
      let (t, h0, e0) = >>=-eq-ok (analyze_expression a.symbols c) _ h in
      let h1 = guard-ok _ _ _ h0 in
      let (x, h2, ex) = >>=-eq-ok (analyze_statements order a ts) _ h1 in
      let (y, h3, ey) =
        >>=-eq-ok (analyze_statements order (record x { symbols = a.symbols }) us) _ h2 in
      let formed = (Post-ok (statements-After a ts w) ex).formed in
      let j = Post-ok (merge_branches-Joined order a.symbols x.symbols y w formed) h3 in
      (x, y, ex, ey, j.looks, j.types)
