-- ===== src/Semantic/Scopes.antt =====
-- What the statements of src/semantic/SemanticAnalyzer.cpp do to the symbol table.
use ocelotl_tensor.Base.{
  ◌≡◌, ◌⊎◌, inl, inr, ap, false, not, ◌||◌, none, some, Text, list_eq, list_eq_iff, arith,
  Bool-cases, Option-cases,
}
use ocelotl_tensor.Base.Maps.{Distinct, emplace-Distinct}
use ocelotl_tensor.Base.Results.{Post, value, error}
use ocelotl_tensor.Frontend.Token.{SourceLocation, start_location}
use ocelotl_tensor.Frontend.Ast.{TensorType}
use ocelotl_tensor.Semantic.Symbols.{Symbol, SymbolTable, lookup, declare, lookup-declare}
use ocelotl_tensor.Semantic.Analyzer.{
  SemanticAnalyzer, scalar, i64, is_scalar, same_type, analyze_tensor_declaration, assign_symbol,
  return_value,
}

-- A table holds no name twice, and every symbol under its own name.
pub record WellFormed (t : SymbolTable) : Type 0 where
  pub distinct : Distinct t.symbols
  pub named : (k : Text) (s : Symbol) → lookup t k ≡ some s → s.name ≡ k

-- No symbol is lost, and none changes its type.
abbrev pub Keeps : SymbolTable → SymbolTable → Type 0
Keeps t u = (k : Text) (s : Symbol) → lookup t k ≡ some s → lookup u k ≡ some s

pub declare-WellFormed : (t : SymbolTable) (s : Symbol) → WellFormed t → WellFormed (declare t s).0
declare-WellFormed t s w = record {
  distinct = unfold declare in emplace-Distinct s.name s t.symbols w.distinct;
  named = λ k s' h. ground (arith, lookup-declare t s k, h, w.named k s', list_eq_iff s.name k);
}

declare-Keeps : (t : SymbolTable) (s : Symbol) → Keeps t (declare t s).0
declare-Keeps t s k s' h = rw (lookup-declare t s k, h)

-- What a statement does to the analyzer's state.
pub record After (a b : SemanticAnalyzer) : Type 0 where
  pub formed : WellFormed b.symbols
  pub keeps : Keeps a.symbols b.symbols
  pub returns :
      (a.return_type ≡ none) ⊎ (a.return_type ≡ some (scalar i64))
      → (b.return_type ≡ none) ⊎ (b.return_type ≡ some (scalar i64))

unchanged-After : (a : SemanticAnalyzer) → WellFormed a.symbols → After a a
unchanged-After a w = record { formed = w; keeps = λ k s h. h; returns = λ h. h }

pub analyze_tensor_declaration-After :
    (a : SemanticAnalyzer) (name : Text) (type : TensorType) (at : SourceLocation)
    → WellFormed a.symbols
    → Post (After a) (λ _. Unit) (analyze_tensor_declaration a name type at)
unfolding analyze_tensor_declaration
analyze_tensor_declaration-After a name type at w =
    let s : Symbol = record { name = name; type = type; location = at } in
    elim (Bool-cases (declare a.symbols s).1) [
      | inl new ↦
          rw (analyze_tensor_declaration, new)
            (value (record {
              formed = declare-WellFormed a.symbols s w;
              keeps = declare-Keeps a.symbols s;
              returns = λ h. h;
            }))
      | inr old ↦ rw (analyze_tensor_declaration, old) (error tt)
    ]

pub assign_symbol-After :
    (a : SemanticAnalyzer) (target : Text) (inferred : TensorType)
    → WellFormed a.symbols
    → Post (After a) (λ _. Unit) (assign_symbol a target inferred)
unfolding assign_symbol
assign_symbol-After a target inferred w =
    let s : Symbol = record { name = target; type = inferred; location = start_location } in
    elim (Option-cases (lookup a.symbols target)) [
      | inr (existing, found) ↦
          elim (Bool-cases (list_eq existing.type.element_type inferred.element_type)) [
            | inr differs ↦ rw (assign_symbol, found, differs) (error tt)
            | inl same ↦ elim (Bool-cases (list_eq existing.type.shape inferred.shape)) [
              | inr differs ↦ rw (assign_symbol, found, same, differs) (error tt)
              | inl fits ↦ rw (assign_symbol, found, same, fits) (value (unchanged-After a w))
            ]
          ]
      | inl missing ↦ elim (Bool-cases (declare a.symbols s).1) [
        | inl new ↦
            rw (assign_symbol, missing, new)
              (value (record {
                formed = declare-WellFormed a.symbols s w;
                keeps = declare-Keeps a.symbols s;
                returns = λ h. h;
              }))
        | inr old ↦ rw (assign_symbol, missing, old) (error tt)
      ]
    ]

scalar-i64 :
    (type : TensorType)
    → (not (list_eq type.element_type i64) || not (is_scalar type)) ≡ false
    → type ≡ scalar i64
scalar-i64 type h = ground (arith, list_eq_iff type.element_type i64)

pub return_value-After :
    (a : SemanticAnalyzer) (type : TensorType) (at : SourceLocation)
    → WellFormed a.symbols
    → Post
        (λ b. After a b × (b.return_type ≡ some (scalar i64)))
        (λ _. Unit)
        (return_value a type at)
unfolding return_value
return_value-After a type at w =
    elim (Bool-cases (elim a.return_type [ none ↦ false | some t ↦ not (same_type t type) ])) [
      | inl differs ↦ rw (return_value, differs) (error tt)
      | inr agrees ↦
          elim (Bool-cases (not (list_eq type.element_type i64) || not (is_scalar type))) [
            | inl other ↦ rw (return_value, agrees, other) (error tt)
            | inr is_i64 ↦
                rw (return_value, agrees, is_i64) (value (returned (scalar-i64 type is_i64)))
          ]
    ]
  where
    returned :
        type ≡ scalar i64
        → After a (record a { return_type = some type }) × (some type ≡ some (scalar i64))
    returned e =
        (record { formed = w; keeps = λ k s h. h; returns = λ _. inr (ap some e) }, ap some e)
