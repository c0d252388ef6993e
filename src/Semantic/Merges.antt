-- ===== src/Semantic/Merges.antt =====
-- What the merging of the branches of a conditional in src/semantic/SemanticAnalyzer.cpp does to the
-- symbol table.
use ocelotl_tensor.Base.{
  ◌≡◌, inl, inr, refl, sym, ◌∙◌, Bool, false, not, ◌&&◌, Option, none, some, [], ◌∷◌, Text, list_eq,
  list_eq_refl, list_eq_iff, if◌then◌else◌, arith, Bool-cases, Option-cases,
}
use ocelotl_tensor.Base.Maps.{Map, find, or_else, Distinct, Iteration}
use ocelotl_tensor.Base.Results.{Post, value, error, Post-bind, Post-map}
use ocelotl_tensor.Semantic.Symbols.{Symbol, SymbolTable, lookup, contains, declare, lookup-declare}
use ocelotl_tensor.Semantic.Analyzer.{SemanticAnalyzer, same_type, merge_symbols, merge_branches}
use ocelotl_tensor.Semantic.Scopes.{WellFormed, declare-WellFormed}

-- The entries of a loop, each under its own name.
abbrev AllNamed : Map Symbol → Type 0
AllNamed [] = Unit
AllNamed ((k, s) ∷ m) = (s.name ≡ k) × AllNamed m

Distinct-AllNamed :
    (m : Map Symbol)
    → Distinct m
    → ((k : Text) (s : Symbol) → find k m ≡ some s → s.name ≡ k)
    → AllNamed m
unfolding find
Distinct-AllNamed [] d h = tt
Distinct-AllNamed ((k, s) ∷ m) (fresh, d) h = (
  h k s (rw (find, list_eq_refl k)),
  Distinct-AllNamed m d (λ j s' e. h j s' (ground (arith, list_eq_iff k j, e, fresh))),
)

-- The symbol that both branches give a name, which is the first branch's.
abbrev pub agreed : Option Symbol → Option Symbol → Option Symbol
agreed (some s) (some _) = some s
agreed _ _ = none

-- Two symbols of a name differ in type.
abbrev pub differ : Option Symbol → Option Symbol → Bool
differ (some s) (some s') =
    not (list_eq s.type.element_type s'.type.element_type && list_eq s.type.shape s'.type.shape)
differ _ _ = false

-- The branches give a name that was free symbols of different types.
abbrev pub clash : Option Symbol → Option Symbol → Option Symbol → Bool
clash none s s' = differ s s'
clash (some _) _ _ = false

clash-none : (o s : Option Symbol) → clash o none s ≡ false
clash-none none s = refl
clash-none (some _) s = refl

-- What a name newly means behind the branches: nothing that it meant before.
abbrev fresh_symbol : SymbolTable → SymbolTable → Map Symbol → Text → Option Symbol
fresh_symbol before els es k = if contains before k then none else agreed (find k es) (lookup els k)

record Merged (before els : SymbolTable) (es : Map Symbol) (into t : SymbolTable) : Type 0 where
  formed : WellFormed t
  looks : (k : Text) → lookup t k ≡ or_else (lookup into k) (fresh_symbol before els es k)
  types : (k : Text) → clash (lookup before k) (find k es) (lookup els k) ≡ false

merge_symbols-Merged :
    (before els : SymbolTable) (es : Map Symbol) (into : SymbolTable)
    → Distinct es
    → AllNamed es
    → WellFormed into
    → Post (Merged before els es into) (λ _. Unit) (merge_symbols before els es into)
unfolding merge_symbols same_type contains
merge_symbols-Merged before els [] into d n w = value (record {
  formed = w;
  looks = λ k. ground arith;
  types = λ k. clash-none (lookup before k) (lookup els k);
})
merge_symbols-Merged before els ((name, s) ∷ es) into (fresh, d) (is_name, n) w =
    elim (Bool-cases (contains before name)) [
      | inl old ↦
          rw (merge_symbols, old)
            (Post-map
              (λ t m. record {
                formed = m.formed;
                looks = λ k. ground (arith, m.looks k, list_eq_iff name k, old);
                types = λ k. ground (arith, m.types k, list_eq_iff name k, old);
              })
              (merge_symbols-Merged before els es into d n w))
      | inr new ↦ elim (Option-cases (lookup els name)) [
        | inl missing ↦
            rw (merge_symbols, new, missing)
              (Post-map
                (λ t m. record {
                  formed = m.formed;
                  looks = λ k. ground (arith, m.looks k, list_eq_iff name k, missing);
                  types = λ k. ground (arith, m.types k, list_eq_iff name k, missing);
                })
                (merge_symbols-Merged before els es into d n w))
        | inr (s', there) ↦ elim (Bool-cases (same_type s.type s'.type)) [
          | inr differs ↦ rw (merge_symbols, new, there, differs) (error tt)
          | inl same ↦
              rw (merge_symbols, new, there, same)
                (Post-map
                  (λ t m. record {
                    formed = m.formed;
                    looks = λ k. ground (
                      arith,
                      m.looks k,
                      list_eq_iff name k,
                      list_eq_iff s.name k,
                      lookup-declare into s k,
                      new,
                      there,
                      fresh,
                      is_name,
                    );
                    types = λ k. ground (arith, m.types k, list_eq_iff name k, there, same);
                  })
                  (merge_symbols-Merged before els es (declare into s).0 d n
                    (declare-WellFormed into s w)))
        ]
      ]
    ]

-- The table behind a conditional: what a name meant before stays, and a name that both branches
-- introduced is new.
pub record Joined (before then_symbols : SymbolTable) (a b : SemanticAnalyzer) : Type 0 where
  pub formed : WellFormed b.symbols
  pub return_type : b.return_type ≡ a.return_type
  pub looks :
      (k : Text)
      → lookup b.symbols k
        ≡ or_else (lookup before k) (agreed (lookup then_symbols k) (lookup a.symbols k))
  pub types :
      (k : Text) → clash (lookup before k) (lookup then_symbols k) (lookup a.symbols k) ≡ false

pub merge_branches-Joined :
    (order : Iteration) (before then_symbols : SymbolTable) (a : SemanticAnalyzer)
    → WellFormed before
    → WellFormed then_symbols
    → Post (Joined before then_symbols a) (λ _. Unit) (merge_branches order before then_symbols a)
unfolding merge_branches contains
merge_branches-Joined order before then_symbols a wb wt =
    let es = order.arrange Symbol then_symbols.symbols in
    let d = order.arrange-Distinct Symbol then_symbols.symbols wt.distinct in
    Post-bind
      (merge_symbols-Merged before a.symbols es before d
        (Distinct-AllNamed es d (λ k s h. wt.named k s (same_entry k ∙ h))) wb)
      λ t m. value (record {
        formed = m.formed;
        return_type = refl;
        looks = λ k. visible k (m.looks k);
        types = λ k. ground (arith, m.types k, same_entry k);
      })
  where
    same_entry :
        (k : Text) → lookup then_symbols k ≡ find k (order.arrange Symbol then_symbols.symbols)
    same_entry k =
        unfold lookup in sym (order.find-arrange Symbol k then_symbols.symbols wt.distinct)

    visible :
        (k : Text) {o : Option Symbol}
        → o
          ≡ or_else
              (lookup before k)
              (fresh_symbol before a.symbols (order.arrange Symbol then_symbols.symbols) k)
        → o ≡ or_else (lookup before k) (agreed (lookup then_symbols k) (lookup a.symbols k))
    visible k h = ground (arith, h, same_entry k)
