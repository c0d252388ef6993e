-- ===== src/Ir/Valid/Modules.antt =====
-- The modules that src/ir/IRGenerator.cpp hands to its verifier.
use ocelotl_tensor.Base.{
  zero, suc, ◌≡◌, inl, inr, refl, ap, ◌∙◌, subst, false, none, [], arith, get_elem?, Option-cases,
}
use ocelotl_tensor.Base.Maps.{find, Iteration}
use ocelotl_tensor.Base.Results.{
  ok, err, Post, value, error, Post-bind, Post-ok, Post-err, Post-and, Post-weaken,
}
use ocelotl_tensor.Frontend.Ast.{Program}
use ocelotl_tensor.Semantic.Symbols.{SymbolTable}
use ocelotl_tensor.Ir.Module.{Module}
use ocelotl_tensor.Ir.Verifier.{IrVerificationError, inconsistent_returns, Verified, verify}
use ocelotl_tensor.Ir.Generator.{GenerationError, verification, IrGenerator, create_block}
use ocelotl_tensor.Ir.Generator.ControlFlow.{entered, require_return, generate}
use ocelotl_tensor.Ir.Generation.{Grown}
use ocelotl_tensor.Ir.Programs.{entered-Sound, generate_statements-Grown}
use ocelotl_tensor.Ir.Valid.{AllFine, PhisFirst}
use ocelotl_tensor.Ir.Valid.State.{Ready, Whole}
use ocelotl_tensor.Ir.Valid.Runs.{Runs}
use ocelotl_tensor.Ir.Valid.Statements.{generate_statements-Runs}
use ocelotl_tensor.Ir.Valid.Collecting.{IsReturns}
use ocelotl_tensor.Ir.Valid.Accepting.{IsValid, verify-Accepts}

-- Of the verifier's errors, only that the returns have different types.
abbrev IsConsistent : GenerationError → Type 0
IsConsistent e = (x : IrVerificationError) → e ≡ verification x → x ≡ inconsistent_returns

verified-Post :
    (r : Verified Unit)
    → Post {0} (λ _. Unit) IsReturns r
    → Post {0}
        (λ _. r ≡ ok tt)
        IsConsistent
        (elim r [ err e ↦ err (verification e) | ok _ ↦ ok tt ])
verified-Post (ok tt) (value h) = value refl
verified-Post _ (error {e} h) = error (λ x same. cc (same, h))

module _ {D : Type 0} where
  entered-AllFine : AllFine (entered {D = D}).ir.blocks
  unfolding entered create_block PhisFirst
  entered-AllFine zero b h =
      let empty : [] ≡ b.operations = cc h in
      let open_ : none ≡ b.terminator = cc h in
      record {
        operations = λ j o at. absurd (cc (ap (λ os. get_elem? os j) empty ∙ at));
        phis = subst (PhisFirst false) empty tt;
        closed = λ t e. absurd (cc (open_ ∙ e));
      }
  entered-AllFine (suc i) b h = absurd (cc h)

  entered-Whole : Whole (entered {D = D})
  unfolding entered create_block find
  entered-Whole = record {
    fine = entered-AllFine;
    typed = λ k v h. cc h;
    counted = refl;
    distinct = tt;
  }

  entered-Ready : Ready 0 (entered {D = D})
  unfolding entered create_block
  entered-Ready = record { current = refl; block = _; here = refl; open_ = refl }

  -- All paths have returned.
  ended-IsValid :
      (g : IrGenerator D)
      → Runs 0 entered g
      → Grown entered g
      → g.current_block_id ≡ none
      → IsValid g.ir
  unfolding entered create_block
  ended-IsValid g r k left = record {
    fine = r.whole.fine;
    placed = k.sound.numbered.placed;
    single = λ v. ground (arith, k.sound.numbered.single v);
    ended = λ i b there open_. elim (r.ended i b there open_) [
      | inl now ↦ cc (now, left)
      | inr (other, l) ↦ other (omega (arith, l))
    ];
    entry = omega (arith, r.entry, r.extends.longer);
    returned = r.returned left;
  }

  require_return-IsValid :
      (g : IrGenerator D)
      → Runs 0 entered g
      → Grown entered g
      → Post (λ _. IsValid g.ir) IsConsistent (require_return g)
  unfolding require_return
  require_return-IsValid g r k = elim (Option-cases g.current_block_id) [
    | inl left ↦ simp (require_return, left) (value (ended-IsValid g r k left))
    | inr (id, at) ↦
        let ready = (r.current id at).0 in
        simp (require_return, at, ready.here, ready.open_) (error (λ x. cc))
  ]

module _ (order : Iteration) (symbols : SymbolTable) {D : Type 0} where
  generate-Valid :
      (program : Program D)
      → Post (λ m. IsValid m × (verify m ≡ ok tt)) IsConsistent (generate order symbols program)
  unfolding generate
  generate-Valid program =
      Post-bind
        (Post-weaken (λ g h. h) (λ e h x same. absurd (h.0 x same))
          (Post-and
            (generate_statements-Runs order symbols entered program.statements 0 entered-Whole
              entered-Ready)
            (generate_statements-Grown order symbols entered program.statements entered-Sound)))
        λ g (r, k). Post-bind (require_return-IsValid g r k) λ _ valid.
          Post-bind (verified-Post (verify g.ir) (verify-Accepts g.ir valid))
            λ _ accepted. value (valid, accepted)

  -- In a module that the generator returns, the operands of an arithmetic operation, a comparison
  -- or a phi are defined with the type that it names, a condition with type i1, and those of a
  -- matrix product, of a relu and of a return with some type; an operand that is defined in the same
  -- block is defined before; a phi has one value for each of the two different blocks that jump to
  -- its own, and no others jump there; phis stand first in their block; each block ends and has its
  -- position as its id; no value is defined twice; the entry and each jump lead to a block, and some
  -- block returns.
  pub generate-IsValid :
      (program : Program D) (m : Module D) → generate order symbols program ≡ ok m → IsValid m
  generate-IsValid program m e = (Post-ok (generate-Valid program) e).0

  pub generate-verify :
      (program : Program D) (m : Module D)
      → generate order symbols program ≡ ok m
      → verify m ≡ ok tt
  generate-verify program m e = (Post-ok (generate-Valid program) e).1

  -- Whatever the program, of the verifier's errors the generator can only run into the one for
  -- returns of different types.
  pub generate-verified :
      (program : Program D) (x : IrVerificationError)
      → generate order symbols program ≡ err (verification x)
      → x ≡ inconsistent_returns
  generate-verified program x e = Post-err (generate-Valid program) e x refl
