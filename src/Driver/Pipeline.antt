-- ===== src/Driver/Pipeline.antt =====
-- The stages in a row: compileToLLVM of src/main.cpp, and errors that they do not end with.
use ocelotl_tensor.Base.{◌≡◌, refl, sym, ap, ◌∙◌, subst, Bool, true, false, Option, none, Text}
use ocelotl_tensor.Base.Maps.{Iteration}
use ocelotl_tensor.Base.Results.{Result, ok, err, ◌>>=◌, Post, value, error, Post-bind, Post-err}
use ocelotl_tensor.Frontend.Parser.Monad.{Failure, parse_error, out_of_fuel}
use ocelotl_tensor.Frontend.Parser.Stream.{PointsInto-ne-out_of_fuel}
use ocelotl_tensor.Frontend.Parser.Total.{parse_source, parse_source_sound}
use ocelotl_tensor.Semantic.Symbols.{empty_table}
use ocelotl_tensor.Semantic.Analyzer.{SemanticError, SemanticAnalyzer, analyze}
use ocelotl_tensor.Ir.Verifier.{IrVerificationError, inconsistent_returns}
use ocelotl_tensor.Ir.Generator.{
  GenerationError, no_active_block, block_out_of_range, verification, unreachable_statement,
  path_without_return, condition_not_i1, operand_type_mismatch, shape_out_of_range, unknown_type,
  duplicate_value, unresolved_identifier, unsupported_call, branch_type_mismatch,
}
use ocelotl_tensor.Ir.Generator.ControlFlow.{generate}
use ocelotl_tensor.Ir.Numbering.{IsFound}
use ocelotl_tensor.Ir.Programs.{generate-IsFound}
use ocelotl_tensor.Ir.Valid.Modules.{generate-verified}
use ocelotl_tensor.Codegen.Llvm.{Llvm, IdIteration}
use ocelotl_tensor.Codegen.Lowering.{LoweringError, generate_llvm}
use ocelotl_tensor.Codegen.Reached.{is_missing}
use ocelotl_tensor.Codegen.Composed.{generate_llvm-generate}

-- What the stages throw.
pub data CompileError : Type 0 where
  frontend : Failure → CompileError
  semantic : SemanticError → CompileError
  generation : GenerationError → CompileError
  lowering : LoweringError → CompileError

-- A stage, whose errors pass through.
abbrev pub stage : {E A : Type 0} → (E → CompileError) → Result E A → Result CompileError A
stage wrap (ok a) = ok a
stage wrap (err e) = err (wrap e)

abbrev pub new_analyzer : SemanticAnalyzer
new_analyzer = record { symbols = empty_table; return_type = none }

-- The errors of the generator of the intermediate representation that are ruled out: an access to a
-- block that is not there, and a module that the verifier rejects for another reason than the types
-- of its returns. Its other errors can occur, also behind the analyzer.
unfoldable pub is_unfound : GenerationError → Bool
is_unfound no_active_block = true
is_unfound block_out_of_range = true
is_unfound (verification inconsistent_returns) = false
is_unfound (verification _) = true
is_unfound unreachable_statement = false
is_unfound path_without_return = false
is_unfound condition_not_i1 = false
is_unfound operand_type_mismatch = false
is_unfound shape_out_of_range = false
is_unfound (unknown_type _) = false
is_unfound (duplicate_value _) = false
is_unfound (unresolved_identifier _) = false
is_unfound (unsupported_call _) = false
is_unfound (branch_type_mismatch _) = false

-- These, a lack of fuel in the parser, and in the code generator a module that the verifier rejects,
-- a phi with too many operands, a function of the runtime that is not there, and a lookup of
-- anything but an operand.
unfoldable pub is_ruled_out : CompileError → Bool
unfolding is_unfound is_missing
is_ruled_out (frontend out_of_fuel) = true
is_ruled_out (frontend (parse_error _ _)) = false
is_ruled_out (semantic _) = false
is_ruled_out (generation e) = is_unfound e
is_ruled_out (lowering e) = is_missing true e

stage-Post :
    {E A : Type 0} {P : A → Type 0} {Q : CompileError → Type 0} (wrap : E → CompileError)
    (r : Result E A)
    → ((a : A) → r ≡ ok a → P a)
    → ((e : E) → r ≡ err e → Q (wrap e))
    → Post P Q (stage wrap r)
stage-Post wrap (ok a) good bad = value (good a refl)
stage-Post wrap (err e) good bad = error (bad e refl)

found-verified :
    (e : GenerationError)
    → IsFound e
    → ((x : IrVerificationError) → e ≡ verification x → x ≡ inconsistent_returns)
    → is_unfound e ≡ false
unfolding is_unfound
found-verified no_active_block (h, _) only = absurd (h refl)
found-verified block_out_of_range (_, h) only = absurd (h refl)
found-verified (verification x) h only =
    subst (λ y. is_unfound (verification y) ≡ false) (sym (only x refl)) refl
found-verified _ h only = refl

module _ {D S V B : Type 0} (stod : Text → Option D) (order : Iteration) (ids : IdIteration)
    (llvm : Llvm D S V B) where
  unfoldable pub compile_to_llvm : Text → Result CompileError S
  unfolding parse_source analyze generate generate_llvm
  compile_to_llvm source = stage frontend (parse_source stod source) >>= λ program.
      stage semantic (analyze order new_analyzer program) >>= λ analyzer.
      stage generation (generate order analyzer.symbols program) >>= λ m.
      stage lowering (generate_llvm llvm ids m)

  -- Whatever the source, the order in which maps are visited, and what LLVM does, the stages in a row
  -- end with a module or an error, and the error is none of these: a lack of fuel in the parser; in
  -- the generator of the intermediate representation, no current block, a block id that is out of
  -- range, or a complaint of the verifier other than that returns differ in type; in the code
  -- generator, a complaint of the verifier, a phi with too many operands, a function of the runtime
  -- that is missing, or a lookup that fails and is not that of an operand's value.
  pub compile_to_llvm-is_ruled_out :
      (source : Text) → Post (λ _. Unit) (λ e. is_ruled_out e ≡ false) (compile_to_llvm source)
  unfolding compile_to_llvm is_ruled_out
  compile_to_llvm-is_ruled_out source =
      (Post-bind {P = λ _. Unit} (stage-Post frontend (parse_source stod source) (λ p h. tt) parsed)
        λ program _.
          Post-bind {P = λ _. Unit}
            (stage-Post semantic (analyze order new_analyzer program) (λ a h. tt) (λ e h. refl))
            λ a _.
              Post-bind
                (stage-Post generation (generate order a.symbols program) (λ m h. h)
                  (λ e h.
                    found-verified e (generate-IsFound order a.symbols program e h)
                      (λ x same. generate-verified order a.symbols program x (h ∙ ap err same))))
                λ m made.
                  stage-Post lowering (generate_llvm llvm ids m) (λ s h. tt)
                    (λ e h. generate_llvm-generate llvm ids order a.symbols program m e made h))
    where
      parsed : (f : Failure) → parse_source stod source ≡ err f → is_ruled_out (frontend f) ≡ false
      parsed (parse_error l t) h = refl
      parsed out_of_fuel h =
          let (ts, cov, post) = parse_source_sound stod source in
          absurd (PointsInto-ne-out_of_fuel (Post-err post h) refl)
