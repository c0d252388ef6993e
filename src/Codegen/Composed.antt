-- ===== src/Codegen/Composed.antt =====
-- The two generators in a row: src/codegen/llvm/LLVMCodeGenerator.cpp on a module that
-- src/ir/IRGenerator.cpp has made.
use ocelotl_tensor.Base.{
  ℕ, zero, suc, ◌+◌, ◌<◌, ◌≤◌, ◌≡◌, inl, inr, refl, sym, subst, true, false, some, List, [], ◌∷◌,
  arith, length, get_elem?, Bool-cases, ltb,
}
use ocelotl_tensor.Base.Maps.{Iteration}
use ocelotl_tensor.Base.Results.{ok, err, Post-err}
use ocelotl_tensor.Frontend.Ast.{TensorType, Program}
use ocelotl_tensor.Semantic.Symbols.{SymbolTable}
use ocelotl_tensor.Ir.Module.{
  PhiIncoming, Operation, tensor_decl_op, constant_int_op, constant_float_op, binary_op, compare_op,
  phi_op, matmul_op, relu_op, BasicBlock, Module,
}
use ocelotl_tensor.Ir.Generator.ControlFlow.{generate}
use ocelotl_tensor.Ir.Blocks.{PlacedFrom}
use ocelotl_tensor.Ir.Counts.{All, blocks_of}
use ocelotl_tensor.Ir.Valid.{Merges, Fine, edge}
use ocelotl_tensor.Ir.Valid.Steps.{edge-past}
use ocelotl_tensor.Ir.Valid.Accepting.{IsValid}
use ocelotl_tensor.Ir.Valid.Modules.{generate-IsValid, generate-verify}
use ocelotl_tensor.Codegen.Llvm.{Llvm, IdIteration}
use ocelotl_tensor.Codegen.Lowering.{LoweringError, generate_llvm}
use ocelotl_tensor.Codegen.Reached.{is_missing}
use ocelotl_tensor.Codegen.Lookups.{generate_llvm-IsOther}
use ocelotl_tensor.Codegen.Visits.{Known}

All-positions :
    {A : Type 0} {P : A → Type 0} (xs : List A)
    → ((i : ℕ) (x : A) → get_elem? xs i ≡ some x → P x)
    → All P xs
All-positions [] h = tt
All-positions (x ∷ xs) h = (h 0 x refl, All-positions xs (λ i. h (suc i)))

module _ {D : Type 0} where
  blocks_of-placed :
      (i : ℕ) (bs : List (BasicBlock D)) (k : ℕ)
      → PlacedFrom i bs
      → k < length bs
      → 0 < blocks_of (i + k) bs
  unfolding PlacedFrom blocks_of
  blocks_of-placed i [] k placed l = absurd (omega (arith, l))
  blocks_of-placed i (b ∷ bs) zero (at, placed) l =
      let same : b.id ≡ i + 0 = omega (arith, at) in ground (arith, same)
  blocks_of-placed i (b ∷ bs) (suc k) (at, placed) l =
      let e : suc i + k ≡ i + suc k = omega arith in
      let h : 0 < blocks_of (i + suc k) bs =
        subst (λ n. 0 < blocks_of n bs) e
          (blocks_of-placed (suc i) bs k placed (omega (arith, l))) in
      ground (arith, h)

  module _ (m : Module D) (valid : IsValid m) where
    -- A block that jumps somewhere is one of the module's.
    predecessor_found : (k i : ℕ) → edge m.blocks k i ≡ true → 0 < blocks_of k m.blocks
    predecessor_found k i jumps = elim (Bool-cases (ltb k (length m.blocks))) [
      | inl inside ↦
          let e : 0 + k ≡ k = omega arith in
          subst (λ n. 0 < blocks_of n m.blocks) e
            (blocks_of-placed 0 m.blocks k valid.placed (ground (arith, inside)))
      | inr past ↦ absurd (ground (arith, jumps, edge-past m.blocks k i (ground (arith, past))))
    ]

    Merges-Known :
        (block index : ℕ) (t : TensorType) (incoming : List PhiIncoming)
        → (w : Merges m.blocks block index t incoming)
        → All (λ i. 0 < blocks_of i.predecessor m.blocks) incoming × (length incoming ≤ 2)
    Merges-Known block index t incoming w =
        subst (λ is. All (λ i. 0 < blocks_of i.predecessor m.blocks) is × (length is ≤ 2))
          (sym w.both)
          (
            (
              predecessor_found w.first.predecessor block
                  (ground (arith, w.edges w.first.predecessor)),
              (
                predecessor_found w.second.predecessor block
                    (ground (arith, w.edges w.second.predecessor)),
                tt,
              ),
            ),
            omega arith,
          )

    Fine-Known :
        (block index : ℕ) (o : Operation D)
        → Fine m.blocks block index o
        → Known (λ k. 0 < blocks_of k m.blocks) o
    unfolding Fine Known
    Fine-Known block index (tensor_decl_op _ _ _) f = tt
    Fine-Known block index (constant_int_op _ _ _) f = tt
    Fine-Known block index (constant_float_op _ _ _) f = tt
    Fine-Known block index (binary_op _ _ _ _ _) f = tt
    Fine-Known block index (compare_op _ _ _ _ _) f = tt
    Fine-Known block index (phi_op _ t incoming) f = Merges-Known block index t incoming f
    Fine-Known block index (matmul_op _ _ _ _) f = tt
    Fine-Known block index (relu_op _ _ _) f = tt

    IsValid-Known : All (λ b. All (Known (λ k. 0 < blocks_of k m.blocks)) b.operations) m.blocks
    IsValid-Known = All-positions m.blocks λ i b here.
        All-positions b.operations
          λ j o at. Fine-Known i j o ((valid.fine i b here).operations j o at)

module _ {D S V B : Type 0} (llvm : Llvm D S V B) (ids : IdIteration) where
  -- For a module that the generator of the intermediate representation returns, whatever the
  -- program and whatever LLVM does, the code generator's verifier has no complaint, each phi has few
  -- enough operands, and the code generator finds the block that each operand comes from, besides
  -- every block that a terminator or the module names, the slot of every tensor, the type of a value
  -- that it returns, an end of every block, and the functions of the runtime where it calls them.
  pub generate_llvm-generate :
      (order : Iteration) (symbols : SymbolTable) (program : Program D) (m : Module D)
      (e : LoweringError)
      → generate order symbols program ≡ ok m
      → generate_llvm {D = D} llvm ids m ≡ err e
      → is_missing true e ≡ false
  unfolding is_missing
  generate_llvm-generate order symbols program m e made = Post-err (
      generate_llvm-IsOther llvm true ids m (λ _. (
        generate-verify order symbols program m made,
        IsValid-Known m (generate-IsValid order symbols program m made),
      )))
