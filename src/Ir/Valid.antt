-- ===== src/Ir/Valid.antt =====
-- A control-flow graph as src/ir/IRVerifier.cpp demands it, described by positions: what every
-- operation and every terminator of every block has to satisfy.
pub mod Steps
pub mod Rewiring
pub mod State
pub mod Expressions
pub mod Runs
pub mod Opening
pub mod Joining
pub mod Forks
pub mod Merging
pub mod Meeting
pub mod Statements
pub mod Collecting
pub mod Predecessors
pub mod Checking
pub mod Accepting
pub mod Modules
use ocelotl_tensor.Base.{
  ℕ, suc, ◌<◌, ◌≤◌, ◌≡◌, ◌≢◌, ◌⊎◌, Bool, true, false, not, ◌&&◌, ◌||◌, Option, none, some, List, [],
  ◌∷◌, refl, ◌∙◌, arith, length, get_elem?, ◌==◌,
}
use ocelotl_tensor.Frontend.Ast.{TensorType}
use ocelotl_tensor.Semantic.Analyzer.{scalar, i1}
use ocelotl_tensor.Ir.Module.{
  PhiIncoming, Operation, tensor_decl_op, constant_int_op, constant_float_op, binary_op, compare_op,
  phi_op, matmul_op, relu_op, Terminator, branch_op, cond_branch_op, return_op, BasicBlock, Module,
  result_of, type_of,
}
use ocelotl_tensor.Ir.Verifier.{has_id, is_phi}
use ocelotl_tensor.Ir.Validity.{targets_of}

module _ {D : Type 0} where
  -- The operation at `index` of the block at `block` defines the value `v`, of type `t`.
  pub record DefinedAt (bs : List (BasicBlock D)) (v block index : ℕ) (t : TensorType)
      : Type 0 where
    pub found : BasicBlock D
    pub at_block : get_elem? bs block ≡ some found
    pub operation : Operation D
    pub at_index : get_elem? found.operations index ≡ some operation
    pub result : result_of operation ≡ v
    pub type : type_of operation ≡ t

  -- The value `v` of type `t` may be used at `index` of the block at `block`.
  pub record Operand (bs : List (BasicBlock D)) (block index v : ℕ) (t : TensorType) : Type 0 where
    pub in_block : ℕ
    pub in_index : ℕ
    pub defined : DefinedAt bs v in_block in_index t
    pub before : in_block ≡ block → in_index < index

  pub record Defined (bs : List (BasicBlock D)) (v : ℕ) (t : TensorType) : Type 0 where
    pub in_block : ℕ
    pub in_index : ℕ
    pub defined : DefinedAt bs v in_block in_index t

  -- The block at `k` ends by a jump to the block `i`.
  unfoldable pub edge : List (BasicBlock D) → ℕ → ℕ → Bool
  unfolding has_id targets_of
  edge bs k i = elim (get_elem? bs k) [ none ↦ false | some b ↦ has_id i (targets_of b.terminator) ]

  -- A phi has one value for each of the two blocks that jump to its own.
  pub record Merges (bs : List (BasicBlock D)) (block index : ℕ) (t : TensorType)
      (incoming : List PhiIncoming) : Type 0 where
    pub first : PhiIncoming
    pub second : PhiIncoming
    pub both : incoming ≡ first ∷ second ∷ []
    pub differ : (first.predecessor == second.predecessor) ≡ false
    pub first_value : Operand bs block index first.value t
    pub second_value : Operand bs block index second.value t
    pub edges : (k : ℕ) → edge bs k block ≡ ((k == first.predecessor) || (k == second.predecessor))

  -- What the operation at `index` of the block at `block` uses.
  unfoldable pub Fine : List (BasicBlock D) → ℕ → ℕ → Operation D → Type 0
  Fine bs block index (tensor_decl_op _ _ _) = Unit
  Fine bs block index (constant_int_op _ _ _) = Unit
  Fine bs block index (constant_float_op _ _ _) = Unit
  Fine bs block index (binary_op _ _ l r t) =
      Operand bs block index l t × Operand bs block index r t
  Fine bs block index (compare_op _ _ l r t) =
      Operand bs block index l t × Operand bs block index r t
  Fine bs block index (phi_op _ t incoming) = Merges bs block index t incoming
  Fine bs block index (matmul_op _ l r _) =
      ((t : TensorType) × Operand bs block index l t)
      × ((t : TensorType) × Operand bs block index r t)
  Fine bs block index (relu_op _ v _) = (t : TensorType) × Operand bs block index v t

  unfoldable pub Closed : List (BasicBlock D) → Terminator → Type 0
  Closed bs (branch_op k) = k < length bs
  Closed bs (cond_branch_op v k l) = Defined bs v (scalar i1) × (k < length bs) × (l < length bs)
  Closed bs (return_op v) = (t : TensorType) × Defined bs v t

  -- Phis stand first; `saw` says that another operation has been seen.
  unfoldable pub PhisFirst : Bool → List (Operation D) → Type 0
  PhisFirst saw [] = Unit
  PhisFirst saw (o ∷ os) = ((is_phi o && saw) ≡ false) × PhisFirst (saw || not (is_phi o)) os

  pub record BlockFine (bs : List (BasicBlock D)) (block : ℕ) (b : BasicBlock D) : Type 0 where
    pub operations :
        (index : ℕ) (o : Operation D)
        → get_elem? b.operations index ≡ some o
        → Fine bs block index o
    pub phis : PhisFirst false b.operations
    pub closed : (t : Terminator) → b.terminator ≡ some t → Closed bs t

  abbrev pub AllFine : List (BasicBlock D) → Type 0
  AllFine bs = (i : ℕ) (b : BasicBlock D) → get_elem? bs i ≡ some b → BlockFine bs i b

  -- A graph with more: every definition is where it was, and no jump leads to a block below `n` that
  -- did not before.
  pub record Extends (n : ℕ) (bs cs : List (BasicBlock D)) : Type 0 where
    pub defs : (v i j : ℕ) (t : TensorType) → DefinedAt bs v i j t → DefinedAt cs v i j t
    pub edges : (k i : ℕ) → i < n → edge cs k i ≡ edge bs k i
    pub longer : length bs ≤ length cs

  pub Extends-refl : (n : ℕ) (bs : List (BasicBlock D)) → Extends n bs bs
  Extends-refl n bs = record { defs = λ v i j t d. d; edges = λ k i l. refl; longer = omega arith }

  pub Extends-trans :
      (n m : ℕ) (bs cs ds : List (BasicBlock D))
      → n ≤ m
      → Extends n bs cs
      → Extends m cs ds
      → Extends n bs ds
  Extends-trans n m bs cs ds le e f = record {
    defs = λ v i j t d. f.defs v i j t (e.defs v i j t d);
    edges = λ k i l. f.edges k i (omega (arith, l, le)) ∙ e.edges k i l;
    longer = omega (arith, e.longer, f.longer);
  }

  pub Operand-Extends :
      (n : ℕ) (bs cs : List (BasicBlock D)) (i j v : ℕ) (t : TensorType)
      → Extends n bs cs
      → Operand bs i j v t
      → Operand cs i j v t
  Operand-Extends n bs cs i j v t e o = record {
    in_block = o.in_block;
    in_index = o.in_index;
    defined = e.defs v o.in_block o.in_index t o.defined;
    before = o.before;
  }

  pub Defined-Extends :
      (n : ℕ) (bs cs : List (BasicBlock D)) (v : ℕ) (t : TensorType)
      → Extends n bs cs
      → Defined bs v t
      → Defined cs v t
  Defined-Extends n bs cs v t e d = record {
    in_block = d.in_block;
    in_index = d.in_index;
    defined = e.defs v d.in_block d.in_index t d.defined;
  }

  pub Fine-Extends :
      (n : ℕ) (bs cs : List (BasicBlock D)) (i j : ℕ) (o : Operation D)
      → Extends n bs cs
      → i < n
      → Fine bs i j o
      → Fine cs i j o
  unfolding Fine
  Fine-Extends n bs cs i j (tensor_decl_op _ _ _) e l f = tt
  Fine-Extends n bs cs i j (constant_int_op _ _ _) e l f = tt
  Fine-Extends n bs cs i j (constant_float_op _ _ _) e l f = tt
  Fine-Extends n bs cs i j (binary_op _ _ a b t) e l (f, g) =
      (Operand-Extends n bs cs i j a t e f, Operand-Extends n bs cs i j b t e g)
  Fine-Extends n bs cs i j (compare_op _ _ a b t) e l (f, g) =
      (Operand-Extends n bs cs i j a t e f, Operand-Extends n bs cs i j b t e g)
  Fine-Extends n bs cs i j (matmul_op _ a b _) e l ((t, f), (u, g)) =
      ((t, Operand-Extends n bs cs i j a t e f), (u, Operand-Extends n bs cs i j b u e g))
  Fine-Extends n bs cs i j (relu_op _ a _) e l (t, f) = (t, Operand-Extends n bs cs i j a t e f)
  Fine-Extends n bs cs i j (phi_op _ t incoming) e l m = record {
    first = m.first;
    second = m.second;
    both = m.both;
    differ = m.differ;
    first_value = Operand-Extends n bs cs i j m.first.value t e m.first_value;
    second_value = Operand-Extends n bs cs i j m.second.value t e m.second_value;
    edges = λ k. e.edges k i l ∙ m.edges k;
  }

  pub Closed-Extends :
      (n : ℕ) (bs cs : List (BasicBlock D)) (t : Terminator)
      → Extends n bs cs
      → Closed bs t
      → Closed cs t
  unfolding Closed
  Closed-Extends n bs cs (branch_op k) e c = omega (arith, c, e.longer)
  Closed-Extends n bs cs (cond_branch_op v k l) e (d, a, b) = (
    Defined-Extends n bs cs v (scalar i1) e d,
    omega (arith, a, e.longer),
    omega (arith, b, e.longer),
  )
  Closed-Extends n bs cs (return_op v) e (t, d) = (t, Defined-Extends n bs cs v t e d)

  pub BlockFine-Extends :
      (bs cs : List (BasicBlock D)) (i : ℕ) (b : BasicBlock D)
      → Extends (suc i) bs cs
      → BlockFine bs i b
      → BlockFine cs i b
  BlockFine-Extends bs cs i b e w = record {
    operations = λ j o h. Fine-Extends (suc i) bs cs i j o e (omega arith) (w.operations j o h);
    phis = w.phis;
    closed = λ t h. Closed-Extends (suc i) bs cs t e (w.closed t h);
  }
