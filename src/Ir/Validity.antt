-- ===== src/Ir/Validity.antt =====
-- What the verifier of src/ir/IRVerifier.cpp assures of a module that it lets through.
use ocelotl_tensor.Base.{
  ℕ, suc, ◌≤◌, ◌≡◌, inl, inr, refl, true, Option, none, some, List, [], ◌∷◌, arith, Bool-cases,
  Option-cases,
}
use ocelotl_tensor.Base.Maps.{is_some}
use ocelotl_tensor.Base.Results.{ok, err, ◌>>=◌, Post, value, error, Post-bind, Post-map, Post-ok}
use ocelotl_tensor.Frontend.Ast.{TensorType}
use ocelotl_tensor.Ir.Module.{
  PhiIncoming, tensor_decl_op, constant_int_op, constant_float_op, binary_op, compare_op, phi_op,
  matmul_op, relu_op, Operation, Terminator, branch_op, cond_branch_op, return_op, BasicBlock,
  Module,
}
use ocelotl_tensor.Ir.Blocks.{definitions_of}
use ocelotl_tensor.Ir.Verifier.{
  no_basic_blocks, Verified, Definition, IdMap, find_id, has_id, require_block, add_edges,
  find_predecessors, require_value, require_operand, check_incoming, check_operation,
  check_operations, check_terminator, check_blocks, verify_graph, verify,
}
use ocelotl_tensor.Ir.Counts.{All, All-map, blocks_of, Counted, define_blocks-Counted}

-- The blocks that a terminator goes to, and the values that operations and terminators use.
unfoldable pub targets_of : Option Terminator → List ℕ
targets_of (some (branch_op target)) = target ∷ []
targets_of (some (cond_branch_op _ true_target false_target)) = true_target ∷ false_target ∷ []
targets_of _ = []

unfoldable pub value_of : Option Terminator → List ℕ
value_of (some (cond_branch_op condition _ _)) = condition ∷ []
value_of (some (return_op value_)) = value_ ∷ []
value_of _ = []

unfoldable pub incoming_values : List PhiIncoming → List ℕ
incoming_values [] = []
incoming_values (i ∷ rest) = i.value ∷ incoming_values rest

module _ {D : Type 0} where
  unfoldable pub operands_of : Operation D → List ℕ
  unfolding incoming_values
  operands_of (binary_op _ _ lhs rhs _) = lhs ∷ rhs ∷ []
  operands_of (compare_op _ _ lhs rhs _) = lhs ∷ rhs ∷ []
  operands_of (phi_op _ _ incoming) = incoming_values incoming
  operands_of (matmul_op _ lhs rhs _) = lhs ∷ rhs ∷ []
  operands_of (relu_op _ input _) = input ∷ []
  operands_of _ = []

abbrev Known : List ℕ → ℕ → Type 0
Known ids k = has_id k ids ≡ true

abbrev Defined : IdMap Definition → ℕ → Type 0
Defined definitions v = is_some (find_id v definitions) ≡ true

require_block-Known :
    (ids : List ℕ) (k : ℕ) → Post (λ _. Known ids k) (λ _. Unit) (require_block ids k)
require_block-Known ids k = elim (Bool-cases (has_id k ids)) [
  | inl here ↦ rw (require_block, here) (value refl)
  | inr missing ↦ rw (require_block, missing) (error tt)
]

add_edges-Known :
    (ids : List ℕ) (k : ℕ) (t : Option Terminator) (p : IdMap (List ℕ))
    → Post (λ _. All (Known ids) (targets_of t)) (λ _. Unit) (add_edges ids k t p)
unfolding add_edges targets_of
add_edges-Known ids k none p = value tt
add_edges-Known ids k (some (return_op v)) p = value tt
add_edges-Known ids k (some (branch_op target)) p =
    Post-bind (require_block-Known ids target) λ _ h. value (h, tt)
add_edges-Known ids k (some (cond_branch_op c a b)) p =
    Post-bind (require_block-Known ids a)
      λ _ h. Post-bind (require_block-Known ids b) λ _ i. value (h, (i, tt))

require_value-Defined :
    (definitions : IdMap Definition) (v : ℕ)
    → Post (λ _. Defined definitions v) (λ _. Unit) (require_value definitions v)
unfolding require_value
require_value-Defined definitions v = elim (Option-cases (find_id v definitions)) [
  | inl missing ↦ rw (require_value, missing) (error tt)
  | inr (d, found) ↦ rw (require_value, found) (value refl)
]

any-Post : {A : Type 0} (r : Verified A) → Post (λ _. Unit) (λ _. Unit) r
any-Post (ok a) = value tt
any-Post (err e) = error tt

-- What a check is followed by does not matter.
Post-kept :
    {A B : Type 0} {P : Type 0} {m : Verified A} (f : A → Verified B)
    → Post (λ _. P) (λ _. Unit) m
    → Post (λ _. P) (λ _. Unit) (m >>= f)
Post-kept f h = Post-bind h λ a p. Post-map (λ _ _. p) (any-Post (f a))

require_operand-Defined :
    (definitions : IdMap Definition) (v : ℕ) (type : TensorType) (block index : ℕ)
    → Post (λ _. Defined definitions v) (λ _. Unit) (require_operand definitions v type block index)
unfolding require_operand
require_operand-Defined definitions v type block index =
    Post-kept _ (require_value-Defined definitions v)

check_incoming-Defined :
    (definitions : IdMap Definition) (type : TensorType) (block index : ℕ)
    (incoming : List PhiIncoming) (seen : List ℕ)
    → Post
        (λ _. All (Defined definitions) (incoming_values incoming))
        (λ _. Unit)
        (check_incoming definitions type block index incoming seen)
unfolding check_incoming incoming_values
check_incoming-Defined definitions type block index [] seen = value tt
check_incoming-Defined definitions type block index (i ∷ rest) seen =
    Post-bind (require_operand-Defined definitions i.value type block index) λ _ h.
      elim (Bool-cases (has_id i.predecessor seen)) [
        | inl twice ↦ rw twice (error tt)
        | inr new ↦ rw new (
            Post-map (λ _ k. (h, k))
              (check_incoming-Defined definitions type block index rest (i.predecessor ∷ seen)))
      ]

check_terminator-Defined :
    (definitions : IdMap Definition) (t : Option Terminator) (type : Option TensorType)
    → Post
        (λ _. All (Defined definitions) (value_of t))
        (λ _. Unit)
        (check_terminator definitions t type)
unfolding check_terminator value_of
check_terminator-Defined ds none type = value tt
check_terminator-Defined ds (some (branch_op _)) type = value tt
check_terminator-Defined ds (some (cond_branch_op c _ _)) type =
    Post-kept _ (Post-map (λ _ h. (h, tt)) (require_value-Defined ds c))
check_terminator-Defined ds (some (return_op v)) none =
    Post-kept _ (Post-map (λ _ h. (h, tt)) (require_value-Defined ds v))
check_terminator-Defined ds (some (return_op v)) (some type) =
    Post-kept _ (Post-map (λ _ h. (h, tt)) (require_value-Defined ds v))

nonempty-Post :
    {A : Type 0} {P : Unit {0} → Type 0} (xs : List A) {r : Verified Unit}
    → Post P (λ _. Unit) r
    → Post P (λ _. Unit) (elim xs [ [] ↦ err no_basic_blocks | _ ∷ _ ↦ r ])
nonempty-Post [] h = error tt
nonempty-Post (_ ∷ _) h = h

module _ {D : Type 0} where
  check_operation-Defined :
      (definitions : IdMap Definition) (p : IdMap (List ℕ)) (b : BasicBlock D) (index : ℕ)
      (o : Operation D)
      → Post
          (λ _. All (Defined definitions) (operands_of o))
          (λ _. Unit)
          (check_operation definitions p b index o)
  unfolding check_operation operands_of
  check_operation-Defined ds p b index (tensor_decl_op _ _ _) = value tt
  check_operation-Defined ds p b index (constant_int_op _ _ _) = value tt
  check_operation-Defined ds p b index (constant_float_op _ _ _) = value tt
  check_operation-Defined ds p b index (binary_op _ _ l r type) =
      Post-bind (require_operand-Defined ds l type b.id index)
        λ _ h. Post-map (λ _ k. (h, (k, tt))) (require_operand-Defined ds r type b.id index)
  check_operation-Defined ds p b index (compare_op _ _ l r type) =
      Post-bind (require_operand-Defined ds l type b.id index)
        λ _ h. Post-map (λ _ k. (h, (k, tt))) (require_operand-Defined ds r type b.id index)
  check_operation-Defined ds p b index (phi_op _ type incoming) =
      Post-kept _ (check_incoming-Defined ds type b.id index incoming [])
  check_operation-Defined ds p b index (matmul_op _ l r _) =
      Post-bind (require_value-Defined ds l)
        λ _ h. Post-bind (require_value-Defined ds r) λ _ k. value (h, (k, tt))
  check_operation-Defined ds p b index (relu_op _ input _) =
      Post-bind (require_value-Defined ds input) λ _ h. value (h, tt)

  check_operations-Defined :
      (definitions : IdMap Definition) (p : IdMap (List ℕ)) (b : BasicBlock D) (index : ℕ)
      (os : List (Operation D))
      → Post
          (λ _. All (λ o. All (Defined definitions) (operands_of o)) os)
          (λ _. Unit)
          (check_operations definitions p b index os)
  unfolding check_operations
  check_operations-Defined ds p b index [] = value tt
  check_operations-Defined ds p b index (o ∷ os) =
      Post-bind (check_operation-Defined ds p b index o)
        λ _ h. Post-map (λ _ k. (h, k)) (check_operations-Defined ds p b (suc index) os)

  -- Every value that a block uses has the property `P`.
  abbrev pub Uses : (ℕ → Type 0) → BasicBlock D → Type 0
  Uses P b = All (λ o. All P (operands_of o)) b.operations × All P (value_of b.terminator)

  check_blocks-Defined :
      (definitions : IdMap Definition) (p : IdMap (List ℕ)) (blocks : List (BasicBlock D))
      (type : Option TensorType)
      → Post
          (λ _. All (Uses (Defined definitions)) blocks)
          (λ _. Unit)
          (check_blocks definitions p blocks type)
  unfolding check_blocks
  check_blocks-Defined ds p [] type = value tt
  check_blocks-Defined ds p (b ∷ blocks) type =
      Post-bind (check_operations-Defined ds p b 0 b.operations) λ _ h.
        Post-bind (check_terminator-Defined ds b.terminator type)
          λ found k. Post-map (λ _ l. ((h, k), l)) (check_blocks-Defined ds p blocks found)

  find_predecessors-Known :
      (ids : List ℕ) (blocks : List (BasicBlock D)) (p : IdMap (List ℕ))
      → Post
          (λ _. All (λ b. All (Known ids) (targets_of b.terminator)) blocks)
          (λ _. Unit)
          (find_predecessors ids blocks p)
  unfolding find_predecessors
  find_predecessors-Known ids [] p = value tt
  find_predecessors-Known ids (b ∷ blocks) p =
      Post-bind (add_edges-Known ids b.id b.terminator p)
        λ more h. Post-map (λ _ k. (h, k)) (find_predecessors-Known ids blocks more)

  -- A control-flow graph in single-assignment form: no block id and no value id is given twice,
  -- every block ends, the entry and every target of a branch are blocks, and every value that is
  -- used is defined.
  pub record IsGraph (m : Module D) : Type 0 where
    pub ids : (k : ℕ) → blocks_of k m.blocks ≤ 1
    pub values : (v : ℕ) → definitions_of v m.blocks ≤ 1
    pub ended : All (λ b. is_some b.terminator ≡ true) m.blocks
    pub entry : blocks_of m.entry m.blocks ≡ 1
    pub targets : All (λ b. All (λ k. blocks_of k m.blocks ≡ 1) (targets_of b.terminator)) m.blocks
    pub used : All (Uses (λ v. definitions_of v m.blocks ≡ 1)) m.blocks

  verify_graph-IsGraph :
      (m : Module D) (ids : List ℕ) (definitions : IdMap Definition)
      → Counted m.blocks ([], []) (ids, definitions)
      → Post (λ _. IsGraph m) (λ _. Unit) (verify_graph m ids definitions)
  unfolding verify_graph has_id find_id
  verify_graph-IsGraph m ids definitions c = elim (Bool-cases (has_id m.entry ids)) [
    | inr missing ↦ rw (verify_graph, missing) (error tt)
    | inl entered ↦
        rw (verify_graph, entered)
          (Post-bind (find_predecessors-Known ids m.blocks []) λ p known. Post-kept _ (
            Post-map
              (λ _ defined. record {
                ids = λ k. ground (arith, c.ids k);
                values = λ v. ground (arith, c.values v);
                ended = c.ended;
                entry = is_block m.entry entered;
                targets = All-map m.blocks (λ b. All-map (targets_of b.terminator) is_block) known;
                used =
                    All-map m.blocks
                      (λ b u. (
                        All-map b.operations (λ o. All-map (operands_of o) is_value) u.0,
                        All-map (value_of b.terminator) is_value u.1,
                      ))
                      defined;
              })
              (check_blocks-Defined definitions p m.blocks none)))
  ]
    where
      is_block : (k : ℕ) → Known ids k → blocks_of k m.blocks ≡ 1
      is_block k h = ground (arith, c.ids k, h)

      is_value : (v : ℕ) → Defined definitions v → definitions_of v m.blocks ≡ 1
      is_value v h = ground (arith, c.values v, h)

  verify-Post : (m : Module D) → Post (λ _. IsGraph m) (λ _. Unit) (verify m)
  unfolding verify
  verify-Post m =
      nonempty-Post m.blocks
        (Post-bind (define_blocks-Counted m.blocks [] []) λ p c. verify_graph-IsGraph m p.0 p.1 c)

  -- A module that the verifier lets through gives no block id and no value id twice, each of its
  -- blocks ends, its entry and every target of a branch are blocks of it, and it defines every
  -- value that an operation or a terminator uses.
  pub verify-IsGraph : (m : Module D) → verify m ≡ ok tt → IsGraph m
  verify-IsGraph m = Post-ok (verify-Post m)
