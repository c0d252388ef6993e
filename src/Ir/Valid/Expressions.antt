-- ===== src/Ir/Valid/Expressions.antt =====
-- Expressions in src/ir/IRGenerator.cpp: what they add to the current block is valid, and their value
-- is defined with its type.
use ocelotl_tensor.Base.{
  ℕ, ◌≡◌, inl, inr, refl, sym, subst, Bool, true, false, some, List, length, get_elem?, Text,
  Option-cases, if◌then◌else◌,
}
use ocelotl_tensor.Base.Maps.{find}
use ocelotl_tensor.Base.Results.{err, Post, value, error, Post-bind}
use ocelotl_tensor.Frontend.Ast.{
  TensorType, BinaryOperator, add, subtract, multiply, divide, equal, not_equal, less, less_equal,
  greater, greater_equal, Expression, identifier_expr, integer_expr, float_expr, call_expr,
  binary_expr, Arguments, no_arguments, argument,
}
use ocelotl_tensor.Semantic.Analyzer.{scalar, i64, f64, same_type}
use ocelotl_tensor.Semantic.Typing.{matrix}
use ocelotl_tensor.Ir.Module.{
  constant_int_op, constant_float_op, relu_op, matmul_op, BasicBlock, type_of,
}
use ocelotl_tensor.Ir.Verifier.{is_phi}
use ocelotl_tensor.Ir.Generator.{
  operand_type_mismatch, unsupported_call, Generated, ValueInfo, IrGenerator, emit,
  generate_identifier, extent_at, value_type, binary_operation, generate_expression, generate_call,
}
use ocelotl_tensor.Ir.Numbering.{result_of-binary_operation}
use ocelotl_tensor.Ir.Valid.{Operand, Defined, Fine, Defined-Extends}
use ocelotl_tensor.Ir.Valid.State.{
  IsOwn, same_type→eq, Ready, Whole, Built, Built-trans, Operand-end, emit_first-Built,
  emit_behind-Built, Built-refl,
}

type_of-binary_operation :
    (D : Type 0) (op : BinaryOperator) (l r : ℕ) (type : TensorType) (n : ℕ)
    → type_of (binary_operation {D = D} op n l r type) ≡ value_type op type
unfolding binary_operation
type_of-binary_operation D add l r type n = refl
type_of-binary_operation D subtract l r type n = refl
type_of-binary_operation D multiply l r type n = refl
type_of-binary_operation D divide l r type n = refl
type_of-binary_operation D equal l r type n = refl
type_of-binary_operation D not_equal l r type n = refl
type_of-binary_operation D less l r type n = refl
type_of-binary_operation D less_equal l r type n = refl
type_of-binary_operation D greater l r type n = refl
type_of-binary_operation D greater_equal l r type n = refl

is_phi-binary_operation :
    (D : Type 0) (op : BinaryOperator) (l r : ℕ) (type : TensorType) (n : ℕ)
    → is_phi (binary_operation {D = D} op n l r type) ≡ false
unfolding binary_operation
is_phi-binary_operation D add l r type n = refl
is_phi-binary_operation D subtract l r type n = refl
is_phi-binary_operation D multiply l r type n = refl
is_phi-binary_operation D divide l r type n = refl
is_phi-binary_operation D equal l r type n = refl
is_phi-binary_operation D not_equal l r type n = refl
is_phi-binary_operation D less l r type n = refl
is_phi-binary_operation D less_equal l r type n = refl
is_phi-binary_operation D greater l r type n = refl
is_phi-binary_operation D greater_equal l r type n = refl

Fine-binary_operation :
    {D : Type 0} (bs : List (BasicBlock D)) (block index : ℕ) (op : BinaryOperator) (l r : ℕ)
    (type : TensorType) (n : ℕ)
    → Operand bs block index l type
    → Operand bs block index r type
    → Fine bs block index (binary_operation op n l r type)
unfolding binary_operation Fine
Fine-binary_operation bs block index add l r type n a b = (a, b)
Fine-binary_operation bs block index subtract l r type n a b = (a, b)
Fine-binary_operation bs block index multiply l r type n a b = (a, b)
Fine-binary_operation bs block index divide l r type n a b = (a, b)
Fine-binary_operation bs block index equal l r type n a b = (a, b)
Fine-binary_operation bs block index not_equal l r type n a b = (a, b)
Fine-binary_operation bs block index less l r type n a b = (a, b)
Fine-binary_operation bs block index less_equal l r type n a b = (a, b)
Fine-binary_operation bs block index greater l r type n a b = (a, b)
Fine-binary_operation bs block index greater_equal l r type n a b = (a, b)

extent_at-IsOwn : (type : TensorType) (i : ℕ) → Post (λ _. Unit) IsOwn (extent_at type i)
extent_at-IsOwn type i = elim (Option-cases (get_elem? type.shape i)) [
  | inl e ↦ rw (extent_at, e) (error (λ x. cc))
  | inr (n, e) ↦ rw (extent_at, e) (value tt)
]

generate_identifier-IsOwn :
    {D : Type 0} (g : IrGenerator D) (name : Text)
    → Post (λ v. find name g.values ≡ some v) IsOwn (generate_identifier g name)
unfolding generate_identifier
generate_identifier-IsOwn g name = elim (Option-cases (find name g.values)) [
  | inl missing ↦ rw (generate_identifier, missing) (error (λ x. cc))
  | inr (v, found) ↦ rw (generate_identifier, found) (value refl)
]

module _ {D : Type 0} where
  -- The left operand, behind the right one.
  Defined-behind :
      (id : ℕ) (p q : ValueInfo × IrGenerator D)
      → Defined p.1.ir.blocks p.0.value p.0.type
      → Built id p.1 q
      → Defined q.1.ir.blocks p.0.value p.0.type
  Defined-behind id p q d b =
      Defined-Extends 0 p.1.ir.blocks q.1.ir.blocks p.0.value p.0.type (b.extends 0) d

  same-Post :
      {id : ℕ} {g : IrGenerator D} (b : Bool) {m : Generated (ValueInfo × IrGenerator D)}
      → (b ≡ true → Post (Built id g) IsOwn m)
      → Post (Built id g) IsOwn (if b then m else err operand_type_mismatch)
  same-Post true h = h refl
  same-Post false h = error (λ x. cc)

  callee-Post :
      {id : ℕ} {g : IrGenerator D} (b : Bool) (callee : Text)
      {m : Generated (ValueInfo × IrGenerator D)}
      → Post (Built id g) IsOwn m
      → Post (Built id g) IsOwn (elim b [ true ↦ m | false ↦ err (unsupported_call callee) ])
  callee-Post true callee h = h
  callee-Post false callee h = error (λ x. cc)

  emit_binary-Built :
      (id : ℕ) (g : IrGenerator D) (op : BinaryOperator) (l r : ValueInfo × IrGenerator D)
      → Built id g l
      → Built id l.1 r
      → same_type l.0.type r.0.type ≡ true
      → Post (Built id g) IsOwn (
          emit r.1
            (λ result. binary_operation op result l.0.value r.0.value l.0.type)
            (value_type op l.0.type))
  emit_binary-Built id g op l r bl br same =
      let b = Built-trans id g l r bl br in
      emit_behind-Built id g r (λ result. binary_operation op result l.0.value r.0.value l.0.type)
        (value_type op l.0.type) (result_of-binary_operation D op l.0.value r.0.value l.0.type)
        (type_of-binary_operation D op l.0.value r.0.value l.0.type)
        (is_phi-binary_operation D op l.0.value r.0.value l.0.type) b
        (Fine-binary_operation r.1.ir.blocks id (length b.ready.block.operations) op l.0.value
          r.0.value l.0.type r.1.next_value_id
          (Operand-end r.1.ir.blocks id b.ready.block l.0.value l.0.type b.ready.here
            (Defined-behind id l r bl.defined br))
          (Operand-end r.1.ir.blocks id b.ready.block r.0.value l.0.type b.ready.here (
            subst (Defined r.1.ir.blocks r.0.value) (sym (same_type→eq l.0.type r.0.type same))
              br.defined)))

  mutual
    unfolding generate_expression Fine

    pub generate_expression-Built :
        (id : ℕ) (g : IrGenerator D) (e : Expression D)
        → Whole g
        → Ready id g
        → Post (Built id g) IsOwn (generate_expression g e)
    generate_expression-Built id g (identifier_expr name _) w r =
        Post-bind (generate_identifier-IsOwn g name)
          λ v found. value (Built-refl id g v w r (w.typed name v found))
    generate_expression-Built id g (integer_expr n _) w r =
        emit_first-Built id g (λ result. constant_int_op result n (scalar i64)) (scalar i64)
          (λ n. refl) (λ n. refl) (λ n. refl) w r tt
    generate_expression-Built id g (float_expr x _) w r =
        emit_first-Built id g (λ result. constant_float_op result x (scalar f64)) (scalar f64)
          (λ n. refl) (λ n. refl) (λ n. refl) w r tt
    generate_expression-Built id g (call_expr callee arguments _) w r =
        generate_call-Built id g callee arguments w r
    generate_expression-Built id g (binary_expr op a b _) w r =
        Post-bind (generate_expression-Built id g a w r) λ l bl.
          Post-bind (generate_expression-Built id l.1 b bl.whole bl.ready)
            λ q br. same-Post (same_type l.0.type q.0.type) (emit_binary-Built id g op l q bl br)

    generate_call-Built :
        (id : ℕ) (g : IrGenerator D) (callee : Text) (arguments : Arguments D)
        → Whole g
        → Ready id g
        → Post (Built id g) IsOwn (generate_call g callee arguments)
    generate_call-Built id g callee no_arguments w r = error (λ x. cc)
    generate_call-Built id g callee (argument e no_arguments) w r = callee-Post _ callee (
        Post-bind (generate_expression-Built id g e w r) λ v b.
          emit_behind-Built id g v (λ result. relu_op result v.0.value v.0.type) v.0.type
            (λ n. refl) (λ n. refl) (λ n. refl) b
            (
              v.0.type,
              Operand-end v.1.ir.blocks id b.ready.block v.0.value v.0.type b.ready.here b.defined,
            ))
    generate_call-Built id g callee (argument e (argument e' no_arguments)) w r =
        callee-Post _ callee (
          Post-bind (generate_expression-Built id g e w r) λ l bl.
            Post-bind (generate_expression-Built id l.1 e' bl.whole bl.ready) λ q br.
              Post-bind (extent_at-IsOwn l.0.type 0) λ m _.
                Post-bind (extent_at-IsOwn q.0.type 1) λ n _.
                  let b = Built-trans id g l q bl br in
                  emit_behind-Built id g q
                    (λ result.
                      matmul_op result l.0.value q.0.value (matrix l.0.type.element_type m n))
                    (matrix l.0.type.element_type m n) (λ k. refl) (λ k. refl) (λ k. refl) b
                    (
                      (
                        l.0.type,
                        Operand-end q.1.ir.blocks id b.ready.block l.0.value l.0.type b.ready.here
                            (Defined-behind id l q bl.defined br),
                      ),
                      (
                        q.0.type,
                        Operand-end q.1.ir.blocks id b.ready.block q.0.value q.0.type b.ready.here
                            br.defined,
                      ),
                    ))
    generate_call-Built id g callee (argument e (argument e' (argument e'' more))) w r =
        error (λ x. cc)
