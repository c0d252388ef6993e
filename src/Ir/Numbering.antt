-- ===== src/Ir/Numbering.antt =====
-- The ids that src/ir/IRGenerator.cpp gives out, and its accesses to the current block.
use ocelotl_tensor.Base.{
  ℕ, suc, ◌<◌, ◌≤◌, ◌≡◌, ◌≢◌, inl, inr, refl, sym, ap, ◌∙◌, Bool, true, false, some, arith, length,
  get_elem?, if◌then◌else◌, ltb, Text, Option-cases,
}
use ocelotl_tensor.Base.Maps.{Map, find}
use ocelotl_tensor.Base.Results.{ok, err, Post, value, error, Post-bind, Post-map}
use ocelotl_tensor.Frontend.Ast.{
  TensorType, BinaryOperator, add, subtract, multiply, divide, equal, not_equal, less, less_equal,
  greater, greater_equal, Expression, identifier_expr, integer_expr, float_expr, call_expr,
  binary_expr, Arguments, no_arguments, argument,
}
use ocelotl_tensor.Semantic.Analyzer.{scalar, i64, f64}
use ocelotl_tensor.Semantic.Typing.{matrix}
use ocelotl_tensor.Ir.Module.{
  constant_int_op, constant_float_op, relu_op, matmul_op, Operation, result_of,
}
use ocelotl_tensor.Ir.Generator.{
  GenerationError, no_active_block, block_out_of_range, operand_type_mismatch, unsupported_call,
  Generated, ValueInfo, IrGenerator, modify, with_operation, emplace_back, emit, with_blocks,
  generate_identifier, extent_at, value_type, binary_operation, generate_expression, generate_call,
}
use ocelotl_tensor.Ir.Blocks.{
  length-modify, get_elem?-lt, definitions_of, definitions_of-operation, PlacedFrom,
  PlacedFrom-modify,
}

-- Blocks and values are numbered in the order of their creation, and every value that was created
-- has one definition.
pub record Numbered {D : Type 0} (g : IrGenerator D) : Type 0 where
  pub placed : PlacedFrom 0 g.ir.blocks
  pub counted : length g.ir.blocks ≡ g.next_block_id
  pub single : (v : ℕ) → definitions_of v g.ir.blocks ≡ (if ltb v g.next_value_id then 1 else 0)

-- The names stand for values that were created.
abbrev pub Bounded : ℕ → Map ValueInfo → Type 0
Bounded n m = (k : Text) (v : ValueInfo) → find k m ≡ some v → v.value < n

-- The errors of an access to a block that is not there.
abbrev pub IsFound : GenerationError → Type 0
IsFound e = (e ≢ no_active_block) × (e ≢ block_out_of_range)

-- The block `id` is current, and there.
abbrev pub At : {D : Type 0} → ℕ → IrGenerator D → Type 0
At id g = (g.current_block_id ≡ some id) × (id < g.next_block_id)

-- What an expression leaves behind besides its value.
pub record Emitted {D : Type 0} (g : IrGenerator D) (p : ValueInfo × IrGenerator D) : Type 0 where
  pub numbered : Numbered p.1
  pub value_is : p.0.value < p.1.next_value_id
  pub more : g.next_value_id ≤ p.1.next_value_id
  pub values : p.1.values ≡ g.values
  pub current : p.1.current_block_id ≡ g.current_block_id
  pub blocks : p.1.next_block_id ≡ g.next_block_id

pub result_of-binary_operation :
    (D : Type 0) (op : BinaryOperator) (l r : ℕ) (type : TensorType) (n : ℕ)
    → result_of (binary_operation {D = D} op n l r type) ≡ n
unfolding binary_operation
result_of-binary_operation D add l r type n = refl
result_of-binary_operation D subtract l r type n = refl
result_of-binary_operation D multiply l r type n = refl
result_of-binary_operation D divide l r type n = refl
result_of-binary_operation D equal l r type n = refl
result_of-binary_operation D not_equal l r type n = refl
result_of-binary_operation D less l r type n = refl
result_of-binary_operation D less_equal l r type n = refl
result_of-binary_operation D greater l r type n = refl
result_of-binary_operation D greater_equal l r type n = refl

extent_at-IsFound : (type : TensorType) (i : ℕ) → Post (λ _. Unit) IsFound (extent_at type i)
extent_at-IsFound type i = elim (Option-cases (get_elem? type.shape i)) [
  | inl e ↦ rw (extent_at, e) (error (cc, cc))
  | inr (n, e) ↦ rw (extent_at, e) (value tt)
]

generate_identifier-IsFound :
    {D : Type 0} (g : IrGenerator D) (name : Text)
    → Post (λ v. find name g.values ≡ some v) IsFound (generate_identifier g name)
unfolding generate_identifier
generate_identifier-IsFound g name = elim (Option-cases (find name g.values)) [
  | inl missing ↦ rw (generate_identifier, missing) (error (cc, cc))
  | inr (v, found) ↦ rw (generate_identifier, found) (value refl)
]

module _ {D : Type 0} where
  pub At-Emitted :
      (id : ℕ) (g : IrGenerator D) (p : ValueInfo × IrGenerator D)
      → At id g
      → Emitted g p
      → At id p.1
  At-Emitted id g p (c, l) e = (e.current ∙ c, omega (arith, l, e.blocks))

  Emitted-trans :
      (g : IrGenerator D) (p q : ValueInfo × IrGenerator D)
      → Emitted g p
      → Emitted p.1 q
      → Emitted g q
  Emitted-trans g p q e f = record {
    numbered = f.numbered;
    value_is = f.value_is;
    more = omega (arith, e.more, f.more);
    values = f.values ∙ e.values;
    current = f.current ∙ e.current;
    blocks = f.blocks ∙ e.blocks;
  }

  pub emplace_back-At :
      (id : ℕ) (g : IrGenerator D) (operation : Operation D)
      → g.current_block_id ≡ some id
      → id < length g.ir.blocks
      → emplace_back g operation
        ≡ ok (with_blocks g (modify (with_operation operation) id g.ir.blocks))
  unfolding emplace_back
  emplace_back-At id g operation c l =
      let (b, e) = get_elem?-lt g.ir.blocks id l in ground (arith, c, e)

  pub emit-Emitted :
      (id : ℕ) (g : IrGenerator D) (operation : ℕ → Operation D) (type : TensorType)
      → ((n : ℕ) → result_of (operation n) ≡ n)
      → Numbered g
      → At id g
      → Post (Emitted g) IsFound (emit g operation type)
  unfolding emit
  emit-Emitted id g operation type defines w (c, l) =
      rw
        (emplace_back-At id (record g { next_value_id = suc g.next_value_id })
          (operation g.next_value_id) c (omega (arith, w.counted, l)))
        (value (record {
          numbered = record {
            placed =
                PlacedFrom-modify (with_operation (operation g.next_value_id)) 0 id g.ir.blocks
                  (λ b. refl) w.placed;
            counted =
                length-modify (with_operation (operation g.next_value_id)) id g.ir.blocks
                ∙ w.counted;
            single = λ v. defined v;
          };
          value_is = omega arith;
          more = omega arith;
          values = refl;
          current = refl;
          blocks = refl;
        }))
    where
      defined :
          (v : ℕ)
          → definitions_of v (modify (with_operation (operation g.next_value_id)) id g.ir.blocks)
            ≡ (if ltb v (suc g.next_value_id) then 1 else 0)
      defined v =
          rw
            (
              definitions_of-operation v (operation g.next_value_id) id g.ir.blocks
                  (omega (arith, w.counted, l)),
              w.single v,
              defines g.next_value_id,
            )
            (ground arith)

  Bounded-Emitted :
      (g : IrGenerator D) (p : ValueInfo × IrGenerator D)
      → Bounded g.next_value_id g.values
      → Emitted g p
      → Bounded p.1.next_value_id p.1.values
  Bounded-Emitted g p bound e k v h =
      let same : find k g.values ≡ some v = ap (find k) (sym e.values) ∙ h in
      omega (arith, bound k v same, e.more)

  -- An operation behind its operands.
  emit-behind :
      (id : ℕ) (g : IrGenerator D) (p : ValueInfo × IrGenerator D) (operation : ℕ → Operation D)
      (type : TensorType)
      → ((n : ℕ) → result_of (operation n) ≡ n)
      → At id g
      → Emitted g p
      → Post (Emitted g) IsFound (emit p.1 operation type)
  emit-behind id g p operation type defines here e =
      Post-map (λ q f. Emitted-trans g p q e f)
        (emit-Emitted id p.1 operation type defines e.numbered (At-Emitted id g p here e))

  if-Post :
      {g : IrGenerator D} (b : Bool) (e : GenerationError)
      {m : Generated (ValueInfo × IrGenerator D)}
      → IsFound e
      → Post (Emitted g) IsFound m
      → Post (Emitted g) IsFound (if b then m else err e)
  if-Post true e k h = h
  if-Post false e k h = error k

  callee-Post :
      {g : IrGenerator D} (b : Bool) (callee : Text) {m : Generated (ValueInfo × IrGenerator D)}
      → Post (Emitted g) IsFound m
      → Post (Emitted g) IsFound (elim b [ true ↦ m | false ↦ err (unsupported_call callee) ])
  callee-Post true callee h = h
  callee-Post false callee h = error (cc, cc)

  mutual
    unfolding generate_expression

    pub generate_expression-Emitted :
        (id : ℕ) (g : IrGenerator D) (e : Expression D)
        → Numbered g
        → Bounded g.next_value_id g.values
        → At id g
        → Post (Emitted g) IsFound (generate_expression g e)
    generate_expression-Emitted id g (identifier_expr name _) w bound here =
        Post-bind (generate_identifier-IsFound g name) λ v found. value (record {
          numbered = w;
          value_is = bound name v found;
          more = omega arith;
          values = refl;
          current = refl;
          blocks = refl;
        })
    generate_expression-Emitted id g (integer_expr n _) w bound here =
        emit-Emitted id g (λ result. constant_int_op result n (scalar i64)) (scalar i64) (λ n. refl)
          w here
    generate_expression-Emitted id g (float_expr x _) w bound here =
        emit-Emitted id g (λ result. constant_float_op result x (scalar f64)) (scalar f64)
          (λ n. refl) w here
    generate_expression-Emitted id g (call_expr callee arguments _) w bound here =
        generate_call-Emitted id g callee arguments w bound here
    generate_expression-Emitted id g (binary_expr op a b _) w bound here =
        Post-bind (generate_expression-Emitted id g a w bound here) λ l el.
          Post-bind
            (generate_expression-Emitted id l.1 b el.numbered (Bounded-Emitted g l bound el)
              (At-Emitted id g l here el))
            λ r er.
              if-Post _ operand_type_mismatch (cc, cc)
                (emit-behind id g r
                  (λ result. binary_operation op result l.0.value r.0.value l.0.type)
                  (value_type op l.0.type)
                  (result_of-binary_operation D op l.0.value r.0.value l.0.type) here
                  (Emitted-trans g l r el er))

    generate_call-Emitted :
        (id : ℕ) (g : IrGenerator D) (callee : Text) (arguments : Arguments D)
        → Numbered g
        → Bounded g.next_value_id g.values
        → At id g
        → Post (Emitted g) IsFound (generate_call g callee arguments)
    generate_call-Emitted id g callee no_arguments w bound here = error (cc, cc)
    generate_call-Emitted id g callee (argument e no_arguments) w bound here =
        callee-Post _ callee (
          Post-bind (generate_expression-Emitted id g e w bound here) λ v ev.
            emit-behind id g v (λ result. relu_op result v.0.value v.0.type) v.0.type (λ n. refl)
              here ev)
    generate_call-Emitted id g callee (argument e (argument e' no_arguments)) w bound here =
        callee-Post _ callee (
          Post-bind (generate_expression-Emitted id g e w bound here) λ l el.
            Post-bind
              (generate_expression-Emitted id l.1 e' el.numbered (Bounded-Emitted g l bound el)
                (At-Emitted id g l here el))
              λ r er. Post-bind (extent_at-IsFound l.0.type 0) λ m _.
                Post-bind (extent_at-IsFound r.0.type 1) λ n _.
                  emit-behind id g r
                    (λ result.
                      matmul_op result l.0.value r.0.value (matrix l.0.type.element_type m n))
                    (matrix l.0.type.element_type m n) (λ k. refl) here (Emitted-trans g l r el er))
    generate_call-Emitted id g callee (argument e (argument e' (argument e'' more))) w bound here =
        error (cc, cc)
