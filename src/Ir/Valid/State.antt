-- ===== src/Ir/Valid/State.antt =====
-- What src/ir/IRGenerator.cpp keeps valid between two operations, and one operation more.
use ocelotl_tensor.Base.{
  ℕ, suc, ◌≡◌, ◌≢◌, refl, sym, ap, ◌∙◌, subst, Bool, true, false, not, ◌||◌, none, some, List, [],
  ◌∷◌, ◌++◌, arith, length, get_elem?, Text, list_eq→eq,
}
use ocelotl_tensor.Base.Maps.{Map, find, Distinct}
use ocelotl_tensor.Base.Results.{Post, value, Post-map}
use ocelotl_tensor.Frontend.Ast.{TensorType}
use ocelotl_tensor.Semantic.Analyzer.{same_type}
use ocelotl_tensor.Ir.Module.{Operation, BasicBlock, result_of, type_of}
use ocelotl_tensor.Ir.Verifier.{IrVerificationError, is_phi}
use ocelotl_tensor.Ir.Generator.{
  GenerationError, verification, ValueInfo, IrGenerator, modify, with_operation, emit,
}
use ocelotl_tensor.Ir.Blocks.{length-modify}
use ocelotl_tensor.Ir.Numbering.{emplace_back-At}
use ocelotl_tensor.Ir.Valid.{
  DefinedAt, Operand, Defined, Fine, PhisFirst, AllFine, Extends, Extends-refl, Extends-trans,
  Defined-Extends,
}
use ocelotl_tensor.Ir.Valid.Steps.{
  get_elem?-modify, get_elem?-modify_ne, lt-length, with_operation-Extends,
  with_operation-DefinedAt, with_operation-AllFine,
}

-- An error that the generator throws itself.
abbrev pub IsOwn : GenerationError → Type 0
IsOwn e = (x : IrVerificationError) → e ≢ verification x

pub same_type→eq : (a b : TensorType) → same_type a b ≡ true → a ≡ b
unfolding same_type
same_type→eq a b h =
    let e : a.element_type ≡ b.element_type =
      list_eq→eq a.element_type b.element_type (ground (arith, h)) in
    let s : a.shape ≡ b.shape = list_eq→eq a.shape b.shape (ground (arith, h)) in cc (e, s)

module _ {D : Type 0} where
  -- Every name stands for a value that is defined with the type that is kept for it.
  abbrev pub Typed : List (BasicBlock D) → Map ValueInfo → Type 0
  Typed bs m = (k : Text) (v : ValueInfo) → find k m ≡ some v → Defined bs v.value v.type

  -- The block `id` is current, and open.
  pub record Ready (id : ℕ) (g : IrGenerator D) : Type 0 where
    pub current : g.current_block_id ≡ some id
    pub block : BasicBlock D
    pub here : get_elem? g.ir.blocks id ≡ some block
    pub open_ : block.terminator ≡ none

  pub record Whole (g : IrGenerator D) : Type 0 where
    pub fine : AllFine g.ir.blocks
    pub typed : Typed g.ir.blocks g.values
    pub counted : length g.ir.blocks ≡ g.next_block_id
    pub distinct : Distinct g.values

  -- What an expression leaves behind.
  pub record Built (id : ℕ) (g : IrGenerator D) (p : ValueInfo × IrGenerator D) : Type 0 where
    pub whole : Whole p.1
    pub ready : Ready id p.1
    pub defined : Defined p.1.ir.blocks p.0.value p.0.type
    pub extends : (n : ℕ) → Extends n g.ir.blocks p.1.ir.blocks
    pub frame : (i : ℕ) → i ≢ id → get_elem? p.1.ir.blocks i ≡ get_elem? g.ir.blocks i
    pub values : p.1.values ≡ g.values
    pub entry : p.1.ir.entry ≡ g.ir.entry
    pub count : length p.1.ir.blocks ≡ length g.ir.blocks

  pub Built-trans :
      (id : ℕ) (g : IrGenerator D) (p q : ValueInfo × IrGenerator D)
      → Built id g p
      → Built id p.1 q
      → Built id g q
  Built-trans id g p q e f = record {
    whole = f.whole;
    ready = f.ready;
    defined = f.defined;
    extends = λ n.
        Extends-trans n n g.ir.blocks p.1.ir.blocks q.1.ir.blocks (omega arith) (e.extends n)
          (f.extends n);
    frame = λ i ne. f.frame i ne ∙ e.frame i ne;
    values = f.values ∙ e.values;
    entry = f.entry ∙ e.entry;
    count = f.count ∙ e.count;
  }

  -- A value that is defined may be used at the end of any block.
  pub Operand-end :
      (bs : List (BasicBlock D)) (id : ℕ) (b : BasicBlock D) (v : ℕ) (t : TensorType)
      → get_elem? bs id ≡ some b
      → Defined bs v t
      → Operand bs id (length b.operations) v t
  Operand-end bs id b v t here d = record {
    in_block = d.in_block;
    in_index = d.in_index;
    defined = d.defined;
    before = λ same.
        let is : d.defined.found ≡ b = cc (d.defined.at_block, here, same) in
        lt-length b.operations d.in_index d.defined.operation
          (ap (λ x. get_elem? x.operations d.in_index) (sym is) ∙ d.defined.at_index);
  }

  PhisFirst-append :
      (saw : Bool) (os : List (Operation D)) (o : Operation D)
      → is_phi o ≡ false
      → PhisFirst saw os
      → PhisFirst saw (os ++ o ∷ [])
  unfolding PhisFirst
  PhisFirst-append saw [] o e h = (ground (arith, e), tt)
  PhisFirst-append saw (x ∷ os) o e (h, k) = (h, PhisFirst-append (saw || not (is_phi x)) os o e k)

  -- `emit` in the current block.
  pub emit-Built :
      (id : ℕ) (g : IrGenerator D) (operation : ℕ → Operation D) (type : TensorType)
      → ((n : ℕ) → result_of (operation n) ≡ n)
      → ((n : ℕ) → type_of (operation n) ≡ type)
      → (w : Whole g) (r : Ready id g)
      → Fine g.ir.blocks id (length r.block.operations) (operation g.next_value_id)
      → PhisFirst false (r.block.operations ++ operation g.next_value_id ∷ [])
      → Post (Built id g) IsOwn (emit g operation type)
  unfolding emit
  emit-Built id g operation type results types w r f phis =
      rw
        (emplace_back-At id (record g { next_value_id = suc g.next_value_id }) o r.current
          (lt-length g.ir.blocks id r.block r.here))
        (value (record {
          whole = record {
            fine = with_operation-AllFine g.ir.blocks id r.block o r.here w.fine f phis;
            typed = λ k v h.
                Defined-Extends 0 g.ir.blocks bs v.value v.type (extends 0) (w.typed k v h);
            counted = length-modify (with_operation o) id g.ir.blocks ∙ w.counted;
            distinct = w.distinct;
          };
          ready = record {
            current = r.current;
            block = with_operation o r.block;
            here = get_elem?-modify (with_operation o) id g.ir.blocks r.block r.here;
            open_ = r.open_;
          };
          defined = record {
            in_block = id;
            in_index = length r.block.operations;
            defined =
                subst (λ n. DefinedAt bs n id (length r.block.operations) type)
                  (results g.next_value_id)
                  (subst (λ t. DefinedAt bs (result_of o) id (length r.block.operations) t)
                    (types g.next_value_id)
                    (with_operation-DefinedAt g.ir.blocks id r.block o r.here));
          };
          extends = extends;
          frame = λ i ne. get_elem?-modify_ne (with_operation o) id i g.ir.blocks (λ e. ne (sym e));
          values = refl;
          entry = refl;
          count = length-modify (with_operation o) id g.ir.blocks;
        }))
    where
      o : Operation D
      o = operation g.next_value_id

      bs : List (BasicBlock D)
      bs = modify (with_operation o) id g.ir.blocks

      extends : (n : ℕ) → Extends n g.ir.blocks bs
      extends = with_operation-Extends g.ir.blocks id r.block o r.here

  -- The operation stands behind those that were there.
  pub emit-There :
      (id : ℕ) (g : IrGenerator D) (operation : ℕ → Operation D) (type : TensorType)
      → (r : Ready id g)
      → Post
          (λ p.
            get_elem? p.1.ir.blocks id ≡ some (with_operation (operation g.next_value_id) r.block))
          IsOwn
          (emit g operation type)
  unfolding emit
  emit-There id g operation type r =
      rw
        (emplace_back-At id (record g { next_value_id = suc g.next_value_id })
          (operation g.next_value_id) r.current (lt-length g.ir.blocks id r.block r.here))
        (value (
          get_elem?-modify (with_operation (operation g.next_value_id)) id g.ir.blocks r.block
            r.here))

  -- The same for an operation that is no phi, behind others.
  pub emit_behind-Built :
      (id : ℕ) (g : IrGenerator D) (p : ValueInfo × IrGenerator D) (operation : ℕ → Operation D)
      (type : TensorType)
      → ((n : ℕ) → result_of (operation n) ≡ n)
      → ((n : ℕ) → type_of (operation n) ≡ type)
      → ((n : ℕ) → is_phi (operation n) ≡ false)
      → (b : Built id g p)
      → Fine p.1.ir.blocks id (length b.ready.block.operations) (operation p.1.next_value_id)
      → Post (Built id g) IsOwn (emit p.1 operation type)
  emit_behind-Built id g p operation type results types plain b f =
      Post-map (λ q c. Built-trans id g p q b c)
        (emit-Built id p.1 operation type results types b.whole b.ready f (
          PhisFirst-append false b.ready.block.operations (operation p.1.next_value_id)
            (plain p.1.next_value_id) (b.whole.fine id b.ready.block b.ready.here).phis))

  pub emit_first-Built :
      (id : ℕ) (g : IrGenerator D) (operation : ℕ → Operation D) (type : TensorType)
      → ((n : ℕ) → result_of (operation n) ≡ n)
      → ((n : ℕ) → type_of (operation n) ≡ type)
      → ((n : ℕ) → is_phi (operation n) ≡ false)
      → Whole g
      → (r : Ready id g)
      → Fine g.ir.blocks id (length r.block.operations) (operation g.next_value_id)
      → Post (Built id g) IsOwn (emit g operation type)
  emit_first-Built id g operation type results types plain w r f =
      emit-Built id g operation type results types w r f (
        PhisFirst-append false r.block.operations (operation g.next_value_id)
          (plain g.next_value_id) (w.fine id r.block r.here).phis)

  -- Nothing has been emitted yet.
  pub Built-refl :
      (id : ℕ) (g : IrGenerator D) (v : ValueInfo)
      → Whole g
      → Ready id g
      → Defined g.ir.blocks v.value v.type
      → Built id g (v, g)
  Built-refl id g v w r d = record {
    whole = w;
    ready = r;
    defined = d;
    extends = λ n. Extends-refl n g.ir.blocks;
    frame = λ i ne. refl;
    values = refl;
    entry = refl;
    count = refl;
  }
