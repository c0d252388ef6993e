-- ===== src/Ir/Valid/Steps.antt =====
-- The four ways in which src/ir/IRGenerator.cpp changes the list of blocks: an operation at the end of
-- a block, a block behind the others, a terminator, and what keeps the list valid under them.
use ocelotl_tensor.Base.{
  ℕ, zero, suc, ◌<◌, ◌≤◌, ◌≡◌, ◌≢◌, inl, inr, refl, sym, ap, ◌∙◌, subst, false, none, some, List,
  [], ◌∷◌, ◌++◌, arith, length, length-append, get_elem?, ◌==◌, Bool-cases, ltb,
}
use ocelotl_tensor.Frontend.Ast.{TensorType}
use ocelotl_tensor.Ir.Module.{Operation, BasicBlock, result_of, type_of}
use ocelotl_tensor.Ir.Verifier.{has_id}
use ocelotl_tensor.Ir.Validity.{targets_of}
use ocelotl_tensor.Ir.Generator.{modify, with_operation}
use ocelotl_tensor.Ir.Blocks.{length-modify}
use ocelotl_tensor.Ir.Valid.{
  DefinedAt, edge, Fine, PhisFirst, BlockFine, AllFine, Extends, Fine-Extends, Closed-Extends,
  BlockFine-Extends,
}

-- What holds of 0 and of each successor.
pub by_index : (P : ℕ → Type 0) → P 0 → ((k : ℕ) → P (suc k)) → (k : ℕ) → P k
by_index P z s zero = z
by_index P z s (suc k) = s k

module _ {A : Type 0} where
  pub get_elem?-modify :
      (f : A → A) (i : ℕ) (xs : List A) (x : A)
      → get_elem? xs i ≡ some x
      → get_elem? (modify f i xs) i ≡ some (f x)
  get_elem?-modify f i [] x h = cc h
  get_elem?-modify f zero (y ∷ xs) x h = cc h
  get_elem?-modify f (suc i) (y ∷ xs) x h = get_elem?-modify f i xs x h

  pub get_elem?-modify_ne :
      (f : A → A) (i j : ℕ) (xs : List A) → i ≢ j → get_elem? (modify f i xs) j ≡ get_elem? xs j
  get_elem?-modify_ne f i j [] h = refl
  get_elem?-modify_ne f zero zero (y ∷ xs) h = absurd (h refl)
  get_elem?-modify_ne f zero (suc j) (y ∷ xs) h = refl
  get_elem?-modify_ne f (suc i) zero (y ∷ xs) h = refl
  get_elem?-modify_ne f (suc i) (suc j) (y ∷ xs) h =
      get_elem?-modify_ne f i j xs (λ e. h (ap suc e))

  pub get_elem?-append :
      (xs ys : List A) (i : ℕ) → i < length xs → get_elem? (xs ++ ys) i ≡ get_elem? xs i
  get_elem?-append [] ys i h = absurd (omega arith)
  get_elem?-append (x ∷ xs) ys zero h = refl
  get_elem?-append (x ∷ xs) ys (suc i) h = get_elem?-append xs ys i (omega arith)

  pub get_elem?-append_length :
      (xs ys : List A) (y : A) → get_elem? (xs ++ y ∷ ys) (length xs) ≡ some y
  get_elem?-append_length [] ys y = refl
  get_elem?-append_length (x ∷ xs) ys y = get_elem?-append_length xs ys y

  pub lt-length : (xs : List A) (i : ℕ) (x : A) → get_elem? xs i ≡ some x → i < length xs
  lt-length [] i x h = cc h
  lt-length (y ∷ xs) zero x h = omega arith
  lt-length (y ∷ xs) (suc i) x h = omega (arith, lt-length xs i x h)

  pub ge-length : (xs : List A) (i : ℕ) → length xs ≤ i → get_elem? xs i ≡ none
  ge-length [] i h = refl
  ge-length (x ∷ xs) zero h = absurd (omega arith)
  ge-length (x ∷ xs) (suc i) h = ge-length xs i (omega arith)

module _ {D : Type 0} where
  -- The block at `id`, `b`, is now `c`, which has all its operations; below the old length, the
  -- others are the same.
  pub record Changes (bs cs : List (BasicBlock D)) (id : ℕ) (b c : BasicBlock D) : Type 0 where
    pub was : get_elem? bs id ≡ some b
    pub now : get_elem? cs id ≡ some c
    pub others : (i : ℕ) → i ≢ id → i < length bs → get_elem? cs i ≡ get_elem? bs i
    pub kept :
        (j : ℕ) (o : Operation D)
        → get_elem? b.operations j ≡ some o
        → get_elem? c.operations j ≡ some o

  pub Changes-DefinedAt :
      (bs cs : List (BasicBlock D)) (id : ℕ) (b c : BasicBlock D)
      → Changes bs cs id b c
      → (v i j : ℕ) (t : TensorType) → DefinedAt bs v i j t
      → DefinedAt cs v i j t
  Changes-DefinedAt bs cs id b c h v i j t d = elim (Bool-cases (i == id)) [
    | inr other ↦ record {
      found = d.found;
      at_block =
          h.others i (ground (arith, other)) (lt-length bs i d.found d.at_block) ∙ d.at_block;
      operation = d.operation;
      at_index = d.at_index;
      result = d.result;
      type = d.type;
    }
    | inl same ↦
        let e : i ≡ id = ground (arith, same) in
        let f : d.found ≡ b = ground (arith, d.at_block, h.was, e) in
        record {
          found = c;
          at_block = ap (get_elem? cs) e ∙ h.now;
          operation = d.operation;
          at_index = h.kept j d.operation (ap (λ x. get_elem? x.operations j) (sym f) ∙ d.at_index);
          result = d.result;
          type = d.type;
        }
  ]

  pub edge-of :
      (bs cs : List (BasicBlock D)) (k i : ℕ)
      → get_elem? cs k ≡ get_elem? bs k
      → edge cs k i ≡ edge bs k i
  unfolding edge
  edge-of bs cs k i h = rw (edge, h)

  pub edge-at :
      (bs : List (BasicBlock D)) (k i : ℕ) (b : BasicBlock D)
      → get_elem? bs k ≡ some b
      → edge bs k i ≡ has_id i (targets_of b.terminator)
  unfolding edge
  edge-at bs k i b h = rw (edge, h)

  -- A block without a terminator jumps nowhere.
  pub edge-open :
      (bs : List (BasicBlock D)) (k i : ℕ) (b : BasicBlock D)
      → get_elem? bs k ≡ some b
      → b.terminator ≡ none
      → edge bs k i ≡ false
  unfolding edge has_id targets_of
  edge-open bs k i b h open_ = rw (edge, h, open_)

  pub edge-past : (bs : List (BasicBlock D)) (k i : ℕ) → length bs ≤ k → edge bs k i ≡ false
  unfolding edge
  edge-past bs k i h = rw (edge, ge-length bs k h)

  -- An operation at the end of the block at `id`.
  module _ (bs : List (BasicBlock D)) (id : ℕ) (b : BasicBlock D) (o : Operation D)
      (here : get_elem? bs id ≡ some b) where
    pub with_operation-Changes :
        Changes bs (modify (with_operation o) id bs) id b (with_operation o b)
    with_operation-Changes = record {
      was = here;
      now = get_elem?-modify (with_operation o) id bs b here;
      others = λ i ne l. get_elem?-modify_ne (with_operation o) id i bs (λ e. ne (sym e));
      kept = λ j x h. get_elem?-append b.operations (o ∷ []) j (lt-length b.operations j x h) ∙ h;
    }

    pub with_operation-Extends : (n : ℕ) → Extends n bs (modify (with_operation o) id bs)
    with_operation-Extends n = record {
      defs =
          Changes-DefinedAt bs (modify (with_operation o) id bs) id b (with_operation o b)
            with_operation-Changes;
      edges = λ k i l. elim (Bool-cases (id == k)) [
        | inl same ↦
            let e : id ≡ k = ground (arith, same) in
            subst (λ x. edge (modify (with_operation o) id bs) x i ≡ edge bs x i) e
              (edge-at (modify (with_operation o) id bs) id i (with_operation o b)
                  (get_elem?-modify (with_operation o) id bs b here)
                ∙ sym (edge-at bs id i b here))
        | inr other ↦
            edge-of bs (modify (with_operation o) id bs) k i
              (get_elem?-modify_ne (with_operation o) id k bs (ground (arith, other)))
      ];
      longer = omega (arith, length-modify (with_operation o) id bs);
    }

    pub with_operation-DefinedAt :
        DefinedAt
          (modify (with_operation o) id bs)
          (result_of o)
          id
          (length b.operations)
          (type_of o)
    with_operation-DefinedAt = record {
      found = with_operation o b;
      at_block = get_elem?-modify (with_operation o) id bs b here;
      operation = o;
      at_index = get_elem?-append_length b.operations [] o;
      result = refl;
      type = refl;
    }

    with_operation-BlockFine :
        BlockFine bs id b
        → Fine bs id (length b.operations) o
        → PhisFirst false (b.operations ++ o ∷ [])
        → BlockFine (modify (with_operation o) id bs) id (with_operation o b)
    with_operation-BlockFine w f p = record {
      operations = λ j x h. elim (Bool-cases (ltb j (length b.operations))) [
        | inl old ↦
            let e = get_elem?-append b.operations (o ∷ []) j (ground (arith, old)) in
            Fine-Extends (suc id) bs (modify (with_operation o) id bs) id j x
              (with_operation-Extends (suc id)) (omega arith) (w.operations j x (sym e ∙ h))
        | inr new ↦
            let bound : j < length (b.operations ++ o ∷ []) =
              lt-length (b.operations ++ o ∷ []) j x h in
            let last : length b.operations ≡ j =
              ground (arith, new, bound, length-append b.operations (o ∷ [])) in
            let is : o ≡ x = cc (get_elem?-append_length b.operations [] o, h, last) in
            subst (λ y. Fine (modify (with_operation o) id bs) id j y) is
              (subst (λ y. Fine (modify (with_operation o) id bs) id y o) last
                (Fine-Extends (suc id) bs (modify (with_operation o) id bs) id (length b.operations)
                  o (with_operation-Extends (suc id)) (omega arith) f))
      ];
      phis = p;
      closed = λ t h.
          Closed-Extends 0 bs (modify (with_operation o) id bs) t (with_operation-Extends 0)
            (w.closed t h);
    }

    pub with_operation-AllFine :
        AllFine bs
        → Fine bs id (length b.operations) o
        → PhisFirst false (b.operations ++ o ∷ [])
        → AllFine (modify (with_operation o) id bs)
    with_operation-AllFine w f p i c h = elim (Bool-cases (id == i)) [
      | inl same ↦
          let e : id ≡ i = ground (arith, same) in
          let is : with_operation o b ≡ c =
            cc (get_elem?-modify (with_operation o) id bs b here, h, e) in
          subst (λ x. BlockFine (modify (with_operation o) id bs) x c) e
            (subst (λ x. BlockFine (modify (with_operation o) id bs) id x) is
              (with_operation-BlockFine (w id b here) f p))
      | inr other ↦
          let was : get_elem? bs i ≡ some c =
            sym (get_elem?-modify_ne (with_operation o) id i bs (ground (arith, other))) ∙ h in
          BlockFine-Extends bs (modify (with_operation o) id bs) i c
            (with_operation-Extends (suc i)) (w i c was)
    ]
