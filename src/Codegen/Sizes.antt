-- ===== src/Codegen/Sizes.antt =====
-- The test on overflow in src/codegen/llvm/LLVMCodeGenerator.cpp is exact.
use native.Mathlib.Nat.{
  div-add-mod', mod-lt, mod-eq_of_lt, mul-le-mul_right, mul-lt-mul_of_pos_right, mul-le-mul_left,
  mul_assoc, mul_comm,
}
use ocelotl_tensor.Base.{
  ℕ, suc, ◌+◌, ◌*◌, ◌/◌, ◌%◌, ◌^◌, ◌≤◌, ◌<◌, ◌≡◌, ◌≢◌, ◌↔◌, inl, inr, refl, sym, ap, subst, ◌∙◌,
  true, ◌||◌, List, [], ◌∷◌, Text, bytes_of, list_eq, list_eq→eq, list_eq_iff, ltb, leb, ◌==◌,
  arith, Bool-cases,
}
use ocelotl_tensor.Base.Results.{ok}
use ocelotl_tensor.Frontend.Ast.{TensorType}
use ocelotl_tensor.Codegen.Storage.{max_uint64, element_size, size_loop, tensor_storage_size}

le_div_iff : (d m s : ℕ) → 0 < s → (d ≤ m / s) ↔ (d * s ≤ m)
le_div_iff d m s pos = (
  λ h. omega (arith, div-add-mod' m s, mul-le-mul_right s h),
  λ h. elim (Bool-cases (leb d (m / s))) [
    | inl le ↦ ground (arith, le)
    | inr gt ↦
        let next : suc (m / s) * s ≤ d * s = mul-le-mul_right s (ground (arith, gt)) in
        let e : suc (m / s) * s ≡ m / s * s + s = grind arith in
        absurd (omega (arith, div-add-mod' m s, mod-lt m pos, next, e, h))
  ],
)

-- The product of the dimensions.
pub product : List ℕ → ℕ
product [] = 1
product (d ∷ shape) = d * product shape

-- Every dimension is at least one.
pub Positive : List ℕ → Type 0
Positive [] = Unit
Positive (d ∷ shape) = (0 < d) × Positive shape

pub product-Positive : (shape : List ℕ) → Positive shape → 0 < product shape
unfolding product Positive
product-Positive [] h = omega arith
product-Positive (d ∷ shape) (pos, h) =
    omega (arith, mul-lt-mul_of_pos_right {m = 0} pos (product-Positive shape h))

-- What the loop accepts: the exact product, if every dimension counts and it fits.
abbrev Fits : List ℕ → ℕ → ℕ → Type 0
Fits shape s n = Positive shape × (s * product shape ≡ n) × (n ≤ max_uint64)

-- A dimension that fits together with the others fits with the size so far.
Fits-head :
    (d : ℕ) (shape : List ℕ) (s n : ℕ)
    → Fits (d ∷ shape) s n
    → (0 < d) × (d * s ≤ max_uint64) × Fits shape (s * d) n
unfolding Positive product
Fits-head d shape s n ((pos, h), e, l) =
    let e' : s * d * product shape ≡ n = mul_assoc s d (product shape) ∙ e in
    let more : s * d * 1 ≤ s * d * product shape =
      mul-le-mul_left (s * d) (product-Positive shape h) in
    (pos, grind (arith, e', more, l), (h, e', l))

Fits-cons : (d : ℕ) (shape : List ℕ) (s n : ℕ) → 0 < d → Fits shape (s * d) n → Fits (d ∷ shape) s n
unfolding Positive product
Fits-cons d shape s n pos (h, e, l) = ((pos, h), sym (mul_assoc s d (product shape)) ∙ e, l)

size_loop-eq-ok_iff :
    (shape : List ℕ) (s n : ℕ)
    → 0 < s
    → s ≤ max_uint64
    → (size_loop shape s ≡ ok n) ↔ Fits shape s n
unfolding size_loop
size_loop-eq-ok_iff [] s n pos small = (
  λ h. unfold Positive product in (tt, omega (arith, the_size h), omega (arith, the_size h, small)),
  λ (_, e, _). unfold product in (let same : s ≡ n = omega (arith, e) in cc same),
)
  where
    the_size : size_loop [] s ≡ ok n → s ≡ n
    the_size h = cc h
size_loop-eq-ok_iff (d ∷ shape) s n pos small =
    elim (Bool-cases (d == 0 || ltb (max_uint64 / s) d)) [
      | inl bad ↦ (
        λ h. absurd (unfold size_loop in cc (rw (size_loop, bad) at h)),
        λ h.
            let (p, l, _) = Fits-head d shape s n h in
            absurd (ground (arith, bad, p, (le_div_iff d max_uint64 s pos).1 l)),
      )
      | inr good ↦
          let here : 0 < d = ground (arith, good) in
          let l : d * s ≤ max_uint64 = (le_div_iff d max_uint64 s pos).0 (ground (arith, good)) in
          let fits : s * d ≤ max_uint64 = omega (arith, mul_comm s d, l) in
          let grown : 0 < s * d = omega (arith, mul-lt-mul_of_pos_right {m = 0} pos here) in
          let exact : s * d % 2 ^ 64 ≡ s * d = mod-eq_of_lt (omega (arith, fits)) in
          let rest = size_loop-eq-ok_iff shape (s * d) n grown fits in
          let step : size_loop (d ∷ shape) s ≡ size_loop shape (s * d) =
            rw (size_loop, good, exact) refl in
          (
            λ h. Fits-cons d shape s n here (rest.0 (sym step ∙ h)),
            λ h. let (_, _, f) = Fits-head d shape s n h in step ∙ rest.1 f,
          )
    ]

-- The element types that have a size, and how many bytes it has.
pub data Occupies : Text → ℕ → Type 0 where
  single : Occupies (bytes_of "f32") 4
  double : Occupies (bytes_of "f64") 8
  integer : Occupies (bytes_of "i64") 8

-- The types that have a storage of `n` bytes: their elements have a size, they have dimensions, all
-- of them at least one, and the product of all of these is `n` and a `std::uint64_t`.
pub record HasStorage (t : TensorType) (n : ℕ) : Type 0 where
  pub size : ℕ
  pub sized : Occupies t.element_type size
  pub shaped : t.shape ≢ []
  pub positive : Positive t.shape
  pub exact : size * product t.shape ≡ n
  pub bounded : n < 2 ^ 64

element_size-le : (element : Text) → element_size element ≤ 8
unfolding element_size
element_size-le element = ground arith

Occupies-element_size :
    {element : Text} {size : ℕ} → Occupies element size → element_size element ≡ size
unfolding element_size list_eq
Occupies-element_size single = refl
Occupies-element_size double = refl
Occupies-element_size integer = refl

pub Occupies-pos : {element : Text} {size : ℕ} → Occupies element size → 0 < size
Occupies-pos single = omega arith
Occupies-pos double = omega arith
Occupies-pos integer = omega arith

occupies_by :
    (name element : Text) (size : ℕ)
    → Occupies name size
    → list_eq element name ≡ true
    → Occupies element size
occupies_by name element size h e = subst (λ w. Occupies w size) (sym (list_eq→eq element name e)) h

element_size-Occupies :
    (element : Text) → 0 < element_size element → Occupies element (element_size element)
unfolding element_size
element_size-Occupies element pos = elim (Bool-cases (list_eq element (bytes_of "f32"))) [
  | inl e ↦ rw (element_size, e) (occupies_by _ element 4 single e)
  | inr no32 ↦ elim (Bool-cases (list_eq element (bytes_of "f64"))) [
    | inl e ↦ rw (element_size, no32, e) (occupies_by _ element 8 double e)
    | inr no64 ↦ elim (Bool-cases (list_eq element (bytes_of "i64"))) [
      | inl e ↦ rw (element_size, no32, no64, e) (occupies_by _ element 8 integer e)
      | inr unsized ↦ absurd (ground (arith, pos, no32, no64, unsized))
    ]
  ]
]

-- A tensor's storage size is computed exactly for the types that have one: an element is an f32 of
-- 4 bytes or an f64 or i64 of 8, every dimension is at least one, and the product, not reduced
-- modulo 2 ^ 64, is the result. For any other type, one whose product does not fit included, there
-- is an error.
pub tensor_storage_size-eq-ok_iff :
    (t : TensorType) (n : ℕ) → (tensor_storage_size t ≡ ok n) ↔ HasStorage t n
unfolding tensor_storage_size
tensor_storage_size-eq-ok_iff t n =
    elim (Bool-cases (element_size t.element_type == 0 || list_eq t.shape [])) [
      | inl bad ↦ (
        λ h. absurd (cc (rw (tensor_storage_size, bad) at h)),
        λ h. absurd (
            ground (
              arith,
              bad,
              Occupies-element_size h.sized,
              Occupies-pos h.sized,
              h.shaped,
              list_eq_iff t.shape [],
            )),
      )
      | inr good ↦
          let pos : 0 < element_size t.element_type = ground (arith, good) in
          let shaped : t.shape ≢ [] = ground (arith, good, list_eq_iff t.shape []) in
          let loop =
            size_loop-eq-ok_iff t.shape (element_size t.element_type) n pos
              (omega (arith, element_size-le t.element_type)) in
          let step : tensor_storage_size t ≡ size_loop t.shape (element_size t.element_type) =
            rw (tensor_storage_size, good) refl in
          (
            λ h.
                let (p, e, l) = loop.0 (sym step ∙ h) in
                record {
                  size = element_size t.element_type;
                  sized = element_size-Occupies t.element_type pos;
                  shaped = shaped;
                  positive = p;
                  exact = e;
                  bounded = omega (arith, l);
                },
            λ h.
                let exact : element_size t.element_type * product t.shape ≡ n =
                  ap (λ k. k * product t.shape) (Occupies-element_size h.sized) ∙ h.exact in
                step ∙ loop.1 (h.positive, exact, omega (arith, h.bounded)),
          )
    ]
