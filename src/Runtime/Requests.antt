-- ===== src/Runtime/Requests.antt =====
-- How ocelotl_rt_v1_alloc of runtime/runtime.c answers the requests for storage that
-- src/codegen/llvm/LLVMCodeGenerator.cpp makes.
use native.Mathlib.Nat.{mul-lt-mul_of_pos_right}
use ocelotl_tensor.Base.{
  [], ℕ, ◌*◌, ◌^◌, ◌-◌, ◌<◌, ◌≤◌, ◌≡◌, ◌≢◌, refl, ap, Option, none, bytes_of, arith, ◌==◌,
  Bool-cases, inl, inr,
}
use ocelotl_tensor.Base.Results.{ok}
use ocelotl_tensor.Frontend.Ast.{TensorType}
use ocelotl_tensor.Codegen.Storage.{tensor_storage_size}
use ocelotl_tensor.Codegen.Sizes.{
  HasStorage, Occupies-pos, tensor_storage_size-eq-ok_iff, product, product-Positive,
}
use ocelotl_tensor.Runtime.{CLibrary, Thread, bit_and, aligned, ocelotl_rt_v1_alloc}

HasStorage-pos : (t : TensorType) (n : ℕ) → HasStorage t n → 0 < n
HasStorage-pos t n h =
    let sized : 0 * product t.shape < h.size * product t.shape =
      mul-lt-mul_of_pos_right {m = 0} (Occupies-pos h.sized)
        (product-Positive t.shape h.positive) in
    omega (arith, sized, h.exact)

module _ {S P : Type 0} (c : CLibrary S P) where
  -- What a thread has behind a request that reaches the C library: the pointer that
  -- `posix_memalign` stores, with no error, or no pointer and a message.
  pub data Answers (size alignment : ℕ) (heap : S) : Option P × Thread S → Type 0 where
    granted :
        (pointer : Option P) (heap' : S)
        → c.posix_memalign alignment size heap ≡ (0, pointer, heap')
        → Answers size alignment heap (pointer, record { error = []; heap = heap' })
    out_of_memory :
        (pointer : Option P) (heap' : S)
        → c.posix_memalign alignment size heap ≡ (c.enomem, pointer, heap')
        → c.enomem ≢ 0
        → Answers size alignment heap (
          none,
          record { error = bytes_of "runtime allocation failed: out of memory"; heap = heap' },
        )
    failed :
        (result : ℕ) (pointer : Option P) (heap' : S)
        → c.posix_memalign alignment size heap ≡ (result, pointer, heap')
        → result ≢ 0
        → result ≢ c.enomem
        → Answers size alignment heap
            (none, record { error = bytes_of "runtime allocation failed"; heap = heap' })

  -- No thread is refused such a request.
  pub IsServed : ℕ → ℕ → Type 0
  IsServed size alignment =
      (thread : Thread S)
      → Answers size alignment thread.heap (ocelotl_rt_v1_alloc c size alignment thread)

  aligned-Answers :
      (size alignment : ℕ) (thread : Thread S)
      → Answers size alignment thread.heap (aligned c size alignment thread)
  unfolding aligned
  aligned-Answers size alignment thread =
      let r = c.posix_memalign alignment size thread.heap in
      elim (Bool-cases (r.0 == 0)) [
        | inl zero_ ↦ rw zero_ (granted r.1 r.2 (ap (λ n. (n, r.1, r.2)) (ground (arith, zero_))))
        | inr other ↦ elim (Bool-cases (r.0 == c.enomem)) [
          | inl full ↦
              rw (other, full)
                (out_of_memory r.1 r.2 (ap (λ n. (n, r.1, r.2)) (ground (arith, full)))
                  (λ e. ground (arith, full, other, e)))
          | inr bad ↦
              rw (other, bad)
                (failed r.0 r.1 r.2 refl (λ e. ground (arith, other, e))
                  (λ e. ground (arith, bad, e)))
        ]
      ]

  -- Where a size has 64 bits and a pointer 64 bytes at most.
  pub tensor_storage_size-IsServed :
      (t : TensorType) (n : ℕ)
      → c.size_max ≡ 2 ^ 64 - 1
      → c.pointer_size ≤ 64
      → tensor_storage_size t ≡ ok n
      → HasStorage t n × IsServed n 64
  unfolding IsServed ocelotl_rt_v1_alloc bit_and
  tensor_storage_size-IsServed t n wide small h =
      let s = (tensor_storage_size-eq-ok_iff t n).0 h in
      (
        s,
        λ thread.
            let e : ocelotl_rt_v1_alloc c n 64 thread ≡ aligned c n 64 thread =
              ground (arith, wide, small, s.bounded, HasStorage-pos t n s) in
            rw e (aligned-Answers n 64 thread),
      )
