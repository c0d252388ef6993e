-- ===== src/Runtime.antt =====
-- The runtime: runtime/runtime.c and include/ocelotl/runtime/v1/runtime.h. What a thread keeps
-- are the message of its last error and its heap, of which `malloc` and its relatives are a
-- parameter. A `uint64_t` is a number below 2 ^ 64.
pub mod Requests
mod Logs
pub mod Requested
mod Tests
use ocelotl_tensor.Base.{
  ℕ, zero, suc, ◌+◌, ◌*◌, ◌/◌, ◌%◌, ◌-◌, Bool, not, ◌||◌, Option, none, [], Text, bytes_of,
  if◌then◌else◌, ◌==◌, ltb,
}

-- The C library, for pointers `P` and heaps `S`; a null pointer is `none`. `posix_memalign` gives its
-- result, the pointer that it stores, and the heap.
pub record CLibrary (S P : Type 0) : Type 0 where
  pub size_max : ℕ
  pub pointer_size : ℕ
  pub enomem : ℕ
  pub posix_memalign : ℕ → ℕ → S → ℕ × Option P × S
  pub free : Option P → S → S

pub record Thread (S : Type 0) : Type 0 where
  pub error : Text
  pub heap : S

abbrev pub new_thread : {S : Type 0} → S → Thread S
new_thread heap = record { error = []; heap = heap }

-- `&` on the last `width` bits.
unfoldable pub bit_and : ℕ → ℕ → ℕ → ℕ
bit_and zero a b = 0
bit_and (suc width) a b = (a % 2) * (b % 2) + 2 * bit_and width (a / 2) (b / 2)

module _ {S P : Type 0} (c : CLibrary S P) where
  -- `ocelotl_rt_v1_alloc` behind the checks of its arguments.
  unfoldable pub aligned : ℕ → ℕ → Thread S → Option P × Thread S
  aligned size alignment thread =
      let (result, pointer, heap) = c.posix_memalign alignment size thread.heap in
      if not (result == 0)
      then (
        none,
        record {
          error =
              if result == c.enomem
              then bytes_of "runtime allocation failed: out of memory"
              else bytes_of "runtime allocation failed";
          heap = heap;
        },
      )
      else (pointer, record { error = []; heap = heap })

  unfoldable pub ocelotl_rt_v1_alloc : ℕ → ℕ → Thread S → Option P × Thread S
  unfolding bit_and aligned
  ocelotl_rt_v1_alloc size alignment thread =
      if size == 0
      then (none, record thread { error = bytes_of "allocation size must be greater than zero" })
      else (if ltb c.size_max size
          then (
            none,
            record thread { error = bytes_of "allocation size exceeds the target address space" },
          )
          else (if ltb alignment c.pointer_size
                || (not (bit_and 64 alignment (alignment - 1) == 0) || ltb c.size_max alignment)
              then (
                none,
                record thread {
                  error = bytes_of "alignment must be a power of two and at least pointer-sized";
                },
              )
              else aligned size alignment thread))

  abbrev pub ocelotl_rt_v1_free : Option P → Thread S → Thread S
  ocelotl_rt_v1_free pointer thread = record thread { heap = c.free pointer thread.heap }

abbrev pub ocelotl_rt_v1_last_error : {S : Type 0} → Thread S → Text
ocelotl_rt_v1_last_error thread = thread.error
