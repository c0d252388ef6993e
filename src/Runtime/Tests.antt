-- ===== src/Runtime/Tests.antt =====
-- The runtime of runtime/runtime.c on concrete requests.
use ocelotl_tensor.Base.{[], ℕ, ◌+◌, ◌-◌, ◌^◌, ◌≡◌, refl, ◌∷◌, some, none, bytes_of, arith, list_eq}
use ocelotl_tensor.Frontend.Ast.{TensorType}
use ocelotl_tensor.Codegen.Storage.{tensor_storage_size}
use ocelotl_tensor.Base.Results.{ok}
use ocelotl_tensor.Runtime.{CLibrary, new_thread, ocelotl_rt_v1_alloc, ocelotl_rt_v1_last_error}
use ocelotl_tensor.Ir.Module.{Module, tensor_decl_op, constant_int_op, return_op}
use ocelotl_tensor.Semantic.Analyzer.{scalar, i64}
use ocelotl_tensor.Codegen.Llvm.{IdIteration}
use ocelotl_tensor.Codegen.Lowering.{generate_llvm}
use ocelotl_tensor.Runtime.Logs.{requests, Requested}
use ocelotl_tensor.Runtime.Requested.{generate_llvm-Requested}

-- A heap that is its first free address; 12 is ENOMEM.
abbrev library : CLibrary ℕ ℕ
library = record {
  size_max = 2 ^ 64 - 1;
  pointer_size = 8;
  enomem = 12;
  posix_memalign = λ alignment size heap. (0, some heap, heap + size);
  free = λ pointer heap. heap;
}

abbrev small : TensorType
small = record { element_type = bytes_of "f32"; shape = 2 ∷ 3 ∷ [] }

small_fits : tensor_storage_size small ≡ ok 24
unfolding tensor_storage_size list_eq
small_fits = refl

small_is_allocated :
    ocelotl_rt_v1_alloc library 24 64 (new_thread 128)
    ≡ (some 128, record { error = []; heap = 152 })
unfolding ocelotl_rt_v1_alloc
small_is_allocated = refl

nothing_is_refused :
    ocelotl_rt_v1_last_error (ocelotl_rt_v1_alloc library 0 64 (new_thread 128)).1
    ≡ bytes_of "allocation size must be greater than zero"
unfolding ocelotl_rt_v1_alloc
nothing_is_refused = refl

alignment_is_refused :
    ocelotl_rt_v1_last_error (ocelotl_rt_v1_alloc library 24 48 (new_thread 128)).1
    ≡ bytes_of "alignment must be a power of two and at least pointer-sized"
unfolding ocelotl_rt_v1_alloc
alignment_is_refused = refl

-- A heap that is full.
abbrev full_library : CLibrary ℕ ℕ
full_library = record library { posix_memalign = λ alignment size heap. (12, none, heap) }

full_fails :
    ocelotl_rt_v1_last_error (ocelotl_rt_v1_alloc full_library 24 64 (new_thread 128)).1
    ≡ bytes_of "runtime allocation failed: out of memory"
unfolding ocelotl_rt_v1_alloc
full_fails = refl

abbrev ids_as_stored : IdIteration
ids_as_stored = record {
  arrange = λ V m. m;
  find_id-arrange = λ V k m. refl;
  length-arrange = λ V m. refl;
}

abbrev large : TensorType
large = record { element_type = bytes_of "f64"; shape = 5 ∷ [] }

-- Two tensors, and a return of 1.
abbrev two_tensors : Module ℕ
two_tensors = record {
  entry = 0;
  blocks =
      record {
        id = 0;
        name = bytes_of "entry";
        operations =
            tensor_decl_op 0 (bytes_of "A") small
            ∷ tensor_decl_op 1 (bytes_of "B") large
            ∷ constant_int_op 2 1 (scalar i64)
            ∷ [];
        terminator = some (return_op 2);
      }
      ∷ [];
}

two_tensors_are_lowered :
    generate_llvm requests ids_as_stored two_tensors ≡ ok ((24, 64) ∷ (40, 64) ∷ [])
unfolding generate_llvm list_eq
two_tensors_are_lowered = refl

generate_llvm-Requested_example : Requested library (small ∷ large ∷ []) ((24, 64) ∷ (40, 64) ∷ [])
generate_llvm-Requested_example =
    generate_llvm-Requested library ids_as_stored two_tensors ((24, 64) ∷ (40, 64) ∷ []) refl
      (omega arith) two_tensors_are_lowered
