-- ===== src/Codegen/Storage.antt =====
-- The size of a tensor's storage: tensorStorageSize of src/codegen/llvm/LLVMCodeGenerator.cpp. A
-- `std::uint64_t` is a number below 2 ^ 64, and the product wraps.
use ocelotl_tensor.Base.{
  ℕ, ◌-◌, ◌*◌, ◌/◌, ◌%◌, ◌^◌, ◌||◌, List, [], ◌∷◌, Text, bytes_of, list_eq, ltb, ◌==◌,
  if◌then◌else◌,
}
use ocelotl_tensor.Base.Results.{Result, ok, err}
use ocelotl_tensor.Frontend.Ast.{TensorType}

pub data StorageError : Type 0 where
  unsupported_storage_type storage_size_overflow : StorageError

-- `std::numeric_limits<std::uint64_t>::max()`.
abbrev pub max_uint64 : ℕ
max_uint64 = 2 ^ 64 - 1

-- The bytes of an element, 0 for an element type that has no storage.
unfoldable pub element_size : Text → ℕ
unfolding list_eq
element_size element =
    if list_eq element (bytes_of "f32")
    then 4
    else (if list_eq element (bytes_of "f64") || list_eq element (bytes_of "i64") then 8 else 0)

-- The loop over the dimensions.
unfoldable pub size_loop : List ℕ → ℕ → Result StorageError ℕ
size_loop [] size = ok size
size_loop (dimension ∷ shape) size =
    if dimension == 0 || ltb (max_uint64 / size) dimension
    then err storage_size_overflow
    else size_loop shape (size * dimension % 2 ^ 64)

unfoldable pub tensor_storage_size : TensorType → Result StorageError ℕ
unfolding element_size size_loop
tensor_storage_size t =
    if element_size t.element_type == 0 || list_eq t.shape []
    then err unsupported_storage_type
    else size_loop t.shape (element_size t.element_type)
