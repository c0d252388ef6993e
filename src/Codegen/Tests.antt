-- ===== src/Codegen/Tests.antt =====
-- The storage sizes of src/codegen/llvm/LLVMCodeGenerator.cpp on concrete types.
use ocelotl_tensor.Base.{◌^◌, ◌≡◌, ◌↔◌, refl, [], ◌∷◌, bytes_of, list_eq}
use ocelotl_tensor.Base.Results.{ok, err, Post}
use ocelotl_tensor.Frontend.Ast.{TensorType}
use ocelotl_tensor.Codegen.Storage.{
  tensor_storage_size, storage_size_overflow, unsupported_storage_type,
}
use ocelotl_tensor.Codegen.Sizes.{HasStorage, tensor_storage_size-eq-ok_iff}
use ocelotl_tensor.Base.{false, true, ℕ, Text, List, suc, ◌++◌, some, none, length}
use ocelotl_tensor.Ir.Module.{Module, tensor_decl_op, constant_int_op, return_op}
use ocelotl_tensor.Semantic.Analyzer.{scalar, i1, i64}
use ocelotl_tensor.Base.Maps.{Iteration}
use ocelotl_tensor.Frontend.Token.{SourceLocation, start_location}
use ocelotl_tensor.Frontend.Ast.{
  tensor_decl, identifier_expr, integer_expr, binary_expr, assignment, return_stmt, if_stmt,
  Statements, no_statements, statement, Program, less,
}
use ocelotl_tensor.Semantic.Symbols.{SymbolTable}
use ocelotl_tensor.Ir.Module.{
  Operation, compare_op, phi_op, less_kind, branch_op, cond_branch_op, Terminator, BasicBlock,
}
use ocelotl_tensor.Ir.Generator.ControlFlow.{generate}
use ocelotl_tensor.Codegen.Composed.{generate_llvm-generate}
use ocelotl_tensor.Driver.CommandLine.{OptimizationLevel, o0}
use ocelotl_tensor.Codegen.Optimizer.{LlvmLevel, optimize, optimize-generate_llvm}
use ocelotl_tensor.Codegen.Llvm.{
  Call, insert_alloc_function, insert_free_function, set_insert_point, create_alloca, store_null,
  call_alloc, create_store, constant_int, create_load, call_free, create_trunc, create_ret, Llvm,
  IdIteration,
}
use ocelotl_tensor.Codegen.Lowering.{storage, generate_llvm}
use ocelotl_tensor.Codegen.Reached.{is_missing}
use ocelotl_tensor.Codegen.Lookups.{generate_llvm-is_missing}

abbrev small : TensorType
small = record { element_type = bytes_of "f32"; shape = 2 ∷ 3 ∷ [] }

abbrev large : TensorType
large = record { element_type = bytes_of "f64"; shape = 2 ^ 32 ∷ 2 ^ 32 ∷ [] }

small_fits : tensor_storage_size small ≡ ok 24
unfolding tensor_storage_size list_eq
small_fits = refl

large_does_not : tensor_storage_size large ≡ err storage_size_overflow
unfolding tensor_storage_size list_eq
large_does_not = refl

tensor_storage_size-eq-ok_iff_example : (tensor_storage_size small ≡ ok 24) ↔ HasStorage small 24
tensor_storage_size-eq-ok_iff_example = tensor_storage_size-eq-ok_iff small 24

-- An LLVM that writes down the calls: a value is the number of calls before its own.
abbrev recorder : Llvm ℕ (List (Call ℕ ℕ ℕ) × ℕ) ℕ ℕ
recorder = record {
  main_function = ([], 0);
  create_block = λ name s. (s.1, (s.0, suc s.1));
  perform = λ call s. (length s.0, (s.0 ++ call ∷ [], s.1));
  verify_module = λ s. none;
}

abbrev ids_as_stored : IdIteration
ids_as_stored = record {
  arrange = λ V m. m;
  find_id-arrange = λ V k m. refl;
  length-arrange = λ V m. refl;
}

-- A tensor A with elements of type `element`, and a return of 1.
abbrev with_tensor : Text → Module ℕ
with_tensor element = record {
  entry = 0;
  blocks =
      record {
        id = 0;
        name = bytes_of "entry";
        operations =
            tensor_decl_op 0 (bytes_of "A") (record { element_type = element; shape = 2 ∷ 3 ∷ [] })
            ∷ constant_int_op 1 1 (scalar i64)
            ∷ [];
        terminator = some (return_op 1);
      }
      ∷ [];
}

-- The storage is allocated with its size and released in front of the return.
abbrev tensor_calls : List (Call ℕ ℕ ℕ) × ℕ
tensor_calls = (
  insert_alloc_function
      ∷ insert_free_function
      ∷ set_insert_point 0
      ∷ create_alloca (bytes_of "A.cleanup")
      ∷ store_null 3
      ∷ set_insert_point 0
      ∷ call_alloc 0 24 64 (bytes_of "A.storage")
      ∷ create_store 6 3
      ∷ constant_int 1
      ∷ create_load 3
      ∷ call_free 1 9
      ∷ create_trunc 8 (bytes_of "exit.status")
      ∷ create_ret 11
      ∷ [],
  1,
)

tensor_lowered :
    generate_llvm recorder ids_as_stored (with_tensor (bytes_of "f32")) ≡ ok tensor_calls
unfolding generate_llvm list_eq
tensor_lowered = refl

-- Passes that change nothing.
abbrev no_passes : LlvmLevel → List (Call ℕ ℕ ℕ) × ℕ → List (Call ℕ ℕ ℕ) × ℕ
no_passes level s = s

optimize-generate_llvm_example :
    (optimize recorder no_passes tensor_calls o0 ≡ ok tensor_calls)
    × ((level : OptimizationLevel)
        → Post
            (λ t. recorder.verify_module t ≡ none)
            (λ e. e.phase ≡ bytes_of "after")
            (optimize recorder no_passes tensor_calls level))
optimize-generate_llvm_example =
    optimize-generate_llvm recorder ids_as_stored no_passes (with_tensor (bytes_of "f32"))
      tensor_calls tensor_lowered

tensor_refused :
    generate_llvm recorder ids_as_stored (with_tensor i1) ≡ err (storage unsupported_storage_type)
unfolding generate_llvm list_eq
tensor_refused = refl

generate_llvm-is_missing_example : is_missing false (storage unsupported_storage_type) ≡ false
generate_llvm-is_missing_example =
    generate_llvm-is_missing recorder ids_as_stored (with_tensor i1)
      (storage unsupported_storage_type) tensor_refused

abbrev as_stored : Iteration
as_stored = record {
  arrange = λ V m. m;
  find-arrange = λ V k m d. refl;
  arrange-Distinct = λ V m d. d;
}

abbrev here : SourceLocation
here = start_location

abbrev bits : TensorType
bits = record { element_type = i1; shape = 2 ∷ [] }

abbrev with_bits : SymbolTable
with_bits = record {
  symbols = (bytes_of "A", record { name = bytes_of "A"; type = bits; location = here }) ∷ [];
}

abbrev set_y : ℕ → Statements ℕ
set_y n = statement (assignment (bytes_of "Y") (integer_expr n here) here) no_statements

-- if 1 < 2 { Y = 3 } else { Y = 4 } tensor A<i1>[2] return Y
abbrev bits_program : Program ℕ
bits_program = record {
  statements =
      statement
        (if_stmt (binary_expr less (integer_expr 1 here) (integer_expr 2 here) here) (set_y 3)
          (set_y 4) here)
        (statement (tensor_decl (bytes_of "A") bits here)
          (statement (return_stmt (identifier_expr (bytes_of "Y") here) here) no_statements));
}

abbrev ended_block : ℕ → Text → List (Operation ℕ) → Terminator → BasicBlock ℕ
ended_block n s os t = record { id = n; name = s; operations = os; terminator = some t }

abbrev bits_module : Module ℕ
bits_module = record {
  entry = 0;
  blocks =
      ended_block 0 (bytes_of "entry")
        (constant_int_op 0 1 (scalar i64)
          ∷ constant_int_op 1 2 (scalar i64)
          ∷ compare_op 2 less_kind 0 1 (scalar i64)
          ∷ [])
        (cond_branch_op 2 1 2)
      ∷ ended_block 1 (bytes_of "if.then") (constant_int_op 3 3 (scalar i64) ∷ []) (branch_op 3)
      ∷ ended_block 2 (bytes_of "if.else") (constant_int_op 4 4 (scalar i64) ∷ []) (branch_op 3)
      ∷ ended_block 3 (bytes_of "if.end")
          (phi_op 5 (scalar i64)
              (record { predecessor = 1; value = 3 } ∷ record { predecessor = 2; value = 4 } ∷ [])
            ∷ tensor_decl_op 6 (bytes_of "A") bits
            ∷ [])
          (return_op 5)
      ∷ [];
}

bits_generated : generate as_stored with_bits bits_program ≡ ok bits_module
unfolding generate list_eq
bits_generated = refl

bits_refused :
    generate_llvm recorder ids_as_stored bits_module ≡ err (storage unsupported_storage_type)
unfolding generate_llvm list_eq
bits_refused = refl

generate_llvm-generate_example : is_missing true (storage unsupported_storage_type) ≡ false
generate_llvm-generate_example =
    generate_llvm-generate recorder ids_as_stored as_stored with_bits bits_program bits_module
      (storage unsupported_storage_type) bits_generated bits_refused
