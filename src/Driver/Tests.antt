-- ===== src/Driver/Tests.antt =====
-- The command line of src/main.cpp on concrete words.
use ocelotl_tensor.Base.{[], ◌≡◌, refl, true, ◌∷◌, List, Text, bytes_of, list_eq}
use ocelotl_tensor.Base.Results.{ok, err, Post}
use ocelotl_tensor.Driver.CommandLine.{
  CommandLineOptions, default_options, tokens, assembly, o2, parse_command_line,
  multiple_emit_options,
}
use ocelotl_tensor.Driver.Options.{IsCommand, parse_command_line-IsCommand}
use ocelotl_tensor.Base.{ℕ, zero, Option, some, none, false, suc, length, ◌+◌, ◌++◌}
use ocelotl_tensor.Base.Maps.{Iteration}
use ocelotl_tensor.Frontend.Token.{Token}
use ocelotl_tensor.Frontend.Lexer.{lexer_of}
use ocelotl_tensor.Frontend.Lexer.Tokens.{Covers}
use ocelotl_tensor.Codegen.Llvm.{Call, Llvm, IdIteration}
use ocelotl_tensor.Driver.Pipeline.{is_ruled_out, compile_to_llvm, compile_to_llvm-is_ruled_out}
use ocelotl_tensor.Driver.Output.{default_output_path, token_lines, emit_tokens, emit_tokens-source}

abbrev words : List Text
words =
    bytes_of "model.oct"
    ∷ bytes_of "--emit-asm"
    ∷ bytes_of "-O2"
    ∷ bytes_of "-o"
    ∷ bytes_of "--emit-obj"
    ∷ bytes_of "--cpu=x"
    ∷ []

abbrev set : CommandLineOptions
set = record {
  source_path = bytes_of "model.oct";
  output_path = bytes_of "--emit-obj";
  emit_mode = assembly;
  optimization_level = o2;
  optimization_level_specified = true;
  target = record { triple = []; cpu = bytes_of "x"; features = [] };
}

words_parse : parse_command_line words ≡ ok set
unfolding parse_command_line list_eq
words_parse = refl

two_modes_fail :
    parse_command_line (bytes_of "--emit-asm" ∷ bytes_of "--emit-obj" ∷ [])
    ≡ err multiple_emit_options
unfolding parse_command_line list_eq
two_modes_fail = refl

parse_command_line-IsCommand_example : IsCommand words set
parse_command_line-IsCommand_example = parse_command_line-IsCommand words set words_parse

-- An option on the target with nothing behind it is accepted with `--emit-tokens`.
empty_target_is_accepted :
    parse_command_line
      (bytes_of "a.oc" ∷ bytes_of "--emit-tokens" ∷ bytes_of "--target=" ∷ bytes_of "--cpu=" ∷ [])
    ≡ ok (record default_options { source_path = bytes_of "a.oc"; emit_mode = tokens })
unfolding parse_command_line list_eq
empty_target_is_accepted = refl

abbrev replaced : Text → Text → Text
replaced path extension = path ++ extension

output_is_given : default_output_path replaced set ≡ bytes_of "--emit-obj"
unfolding default_output_path
output_is_given = refl

output_is_replaced :
    default_output_path replaced (record set { output_path = [] }) ≡ bytes_of "model.oct.s"
unfolding default_output_path
output_is_replaced = refl

-- Numbers are printed in unary here.
abbrev tally : ℕ → Text
tally zero = []
tally (suc n) = bytes_of "i" ++ tally n

emit_tokens-source_example :
    (ts : List Token) × Covers [] (bytes_of "if x") ts
    × (emit_tokens tally (length (bytes_of "if x") + 1) (lexer_of (bytes_of "if x")) []
        ≡ some (token_lines tally ts))
emit_tokens-source_example = emit_tokens-source tally (bytes_of "if x")

abbrev as_stored : Iteration
as_stored = record {
  arrange = λ V m. m;
  find-arrange = λ V k m d. refl;
  arrange-Distinct = λ V m d. d;
}

abbrev ids_as_stored : IdIteration
ids_as_stored = record {
  arrange = λ V m. m;
  find_id-arrange = λ V k m. refl;
  length-arrange = λ V m. refl;
}

-- An LLVM that writes down the calls.
abbrev recorder : Llvm ℕ (List (Call ℕ ℕ ℕ) × ℕ) ℕ ℕ
recorder = record {
  main_function = ([], 0);
  create_block = λ name s. (s.1, (s.0, suc s.1));
  perform = λ call s. (length s.0, (s.0 ++ call ∷ [], s.1));
  verify_module = λ s. none;
}

abbrev no_double : Text → Option ℕ
no_double lexeme = none

abbrev source : Text
source = bytes_of "tensor A: f32[2, 2] B = relu(A) return 1"

compile_to_llvm-is_ruled_out_example :
    Post {0}
      (λ _. Unit)
      (λ e. is_ruled_out e ≡ false)
      (compile_to_llvm no_double as_stored ids_as_stored recorder source)
compile_to_llvm-is_ruled_out_example =
    compile_to_llvm-is_ruled_out no_double as_stored ids_as_stored recorder source
