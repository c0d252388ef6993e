-- ===== src/Driver/CommandLine.antt =====
-- The command line: parseCommandLine of src/main.cpp on the words behind the program's name.
use ocelotl_tensor.Base.{
  Bool, true, false, not, ◌&&◌, ◌||◌, Option, none, some, List, [], ◌∷◌, Text, bytes_of, list_eq,
  drop, if◌then◌else◌, ◌==◌,
}
use ocelotl_tensor.Base.Results.{Result, ok, err, ◌>>=◌}

pub data EmitMode : Type 0 where
  no_emit tokens llvm_before_optimization llvm assembly object : EmitMode

pub data OptimizationLevel : Type 0 where
  o0 o1 o2 o3 : OptimizationLevel

pub record TargetConfiguration : Type 0 where
  pub triple : Text
  pub cpu : Text
  pub features : Text

pub record CommandLineOptions : Type 0 where
  pub source_path : Text
  pub output_path : Text
  pub emit_mode : EmitMode
  pub optimization_level : OptimizationLevel
  pub optimization_level_specified : Bool
  pub target : TargetConfiguration

-- The messages of the driver, each with the word in it.
pub data CommandLineError : Type 0 where
  multiple_emit_options multiple_optimization_levels missing_output_path : CommandLineError
  multiple_input_files no_input_file no_emit_option options_on_tokens : CommandLineError
  unknown_option : Text → CommandLineError

abbrev pub Parsed : Type 0 → Type 0
Parsed A = Result CommandLineError A

abbrev pub default_options : CommandLineOptions
default_options = record {
  source_path = [];
  output_path = [];
  emit_mode = no_emit;
  optimization_level = o0;
  optimization_level_specified = false;
  target = record { triple = []; cpu = []; features = [] };
}

abbrev pub is_empty : Text → Bool
is_empty [] = true
is_empty (_ ∷ _) = false

abbrev pub is_no_emit : EmitMode → Bool
is_no_emit no_emit = true
is_no_emit _ = false

abbrev pub is_tokens : EmitMode → Bool
is_tokens tokens = true
is_tokens _ = false

unfoldable pub starts_with : Text → Text → Bool
starts_with text [] = true
starts_with [] (_ ∷ _) = false
starts_with (x ∷ text) (y ∷ prefix) = if x == y then starts_with text prefix else false

-- The first five tests of the loop, and the four below them.
unfoldable pub emit_mode_of : Text → Option EmitMode
unfolding list_eq
emit_mode_of word =
    if list_eq word (bytes_of "--emit-tokens")
    then some tokens
    else (if list_eq word (bytes_of "--emit-llvm-before-opt")
        then some llvm_before_optimization
        else (if list_eq word (bytes_of "--emit-llvm")
            then some llvm
            else (if list_eq word (bytes_of "--emit-asm")
                then some assembly
                else (if list_eq word (bytes_of "--emit-obj") then some object else none))))

unfoldable pub level_of : Text → Option OptimizationLevel
unfolding list_eq
level_of word =
    if list_eq word (bytes_of "-O0")
    then some o0
    else (if list_eq word (bytes_of "-O1")
        then some o1
        else (if list_eq word (bytes_of "-O2")
            then some o2
            else (if list_eq word (bytes_of "-O3") then some o3 else none)))

unfoldable pub is_output : Text → Bool
unfolding list_eq
is_output word = list_eq word (bytes_of "-o")

unfoldable pub set_emit_mode : CommandLineOptions → EmitMode → Parsed CommandLineOptions
set_emit_mode options mode =
    if is_no_emit options.emit_mode
    then ok (record options { emit_mode = mode })
    else err multiple_emit_options

unfoldable pub set_level : CommandLineOptions → OptimizationLevel → Parsed CommandLineOptions
set_level options level =
    if options.optimization_level_specified
    then err multiple_optimization_levels
    else ok (record options { optimization_level_specified = true; optimization_level = level })

-- The tests below that on `-o`.
unfoldable pub other_word : CommandLineOptions → Text → Parsed CommandLineOptions
unfolding starts_with
other_word options word =
    if starts_with word (bytes_of "--target=")
    then ok (record options { target = record options.target { triple = drop 9 word } })
    else (if starts_with word (bytes_of "--cpu=")
        then ok (record options { target = record options.target { cpu = drop 6 word } })
        else (if starts_with word (bytes_of "--features=")
            then ok (record options { target = record options.target { features = drop 11 word } })
            else (if starts_with word (bytes_of "-")
                then err (unknown_option word)
                else (if is_empty options.source_path
                    then ok (record options { source_path = word })
                    else err multiple_input_files))))

-- One round of the loop for a word other than `-o`, which is none of the words tested before it.
unfoldable pub take_word : CommandLineOptions → Text → Parsed CommandLineOptions
unfolding emit_mode_of level_of set_emit_mode set_level other_word
take_word options word = elim (emit_mode_of word) [
  | some mode ↦ set_emit_mode options mode
  | none ↦ elim (level_of word) [
    | some level ↦ set_level options level
    | none ↦ other_word options word
  ]
]

unfoldable pub take_words : CommandLineOptions → List Text → Parsed CommandLineOptions
unfolding is_output take_word
take_words options [] = ok options
take_words options (word ∷ []) =
    if is_output word then err missing_output_path else take_word options word
take_words options (word ∷ next ∷ rest) = elim (is_output word) [
  | true ↦ take_words (record options { output_path = next }) rest
  | false ↦ take_word options word >>= λ more. take_words more (next ∷ rest)
]

-- The tests behind the loop.
unfoldable pub check_options : CommandLineOptions → Parsed CommandLineOptions
check_options options =
    if is_empty options.source_path
    then err no_input_file
    else (if is_no_emit options.emit_mode
        then err no_emit_option
        else (if is_tokens options.emit_mode
              && (not (is_empty options.target.triple)
                  || (not (is_empty options.target.cpu)
                      || (not (is_empty options.target.features)
                          || options.optimization_level_specified)))
            then err options_on_tokens
            else ok options))

unfoldable pub parse_command_line : List Text → Parsed CommandLineOptions
unfolding take_words check_options
parse_command_line words = take_words default_options words >>= λ options. check_options options
