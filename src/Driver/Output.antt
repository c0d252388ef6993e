-- ===== src/Driver/Output.antt =====
-- Where the driver writes, and the tokens that it writes: defaultOutputPath and emitTokens of
-- src/main.cpp. A `raw_ostream` is the text written to it.
use ocelotl_tensor.Base.{
  append_assoc, append-nil, sym, ℕ, zero, suc, ◌+◌, ◌≡◌, inl, inr, refl, ap, ◌∙◌, Bool, true, false,
  not, ◌||◌, Option, none, some, List, [], ◌∷◌, ◌++◌, Text, bytes_of, length, Bool-cases,
  if◌then◌else◌,
}
use ocelotl_tensor.Frontend.Token.{Token, end_of_file, kind_eq, to_string}
use ocelotl_tensor.Frontend.Lexer.{Lexer, lexer_of, next_token}
use ocelotl_tensor.Frontend.Lexer.Tokens
use ocelotl_tensor.Frontend.Lexer.Tokens.{Covers, tokens-source}
use ocelotl_tensor.Driver.CommandLine.{
  EmitMode, llvm_before_optimization, llvm, assembly, CommandLineOptions, is_empty, is_tokens,
}

abbrev pub is_llvm : EmitMode → Bool
is_llvm llvm = true
is_llvm llvm_before_optimization = true
is_llvm _ = false

abbrev pub is_assembly : EmitMode → Bool
is_assembly assembly = true
is_assembly _ = false

-- `replace_extension` is that of `std::filesystem::path`, from and to a string.
unfoldable pub default_output_path : (Text → Text → Text) → CommandLineOptions → Text
default_output_path replace_extension options =
    if not (is_empty options.output_path)
    then options.output_path
    else (if is_llvm options.emit_mode || is_tokens options.emit_mode
        then bytes_of "-"
        else replace_extension options.source_path
            (if is_assembly options.emit_mode then bytes_of ".s" else bytes_of ".o"))

tokens-last :
    (fuel : ℕ) (l : Lexer)
    → kind_eq (next_token l).0.kind end_of_file ≡ true
    → Tokens.tokens (suc fuel) l ≡ some ((next_token l).0 ∷ [])
unfolding Tokens.tokens
tokens-last fuel l last = rw (Tokens.tokens, last) refl

tokens-more :
    (fuel : ℕ) (l : Lexer)
    → kind_eq (next_token l).0.kind end_of_file ≡ false
    → Tokens.tokens (suc fuel) l ≡ elim (Tokens.tokens fuel (next_token l).1) [
      | none ↦ none
      | some ts ↦ some ((next_token l).0 ∷ ts)
    ]
unfolding Tokens.tokens
tokens-more fuel l more = rw (Tokens.tokens, more) refl

-- `print` is `operator<<` for a `std::size_t`.
module _ (print : ℕ → Text) where
  -- The line of one token.
  unfoldable pub token_line : Token → Text
  unfolding to_string
  token_line t =
      print t.location.line
      ++ bytes_of ":"
      ++ print t.location.column
      ++ bytes_of "  "
      ++ to_string t.kind
      ++ (if is_empty t.lexeme then [] else bytes_of "  [" ++ t.lexeme ++ bytes_of "]")
      ++ 10 ∷ []

  -- The loop of `emitTokens`; `none` is a lack of fuel.
  unfoldable pub emit_tokens : ℕ → Lexer → Text → Option Text
  unfolding token_line
  emit_tokens zero l output = none
  emit_tokens (suc fuel) l output =
      let (t, l1) = next_token l in
      let written = output ++ token_line t in
      let rest = emit_tokens fuel l1 written in
      if kind_eq t.kind end_of_file then some written else rest

  -- The lines of some tokens.
  unfoldable pub token_lines : List Token → Text
  token_lines [] = []
  token_lines (t ∷ ts) = token_line t ++ token_lines ts

  -- What is written behind `output`.
  abbrev behind : Text → Option (List Token) → Option Text
  unfolding token_lines
  behind output none = none
  behind output (some ts) = some (output ++ token_lines ts)

  behind-line :
      (output : Text) (t : Token) (r : Option (List Token))
      → behind (output ++ token_line t) r
        ≡ behind output (elim r [ none ↦ none | some ts ↦ some (t ∷ ts) ])
  unfolding behind token_lines
  behind-line output t none = refl
  behind-line output t (some ts) = ap some (append_assoc output (token_line t) (token_lines ts))

  emit_tokens-tokens :
      (fuel : ℕ) (l : Lexer) (output : Text)
      → emit_tokens fuel l output ≡ behind output (Tokens.tokens fuel l)
  unfolding emit_tokens Tokens.tokens behind token_lines
  emit_tokens-tokens zero l output = refl
  emit_tokens-tokens (suc fuel) l output =
      let (t, l1) = next_token l in
      elim (Bool-cases (kind_eq t.kind end_of_file)) [
        | inl last ↦
            rw last (ap some (ap (λ x. output ++ x) (sym (append-nil (token_line t)))))
            ∙ ap (behind output) (sym (tokens-last fuel l last))
        | inr more ↦
            rw more (
              emit_tokens-tokens fuel l1 (output ++ token_line t)
              ∙ behind-line output t (Tokens.tokens fuel l1))
            ∙ ap (behind output) (sym (tokens-more fuel l more))
      ]

  -- For every source the loop over its tokens ends, and what it has written are the lines of the
  -- tokens that cover the source, one behind the other.
  pub emit_tokens-source :
      (source : Text)
      → (ts : List Token) × Covers [] source ts
        × (emit_tokens (length source + 1) (lexer_of source) [] ≡ some (token_lines ts))
  unfolding behind
  emit_tokens-source source =
      let (ts, run, cov) = tokens-source source in
      (ts, cov, emit_tokens-tokens (length source + 1) (lexer_of source) [] ∙ ap (behind []) run)
