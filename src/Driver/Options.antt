-- ===== src/Driver/Options.antt =====
-- Which command lines parseCommandLine of src/main.cpp accepts.
mod Settings
mod Loop
use ocelotl_tensor.Base.{
  [], ◌≤◌, ◌≡◌, ◌≢◌, inl, inr, refl, sym, subst, Bool, true, false, not, ◌&&◌, ◌||◌, List, ◌∷◌,
  Text, arith, Bool-cases,
}
use ocelotl_tensor.Base.Results.{ok, >>=-eq-ok, Post, value, error, Post-ok}
use ocelotl_tensor.Driver.CommandLine.{
  EmitMode, o0, no_emit, tokens, CommandLineOptions, default_options, is_empty, is_no_emit,
  is_tokens, take_words, check_options, parse_command_line,
}
use ocelotl_tensor.Driver.Options.Settings.{
  plain_words, count, Names, is_emit, NamesLevel, is_level, Occurs, IsChosen,
}
use ocelotl_tensor.Driver.Options.Loop.{take_words-Counts}

-- A command line that makes sense, and the options that it sets.
pub record IsCommand (words : List Text) (o : CommandLineOptions) : Type 0 where
  pub one_mode : count is_emit (plain_words words) ≡ 1
  pub mode : (word : Text) × Occurs word (plain_words words) × Names word o.emit_mode
  pub one_level : count is_level (plain_words words) ≤ 1
  pub level : IsChosen is_level NamesLevel (plain_words words) o0 o.optimization_level
  pub has_source : o.source_path ≢ []
  pub bare_tokens :
      o.emit_mode ≡ tokens
      → (o.target.triple ≡ [])
        × (o.target.cpu ≡ [])
        × (o.target.features ≡ [])
        × (count is_level (plain_words words) ≡ 0)

-- A mode that is set was named.
is_named :
    (words : List Text) (mode : EmitMode)
    → IsChosen is_emit Names words no_emit mode
    → is_no_emit mode ≡ false
    → (word : Text) × Occurs word words × Names word mode
is_named words mode (inl (unset, e)) h = cc (e, h)
is_named words mode (inr named) h = named

is_empty-eq : (t : Text) → is_empty t ≡ true → t ≡ []
is_empty-eq [] h = refl
is_empty-eq (_ ∷ _) h = cc h

-- What stands against the emission of tokens.
abbrev other_options : CommandLineOptions → Bool
other_options o =
    not (is_empty o.target.triple)
    || (not (is_empty o.target.cpu)
        || (not (is_empty o.target.features) || o.optimization_level_specified))

record Checked (a b : CommandLineOptions) : Type 0 where
  same : b ≡ a
  source : is_empty a.source_path ≡ false
  emits : is_no_emit a.emit_mode ≡ false
  bare : is_tokens a.emit_mode && other_options a ≡ false

check_options-Checked : (a : CommandLineOptions) → Post (Checked a) (λ _. Unit) (check_options a)
unfolding check_options
check_options-Checked a = elim (Bool-cases (is_empty a.source_path)) [
  | inl e ↦ simp (check_options, e) (error tt)
  | inr source ↦ elim (Bool-cases (is_no_emit a.emit_mode)) [
    | inl e ↦ simp (check_options, source, e) (error tt)
    | inr emits ↦ elim (Bool-cases (is_tokens a.emit_mode && other_options a)) [
      | inl e ↦ simp (check_options, source, emits, e) (error tt)
      | inr bare ↦
          simp (check_options, source, emits, bare)
            (value (record { same = refl; source = source; emits = emits; bare = bare }))
    ]
  ]
]

-- Behind an accepted command line, exactly one of the words is an emit option, not counting the
-- paths behind `-o`, and the mode is the one that it names; at most one word is an optimization
-- level, and the level is the one that it names, or O0 if there is none; there is a source; and
-- where the mode is that of tokens, the settings of the target that are stored are empty, and no
-- word is an optimization level.
pub parse_command_line-IsCommand :
    (words : List Text) (o : CommandLineOptions)
    → parse_command_line words ≡ ok o
    → IsCommand words o
unfolding parse_command_line check_options
parse_command_line-IsCommand words o h =
    let (a, checked, taken) = >>=-eq-ok (take_words default_options words) check_options h in
    let c = Post-ok (take_words-Counts words default_options) taken in
    let d = Post-ok (check_options-Checked a) checked in
    let in_a : IsCommand words a = record {
      one_mode = ground (arith, c.modes, d.emits);
      mode = is_named (plain_words words) a.emit_mode c.mode d.emits;
      level = c.level;
      one_level = ground (arith, c.levels);
      has_source = λ e. cc (d.source, e);
      bare_tokens = λ e.
          let bare : other_options a ≡ false = ground (arith, d.bare, e) in
          (
            is_empty-eq a.target.triple (ground (arith, bare)),
            is_empty-eq a.target.cpu (ground (arith, bare)),
            is_empty-eq a.target.features (ground (arith, bare)),
            ground (arith, c.levels, bare),
          );
    } in
    subst (IsCommand words) (sym d.same) in_a
