-- ===== src/Driver/Options/Loop.antt =====
-- What the loop of parseCommandLine of src/main.cpp sets.
use ocelotl_tensor.Base.{
  [], ◌+◌, ◌≡◌, inl, inr, refl, Bool, true, false, not, List, ◌∷◌, Text, bytes_of, if◌then◌else◌,
  arith, Bool-cases, Option-cases,
}
use ocelotl_tensor.Base.Results.{Post, value, error, Post-bind, Post-map}
use ocelotl_tensor.Driver.CommandLine.{
  CommandLineOptions, Parsed, is_empty, is_no_emit, starts_with, emit_mode_of, level_of, is_output,
  set_emit_mode, set_level, other_word, take_word, take_words,
}
use ocelotl_tensor.Driver.Options.Settings.{
  plain_words, one_if, count, Names, is_emit, NamesLevel, is_level, IsChosen, ChosenBy,
  ChosenBy-IsChosen, emit_mode_of-is_emit, level_of-is_level, no_mode, no_level, emit_mode_of-Names,
  level_of-NamesLevel, emit_mode_of-named, emit-level,
}

-- Behind a list of words, as many emit options and levels are set as were set before and stand in
-- the list.
pub record Counts (words : List Text) (a b : CommandLineOptions) : Type 0 where
  pub modes :
      count is_emit words + one_if (not (is_no_emit a.emit_mode))
      ≡ one_if (not (is_no_emit b.emit_mode))
  pub levels :
      count is_level words + one_if a.optimization_level_specified
      ≡ one_if b.optimization_level_specified
  pub mode : IsChosen is_emit Names words a.emit_mode b.emit_mode
  pub level : IsChosen is_level NamesLevel words a.optimization_level b.optimization_level

either-Post :
    {P : CommandLineOptions → Type 0} (b : Bool) {m n : Parsed CommandLineOptions}
    → Post P (λ _. Unit) m
    → Post P (λ _. Unit) n
    → Post P (λ _. Unit) (if b then m else n)
either-Post true h k = h
either-Post false h k = k

-- The settings stay.
abbrev Keeps : CommandLineOptions → CommandLineOptions → Type 0
Keeps a b =
    (b.emit_mode ≡ a.emit_mode)
    × (b.optimization_level ≡ a.optimization_level)
    × (b.optimization_level_specified ≡ a.optimization_level_specified)

other_word-Keeps :
    (a : CommandLineOptions) (word : Text) → Post (Keeps a) (λ _. Unit) (other_word a word)
unfolding other_word
other_word-Keeps a word =
    either-Post (starts_with word (bytes_of "--target=")) (value (refl, refl, refl)) (
      either-Post (starts_with word (bytes_of "--cpu=")) (value (refl, refl, refl)) (
        either-Post (starts_with word (bytes_of "--features=")) (value (refl, refl, refl)) (
          either-Post (starts_with word (bytes_of "-")) (error tt)
            (either-Post (is_empty a.source_path) (value (refl, refl, refl)) (error tt)))))

-- What one word does to the two settings.
record Taken (word : Text) (a b : CommandLineOptions) : Type 0 where
  modes :
      one_if (is_emit word) + one_if (not (is_no_emit a.emit_mode))
      ≡ one_if (not (is_no_emit b.emit_mode))
  levels :
      one_if (is_level word) + one_if a.optimization_level_specified
      ≡ one_if b.optimization_level_specified
  mode : ChosenBy is_emit Names word a.emit_mode b.emit_mode
  level : ChosenBy is_level NamesLevel word a.optimization_level b.optimization_level

take_word-Taken :
    (a : CommandLineOptions) (word : Text) → Post (Taken word a) (λ _. Unit) (take_word a word)
unfolding take_word set_emit_mode set_level
take_word-Taken a word = elim (Option-cases (emit_mode_of word)) [
  | inr (mode, e) ↦ elim (Bool-cases (is_no_emit a.emit_mode)) [
    | inl first ↦
        simp (take_word, e, set_emit_mode, first)
          (value (record {
            modes =
                ground (arith, e, first, emit_mode_of-is_emit word, emit_mode_of-named word mode e);
            levels = ground (arith, no_level word (emit-level word mode e));
            mode = inr (emit_mode_of-Names word mode e);
            level = inl (no_level word (emit-level word mode e), refl);
          }))
    | inr second ↦ simp (take_word, e, set_emit_mode, second) (error tt)
  ]
  | inl e ↦ elim (Option-cases (level_of word)) [
    | inr (level, l) ↦ elim (Bool-cases a.optimization_level_specified) [
      | inl second ↦ simp (take_word, e, l, set_level, second) (error tt)
      | inr first ↦
          simp (take_word, e, l, set_level, first)
            (value (record {
              modes = ground (arith, no_mode word e);
              levels = ground (arith, l, first, level_of-is_level word);
              mode = inl (no_mode word e, refl);
              level = inr (level_of-NamesLevel word level l);
            }))
    ]
    | inl l ↦
        simp (take_word, e, l)
          (Post-map
            (λ b (m, k, o). record {
              modes = ground (arith, no_mode word e, m);
              levels = ground (arith, no_level word l, o);
              mode = inl (no_mode word e, m);
              level = inl (no_level word l, k);
            })
            (other_word-Keeps a word))
  ]
]

nothing-Counts : (a : CommandLineOptions) → Counts [] a a
unfolding count
nothing-Counts a = record {
  modes = omega arith;
  levels = omega arith;
  mode = inl (refl, refl);
  level = inl (refl, refl);
}

Taken-Counts :
    (word : Text) (words : List Text) (a b d : CommandLineOptions)
    → Taken word a b
    → Counts words b d
    → Counts (word ∷ words) a d
unfolding count
Taken-Counts word words a b d t c = record {
  modes = omega (arith, t.modes, c.modes);
  levels = omega (arith, t.levels, c.levels);
  mode =
      ChosenBy-IsChosen is_emit Names word words a.emit_mode b.emit_mode d.emit_mode t.mode c.mode;
  level =
      ChosenBy-IsChosen is_level NamesLevel word words a.optimization_level b.optimization_level
        d.optimization_level t.level c.level;
}

if_output-Post :
    {P : CommandLineOptions → Type 0} (b : Bool) {m n : Parsed CommandLineOptions}
    → (b ≡ true → Post P (λ _. Unit) m)
    → (b ≡ false → Post P (λ _. Unit) n)
    → Post P (λ _. Unit) (elim b [ true ↦ m | false ↦ n ])
if_output-Post true h k = h refl
if_output-Post false h k = k refl

pub take_words-Counts :
    (words : List Text) (a : CommandLineOptions)
    → Post (Counts (plain_words words) a) (λ _. Unit) (take_words a words)
unfolding take_words plain_words count
take_words-Counts [] a = value (nothing-Counts a)
take_words-Counts (word ∷ []) a =
    either-Post (is_output word) (error tt)
      (Post-map (λ b t. Taken-Counts word [] a b b t (nothing-Counts b)) (take_word-Taken a word))
take_words-Counts (word ∷ next ∷ rest) a =
    if_output-Post (is_output word)
      (λ out.
        Post-map
          (λ b c.
            rw (plain_words, out)
              (record { modes = c.modes; levels = c.levels; mode = c.mode; level = c.level }))
          (take_words-Counts rest (record a { output_path = next })))
      (λ plain. Post-bind (take_word-Taken a word) λ b t.
        Post-map
          (λ d c. rw (plain_words, plain) (Taken-Counts word (plain_words (next ∷ rest)) a b d t c))
          (take_words-Counts (next ∷ rest) b))
