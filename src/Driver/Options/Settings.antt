-- ===== src/Driver/Options/Settings.antt =====
-- What the words of a command line of src/main.cpp say of the emit mode and the optimization level.
use ocelotl_tensor.Base.{
  [], ℕ, ◌+◌, ◌≡◌, ◌⊎◌, inl, inr, refl, sym, ap, subst, ◌∙◌, Bool, true, false, ◌||◌, Option, none,
  some, List, ◌∷◌, Text, bytes_of, list_eq, list_eq→eq, if◌then◌else◌, arith,
}
use ocelotl_tensor.Base.Maps.{is_some}
use ocelotl_tensor.Driver.CommandLine.{
  EmitMode, OptimizationLevel, o0, o1, o2, o3, tokens, llvm_before_optimization, llvm, assembly,
  object, is_no_emit, emit_mode_of, level_of,
}

-- The words, less each `-o` and the path behind it.
unfoldable pub plain_words : List Text → List Text
unfolding list_eq
plain_words [] = []
plain_words (word ∷ []) = word ∷ []
plain_words (word ∷ next ∷ rest) = elim (list_eq word (bytes_of "-o")) [
  | true ↦ plain_words rest
  | false ↦ word ∷ plain_words (next ∷ rest)
]

abbrev pub one_if : Bool → ℕ
one_if b = if b then 1 else 0

-- How many words pass a test.
unfoldable pub count : (Text → Bool) → List Text → ℕ
count p [] = 0
count p (word ∷ words) = (if p word then 1 else 0) + count p words

-- The emit options, and the mode that each names.
pub data Names : Text → EmitMode → Type 0 where
  names_tokens : Names (bytes_of "--emit-tokens") tokens
  names_llvm_before : Names (bytes_of "--emit-llvm-before-opt") llvm_before_optimization
  names_llvm : Names (bytes_of "--emit-llvm") llvm
  names_assembly : Names (bytes_of "--emit-asm") assembly
  names_object : Names (bytes_of "--emit-obj") object

abbrev pub is_emit : Text → Bool
is_emit word =
    (list_eq word (bytes_of "--emit-tokens") || list_eq word (bytes_of "--emit-llvm-before-opt"))
    || (list_eq word (bytes_of "--emit-llvm")
        || (list_eq word (bytes_of "--emit-asm") || list_eq word (bytes_of "--emit-obj")))

abbrev pub is_level : Text → Bool
is_level word =
    (list_eq word (bytes_of "-O0") || list_eq word (bytes_of "-O1"))
    || (list_eq word (bytes_of "-O2") || list_eq word (bytes_of "-O3"))

-- A word is one of a list.
pub data Occurs (word : Text) : List Text → Type 0 where
  here : (words : List Text) → Occurs word (word ∷ words)
  there : (other : Text) {words : List Text} → Occurs word words → Occurs word (other ∷ words)

-- The levels that options name.
pub data NamesLevel : Text → OptimizationLevel → Type 0 where
  names_o0 : NamesLevel (bytes_of "-O0") o0
  names_o1 : NamesLevel (bytes_of "-O1") o1
  names_o2 : NamesLevel (bytes_of "-O2") o2
  names_o3 : NamesLevel (bytes_of "-O3") o3

-- A setting was `x` and is `y` behind a list of words: none of them sets it and it stays, or one of
-- them names `y`.
abbrev pub IsChosen :
    {A : Type 0} → (Text → Bool) → (Text → A → Type 0) → List Text → A → A → Type 0
IsChosen p N words x y =
    ((count p words ≡ 0) × (y ≡ x)) ⊎ ((word : Text) × Occurs word words × N word y)

-- The same of one word.
abbrev pub ChosenBy : {A : Type 0} → (Text → Bool) → (Text → A → Type 0) → Text → A → A → Type 0
ChosenBy p N word x y = ((p word ≡ false) × (y ≡ x)) ⊎ N word y

pub ChosenBy-IsChosen :
    {A : Type 0} (p : Text → Bool) (N : Text → A → Type 0) (word : Text) (words : List Text)
    (x y z : A)
    → ChosenBy p N word x y
    → IsChosen p N words y z
    → IsChosen p N (word ∷ words) x z
unfolding count
ChosenBy-IsChosen p N word words x y z (inl (unset, e)) (inl (h, e')) =
    inl (ground (arith, unset, h), e' ∙ e)
ChosenBy-IsChosen p N word words x y z (inr n) (inl (h, e')) =
    inr (word, here words, subst (N word) (sym e') n)
ChosenBy-IsChosen p N word words x y z t (inr (w, o, n)) = inr (w, there word o, n)

pub emit_mode_of-is_emit : (word : Text) → is_emit word ≡ is_some (emit_mode_of word)
unfolding emit_mode_of
emit_mode_of-is_emit word = ground arith

pub level_of-is_level : (word : Text) → is_level word ≡ is_some (level_of word)
unfolding level_of
level_of-is_level word = ground arith

pub no_mode : (word : Text) → emit_mode_of word ≡ none → is_emit word ≡ false
no_mode word e = emit_mode_of-is_emit word ∙ ap is_some e

pub no_level : (word : Text) → level_of word ≡ none → is_level word ≡ false
no_level word e = level_of-is_level word ∙ ap is_some e

-- The chain of tests.
if_some :
    {A : Type 0} {P : A → Type 0} (b : Bool) (x : A) {m : Option A}
    → (b ≡ true → P x)
    → ((a : A) → m ≡ some a → P a)
    → (a : A) → (if b then some x else m) ≡ some a
    → P a
if_some {P = P} true x h k a e = subst P (cc e) (h refl)
if_some false x h k a e = k a e

named_by : (P : Text → Type 0) (text word : Text) → P text → list_eq word text ≡ true → P word
named_by P text word h e = subst P (sym (list_eq→eq word text e)) h

pub emit_mode_of-Names :
    (word : Text) (mode : EmitMode) → emit_mode_of word ≡ some mode → Names word mode
unfolding emit_mode_of
emit_mode_of-Names word =
    if_some {P = Names word} _ tokens (named_by (λ w. Names w _) _ word names_tokens) (
      if_some {P = Names word} _ _ (named_by (λ w. Names w _) _ word names_llvm_before) (
        if_some {P = Names word} _ _ (named_by (λ w. Names w _) _ word names_llvm) (
          if_some {P = Names word} _ _ (named_by (λ w. Names w _) _ word names_assembly) (
            if_some {P = Names word} _ _ (named_by (λ w. Names w _) _ word names_object)
              λ mode e. cc e))))

pub level_of-NamesLevel :
    (word : Text) (level : OptimizationLevel) → level_of word ≡ some level → NamesLevel word level
unfolding level_of
level_of-NamesLevel word =
    if_some {P = NamesLevel word} _ _ (named_by (λ w. NamesLevel w _) _ word names_o0) (
      if_some {P = NamesLevel word} _ _ (named_by (λ w. NamesLevel w _) _ word names_o1) (
        if_some {P = NamesLevel word} _ _ (named_by (λ w. NamesLevel w _) _ word names_o2) (
          if_some {P = NamesLevel word} _ _ (named_by (λ w. NamesLevel w _) _ word names_o3)
            λ level e. cc e)))

-- The modes that options name.
pub emit_mode_of-named :
    (word : Text) (mode : EmitMode) → emit_mode_of word ≡ some mode → is_no_emit mode ≡ false
unfolding emit_mode_of
emit_mode_of-named word mode h = ground arith

not-level :
    (text word : Text) → level_of text ≡ none → list_eq word text ≡ true → level_of word ≡ none
not-level text word none_of h = ap level_of (list_eq→eq word text h) ∙ none_of

-- No word is both.
pub emit-level :
    (word : Text) (mode : EmitMode) → emit_mode_of word ≡ some mode → level_of word ≡ none
unfolding emit_mode_of
emit-level word mode h = ground (
  arith,
  h,
  not-level (bytes_of "--emit-tokens") word (unfold level_of list_eq in refl),
  not-level (bytes_of "--emit-llvm-before-opt") word (unfold level_of list_eq in refl),
  not-level (bytes_of "--emit-llvm") word (unfold level_of list_eq in refl),
  not-level (bytes_of "--emit-asm") word (unfold level_of list_eq in refl),
  not-level (bytes_of "--emit-obj") word (unfold level_of list_eq in refl),
)
