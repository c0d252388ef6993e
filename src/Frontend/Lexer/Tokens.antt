-- ===== src/Frontend/Lexer/Tokens.antt =====
-- The token stream of src/frontend/Lexer.cpp, as a caller that asks until the end of the file
-- sees it.
use ocelotl_tensor.Base.{
  ℕ, zero, suc, ◌<◌, ◌+◌, ◌≡◌, ◌≢◌, refl, ap, sym, ◌∙◌, Bool, true, false, ◌&&◌, ◌||◌, List, [],
  ◌∷◌, ◌++◌, append_assoc, append-nil, arith, Text, ◌==◌, length, drop, all, take_while, drop_while,
  length-append, list_eq, Bool-cases, inl, inr, Option, some, none,
}
use ocelotl_tensor.Frontend.Token.{
  TokenKind, kind_eq, kind_eq_ne, kind_eq_refl, Token, end_of_file, identifier, integer_literal,
  float_literal, unknown, to_string,
}
use ocelotl_tensor.Frontend.Lexer.{
  Lexer, lexer_of, is_alpha, is_word, is_digit, is_space, next_token, keyword_kind,
}
use ocelotl_tensor.Frontend.Lexer.Position.{position, lexer_at, lexer_of_lem, second}
use ocelotl_tensor.Frontend.Lexer.Scan.{
  Lexeme, scan, scan_word, scan_number, scan_fraction, scan_symbol, symbols, has_prefix, token_at,
  next_token-at,
}

pub take_while-append-drop_while :
    (p : ℕ → Bool) (xs : Text) → take_while p xs ++ drop_while p xs ≡ xs
take_while-append-drop_while p [] = refl
take_while-append-drop_while p (x ∷ xs) = elim (Bool-cases (p x)) [
  | inl e ↦ rw (e, take_while-append-drop_while p xs)
  | inr e ↦ rw e
]

pub all-take_while : (p : ℕ → Bool) (xs : Text) → all p (take_while p xs) ≡ true
all-take_while p [] = refl
all-take_while p (x ∷ xs) = elim (Bool-cases (p x)) [
  | inl e ↦ rw (e, e, all-take_while p xs)
  | inr e ↦ rw e
]

-- A lexeme at the front of a text that has a byte left.
pub record Fits (cs : Text) (x : Lexeme) : Type 0 where
  pub tiles : x.taken ++ x.left ≡ cs
  pub nonempty : 0 < length x.taken
  pub not_end : x.kind ≢ end_of_file

has_prefix-append : (xs cs : Text) → has_prefix xs cs ≡ true → xs ++ drop (length xs) cs ≡ cs
has_prefix-append [] cs h = refl
has_prefix-append (x ∷ xs) [] h = ground arith
has_prefix-append (x ∷ xs) (c ∷ cs) h = ground (arith, has_prefix-append xs cs)

-- A kind whose spelling is fixed by `toString`.
abbrev pub has_spelling : TokenKind → Bool
has_spelling end_of_file = false
has_spelling identifier = false
has_spelling integer_literal = false
has_spelling float_literal = false
has_spelling unknown = false
has_spelling _ = true

to_string_pos : (k : TokenKind) → 0 < length (to_string k)
unfolding to_string
to_string_pos end_of_file = omega arith
to_string_pos _ = omega arith

keyword_kind-ne : (w : Text) → keyword_kind w ≢ end_of_file
unfolding keyword_kind
keyword_kind-ne w = ground arith

spelled-ne-end : (k : TokenKind) → has_spelling k ≡ true → k ≢ end_of_file
spelled-ne-end end_of_file h = cc
spelled-ne-end _ h = cc

scan_symbol-Fits :
    (ks : List TokenKind) (c : ℕ) (cs : Text)
    → all has_spelling ks ≡ true
    → Fits (c ∷ cs) (scan_symbol ks (c ∷ cs))
scan_symbol-Fits [] c cs h = record { tiles = refl; nonempty = omega arith; not_end = cc }
scan_symbol-Fits (k ∷ ks) c cs h = elim (Bool-cases (has_prefix (to_string k) (c ∷ cs))) [
  | inl e ↦ rw e (record {
    tiles = has_prefix-append (to_string k) (c ∷ cs) e;
    nonempty = to_string_pos k;
    not_end = spelled-ne-end k (ground arith);
  })
  | inr e ↦ rw e (scan_symbol-Fits ks c cs (ground arith))
]

-- A prefix of bytes that pass is not empty if the first byte passes.
take_while_pos :
    (p : ℕ → Bool) (c : ℕ) (cs : Text) → p c ≡ true → 0 < length (take_while p (c ∷ cs))
take_while_pos p c cs h = rw h (omega arith)

scan_word-Fits : (c : ℕ) (cs : Text) → is_word c ≡ true → Fits (c ∷ cs) (scan_word (c ∷ cs))
scan_word-Fits c cs h = record {
  tiles = take_while-append-drop_while is_word (c ∷ cs);
  nonempty = take_while_pos is_word c cs h;
  not_end = keyword_kind-ne (take_while is_word (c ∷ cs));
}

regroup :
    (p : ℕ → Bool) (whole : Text) (r : ℕ) (rs : Text)
    → (whole ++ r ∷ take_while p rs) ++ drop_while p rs ≡ whole ++ r ∷ rs
regroup p whole r rs = rw (append_assoc, take_while-append-drop_while p rs)

scan_fraction-Fits :
    (cs whole rest : Text)
    → 0 < length whole
    → whole ++ rest ≡ cs
    → Fits cs (scan_fraction whole rest)
scan_fraction-Fits cs whole [] h e = record { tiles = e; nonempty = h; not_end = cc }
scan_fraction-Fits cs whole (r ∷ rs) h e =
    elim (Bool-cases (r == b'.' && is_digit (second (r ∷ rs)))) [
      | inl b ↦ rw b (record {
        tiles = regroup is_digit whole r rs ∙ e;
        nonempty = omega (arith, length-append whole (r ∷ take_while is_digit rs));
        not_end = cc;
      })
      | inr b ↦ rw b (record { tiles = e; nonempty = h; not_end = cc })
    ]

scan_number-Fits : (c : ℕ) (cs : Text) → is_digit c ≡ true → Fits (c ∷ cs) (scan_number (c ∷ cs))
scan_number-Fits c cs d =
    scan_fraction-Fits (c ∷ cs) (take_while is_digit (c ∷ cs)) (drop_while is_digit (c ∷ cs))
      (take_while_pos is_digit c cs d) (take_while-append-drop_while is_digit (c ∷ cs))

is_word-starts : (c : ℕ) → (is_alpha c || c == b'_') ≡ true → is_word c ≡ true
unfolding is_word
is_word-starts c h = ground arith

pub scan-Fits : (c : ℕ) (cs : Text) → Fits (c ∷ cs) (scan (c ∷ cs))
scan-Fits c cs = elim (Bool-cases (is_alpha c || c == b'_')) [
  | inl w ↦ rw w (scan_word-Fits c cs (is_word-starts c w))
  | inr w ↦ elim (Bool-cases (is_digit c)) [
    | inl d ↦ rw (w, d) (rw d at (scan_number-Fits c cs d))
    | inr d ↦ rw (w, d) (scan_symbol-Fits symbols c cs refl)
  ]
]

scan-spelling :
    (k : TokenKind) (rest : Text)
    → has_spelling k ≡ true
    → token_at
        (take_while is_space (to_string k ++ 32 ∷ rest))
        (scan (drop_while is_space (to_string k ++ 32 ∷ rest)))
      ≡ token_at [] (record { kind = k; taken = to_string k; left = 32 ∷ rest })
unfolding to_string is_space is_alpha is_digit is_word keyword_kind list_eq
scan-spelling end_of_file rest h = cc
scan-spelling identifier rest h = cc
scan-spelling integer_literal rest h = cc
scan-spelling float_literal rest h = cc
scan-spelling unknown rest h = cc
scan-spelling _ rest h = refl

-- The tokens up to the end of the file; `none` is a lack of fuel.
unfoldable pub tokens : ℕ → Lexer → Option (List Token)
tokens zero l = none
tokens (suc fuel) l =
    let (t, l') = next_token l in
    let more = tokens fuel l' in
    elim (kind_eq t.kind end_of_file) [
      | true ↦ some (t ∷ [])
      | false ↦ elim more [ none ↦ none | some ts ↦ some (t ∷ ts) ]
    ]

-- Behind `pre` the tokens `ts` cover `rest`: white space alone stands before and between them,
-- every lexeme is the text where the token's location points and is not empty, and the one token
-- of the end of the file, with no lexeme, comes last, where the text ends.
pub data Covers : Text → Text → List Token → Type 0 where
  finish :
      (pre rest : Text)
      → all is_space rest ≡ true
      → Covers pre rest
          (record { kind = end_of_file; lexeme = []; location = position (pre ++ rest) } ∷ [])
  token :
      (pre gap after : Text) (t : Token) {rest : Text} {ts : List Token}
      → all is_space gap ≡ true
      → gap ++ (t.lexeme ++ after) ≡ rest
      → t.kind ≢ end_of_file
      → 0 < length t.lexeme
      → t.location ≡ position (pre ++ gap)
      → Covers ((pre ++ gap) ++ t.lexeme) after ts
      → Covers pre rest (t ∷ ts)

abbrev Streams : ℕ → Text → Text → Type 0
Streams fuel pre rest =
    (ts : List Token) × (tokens fuel (lexer_at pre rest) ≡ some ts) × Covers pre rest ts

-- One round, with the white space `gap` and the text `r` behind it told apart.
tokens-step :
    (fuel : ℕ) (pre gap r rest : Text)
    → gap ++ r ≡ rest
    → all is_space gap ≡ true
    → next_token (lexer_at pre rest) ≡ token_at (pre ++ gap) (scan r)
    → length rest < suc fuel
    → ((pre' rest' : Text) → length rest' < fuel → Streams fuel pre' rest')
    → Streams (suc fuel) pre rest
unfolding tokens
tokens-step fuel pre gap [] rest e sp nt h ih =
    let whole : gap ≡ rest = sym (append-nil gap) ∙ e in
    (
      (token_at (pre ++ gap) (scan [])).0 ∷ [],
      rw (tokens, nt, kind_eq_refl end_of_file, nt),
      rw whole (finish pre rest (rw whole at sp)),
    )
tokens-step fuel pre gap (c ∷ cs) rest e sp nt h ih =
    let x = scan (c ∷ cs) in
    let fit = scan-Fits c cs in
    let (ts, run, cov) = ih ((pre ++ gap) ++ x.taken) x.left (
      omega (
        arith,
        length-append gap (c ∷ cs),
        length-append x.taken x.left,
        ap length fit.tiles,
        ap length e,
        fit.nonempty,
      )) in
    (
      (token_at (pre ++ gap) x).0 ∷ ts,
      rw (tokens, nt, kind_eq_ne x.kind end_of_file fit.not_end, nt, run, nt),
      token pre gap x.left _ sp (ap (λ t. gap ++ t) fit.tiles ∙ e) fit.not_end fit.nonempty refl
          cov,
    )

tokens-Covers : (fuel : ℕ) (pre rest : Text) → length rest < fuel → Streams fuel pre rest
tokens-Covers zero pre rest h = absurd (omega arith)
tokens-Covers (suc fuel) pre rest h =
    tokens-step fuel pre (take_while is_space rest) (drop_while is_space rest) rest
      (take_while-append-drop_while is_space rest) (all-take_while is_space rest)
      (next_token-at pre rest) h (λ pre' rest' h'. tokens-Covers fuel pre' rest' h')

-- Reading a source to its end always succeeds, with one unit of fuel more than it has bytes, and
-- its tokens cover it: every byte is in a lexeme or is white space between lexemes, every token's
-- location is that of its first byte, and the token of the end of the file comes last and once.
pub tokens-source :
    (source : Text)
    → (ts : List Token) × (tokens (length source + 1) (lexer_of source) ≡ some ts)
      × Covers [] source ts
tokens-source source =
    rw (lexer_of_lem source) (tokens-Covers (length source + 1) [] source (omega arith))

-- What `toString` prints for a keyword or a symbol, in front of a blank, is read back as that
-- token.
pub next_token-to_string :
    (k : TokenKind) (rest : Text)
    → has_spelling k ≡ true
    → next_token (lexer_of (to_string k ++ 32 ∷ rest))
      ≡ token_at [] (record { kind = k; taken = to_string k; left = 32 ∷ rest })
next_token-to_string k rest h =
    rw (lexer_of_lem (to_string k ++ 32 ∷ rest), next_token-at [] (to_string k ++ 32 ∷ rest))
      (rw (scan-spelling k rest h))
