-- ===== src/Frontend/Parser/Stream.antt =====
-- The tokens before a parser of src/frontend/Parser.cpp, and what a method may do with them: take
-- some of them off the front, or throw an error that names the place of one of them.
use ocelotl_tensor.Base.{
  ◌≡◌, ◌≢◌, ◌⊎◌, inl, inr, refl, true, List, [], ◌∷◌, ◌++◌, append_assoc, Text, Bool-cases, subst,
  sym, ap, ◌∙◌,
}
use ocelotl_tensor.Base.Results
use ocelotl_tensor.Base.Results.{Result, ok, err, Post, value, error}
use ocelotl_tensor.Frontend.Token.{TokenKind, kind_eq→eq, Token, end_of_file}
use ocelotl_tensor.Frontend.Parser.Monad.{
  Parser, Failure, parse_error, out_of_fuel, Parses, pure, ◌>>=◌, advance, check, throw_parse_error,
  consume,
}

-- `ts` are the current token and those that the lexer has still to give, the end of the file last.
pub data Stream : Parser → List Token → Type 0 where
  last : (p : Parser) → p.current.kind ≡ end_of_file → Stream p (p.current ∷ [])
  more :
      (p : Parser) {ts : List Token}
      → p.current.kind ≢ end_of_file
      → Stream (advance p) ts
      → Stream p (p.current ∷ ts)

-- A token of a list.
abbrev pub Occurs : Token → List Token → Type 0
Occurs t [] = ⊥
Occurs t (x ∷ xs) = (t ≡ x) ⊎ Occurs t xs

pub Occurs-append : (t : Token) (xs ys : List Token) → Occurs t ys → Occurs t (xs ++ ys)
Occurs-append t [] ys h = h
Occurs-append t (x ∷ xs) ys h = inr (Occurs-append t xs ys h)

-- The failure is a parse error at the place of a token of `ts`.
pub data PointsInto (ts : List Token) : Failure → Type 0 where
  points :
      (t : Token) (message : Text) → Occurs t ts → PointsInto ts (parse_error t.location message)

pub PointsInto-append :
    (xs ys : List Token) {e : Failure} → PointsInto ys e → PointsInto (xs ++ ys) e
PointsInto-append xs ys (points t message h) = points t message (Occurs-append t xs ys h)

pub PointsInto-ne-out_of_fuel : {ts : List Token} {e : Failure} → PointsInto ts e → e ≢ out_of_fuel
PointsInto-ne-out_of_fuel (points t message h) = cc

-- A method took `used` off `ts` and left `rest`, and `P` holds of what it took and gave.
pub record Taken {A : Type 0} (P : List Token → A → Type 0) (ts : List Token) (x : A × Parser)
    : Type 0 where
  pub used : List Token
  pub rest : List Token
  pub split : used ++ rest ≡ ts
  pub stream : Stream x.1 rest
  pub holds : P used x.0

abbrev pub Reads :
    {A : Type 0} → (List Token → A → Type 0) → List Token → Result Failure (A × Parser) → Type 0
Reads P ts = Post (Taken P ts) (PointsInto ts)

pub Stream-Occurs : (p : Parser) (ts : List Token) → Stream p ts → Occurs p.current ts
Stream-Occurs p ts (last _ h) = inl refl
Stream-Occurs p ts (more _ h s) = inl refl

-- A current token that is not the end of the file is followed by another.
pub Stream-step :
    (p : Parser) (ts : List Token)
    → Stream p ts
    → p.current.kind ≢ end_of_file
    → (rest : List Token) × (p.current ∷ rest ≡ ts) × Stream (advance p) rest
Stream-step p ts (last _ h) ne = absurd (ne h)
Stream-step p ts (more _ {ts = rest} h s) ne = (rest, refl, s)

pub check→eq : (p : Parser) (kind : TokenKind) → check p kind ≡ true → p.current.kind ≡ kind
unfolding check
check→eq p kind h = kind_eq→eq p.current.kind kind h

pub throw-Reads :
    {A : Type 0} (P : List Token → A → Type 0) (p : Parser) (ts : List Token) (message : Text)
    → Stream p ts
    → Reads P ts (throw_parse_error {A = A} p.current message p)
unfolding throw_parse_error
throw-Reads P p ts message s = error (points p.current message (Stream-Occurs p ts s))

-- The error points at the token that has just been taken.
pub throw_advance-Reads :
    {A : Type 0} (P : List Token → A → Type 0) (p : Parser) (ts : List Token) (message : Text)
    → Stream p ts
    → Reads P ts (throw_parse_error {A = A} p.current message (advance p))
unfolding throw_parse_error
throw_advance-Reads P p ts message s = error (points p.current message (Stream-Occurs p ts s))

pub done-Reads :
    {A : Type 0} (P : List Token → A → Type 0) (p : Parser) (ts : List Token) (a : A)
    → Stream p ts
    → P [] a
    → Reads P ts (ok (a, p))
done-Reads P p ts a s h =
    value (record { used = []; rest = ts; split = refl; stream = s; holds = h })

-- What follows a method reads on behind what the method took.
extend :
    {B : Type 0} (R : List Token → B → Type 0) (used rest ts : List Token)
    {r : Result Failure (B × Parser)}
    → used ++ rest ≡ ts
    → Reads (λ us b. R (used ++ us) b) rest r
    → Reads R ts r
extend R used rest ts e (value t) = value (record {
  used = used ++ t.used;
  rest = t.rest;
  split = append_assoc used t.used t.rest ∙ (ap (λ x. used ++ x) t.split ∙ e);
  stream = t.stream;
  holds = t.holds;
})
extend R used rest ts e (error {e = x} h) =
    error (subst (λ us. PointsInto us x) e (PointsInto-append used rest h))

pub bind-Reads :
    {A B : Type 0} {P : List Token → A → Type 0} (R : List Token → B → Type 0) (m : Parses A)
    (f : A → Parses B) (p : Parser) (ts : List Token)
    → Reads P ts (m p)
    → ((a : A) (q : Parser) (used rest : List Token)
        → used ++ rest ≡ ts
        → P used a
        → Stream q rest
        → Reads (λ us b. R (used ++ us) b) rest (f a q))
    → Reads R ts ((m >>= f) p)
bind-Reads {A} {P = P} R m f p ts h k = go (m p) h
  where
    go :
        (r : Result Failure (A × Parser))
        → Reads P ts r
        → Reads R ts (Results.◌>>=◌ r (λ (a, q). f a q))
    go _ (value {a = (a, q)} t) =
        extend R t.used t.rest ts t.split (k a q t.used t.rest t.split t.holds t.stream)
    go _ (error e) = error e

-- Behind an `advance` over a token that is not the end of the file.
pub advance-Reads :
    {B : Type 0} (R : List Token → B → Type 0) (m : Parses B) (p : Parser) (ts : List Token)
    → Stream p ts
    → p.current.kind ≢ end_of_file
    → ((rest : List Token)
        → p.current ∷ rest ≡ ts
        → Stream (advance p) rest
        → Reads (λ us b. R (p.current ∷ us) b) rest (m (advance p)))
    → Reads R ts (m (advance p))
advance-Reads R m p ts s ne k =
    let (rest, e, s') = Stream-step p ts s ne in extend R (p.current ∷ []) rest ts e (k rest e s')

pub throw_bind-Reads :
    {A B : Type 0} (R : List Token → B → Type 0) (f : A → Parses B) (p : Parser) (ts : List Token)
    (message : Text)
    → Stream p ts
    → Reads R ts ((throw_parse_error {A = A} p.current message >>= f) p)
unfolding throw_parse_error
throw_bind-Reads R f p ts message s = error (points p.current message (Stream-Occurs p ts s))

pub consume-Reads :
    {B : Type 0} (R : List Token → B → Type 0) (kind : TokenKind) (expectation : Text)
    (f : Token → Parses B) (p : Parser) (ts : List Token)
    → Stream p ts
    → kind ≢ end_of_file
    → ((t : Token) (q : Parser) (rest : List Token)
        → t ∷ rest ≡ ts
        → t.kind ≡ kind
        → Stream q rest
        → Reads (λ us b. R (t ∷ us) b) rest (f t q))
    → Reads R ts ((consume kind expectation >>= f) p)
unfolding consume
consume-Reads R kind expectation f p ts s ne k = elim (Bool-cases (check p kind)) [
  | inl e ↦
      rw (consume, e)
        (advance-Reads R (f p.current) p ts s (λ h. ne (sym (check→eq p kind e) ∙ h))
          λ rest e' s'. k p.current (advance p) rest e' (check→eq p kind e) s')
  | inr e ↦ rw (consume, e) (throw_bind-Reads R f p ts _ s)
]

pub map-Reads :
    {A : Type 0} {P R : List Token → A → Type 0} {ts : List Token} {r : Result Failure (A × Parser)}
    → ((us : List Token) (a : A) → P us a → R us a)
    → Reads P ts r
    → Reads R ts r
map-Reads k (value {a = x} t) = value (record {
  used = t.used;
  rest = t.rest;
  split = t.split;
  stream = t.stream;
  holds = k t.used x.0 t.holds;
})
map-Reads k (error h) = error h

-- A method whose value is passed through a function.
pub fmap-Reads :
    {A B : Type 0} {P : List Token → A → Type 0} {R : List Token → B → Type 0} (m : Parses A)
    (g : A → B) (p : Parser) (ts : List Token)
    → Reads P ts (m p)
    → ((us : List Token) (a : A) → P us a → R us (g a))
    → Reads R ts ((m >>= λ a. pure (g a)) p)
fmap-Reads {A} {B} {P = P} {R = R} m g p ts h k = go (m p) h
  where
    go :
        (r : Result Failure (A × Parser))
        → Reads P ts r
        → Reads R ts (Results.◌>>=◌ r (λ (a, q). pure (g a) q))
    go _ (value {a = (a, q)} t) = value (record {
      used = t.used;
      rest = t.rest;
      split = t.split;
      stream = t.stream;
      holds = k t.used a t.holds;
    })
    go _ (error e) = error e
