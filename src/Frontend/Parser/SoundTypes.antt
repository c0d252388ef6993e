-- ===== src/Frontend/Parser/SoundTypes.antt =====
-- The tensor type methods of src/frontend/Parser.cpp take tensor types of the grammar, and their fuel
-- does not run out.
use ocelotl_tensor.Base.{
  ℕ, zero, suc, ◌^◌, ◌<◌, ◌≡◌, ap, List, [], ◌∷◌, bytes_of, arith, length, Bool-cases, Option-cases,
  inl, inr,
}
use ocelotl_tensor.Base.Results.{error}
use ocelotl_tensor.Frontend.Token.{
  Token, identifier, integer_literal, comma, left_bracket, right_bracket,
}
use ocelotl_tensor.Frontend.Parser.Monad.{Parser, Parses, pure, ◌>>=◌, advance, check, consume}
use ocelotl_tensor.Frontend.Parser.{stoull, dimension_of, dimension_loop, parse_tensor_type}
use ocelotl_tensor.Frontend.Parser.Literals.{stoull-IsNumber}
use ocelotl_tensor.Frontend.Parser.Stream.{
  points, throw_bind-Reads, Stream-Occurs, Stream, Reads, check→eq, done-Reads, bind-Reads,
  advance-Reads, consume-Reads, fmap-Reads,
}
use ocelotl_tensor.Frontend.Parser.Grammar.{
  IsNumber, MoreDimensions, no_more, one_more, TensorTypePhrase, tensor_type,
}

-- A dimension: its token is taken, and then its value is read or the error points at it.
pub dimension-Reads :
    {B : Type 0} (R : List Token → B → Type 0) (k : ℕ → Parses B) (p : Parser) (ts : List Token)
    → Stream p ts
    → ((t : Token) (n : ℕ) (q : Parser) (rest : List Token)
        → t ∷ rest ≡ ts
        → t.kind ≡ integer_literal
        → IsNumber (2 ^ 64) t.lexeme n
        → Stream q rest
        → Reads (λ us b. R (t ∷ us) b) rest (k n q))
    → Reads R ts
        ((consume integer_literal (bytes_of "tensor dimension") >>= λ t. dimension_of t >>= k) p)
unfolding consume dimension_of
dimension-Reads {B} R k p ts s h = elim (Bool-cases (check p integer_literal)) [
  | inr stop ↦ rw (consume, stop) (throw_bind-Reads R after p ts _ s)
  | inl go ↦ elim (Option-cases (stoull p.current.lexeme)) [
    | inl bad ↦
        rw (consume, go, dimension_of, bad) (error (points p.current _ (Stream-Occurs p ts s)))
    | inr (n, isn) ↦
        let is_int = check→eq p integer_literal go in
        rw (consume, go, dimension_of, isn)
          (advance-Reads R (k n) p ts s (λ e. cc)
            λ rest e s'.
              h p.current n (advance p) rest e is_int (stoull-IsNumber p.current.lexeme n isn) s')
  ]
]
  where
    after : Token → Parses B
    after t = dimension_of t >>= k

dimension_loop-Reads :
    (g : ℕ) (p : Parser) (ts : List Token)
    → Stream p ts
    → length ts < g
    → Reads MoreDimensions ts (dimension_loop g p)
unfolding dimension_loop
dimension_loop-Reads zero p ts s hg = absurd (omega arith)
dimension_loop-Reads (suc g) p ts s hg = elim (Bool-cases (check p comma)) [
  | inr stop ↦ rw (dimension_loop, stop) (done-Reads MoreDimensions p ts [] s no_more)
  | inl go ↦
      let is_comma = check→eq p comma go in
      rw (dimension_loop, go)
        (advance-Reads MoreDimensions
          (consume integer_literal (bytes_of "tensor dimension") >>= λ t. dimension_of t >>= after)
          p ts s (λ h. cc)
          λ rest e s'.
            dimension-Reads (λ us b. MoreDimensions (p.current ∷ us) b) after (advance p) rest s'
              λ t n q rest' e' is_int isn s''.
                fmap-Reads (dimension_loop g) (λ ns. n ∷ ns) q rest'
                  (dimension_loop-Reads g q rest' s'' (omega (arith, ap length e, ap length e')))
                  λ us ns k. one_more p.current t n is_comma is_int isn k)
]
  where
    after : ℕ → Parses (List ℕ)
    after n = dimension_loop g >>= λ ns. pure (n ∷ ns)

pub parse_tensor_type-Reads :
    (f : ℕ) (p : Parser) (ts : List Token)
    → Stream p ts
    → length ts < suc f
    → Reads TensorTypePhrase ts (parse_tensor_type f p)
unfolding parse_tensor_type
parse_tensor_type-Reads f p ts s hf =
    consume-Reads TensorTypePhrase identifier (bytes_of "element type") _ p ts s (λ h. cc)
      λ el q1 r1 e1 k1 s1.
        consume-Reads _ left_bracket (bytes_of "'['") _ q1 r1 s1 (λ h. cc)
          λ l q2 r2 e2 k2 s2. dimension-Reads _ _ q2 r2 s2 λ t n q3 r3 e3 k3 isn s3.
            bind-Reads _ (dimension_loop f) _ q3 r3
              (dimension_loop-Reads f q3 r3 s3
                (omega (arith, ap length e1, ap length e2, ap length e3)))
              λ ns q4 us r4 e4 h s4.
                consume-Reads _ right_bracket (bytes_of "']'") _ q4 r4 s4 (λ h. cc)
                  λ r q5 r5 e5 k5 s5.
                    done-Reads _ q5 r5 _ s5 (tensor_type el l t r n k1 k2 k3 isn h k5)
