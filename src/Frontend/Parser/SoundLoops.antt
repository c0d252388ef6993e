-- ===== src/Frontend/Parser/SoundLoops.antt =====
-- The loops below the expression methods of src/frontend/Parser.cpp take phrases of the grammar, and their fuel
-- does not run out.
use ocelotl_tensor.Base.{
  ℕ, zero, suc, ◌+◌, ◌<◌, ◌≡◌, ◌≢◌, refl, ap, Bool, true, List, ◌∷◌, ◌++◌, append_assoc, append-nil,
  Option, some, Text, bytes_of, arith, length, length-append, Bool-cases, inl, inr,
}
use ocelotl_tensor.Frontend.Token.{
  TokenKind, Token, end_of_file, identifier, comma, left_paren, right_paren,
}
use ocelotl_tensor.Frontend.Ast.{
  BinaryOperator, Expression, identifier_expr, call_expr, binary_expr, Arguments, no_arguments,
  argument,
}
use ocelotl_tensor.Frontend.Parser.Monad.{Parser, Parses, pure, ◌>>=◌, advance, check, consume}
use ocelotl_tensor.Frontend.Parser.{
  binary_operator, is_comparison, is_additive, is_multiplicative, make_binary, binary_loop,
  argument_loop, parse_arguments, parse_call, parse_identifier_or_call,
}
use ocelotl_tensor.Frontend.Parser.Stream.{
  Stream, Reads, check→eq, done-Reads, bind-Reads, advance-Reads, consume-Reads, map-Reads,
  fmap-Reads,
}
use ocelotl_tensor.Frontend.Parser.Grammar.{
  Operator, times, over, added, less_by, is_equal, is_other, is_less, is_at_most, is_greater,
  is_at_least, Phrase, name, integer, float, parentheses, call, lift, binary, ArgumentList,
  none_given, given, MoreArguments, no_more, one_more,
}

pub Phrase-pos :
    {D : Type 0} {stod : Text → Option D} {n : ℕ} {ts : List Token} {e : Expression D}
    → Phrase D stod n ts e
    → 0 < length ts
Phrase-pos (name t h) = omega arith
Phrase-pos (integer t n h k) = omega arith
Phrase-pos (float t x h k) = omega arith
Phrase-pos (parentheses l r h k p) = omega arith
Phrase-pos (call t l r h k m p) = omega arith
Phrase-pos (lift p) = Phrase-pos p
Phrase-pos (binary t op {xs = xs} {ys = ys} h a b) = omega (arith, length-append xs (t ∷ ys))

pub rest-le :
    (used rest ts : List Token) → used ++ rest ≡ ts → length rest + length used ≡ length ts
rest-le used rest ts e = omega (arith, length-append used rest, ap length e)

-- A loop over operators of one level accepts those of that level of the grammar.
abbrev pub AcceptsLevel : ℕ → (TokenKind → Bool) → Type 0
AcceptsLevel n accepts =
    (k : TokenKind)
    → accepts k ≡ true
    → (op : BinaryOperator) × (binary_operator k ≡ some op)
      × Operator (suc n) k op
      × (k ≢ end_of_file)

pub is_multiplicative-AcceptsLevel : AcceptsLevel 0 is_multiplicative
unfolding is_multiplicative
is_multiplicative-AcceptsLevel TokenKind.star h = (_, refl, times, cc)
is_multiplicative-AcceptsLevel TokenKind.slash h = (_, refl, over, cc)
is_multiplicative-AcceptsLevel _ h = cc

pub is_additive-AcceptsLevel : AcceptsLevel 1 is_additive
unfolding is_additive
is_additive-AcceptsLevel TokenKind.plus h = (_, refl, added, cc)
is_additive-AcceptsLevel TokenKind.minus h = (_, refl, less_by, cc)
is_additive-AcceptsLevel _ h = cc

pub is_comparison-AcceptsLevel : AcceptsLevel 2 is_comparison
unfolding is_comparison
is_comparison-AcceptsLevel TokenKind.equal_equal h = (_, refl, is_equal, cc)
is_comparison-AcceptsLevel TokenKind.bang_equal h = (_, refl, is_other, cc)
is_comparison-AcceptsLevel TokenKind.less h = (_, refl, is_less, cc)
is_comparison-AcceptsLevel TokenKind.less_equal h = (_, refl, is_at_most, cc)
is_comparison-AcceptsLevel TokenKind.greater h = (_, refl, is_greater, cc)
is_comparison-AcceptsLevel TokenKind.greater_equal h = (_, refl, is_at_least, cc)
is_comparison-AcceptsLevel _ h = cc

-- A method reads phrases of a level in front of fewer than `f` tokens.
abbrev pub ReadsLevel :
    (D : Type 0) (stod : Text → Option D) → ℕ → ℕ → Parses (Expression D) → Type 0
ReadsLevel D stod n f m =
    (p : Parser) (ts : List Token) → Stream p ts → length ts < f → Reads (Phrase D stod n) ts (m p)

module _ {D : Type 0} (stod : Text → Option D) where
  -- What the loop adds to the phrase that it starts from.
  abbrev pub Extends : ℕ → Expression D → List Token → Expression D → Type 0
  Extends n lhs us e =
      (xs : List Token) → Phrase D stod (suc n) xs lhs → Phrase D stod (suc n) (xs ++ us) e

  pub binary_loop-Reads :
      (n : ℕ) (accepts : TokenKind → Bool) (operand : Parses (Expression D)) (f : ℕ)
      → AcceptsLevel n accepts
      → ReadsLevel D stod n f operand
      → (g : ℕ) (lhs : Expression D) (p : Parser) (ts : List Token) → Stream p ts
      → length ts < f
      → length ts < g
      → Reads (Extends n lhs) ts (binary_loop accepts operand g lhs p)
  unfolding binary_loop
  binary_loop-Reads n accepts operand f acc op_reads zero lhs p ts s hf hg = absurd (omega arith)
  binary_loop-Reads n accepts operand f acc op_reads (suc g) lhs p ts s hf hg =
      elim (Bool-cases (accepts p.current.kind)) [
        | inr stop ↦
            rw (binary_loop, stop) (done-Reads (Extends n lhs) p ts lhs s (λ xs h. rw append-nil h))
        | inl go ↦
            let (op, isop, meant, ne) = acc p.current.kind go in
            rw (binary_loop, go)
              (advance-Reads (Extends n lhs) (operand >>= after p.current) p ts s ne λ rest e s'.
                bind-Reads (λ us b. Extends n lhs (p.current ∷ us) b) operand (after p.current)
                  (advance p) rest (op_reads (advance p) rest s' (omega (arith, ap length e)))
                  λ rhs q used rest' e' h s''.
                    rw (make_binary, isop)
                      (map-Reads
                        (λ us b k xs hl.
                          rw append_assoc at
                            (k (xs ++ p.current ∷ used) (binary p.current op meant hl h)))
                        (binary_loop-Reads n accepts operand f acc op_reads g
                          (binary_expr op lhs rhs p.current.location) q rest' s''
                          (omega (arith, ap length e, rest-le used rest' rest e'))
                          (omega (arith, ap length e, rest-le used rest' rest e')))))
      ]
    where
      after : Token → Expression D → Parses (Expression D)
      after t rhs = make_binary lhs t rhs >>= λ e. binary_loop accepts operand g e

  module _ (f : ℕ) (expression : Parses (Expression D))
      (ih : ReadsLevel D stod 3 f expression) where
    argument_loop-Reads :
        (g : ℕ) (p : Parser) (ts : List Token)
        → Stream p ts
        → length ts < f
        → length ts < g
        → Reads (MoreArguments D stod) ts (argument_loop expression g p)
    unfolding argument_loop
    argument_loop-Reads zero p ts s hf hg = absurd (omega arith)
    argument_loop-Reads (suc g) p ts s hf hg = elim (Bool-cases (check p comma)) [
      | inr stop ↦
          rw (argument_loop, stop) (done-Reads (MoreArguments D stod) p ts no_arguments s no_more)
      | inl go ↦
          let is_comma = check→eq p comma go in
          rw (argument_loop, go)
            (advance-Reads (MoreArguments D stod) (expression >>= after) p ts s (λ h. cc)
              λ rest e s'.
                bind-Reads (λ us b. MoreArguments D stod (p.current ∷ us) b) expression after
                  (advance p) rest (ih (advance p) rest s' (omega (arith, ap length e)))
                  λ a q used rest' e' h s''.
                    fmap-Reads (argument_loop expression g) (argument a) q rest'
                      (argument_loop-Reads g q rest' s''
                        (omega (arith, ap length e, rest-le used rest' rest e'))
                        (omega (arith, ap length e, rest-le used rest' rest e')))
                      λ us es k. one_more p.current is_comma h k)
    ]
      where
        after : Expression D → Parses (Arguments D)
        after a = argument_loop expression g >>= λ es. pure (argument a es)

    parse_arguments-Reads :
        (p : Parser) (ts : List Token)
        → Stream p ts
        → length ts < f
        → Reads (ArgumentList D stod) ts (parse_arguments expression f p)
    unfolding parse_arguments
    parse_arguments-Reads p ts s hf = elim (Bool-cases (check p right_paren)) [
      | inl stop ↦
          rw (parse_arguments, stop)
            (done-Reads (ArgumentList D stod) p ts no_arguments s none_given)
      | inr go ↦
          rw (parse_arguments, go)
            (bind-Reads (ArgumentList D stod) expression after p ts (ih p ts s hf)
              λ a q used rest e h s'.
                fmap-Reads (argument_loop expression f) (argument a) q rest
                  (argument_loop-Reads f q rest s' (omega (arith, rest-le used rest ts e))
                    (omega (arith, rest-le used rest ts e)))
                  λ us es k. given h k)
    ]
      where
        after : Expression D → Parses (Arguments D)
        after a = argument_loop expression f >>= λ es. pure (argument a es)

    -- Behind the identifier `t`.
    parse_call-Reads :
        (t : Token) (p : Parser) (ts : List Token)
        → t.kind ≡ identifier
        → Stream p ts
        → length ts < f
        → Reads (λ us e. Phrase D stod 0 (t ∷ us) e) ts (parse_call expression f t p)
    unfolding parse_call
    parse_call-Reads t p ts isname s hf = elim (Bool-cases (check p left_paren)) [
      | inr stop ↦
          rw (parse_call, stop)
            (done-Reads (λ us e. Phrase D stod 0 (t ∷ us) e) p ts
              (identifier_expr t.lexeme t.location) s (name t isname))
      | inl go ↦
          let is_left = check→eq p left_paren go in
          rw (parse_call, go)
            (advance-Reads (λ us e. Phrase D stod 0 (t ∷ us) e)
              (parse_arguments expression f >>= after) p ts s (λ h. cc)
              λ rest e s'.
                bind-Reads (λ us b. Phrase D stod 0 (t ∷ p.current ∷ us) b)
                  (parse_arguments expression f) after (advance p) rest
                  (parse_arguments-Reads (advance p) rest s' (omega (arith, ap length e)))
                  λ es q used rest' e' h s''.
                    consume-Reads (λ us b. Phrase D stod 0 (t ∷ p.current ∷ (used ++ us)) b)
                      right_paren (bytes_of "')'") (λ _. pure (call_expr t.lexeme es t.location)) q
                      rest' s'' (λ h. cc)
                      λ r q' rest'' e'' is_right s3.
                        done-Reads (λ us b. Phrase D stod 0 (t ∷ p.current ∷ (used ++ r ∷ us)) b) q'
                          rest'' _ s3 (call t p.current r isname is_left is_right h))
    ]
      where
        after : Arguments D → Parses (Expression D)
        after es =
            consume right_paren (bytes_of "')'") >>= λ _. pure (call_expr t.lexeme es t.location)

    pub parse_identifier_or_call-Reads :
        (p : Parser) (ts : List Token)
        → Stream p ts
        → length ts < suc f
        → Reads (Phrase D stod 0) ts (parse_identifier_or_call expression f p)
    unfolding parse_identifier_or_call
    parse_identifier_or_call-Reads p ts s hf =
        consume-Reads (Phrase D stod 0) identifier (bytes_of "identifier") (parse_call expression f)
          p ts s (λ h. cc)
          λ t q rest e isname s'. parse_call-Reads t q rest isname s' (omega (arith, ap length e))
