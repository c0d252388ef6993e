-- ===== src/Frontend/Parser/SoundExpressions.antt =====
-- The expression methods of src/frontend/Parser.cpp take phrases of the grammar, and their fuel
-- does not run out.
use ocelotl_tensor.Base.{
  ℕ, zero, suc, ◌<◌, ◌≡◌, refl, ap, Bool, List, ◌∷◌, ◌++◌, Option, Text, bytes_of, arith, length,
  Option-cases, inl, inr,
}
use ocelotl_tensor.Frontend.Token.{
  TokenKind, Token, identifier, integer_literal, float_literal, left_paren, right_paren,
}
use ocelotl_tensor.Frontend.Ast.{Expression, integer_expr, float_expr}
use ocelotl_tensor.Frontend.Parser.Monad.{Parser, Parses, pure, ◌>>=◌, advance, consume}
use ocelotl_tensor.Frontend.Parser.{
  stoll, is_comparison, is_additive, is_multiplicative, binary_loop, integer_of, float_of,
  primary_of, parse_primary, parse_multiplicative, parse_additive, parse_comparison,
  parse_expression,
}
use ocelotl_tensor.Frontend.Parser.Literals.{stoll-IsNumber}
use ocelotl_tensor.Frontend.Parser.Stream.{
  Stream, Reads, throw-Reads, throw_advance-Reads, done-Reads, bind-Reads, advance-Reads,
  consume-Reads, map-Reads,
}
use ocelotl_tensor.Frontend.Parser.SoundLoops.{
  ReadsLevel, AcceptsLevel, Phrase-pos, rest-le, is_multiplicative-AcceptsLevel,
  is_additive-AcceptsLevel, is_comparison-AcceptsLevel, binary_loop-Reads,
  parse_identifier_or_call-Reads,
}
use ocelotl_tensor.Frontend.Parser.Grammar.{Phrase, integer, float, parentheses, lift}

module _ {D : Type 0} (stod : Text → Option D) where
  module _ (f : ℕ) (expression : Parses (Expression D))
      (ih : ReadsLevel D stod 3 f expression) where
    -- A literal is taken first; an error points at it all the same.
    integer-Reads :
        (p : Parser) (ts : List Token)
        → Stream p ts
        → p.current.kind ≡ integer_literal
        → Reads (Phrase D stod 0) ts (integer_of {D = D} p.current (advance p))
    unfolding integer_of
    integer-Reads p ts s k = elim (Option-cases (stoll p.current.lexeme)) [
      | inl none_ ↦ rw (integer_of, none_) (throw_advance-Reads (Phrase D stod 0) p ts _ s)
      | inr (n, isn) ↦
          rw (integer_of, isn)
            (advance-Reads (Phrase D stod 0) (pure (integer_expr n p.current.location)) p ts s
              (λ h. cc)
              λ rest e s'.
                done-Reads (λ us b. Phrase D stod 0 (p.current ∷ us) b) (advance p) rest _ s'
                  (integer p.current n k (stoll-IsNumber p.current.lexeme n isn)))
    ]

    float-Reads :
        (p : Parser) (ts : List Token)
        → Stream p ts
        → p.current.kind ≡ float_literal
        → Reads (Phrase D stod 0) ts (float_of stod p.current (advance p))
    unfolding float_of
    float-Reads p ts s k = elim (Option-cases (stod p.current.lexeme)) [
      | inl none_ ↦ rw (float_of, none_) (throw_advance-Reads (Phrase D stod 0) p ts _ s)
      | inr (x, isx) ↦
          rw (float_of, isx)
            (advance-Reads (Phrase D stod 0) (pure (float_expr x p.current.location)) p ts s
              (λ h. cc)
              λ rest e s'.
                done-Reads (λ us b. Phrase D stod 0 (p.current ∷ us) b) (advance p) rest _ s'
                  (float p.current x k isx))
    ]

    parentheses-Reads :
        (p : Parser) (ts : List Token)
        → Stream p ts
        → p.current.kind ≡ left_paren
        → length ts < suc f
        → Reads (Phrase D stod 0) ts (primary_of stod left_paren expression f p)
    unfolding primary_of
    parentheses-Reads p ts s k hf =
        advance-Reads (Phrase D stod 0) (expression >>= after) p ts s (λ h. cc)
          λ rest e s'.
            bind-Reads (λ us b. Phrase D stod 0 (p.current ∷ us) b) expression after (advance p)
              rest (ih (advance p) rest s' (omega (arith, ap length e)))
              λ a q used rest' e' h s''.
                consume-Reads (λ us b. Phrase D stod 0 (p.current ∷ (used ++ us)) b) right_paren
                  (bytes_of "')'") (λ _. pure a) q rest' s'' (λ h. cc)
                  λ r q' rest'' e'' is_right s3.
                    done-Reads (λ us b. Phrase D stod 0 (p.current ∷ (used ++ r ∷ us)) b) q' rest''
                      a s3 (parentheses p.current r k is_right h)
      where
        after : Expression D → Parses (Expression D)
        after a = consume right_paren (bytes_of "')'") >>= λ _. pure a

    primary_of-Reads :
        (k : TokenKind) (p : Parser) (ts : List Token)
        → p.current.kind ≡ k
        → Stream p ts
        → length ts < suc f
        → Reads (Phrase D stod 0) ts (primary_of stod k expression f p)
    unfolding primary_of
    primary_of-Reads identifier p ts k s hf =
        parse_identifier_or_call-Reads stod f expression ih p ts s hf
    primary_of-Reads integer_literal p ts k s hf = integer-Reads p ts s k
    primary_of-Reads float_literal p ts k s hf = float-Reads p ts s k
    primary_of-Reads left_paren p ts k s hf = parentheses-Reads p ts s k hf
    primary_of-Reads _ p ts k s hf = throw-Reads (Phrase D stod 0) p ts _ s

    parse_primary-Reads : ReadsLevel D stod 0 (suc f) (parse_primary stod expression f)
    unfolding parse_primary
    parse_primary-Reads p ts s hf = primary_of-Reads p.current.kind p ts refl s hf

    -- A method of one level: an operand, then the loop over the operators of that level.
    level-Reads :
        (n : ℕ) (accepts : TokenKind → Bool) (operand : Parses (Expression D))
        → AcceptsLevel n accepts
        → ReadsLevel D stod n (suc f) operand
        → ReadsLevel D stod (suc n) (suc f) (operand >>= binary_loop accepts operand f)
    level-Reads n accepts operand acc op_reads p ts s hf =
        bind-Reads (Phrase D stod (suc n)) operand (binary_loop accepts operand f) p ts
          (op_reads p ts s hf)
          λ a q used rest e h s'.
            map-Reads (λ us b k. k used (lift h))
              (binary_loop-Reads stod n accepts operand (suc f) acc op_reads f a q rest s'
                (omega (arith, rest-le used rest ts e))
                (omega (arith, rest-le used rest ts e, Phrase-pos h)))

    parse_comparison-Reads : ReadsLevel D stod 3 (suc f) (parse_comparison stod expression f)
    unfolding parse_comparison parse_additive parse_multiplicative
    parse_comparison-Reads =
        level-Reads 2 is_comparison (parse_additive stod expression f) is_comparison-AcceptsLevel (
          level-Reads 1 is_additive (parse_multiplicative stod expression f)
            is_additive-AcceptsLevel
            (level-Reads 0 is_multiplicative (parse_primary stod expression f)
              is_multiplicative-AcceptsLevel parse_primary-Reads))

  -- With more fuel than there are tokens, `parseExpression` takes an expression of the grammar off
  -- their front and gives its tree, or throws at one of them.
  pub parse_expression-Reads : (f : ℕ) → ReadsLevel D stod 3 f (parse_expression stod f)
  unfolding parse_expression
  parse_expression-Reads zero p ts s hf = absurd (omega arith)
  parse_expression-Reads (suc f) p ts s hf =
      parse_comparison-Reads f (parse_expression stod f) (parse_expression-Reads f) p ts s hf
