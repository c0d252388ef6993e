-- ===== src/Frontend/Parser/SoundStatements.antt =====
-- The statement methods of src/frontend/Parser.cpp take sentences of the grammar, and their fuel
-- does not run out.
use ocelotl_tensor.Base.{
  ℕ, zero, suc, ◌<◌, ap, List, Option, Text, bytes_of, arith, length, Bool-cases, inl, inr,
}
use ocelotl_tensor.Frontend.Token.{
  TokenKind, Token, end_of_file, identifier, kw_tensor, kw_return, kw_if, kw_else, colon, equal,
  left_brace, right_brace, unknown,
}
use ocelotl_tensor.Frontend.Ast.{
  Statement, tensor_decl, assignment, return_stmt, if_stmt, Statements, no_statements, statement,
}
use ocelotl_tensor.Frontend.Parser.Monad.{Parser, Parses, pure, ◌>>=◌, check}
use ocelotl_tensor.Frontend.Parser.{
  parse_tensor_type, parse_tensor_declaration, parse_expression, parse_assignment,
  parse_return_statement, block_loop, parse_block, parse_if_statement, statement_of,
  parse_statement,
}
use ocelotl_tensor.Frontend.Parser.Stream.{
  Stream, Reads, throw-Reads, done-Reads, bind-Reads, consume-Reads, fmap-Reads,
}
use ocelotl_tensor.Frontend.Parser.SoundLoops.{rest-le}
use ocelotl_tensor.Frontend.Parser.SoundExpressions.{parse_expression-Reads}
use ocelotl_tensor.Frontend.Parser.SoundTypes.{parse_tensor_type-Reads}
use ocelotl_tensor.Frontend.Parser.Grammar.{
  Sentence, tensor, assigns, returns, conditional, Block, braces, Sentences, none_left, next,
}

pub Sentence-pos :
    {D : Type 0} {stod : Text → Option D} {ts : List Token} {s : Statement D}
    → Sentence D stod ts s
    → 0 < length ts
Sentence-pos (tensor t name c h k l m) = omega arith
Sentence-pos (assigns t q h k l) = omega arith
Sentence-pos (returns t h k) = omega arith
Sentence-pos (conditional t k h c a m b) = omega arith

module _ {D : Type 0} (stod : Text → Option D) where
  parse_tensor_declaration-Reads :
      (f : ℕ) (p : Parser) (ts : List Token)
      → Stream p ts
      → length ts < suc f
      → Reads (Sentence D stod) ts (parse_tensor_declaration f p)
  unfolding parse_tensor_declaration
  parse_tensor_declaration-Reads f p ts s hf =
      consume-Reads (Sentence D stod) kw_tensor (bytes_of "'tensor'") _ p ts s (λ h. cc)
        λ t q1 r1 e1 k1 s1.
          consume-Reads _ identifier (bytes_of "tensor name") _ q1 r1 s1 (λ h. cc)
            λ name q2 r2 e2 k2 s2.
              consume-Reads _ colon (bytes_of "':'") _ q2 r2 s2 (λ h. cc)
                λ c q3 r3 e3 k3 s3.
                  fmap-Reads (parse_tensor_type f) (λ type. tensor_decl name.lexeme type t.location)
                    q3 r3
                    (parse_tensor_type-Reads f q3 r3 s3
                      (omega (arith, ap length e1, ap length e2, ap length e3)))
                    λ us type h. tensor t name c k1 k2 k3 h

  parse_assignment-Reads :
      (f : ℕ) (p : Parser) (ts : List Token)
      → Stream p ts
      → length ts < suc f
      → Reads (Sentence D stod) ts (parse_assignment stod f p)
  unfolding parse_assignment
  parse_assignment-Reads f p ts s hf =
      consume-Reads (Sentence D stod) identifier (bytes_of "assignment target") _ p ts s (λ h. cc)
        λ t q1 r1 e1 k1 s1.
          consume-Reads _ equal (bytes_of "'='") _ q1 r1 s1 (λ h. cc)
            λ q q2 r2 e2 k2 s2.
              fmap-Reads (parse_expression stod f) (λ e. assignment t.lexeme e t.location) q2 r2
                (parse_expression-Reads stod f q2 r2 s2 (omega (arith, ap length e1, ap length e2)))
                λ us e h. assigns t q k1 k2 h

  parse_return_statement-Reads :
      (f : ℕ) (p : Parser) (ts : List Token)
      → Stream p ts
      → length ts < suc f
      → Reads (Sentence D stod) ts (parse_return_statement stod f p)
  unfolding parse_return_statement
  parse_return_statement-Reads f p ts s hf =
      consume-Reads (Sentence D stod) kw_return (bytes_of "'return'") _ p ts s (λ h. cc)
        λ t q1 r1 e1 k1 s1.
          fmap-Reads (parse_expression stod f) (λ e. return_stmt e t.location) q1 r1
            (parse_expression-Reads stod f q1 r1 s1 (omega (arith, ap length e1)))
            λ us e h. returns t k1 h

  -- A method reads sentences in front of fewer than `f` tokens.
  abbrev pub ReadsSentence : ℕ → Parses (Statement D) → Type 0
  ReadsSentence f m =
      (p : Parser) (ts : List Token)
      → Stream p ts
      → length ts < f
      → Reads (Sentence D stod) ts (m p)

  module _ (f : ℕ) (parse_one : Parses (Statement D)) (ih : ReadsSentence f parse_one) where
    block_loop-Reads :
        (g : ℕ) (p : Parser) (ts : List Token)
        → Stream p ts
        → length ts < f
        → length ts < g
        → Reads (Sentences D stod) ts (block_loop stod parse_one g p)
    unfolding block_loop
    block_loop-Reads zero p ts s hf hg = absurd (omega arith)
    block_loop-Reads (suc g) p ts s hf hg = elim (Bool-cases (check p right_brace)) [
      | inl stop ↦
          rw (block_loop, stop) (done-Reads (Sentences D stod) p ts no_statements s none_left)
      | inr go ↦ elim (Bool-cases (check p end_of_file)) [
        | inl at_end ↦ rw (block_loop, go, at_end) (throw-Reads (Sentences D stod) p ts _ s)
        | inr inside ↦
            rw (block_loop, go, inside)
              (bind-Reads (Sentences D stod) parse_one after p ts (ih p ts s hf)
                λ st q used rest e h s'.
                  fmap-Reads (block_loop stod parse_one g) (statement st) q rest
                    (block_loop-Reads g q rest s' (omega (arith, rest-le used rest ts e))
                      (omega (arith, rest-le used rest ts e, Sentence-pos h)))
                    λ us ss k. next h k)
      ]
    ]
      where
        after : Statement D → Parses (Statements D)
        after st = block_loop stod parse_one g >>= λ ss. pure (statement st ss)

    parse_block-Reads :
        (p : Parser) (ts : List Token)
        → Stream p ts
        → length ts < f
        → Reads (Block D stod) ts (parse_block stod parse_one f p)
    unfolding parse_block
    parse_block-Reads p ts s hf =
        consume-Reads (Block D stod) left_brace (bytes_of "'{'") _ p ts s (λ h. cc)
          λ l q1 r1 e1 k1 s1.
            bind-Reads _ (block_loop stod parse_one f) _ q1 r1
              (block_loop-Reads f q1 r1 s1 (omega (arith, ap length e1))
                (omega (arith, ap length e1)))
              λ ss q2 us r2 e2 h s2.
                consume-Reads _ right_brace (bytes_of "'}'") _ q2 r2 s2 (λ h. cc)
                  λ r q3 r3 e3 k3 s3. done-Reads _ q3 r3 ss s3 (braces l r k1 h k3)

    parse_if_statement-Reads :
        (p : Parser) (ts : List Token)
        → Stream p ts
        → length ts < suc f
        → Reads (Sentence D stod) ts (parse_if_statement stod parse_one f p)
    unfolding parse_if_statement
    parse_if_statement-Reads p ts s hf =
        consume-Reads (Sentence D stod) kw_if (bytes_of "'if'") _ p ts s (λ h. cc)
          λ t q1 r1 e1 k1 s1.
            bind-Reads _ (parse_expression stod f) _ q1 r1
              (parse_expression-Reads stod f q1 r1 s1 (omega (arith, ap length e1)))
              λ c q2 u2 r2 e2 h2 s2.
                let l2 : length r2 < f = omega (arith, ap length e1, rest-le u2 r2 r1 e2) in
                bind-Reads _ (parse_block stod parse_one f) _ q2 r2 (parse_block-Reads q2 r2 s2 l2)
                  λ ss q3 u3 r3 e3 h3 s3.
                    consume-Reads _ kw_else (bytes_of "'else'") _ q3 r3 s3 (λ h. cc)
                      λ k q4 r4 e4 k4 s4.
                        fmap-Reads (parse_block stod parse_one f) (λ os. if_stmt c ss os t.location)
                          q4 r4
                          (parse_block-Reads q4 r4 s4
                            (omega (arith, rest-le u3 r3 r2 e3, ap length e4)))
                          λ us os h. conditional t k k1 h2 h3 k4 h

    statement_of-Reads :
        (k : TokenKind) (p : Parser) (ts : List Token)
        → Stream p ts
        → length ts < suc f
        → Reads (Sentence D stod) ts (statement_of stod k parse_one f p)
    unfolding statement_of
    statement_of-Reads kw_tensor p ts s hf = parse_tensor_declaration-Reads f p ts s hf
    statement_of-Reads kw_return p ts s hf = parse_return_statement-Reads f p ts s hf
    statement_of-Reads kw_if p ts s hf = parse_if_statement-Reads p ts s hf
    statement_of-Reads identifier p ts s hf = parse_assignment-Reads f p ts s hf
    statement_of-Reads unknown p ts s hf = throw-Reads (Sentence D stod) p ts _ s
    statement_of-Reads _ p ts s hf = throw-Reads (Sentence D stod) p ts _ s

  pub parse_statement-Reads : (f : ℕ) → ReadsSentence f (parse_statement stod f)
  unfolding parse_statement
  parse_statement-Reads zero p ts s hf = absurd (omega arith)
  parse_statement-Reads (suc f) p ts s hf =
      statement_of-Reads f (parse_statement stod f) (parse_statement-Reads f) p.current.kind p ts s
        hf
