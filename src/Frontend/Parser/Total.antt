-- ===== src/Frontend/Parser/Total.antt =====
-- Parsing a whole source, as src/main.cpp does: the tokens that the lexer gives are a program of
-- the grammar, or the error is at one of them.
use ocelotl_tensor.Base.{
  ℕ, zero, suc, ◌+◌, ◌<◌, ◌≤◌, ◌≡◌, refl, sym, ap, ◌∙◌, subst, true, List, [], ◌∷◌, ◌++◌, Option,
  some, Text, arith, length, length-append, Bool-cases, Option-cases, inl, inr,
}
use ocelotl_tensor.Base.Results
use ocelotl_tensor.Base.Results.{Result, ok, err, Post, value, error, >>=-eq-ok}
use ocelotl_tensor.Frontend.Token.{kind_eq, kind_eq→eq, kind_eq_refl, Token, end_of_file}
use ocelotl_tensor.Frontend.Lexer.{Lexer, lexer_of, next_token}
use ocelotl_tensor.Frontend.Lexer.Tokens.{tokens, tokens-source, Covers, finish, token}
use ocelotl_tensor.Frontend.Ast.{Statement, Statements, no_statements, statement, Program}
use ocelotl_tensor.Frontend.Parser.Monad.{
  Parser, Failure, Parses, pure, ◌>>=◌, parser_at, advance, check,
}
use ocelotl_tensor.Frontend.Parser.{parse_statement, program_loop, parse_program}
use ocelotl_tensor.Frontend.Parser.Stream.{
  Stream, last, more, Reads, PointsInto, check→eq, done-Reads, bind-Reads, fmap-Reads,
}
use ocelotl_tensor.Frontend.Parser.Grammar.{Sentences, none_left, next}
use ocelotl_tensor.Frontend.Parser.SoundLoops.{rest-le}
use ocelotl_tensor.Frontend.Parser.SoundStatements.{
  Sentence-pos, ReadsSentence, parse_statement-Reads,
}

-- What a caller of `nextToken` sees is what the parser has before it.
tokens→Stream :
    (fuel : ℕ) (l : Lexer) (ts : List Token) → tokens fuel l ≡ some ts → Stream (parser_at l) ts
unfolding tokens parser_at advance
tokens→Stream zero l ts h = cc
tokens→Stream (suc fuel) l ts h = elim (Bool-cases (kind_eq (next_token l).0.kind end_of_file)) [
  | inl stop ↦
      let h' = rw (tokens, stop) at h in
      subst (λ us. Stream (parser_at l) us) (cc h')
        (last (parser_at l) (kind_eq→eq (next_token l).0.kind end_of_file stop))
  | inr go ↦ elim (Option-cases (tokens fuel (next_token l).1)) [
    | inl dry ↦ let h' = rw (tokens, go, dry) at h in cc h'
    | inr (us, run) ↦
        let h' = rw (tokens, go, run) at h in
        subst (λ us. Stream (parser_at l) us) (cc h')
          (more (parser_at l) (λ e. cc (kind_eq_refl end_of_file, go, e))
            (tokens→Stream fuel (next_token l).1 us run))
  ]
]

Covers-length :
    {pre rest : Text} {ts : List Token} → Covers pre rest ts → length ts ≤ length rest + 1
Covers-length (finish pre rest h) = omega arith
Covers-length (token pre gap after t {rest = rest} sp e ne pos loc c) = omega (
  arith,
  ap length e,
  length-append gap (t.lexeme ++ after),
  length-append t.lexeme after,
  Covers-length c,
)

module _ {D : Type 0} (stod : Text → Option D) where
  program_loop-Reads :
      (f : ℕ) (parse_one : Parses (Statement D))
      → ReadsSentence stod f parse_one
      → (g : ℕ) (p : Parser) (ts : List Token) → Stream p ts
      → length ts < f
      → length ts < g
      → Reads (Sentences D stod) ts (program_loop stod parse_one g p)
  unfolding program_loop
  program_loop-Reads f parse_one ih zero p ts s hf hg = absurd (omega arith)
  program_loop-Reads f parse_one ih (suc g) p ts s hf hg = elim (Bool-cases (check p end_of_file)) [
    | inl stop ↦
        rw (program_loop, stop) (done-Reads (Sentences D stod) p ts no_statements s none_left)
    | inr go ↦
        rw (program_loop, go)
          (bind-Reads (Sentences D stod) parse_one after p ts (ih p ts s hf)
            λ st q used rest e h s'.
              fmap-Reads (program_loop stod parse_one g) (statement st) q rest
                (program_loop-Reads f parse_one ih g q rest s'
                  (omega (arith, rest-le used rest ts e))
                  (omega (arith, rest-le used rest ts e, Sentence-pos h)))
                λ us ss k. next h k)
  ]
    where
      after : Statement D → Parses (Statements D)
      after st = program_loop stod parse_one g >>= λ ss. pure (statement st ss)

  -- The loop ends at the end of the file alone.
  program_loop-end :
      (parse_one : Parses (Statement D)) (g : ℕ) (p q : Parser) (ss : Statements D)
      → program_loop stod parse_one g p ≡ ok (ss, q)
      → check q end_of_file ≡ true
  unfolding program_loop
  program_loop-end parse_one zero p q ss h = cc
  program_loop-end parse_one (suc g) p q ss h = elim (Bool-cases (check p end_of_file)) [
    | inl stop ↦ let h' = rw (program_loop, stop) at h in let e : p ≡ q = cc h' in rw (← e) stop
    | inr go ↦
        let h' = rw (program_loop, go) at h in
        let ((st, p1), h1, e1) = >>=-eq-ok (parse_one p) _ h' in
        let ((us, p2), h2, e2) = >>=-eq-ok (program_loop stod parse_one g p1) _ h1 in
        program_loop-end parse_one g p1 q us (cc (e2, h2))
  ]

  -- `Parser parser{source}; parser.parseProgram()`, with a unit of fuel for each byte and two more.
  unfoldable pub parse_source : Text → Result Failure (Program D)
  unfolding parse_program
  parse_source source =
      Results.◌>>=◌ (parse_program stod (length source + 2) (parser_at (lexer_of source)))
        λ (program, _). ok program

  -- The tokens of the program and the end of the file.
  abbrev pub IsProgram : List Token → Program D → Type 0
  IsProgram ts program =
      (used : List Token) × (t : Token) × (used ++ t ∷ [] ≡ ts)
      × (t.kind ≡ end_of_file)
      × Sentences D stod used program.statements

  parse_program-Reads :
      (f : ℕ) (p : Parser) (ts : List Token)
      → Stream p ts
      → length ts < f
      → Reads (λ us x. Sentences D stod us x.statements) ts (parse_program stod f p)
  unfolding parse_program
  parse_program-Reads f p ts s h =
      fmap-Reads (program_loop stod (parse_statement stod f) f) (λ ss. record { statements = ss }) p
        ts
        (program_loop-Reads f (parse_statement stod f) (parse_statement-Reads stod f) f p ts s h h)
        λ us ss k. k

  parse_program-end :
      (f : ℕ) (p q : Parser) (x : Program D)
      → parse_program stod f p ≡ ok (x, q)
      → check q end_of_file ≡ true
  unfolding parse_program
  parse_program-end f p q x h =
      let ((ss, p1), h1, e1) = >>=-eq-ok (program_loop stod (parse_statement stod f) f p) _ h in
      program_loop-end (parse_statement stod f) f p q ss (cc (e1, h1))

  -- A stream whose current token is the end of the file holds nothing else.
  Stream-end :
      (p : Parser) (ts : List Token)
      → Stream p ts
      → p.current.kind ≡ end_of_file
      → ts ≡ p.current ∷ []
  Stream-end p ts (last _ h) e = refl
  Stream-end p ts (more _ ne s) e = absurd (ne e)

  pub parse_source_sound :
      (source : Text)
      → (ts : List Token) × Covers [] source ts
        × Post (IsProgram ts) (PointsInto ts) (parse_source source)
  unfolding parse_source
  parse_source_sound source =
      let (ts, run, cov) = tokens-source source in
      let s = tokens→Stream (length source + 1) (lexer_of source) ts run in
      (
        ts,
        cov,
        finish_run ts (parse_program stod (length source + 2) (parser_at (lexer_of source)))
            (parse_program-Reads (length source + 2) (parser_at (lexer_of source)) ts s
              (omega (arith, Covers-length cov)))
            (parse_program-end (length source + 2) (parser_at (lexer_of source))),
      )
    where
      finish_run :
          (ts : List Token) (r : Result Failure (Program D × Parser))
          → Reads (λ us x. Sentences D stod us x.statements) ts r
          → ((q : Parser) (x : Program D) → r ≡ ok (x, q) → check q end_of_file ≡ true)
          → Post (IsProgram ts) (PointsInto ts) (Results.◌>>=◌ r (λ (x, _). ok x))
      finish_run ts _ (value {a = (x, q)} t) at_end =
          let is_end = check→eq q end_of_file (at_end q x refl) in
          value (
            t.used,
            q.current,
            ap (λ us. t.used ++ us) (sym (Stream-end q t.rest t.stream is_end)) ∙ t.split,
            is_end,
            t.holds,
          )
      finish_run ts _ (error e) at_end = error e
