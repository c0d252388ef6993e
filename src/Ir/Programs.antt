-- ===== src/Ir/Programs.antt =====
-- Whole programs in src/ir/IRGenerator.cpp: the numbering of what they generate, and the errors that
-- they cannot run into.
use ocelotl_tensor.Base.{
  ℕ, ◌<◌, ◌≡◌, inl, inr, refl, Option, none, some, arith, if◌then◌else◌, ltb, Bool-cases,
  Option-cases,
}
use ocelotl_tensor.Base.Maps.{find, is_some, Iteration}
use ocelotl_tensor.Base.Results.{
  ok, err, Post, value, error, Post-bind, Post-map, Post-ok, Post-err,
}
use ocelotl_tensor.Frontend.Ast.{
  Statement, tensor_decl, assignment, return_stmt, if_stmt, Statements, no_statements, statement,
  Program,
}
use ocelotl_tensor.Semantic.Symbols.{SymbolTable}
use ocelotl_tensor.Ir.Module.{BasicBlock, Module}
use ocelotl_tensor.Ir.Generator.{
  GenerationError, path_without_return, verification, Generated, IrGenerator, create_block,
}
use ocelotl_tensor.Ir.Generator.ControlFlow.{
  generate_statement, generate_branch, generate_statements, entered, require_return,
  require_verified, generate,
}
use ocelotl_tensor.Ir.Blocks.{get_elem?-lt, definitions_of, PlacedFrom}
use ocelotl_tensor.Ir.Generation.{
  Sound, Grown, Grown-refl, Grown-trans, Numbered-with, At-Sound, Sound-Emitted, Grown-Emitted,
  Sound-assign, generate_tensor_declaration-Grown, generate_return-Grown,
}
use ocelotl_tensor.Ir.Numbering.{IsFound, At-Emitted, generate_expression-Emitted}
use ocelotl_tensor.Ir.Verifier.{verify, Verified}
use ocelotl_tensor.Ir.Branches.{open_branches-Opened, join_branches-Grown}

-- The end of a path, where a loop over statements stops.
current-Post :
    {A : Type 0} {P : A → Type 0} {m n : Generated A} (current : Option ℕ)
    → Post P IsFound m
    → ((id : ℕ) → current ≡ some id → Post P IsFound n)
    → Post P IsFound (elim current [ none ↦ m | some _ ↦ n ])
current-Post none h k = h
current-Post (some id) h k = k id refl

verified-Post :
    (r : Verified Unit)
    → Post {0} (λ _. Unit) IsFound (elim r [ err e ↦ err (verification e) | ok _ ↦ ok tt ])
verified-Post (ok u) = value tt
verified-Post (err e) = error (cc, cc)

module _ {D : Type 0} where
  -- The generator at the second branch, behind the first.
  Sound-second :
      (o : IrGenerator D × ℕ) (t : IrGenerator D)
      → Sound o.0
      → o.1 < o.0.next_block_id
      → Grown o.0 t
      → Sound (record t { current_block_id = some o.1; values = o.0.values })
  Sound-second o t s l k = record {
    numbered = Numbered-with t (some o.1) o.0.values k.sound.numbered;
    bounded = λ n v h. omega (arith, s.bounded n v h, k.values);
    distinct = s.distinct;
    active = λ id h. (let same : o.1 ≡ id = cc h in omega (arith, same, l, k.blocks));
  }

  pub entered-Sound : Sound (entered {D = D})
  unfolding entered create_block definitions_of PlacedFrom
  entered-Sound = record {
    numbered = record { placed = (refl, tt); counted = omega arith; single = λ v. ground arith };
    bounded = λ k v h. unfold find in cc h;
    distinct = tt;
    active = λ id h. (let same : 0 ≡ id = cc h in omega (arith, same));
  }

  require_return-IsFound :
      (g : IrGenerator D) → Sound g → Post (λ _. Unit) IsFound (require_return g)
  unfolding require_return
  require_return-IsFound g w = elim (Option-cases g.current_block_id) [
    | inl left ↦ simp (require_return, left) (value tt)
    | inr (id, c) ↦
        let (b, e) =
          get_elem?-lt g.ir.blocks id (omega (arith, w.active id c, w.numbered.counted)) in
        simp (require_return, c, e) (ended b)
  ]
    where
      ended :
          (b : BasicBlock D)
          → Post {0}
              (λ _. Unit)
              IsFound
              (if is_some b.terminator then ok tt else err path_without_return)
      ended b = elim (Bool-cases (is_some b.terminator)) [
        | inl t ↦ rw t (value tt)
        | inr f ↦ rw f (error (cc, cc))
      ]

  require_verified-IsFound : (m : Module D) → Post (λ _. Unit) IsFound (require_verified m)
  require_verified-IsFound m = verified-Post (verify m)

  -- The blocks of a module are numbered by position, and its values by counting: those below some
  -- bound have one definition each, and there are no others.
  pub record IsNumbered (m : Module D) : Type 0 where
    pub placed : PlacedFrom 0 m.blocks
    pub bound : ℕ
    pub single : (v : ℕ) → definitions_of v m.blocks ≡ (if ltb v bound then 1 else 0)

module _ (order : Iteration) (symbols : SymbolTable) {D : Type 0} where
  mutual
    unfolding generate_statement

    generate_statement-Grown :
        (g : IrGenerator D) (s : Statement D) (id : ℕ)
        → Sound g
        → g.current_block_id ≡ some id
        → Post (Grown g) IsFound (generate_statement order symbols g s)
    generate_statement-Grown g (tensor_decl name _ _) id w c =
        generate_tensor_declaration-Grown symbols id g name w (At-Sound id g w c)
    generate_statement-Grown g (assignment target e _) id w c =
        Post-bind (generate_expression-Emitted id g e w.numbered w.bounded (At-Sound id g w c))
          λ v ev. value (record {
            sound = Sound-assign target v.0 v.1 ev.value_is (Sound-Emitted g v w ev);
            values = ev.more;
            blocks = omega (arith, ev.blocks);
          })
    generate_statement-Grown g (return_stmt e _) id w c =
        Post-bind (generate_expression-Emitted id g e w.numbered w.bounded (At-Sound id g w c))
          λ v ev.
            Post-map (λ h k. Grown-trans g v.1 h (Grown-Emitted g v w ev) k)
              (generate_return-Grown v.0 id v.1 (Sound-Emitted g v w ev)
                (At-Emitted id g v (At-Sound id g w c) ev))
    generate_statement-Grown g (if_stmt e ts us _) id w c =
        Post-bind (generate_expression-Emitted id g e w.numbered w.bounded (At-Sound id g w c))
          λ v ev.
            Post-bind
              (open_branches-Opened v.0 id v.1 (Sound-Emitted g v w ev)
                (At-Emitted id g v (At-Sound id g w c) ev))
              λ o opened. Post-bind (generate_branch-Grown o.0 ts opened.grown.sound) λ t gt.
                Post-bind
                  (generate_branch-Grown
                    (record t { current_block_id = some o.1; values = o.0.values }) us
                    (Sound-second o t opened.grown.sound opened.second gt))
                  λ x gx.
                    Post-map
                      (λ h k. Grown-trans g v.1 h (Grown-Emitted g v w ev) (
                        Grown-trans v.1 o.0 h opened.grown (record {
                          sound = k.sound;
                          values = omega (arith, gt.values, gx.values, k.values);
                          blocks = omega (arith, gt.blocks, gx.blocks, k.blocks);
                        })))
                      (join_branches-Grown order o.0.values t.values t.current_block_id x gx.sound
                        (λ k u h.
                          omega (arith, opened.grown.sound.bounded k u h, gt.values, gx.values))
                        opened.grown.sound.distinct
                        (λ k u h. omega (arith, gt.sound.bounded k u h, gx.values))
                        gt.sound.distinct)

    generate_branch-Grown :
        (g : IrGenerator D) (ss : Statements D)
        → Sound g
        → Post (Grown g) IsFound (generate_branch order symbols g ss)
    generate_branch-Grown g no_statements w = value (Grown-refl g w)
    generate_branch-Grown g (statement s ss) w =
        current-Post g.current_block_id (value (Grown-refl g w)) λ id c.
          Post-bind (generate_statement-Grown g s id w c)
            λ h k. Post-map (λ x l. Grown-trans g h x k l) (generate_branch-Grown h ss k.sound)

  pub generate_statements-Grown :
      (g : IrGenerator D) (ss : Statements D)
      → Sound g
      → Post (Grown g) IsFound (generate_statements order symbols g ss)
  unfolding generate_statements
  generate_statements-Grown g no_statements w = value (Grown-refl g w)
  generate_statements-Grown g (statement s ss) w =
      current-Post g.current_block_id (error (cc, cc)) λ id c.
        Post-bind (generate_statement-Grown g s id w c)
          λ h k. Post-map (λ x l. Grown-trans g h x k l) (generate_statements-Grown h ss k.sound)

  generate-Post : (program : Program D) → Post IsNumbered IsFound (generate order symbols program)
  unfolding generate
  generate-Post program =
      Post-bind (generate_statements-Grown entered program.statements entered-Sound) λ g k.
        Post-bind (require_return-IsFound g k.sound) λ _ _.
          Post-bind (require_verified-IsFound g.ir) λ _ _. value (record {
            placed = k.sound.numbered.placed;
            bound = g.next_value_id;
            single = k.sound.numbered.single;
          })

  -- In a module that the generator returns, the block at each position has that position as its id,
  -- and the values below some bound have one definition each, and no others are defined.
  pub generate-IsNumbered :
      (program : Program D) (m : Module D) → generate order symbols program ≡ ok m → IsNumbered m
  generate-IsNumbered program m = Post-ok (generate-Post program)

  -- Whatever the program, the generator never fails because no block is current, or because the
  -- current block's id is out of range.
  pub generate-IsFound :
      (program : Program D) (e : GenerationError)
      → generate order symbols program ≡ err e
      → IsFound e
  generate-IsFound program e = Post-err (generate-Post program)
