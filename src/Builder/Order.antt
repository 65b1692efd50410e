-- ===== src/Builder/Order.antt =====
-- The order of instructions in llvmlite/ir/builder.py: calls in a row put their instructions in a
-- row, wherever in the block the builder stands.
use llvmlite.Prelude.{
  length-append, ap₂, append-nil, ℕ, suc, ◌≡◌, refl, ◌∙◌, ap, false, List, [], ◌∷◌, ◌++◌,
  append_assoc, map, length, insert_at, ◌==◌, Option, none, some, arith,
}
use llvmlite.Result.{Result, ok, err}
use llvmlite.Exec.{resume, Exec, pure, ◌>>=◌}
use llvmlite.Instructions.{Instr, Draft}
use llvmlite.Builder.{State, Block, find_block, current_block, with_debug, put_at}
use llvmlite.Builder.Ops.{emit}
use llvmlite.Builder.Blocks.{changed-other, find_block-update_block}
use llvmlite.Builder.Steps.{
  made, emit_lem, placed_as, inserted, named, current_block-update, current_block-named,
}

-- Several instructions in a row.
unfoldable pub emit_all : List Draft → Exec State (List Instr)
emit_all [] = pure []
emit_all (d ∷ ds) = emit d >>= λ instr. emit_all ds >>= λ instrs. pure (instr ∷ instrs)

-- What a run of `emit_all` gives in a block that held `before` and `after` around the anchor.
pub record Emitted (ds : List Draft) (s : State) (b : Block) (before after : List Instr)
    (out : Result (List Instr) × State) : Type 0 where
  pub new : List Instr
  pub result : out.0 ≡ ok new
  pub filled : current_block out.1 ≡ some (record b { instructions = before ++ (new ++ after) })
  pub anchor : out.1.anchor ≡ length (before ++ new)
  pub opnames : map (λ (x : Instr). x.opname) new ≡ map (λ (d : Draft). d.opname) ds
  pub others : (j : ℕ) → (b.ident == j) ≡ false → find_block j out.1.blocks ≡ find_block j s.blocks

insert_at-append :
    (x : Instr) (before after : List Instr)
    → insert_at (length before) x (before ++ after) ≡ before ++ (x ∷ after)
insert_at-append x [] [] = refl
insert_at-append x [] (y ∷ after) = refl
insert_at-append x (y ∷ before) after = ap (λ l. y ∷ l) (insert_at-append x before after)

with_debug-opname : (md : Option _) (instr : Instr) → (with_debug md instr).opname ≡ instr.opname
unfolding with_debug
with_debug-opname none instr = refl
with_debug-opname (some md) instr = ground arith

-- The first of the instructions, in front of the others.
emitted_cons :
    (d : Draft) (ds : List Draft) (s : State) (b : Block) (before after : List Instr)
    (out : Result (List Instr) × State)
    → Emitted ds
        (inserted (placed_as d b s) b (named d.name s))
        (put_at s.anchor (placed_as d b s) b)
        (before ++ placed_as d b s ∷ [])
        after
        out
    → Emitted (d ∷ ds) s b before after (resume out (λ instrs. pure (placed_as d b s ∷ instrs)))
emitted_cons d ds s b before after (err e, s2) ih = cc (ih.result)
emitted_cons d ds s b before after (ok instrs, s2) ih = record {
  new = placed_as d b s ∷ ih.new;
  result = cc (ih.result);
  filled = rw (← append_assoc before (placed_as d b s ∷ []) (ih.new ++ after)) ih.filled;
  anchor = rw (← append_assoc before (placed_as d b s ∷ []) ih.new) ih.anchor;
  opnames = ap₂ ◌∷◌ (with_debug-opname s.debug_metadata (made d b s)) ih.opnames;
  others = λ j h.
      ih.others j h
      ∙ find_block-update_block b.ident (put_at s.anchor (placed_as d b s)) j s.blocks (λ c. refl)
      ∙ changed-other b.ident (put_at s.anchor (placed_as d b s)) j (find_block j s.blocks) h;
}

-- Instructions that are emitted one after the other stand one after the other, between what stood
-- before the builder's position and what stood behind it, with the operations they were asked for;
-- the builder then stands behind the last, and no other block has changed.
pub emit_all_order :
    (ds : List Draft) (s : State) (b : Block) (before after : List Instr)
    → current_block s ≡ some b
    → b.instructions ≡ before ++ after
    → s.anchor ≡ length before
    → Emitted ds s b before after (emit_all ds s)
unfolding emit_all
emit_all_order [] s b before after cur split at_end = record {
  new = [];
  result = refl;
  filled = cur ∙ ap (λ l. some (record b { instructions = l })) split;
  anchor = rw append-nil at_end;
  opnames = refl;
  others = λ j h. refl;
}
emit_all_order (d ∷ ds) s b before after cur split at_end =
    let x = placed_as d b s in
    let s' = inserted x b (named d.name s) in
    simp (emit_lem d s cur) (
      emitted_cons d ds s b before after (emit_all ds s') (
        emit_all_order ds s' (put_at s.anchor x b) (before ++ x ∷ []) after
          (current_block-update (named d.name s) b (put_at s.anchor x) (suc s.anchor)
            (current_block-named d.name s cur) (λ c. refl))
          (split_at x) (omega (arith, at_end, length-append before (x ∷ [])))))
  where
    split_at : (x : Instr) → insert_at s.anchor x b.instructions ≡ (before ++ x ∷ []) ++ after
    split_at x =
        rw (at_end, split, append_assoc before (x ∷ []) after) (insert_at-append x before after)
