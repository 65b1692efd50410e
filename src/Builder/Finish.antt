-- ===== src/Builder/Finish.antt =====
-- The end of a block in llvmlite/ir/builder.py: what `_set_terminator` does to an open block, and
-- what it refuses.
use llvmlite.Prelude.{
  ℕ, ◌≡◌, refl, ◌∙◌, true, false, List, insert_at, ◌==◌, Option, none, some, arith,
}
use llvmlite.Result.{Result, ok, err, assertion_error}
use llvmlite.Values.{Value}
use llvmlite.Instructions.{Instr, Draft}
use llvmlite.Builder.{
  State, Block, find_block, update_block, current_block, with_debug, put_at, ended_by,
  is_terminated, set_terminator,
}
use llvmlite.Builder.Ops.{finish}
use llvmlite.Builder.Blocks.{find_block-update_block, changed, changed-other}
use llvmlite.Builder.Steps.{
  current_block-ident, create_lem, finish_lem, get_current_lem, placed_as, made, named,
  current_block-named,
}

-- A terminator at the builder's position of an open block.
pub record Finished (d : Draft) (s : State) (b : Block) (out : Result Instr × State) : Type 0 where
  pub term : Instr
  pub result : out.0 ≡ ok term
  pub opname : term.opname ≡ d.opname
  pub operands : term.operands ≡ d.operands
  pub ended :
      find_block b.ident out.1.blocks
      ≡ some (record b {
        instructions = insert_at s.anchor term b.instructions;
        terminator = some term.ident;
      })
  pub others : (j : ℕ) → (b.ident == j) ≡ false → find_block j out.1.blocks ≡ find_block j s.blocks

pub with_debug-operands :
    (md : Option Value) (instr : Instr) → (with_debug md instr).operands ≡ instr.operands
unfolding with_debug
with_debug-operands none instr = refl
with_debug-operands (some md) instr = ground arith

with_debug-opname :
    (md : Option Value) (instr : Instr) → (with_debug md instr).opname ≡ instr.opname
unfolding with_debug
with_debug-opname none instr = refl
with_debug-opname (some md) instr = ground arith

changed-same :
    (i : ℕ) (f : Block → Block) (o : Option Block) {b : Block}
    → o ≡ some b
    → changed i f i o ≡ some (f b)
unfolding changed
changed-same i f o h = simp h (ground arith)

twice_same :
    (i : ℕ) (f g : Block → Block) (bs : List Block) {b : Block}
    → ((c : Block) → (f c).ident ≡ c.ident)
    → ((c : Block) → (g c).ident ≡ c.ident)
    → find_block i bs ≡ some b
    → find_block i (update_block i g (update_block i f bs)) ≡ some (g (f b))
twice_same i f g bs hf hg found =
    find_block-update_block i g i (update_block i f bs) hg
    ∙ changed-same i g (find_block i (update_block i f bs))
        (find_block-update_block i f i bs hf ∙ changed-same i f (find_block i bs) found)

twice_other :
    (i j : ℕ) (f g : Block → Block) (bs : List Block)
    → ((c : Block) → (f c).ident ≡ c.ident)
    → ((c : Block) → (g c).ident ≡ c.ident)
    → (i == j) ≡ false
    → find_block j (update_block i g (update_block i f bs)) ≡ find_block j bs
twice_other i j f g bs hf hg d =
    find_block-update_block i g j (update_block i f bs) hg
    ∙ changed-other i g j (find_block j (update_block i f bs)) d
    ∙ find_block-update_block i f j bs hf
    ∙ changed-other i f j (find_block j bs) d

-- An open block is ended: its terminator stands at the builder's position, and no other block has
-- changed.
pub finish_open :
    (d : Draft) (s : State) (b : Block)
    → current_block s ≡ some b
    → b.terminator ≡ none
    → Finished d s b (finish d s)
finish_open d s b cur open_end =
    let x = placed_as d b s in
    let (c, found) = current_block-ident s cur in
    simp (finish_lem d s cur open_end) (record {
      term = x;
      result = refl;
      opname = with_debug-opname s.debug_metadata (made d b s);
      operands = with_debug-operands s.debug_metadata (made d b s);
      ended =
          twice_same b.ident (put_at s.anchor x) (ended_by x.ident) s.blocks (λ c. refl) (λ c. refl)
            found;
      others = λ j h.
          twice_other b.ident j (put_at s.anchor x) (ended_by x.ident) s.blocks (λ c. refl)
            (λ c. refl) h;
    })

-- A second terminator is refused, and the blocks stay as they are; but the name that its
-- construction has taken stays taken, and its number too.
pub finish_ended :
    (d : Draft) (s : State) (b : Block)
    → current_block s ≡ some b
    → is_terminated b ≡ true
    → finish d s ≡ (err assertion_error, named d.name s)
unfolding set_terminator
finish_ended d s b cur done =
    simp (create_lem d s cur)
      (simp (get_current_lem (named d.name s) (current_block-named d.name s cur)) (rw done refl))
