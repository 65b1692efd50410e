-- ===== src/Builder/Undo.antt =====
-- `remove` of llvmlite/ir/builder.py against the insertion of an instruction.
use llvmlite.Prelude.{
  ap₂, ℕ, zero, suc, ◌≤◌, ◌-◌, ◌≡◌, refl, ◌∙◌, ap, true, false, List, [], ◌∷◌, length, insert_at,
  erase_at-insert_at, ltb, ◌==◌, if◌then◌else◌, Option, none, some, arith, Bool-cases, inl, inr,
}
use llvmlite.Result.{Result, ok}
use llvmlite.Exec.{◌>>=◌, resume}
use llvmlite.Instructions.{Instr, Draft}
use llvmlite.Builder.{
  State, Block, current_block, update_block, put_at, dropped, is_term, index_of, remove, remove_at,
}
use llvmlite.Builder.Ops.{emit}
use llvmlite.Builder.Blocks.{has_instr}
use llvmlite.Builder.Steps.{
  placed_as, named, inserted, made, emit_lem, get_current_lem, current_block-update,
  current_block-named, with_debug-ident,
}
use llvmlite.Builder.WellFormed.{IsWellFormed, in_bounds, still_ended}

index_of-insert_at :
    (k : ℕ) (x : Instr) (xs : List Instr)
    → has_instr x.ident xs ≡ false
    → k ≤ length xs
    → index_of x.ident (insert_at k x xs) ≡ some k
unfolding index_of has_instr
index_of-insert_at zero x [] h low = ground arith
index_of-insert_at (suc k) x [] h low = absurd (omega arith)
index_of-insert_at zero x (y ∷ xs) h low = ground arith
index_of-insert_at (suc k) x (y ∷ xs) h low = ground (arith, h, low, index_of-insert_at k x xs)

not_terminator :
    (o : Option ℕ) (i : ℕ) (xs : List Instr)
    → has_instr i xs ≡ false
    → ((t : ℕ) → o ≡ some t → has_instr t xs ≡ true)
    → (if is_term o i then none else o) ≡ o
not_terminator none i xs h k = refl
not_terminator (some t) i xs h k = elim (Bool-cases (t == i)) [
  | inl e ↦ let same : t ≡ i = ground (arith, e) in cc (k t refl, h, same)
  | inr e ↦ rw e refl
]

remove_lem :
    (instr : Instr) (s : State) {b : Block}
    → current_block s ≡ some b
    → remove instr s ≡ remove_at b instr.ident (index_of instr.ident b.instructions) s
unfolding remove
remove_lem instr s cur =
    ap
      (λ (x : Result Block × State).
        resume x (λ c. remove_at c instr.ident (index_of instr.ident c.instructions)))
      (get_current_lem s cur)

-- The state behind the removal.
abbrev undone : Draft → State → Block → State
undone d s b = record (inserted (placed_as d b s) b (named d.name s)) {
  blocks =
      update_block b.ident (dropped s.anchor (placed_as d b s).ident)
        (inserted (placed_as d b s) b (named d.name s)).blocks;
  anchor = if ltb s.anchor (suc s.anchor) then suc s.anchor - 1 else suc s.anchor;
}

module _ (d : Draft) (s : State) (b : Block) (w : IsWellFormed s) (cur : current_block s ≡ some b)
    (absent : has_instr s.next b.instructions ≡ false) where
  emitted_block :
      current_block (inserted (placed_as d b s) b (named d.name s))
      ≡ some (put_at s.anchor (placed_as d b s) b)
  emitted_block =
      current_block-update (named d.name s) b (put_at s.anchor (placed_as d b s)) (suc s.anchor)
        (current_block-named d.name s cur) (λ c. refl)

  absent_here : has_instr (placed_as d b s).ident b.instructions ≡ false
  absent_here =
      ap (λ i. has_instr i b.instructions) (with_debug-ident s.debug_metadata (made d b s)) ∙ absent

  at_anchor :
      index_of (placed_as d b s).ident (insert_at s.anchor (placed_as d b s) b.instructions)
      ≡ some s.anchor
  at_anchor =
      index_of-insert_at s.anchor (placed_as d b s) b.instructions absent_here (in_bounds s b w cur)

  undo_run : (emit d >>= remove) s ≡ (ok tt, undone d s b)
  unfolding remove_at
  undo_run =
      ap (λ (p : Result Instr × State). resume p remove) (emit_lem d s cur)
      ∙ remove_lem (placed_as d b s) (inserted (placed_as d b s) b (named d.name s)) emitted_block
      ∙ ap
          (λ o.
            remove_at (put_at s.anchor (placed_as d b s) b) (placed_as d b s).ident o
              (inserted (placed_as d b s) b (named d.name s)))
          at_anchor

  undone_block : dropped s.anchor (placed_as d b s).ident (put_at s.anchor (placed_as d b s) b) ≡ b
  undone_block =
      ap₂ (λ l t. record b { instructions = l; terminator = t })
        (erase_at-insert_at s.anchor (placed_as d b s) b.instructions (in_bounds s b w cur))
        (not_terminator b.terminator (placed_as d b s).ident b.instructions absent_here
          (λ t e. still_ended s b t w cur e))

-- Removing the instruction that was just emitted takes the block and the position back to what they
-- were, if no instruction of the block has the number of the next object yet.
pub remove-emit :
    (d : Draft) (s : State) (b : Block)
    → IsWellFormed s
    → current_block s ≡ some b
    → has_instr s.next b.instructions ≡ false
    → (((emit d >>= remove) s).0 ≡ ok tt)
      × (current_block ((emit d >>= remove) s).1 ≡ some b)
      × (((emit d >>= remove) s).1.anchor ≡ s.anchor)
remove-emit d s b w cur absent = rw (undo_run d s b w cur absent) (
  refl,
  current_block-update (inserted (placed_as d b s) b (named d.name s))
        (put_at s.anchor (placed_as d b s) b) (dropped s.anchor (placed_as d b s).ident)
        (if ltb s.anchor (suc s.anchor) then suc s.anchor - 1 else suc s.anchor)
        (emitted_block d s b w cur absent) (λ c. refl)
      ∙ ap some (undone_block d s b w cur absent),
  ground arith,
)
