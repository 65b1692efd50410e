-- ===== src/Builder/Goto.antt =====
-- `goto_block` of llvmlite/ir/builder.py: where its body runs, and where the builder stands after it.
use llvmlite.Prelude.{sym, ℕ, ◌≡◌, refl, ap, ◌∙◌, length, Option, none, some, arith}
use llvmlite.Result.{ok}
use llvmlite.Exec.{resume, Exec}
use llvmlite.Builder.{need, State, Block, find_block, index_of, position_at, position_at_end}
use llvmlite.Builder.Blocks.{has_instr-index_of}
use llvmlite.Builder.Control.{goto_block, return_to, keep, enter_at}
use llvmlite.Builder.WellFormed.{IsWellFormed}

-- A builder at this index of a block.
abbrev pub stood : ℕ → ℕ → State → State
stood i p s = record s { current = some i; anchor = p }

-- The end of a block, but in front of its terminator.
pub record IsFront (b : Block) (p : ℕ) : Type 0 where
  pub at_end : b.terminator ≡ none → p ≡ length b.instructions
  pub at_terminator : (t : ℕ) → b.terminator ≡ some t → index_of t b.instructions ≡ some p

-- The index of that place.
abbrev place : Option ℕ → ℕ
place none = 0
place (some k) = k

abbrev front_of : Option ℕ → Block → ℕ
front_of none b = length b.instructions
front_of (some t) b = place (index_of t b.instructions)

abbrev pub front : Block → ℕ
front b = front_of b.terminator b

end_run :
    (i : ℕ) (b : Block) (s : State)
    → find_block i s.blocks ≡ some b
    → position_at_end i s ≡ (ok tt, stood i (length b.instructions) s)
unfolding position_at_end
end_run i b s h = rw h refl

before_run :
    (i t k : ℕ) (b : Block) (s : State)
    → find_block i s.blocks ≡ some b
    → index_of t b.instructions ≡ some k
    → position_at 0 i t s ≡ (ok tt, stood i k s)
unfolding position_at
before_run i t k b s h at_k = rw (h, at_k) (ap (λ m. (ok tt, stood i m s)) (omega arith))

enter_at_lem :
    (i : ℕ) (b : Block) (s : State) (o : Option ℕ)
    → IsWellFormed s
    → find_block i s.blocks ≡ some b
    → b.terminator ≡ o
    → (enter_at i o s ≡ (ok tt, stood i (front_of o b) s)) × IsFront b (front_of o b)
enter_at_lem i b s none w h e =
    (end_run i b s h, record { at_end = λ k. refl; at_terminator = λ t k. cc (e, k) })
enter_at_lem i b s (some t) w h e =
    let (k, at_k, low) = has_instr-index_of t b.instructions (w.ended i b t h e) in
    let same : k ≡ place (index_of t b.instructions) = sym (ap place at_k) in
    (
      before_run i t k b s h at_k ∙ ap (λ m. (ok tt, stood i m s)) same,
      record { at_end = λ k'. cc (e, k'); at_terminator = λ t' k'. cc (e, k', at_k, same) },
    )

-- When a well-formed builder stands in a block, `goto_block` of a block of the function runs its body
-- at the end of that block, but in front of its terminator. Whether the body returns or raises, its
-- outcome is the outcome, what it did to the function stays, and the builder is brought back to the
-- end of the block it stood in, as that block is then.
pub goto_block_lem :
    {A : Type 0} (i old : ℕ) (b o : Block) (body : Exec State A) (s : State)
    → IsWellFormed s
    → s.current ≡ some old
    → find_block i s.blocks ≡ some b
    → find_block old (body (stood i (front b) s)).1.blocks ≡ some o
    → IsFront b (front b)
      × (goto_block i body s ≡ (
        (body (stood i (front b) s)).0,
        stood old (length o.instructions) (body (stood i (front b) s)).1,
      ))
unfolding goto_block return_to
goto_block_lem i old b o body s w c h found =
    let (entered, there) = enter_at_lem i b s b.terminator w h refl in
    (
      there,
      ap
            (λ r. resume (need r s) (λ b' s'.
              resume (enter_at i b'.terminator s') (λ u s''. return_to s.current (body s''))))
            h
          ∙ ap (λ x. resume x (λ u s'. return_to s.current (body s'))) entered
          ∙ ap (λ cur. return_to cur (body (stood i (front b) s))) c
          ∙ ap (keep (body (stood i (front b) s)).0)
              (end_run old o (body (stood i (front b) s)).1 found),
    )
