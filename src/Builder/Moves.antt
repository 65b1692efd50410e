-- ===== src/Builder/Moves.antt =====
-- The operations of llvmlite/ir/builder.py that insert, remove and move keep the builder's invariant.
use llvmlite.Prelude.{
  ap, subst, ◌∙◌, ℕ, suc, ◌<◌, ◌-◌, ◌≡◌, refl, true, false, [], ◌∷◌, ◌++◌, length, ltb, ◌==◌,
  if◌then◌else◌, Option, none, some, arith, Bool-cases, Option-cases, inl, inr, length-insert_at,
}
use llvmlite.Prelude.Texts.{Text}
use llvmlite.Scope.{deduplicate}
use llvmlite.Instructions.{Instr}
use llvmlite.Builder.{
  position_at_start, dropped, ended_by, is_term, mark, put_at, State, Block, find_block,
  current_block, get_block, index_of, position_at_end, take_name, insert, with_debug,
  set_terminator, is_terminated, remove, remove_at, append_block, append_basic_block,
}
use llvmlite.Builder.Steps.{current_block-ident, current_block-update, insert_lem, inserted}
use llvmlite.Builder.Blocks.{
  append_block-found, has_instr, has_instr-insert_at, index_of-bound, has_instr-erase_at,
  length-erase_at,
}
use llvmlite.Builder.WellFormed.{
  IsWellFormed, Keeps, current-Keeps, update_wf, in_bounds, still_ended, take_name-Keeps,
}

pub insert-Keeps : (instr : Instr) → Keeps (insert instr)
unfolding insert
insert-Keeps instr = current-Keeps _ λ b s w cur.
    let bound = in_bounds s b w cur in
    let placed = with_debug s.debug_metadata instr in
    update_wf s b (put_at s.anchor placed) (suc s.anchor) w cur (λ c. refl)
      (omega (arith, length-insert_at s.anchor placed b.instructions))
      (λ t e.
        rw (has_instr-insert_at s.anchor placed t b.instructions, still_ended s b t w cur e)
          (ground arith))

mark-Keeps :
    (term : Instr) (b : Block) (s : State)
    → IsWellFormed s
    → current_block s ≡ some b
    → has_instr term.ident b.instructions ≡ true
    → IsWellFormed (mark term b s).1
mark-Keeps term b s w cur there =
    update_wf s b (ended_by term.ident) s.anchor w cur (λ c. refl) (in_bounds s b w cur)
      (λ t e. subst (λ n. has_instr n b.instructions ≡ true) (cc) there)

pub set_terminator-Keeps : (term : Instr) → Keeps (set_terminator term)
unfolding set_terminator
set_terminator-Keeps term = current-Keeps _ λ b s w cur. elim (Bool-cases (is_terminated b)) [
  | inl done ↦ rw done w
  | inr open_block ↦
      let placed = with_debug s.debug_metadata term in
      let w' : IsWellFormed (inserted placed b s) =
        simp (insert_lem term s cur) at (insert-Keeps term s w) in
      let cur' : current_block (inserted placed b s) ≡ some (put_at s.anchor placed b) =
        current_block-update s b (put_at s.anchor placed) (suc s.anchor) cur (λ c. refl) in
      rw open_block (
        simp (insert_lem term s cur) (
          mark-Keeps placed (put_at s.anchor placed b) (inserted placed b s) w' cur'
            (rw has_instr-insert_at (ground arith))))
]

kept :
    (o : Option ℕ) (i t : ℕ)
    → (if is_term o i then none else o) ≡ some t
    → (o ≡ some t) × ((i == t) ≡ false)
kept none i t h = cc
kept (some u) i t h = ground arith

pub remove-Keeps : (instr : Instr) → Keeps (remove instr)
unfolding remove
remove-Keeps instr =
    current-Keeps _
      λ b s w cur. remove_at-Keeps b instr.ident (index_of instr.ident b.instructions) s w cur refl
  where
    remove_at-Keeps :
        (b : Block) (i : ℕ) (o : Option ℕ) (s : State)
        → IsWellFormed s
        → current_block s ≡ some b
        → index_of i b.instructions ≡ o
        → IsWellFormed (remove_at b i o s).1
    remove_at-Keeps b i none s w cur e = w
    remove_at-Keeps b i (some k) s w cur e =
        update_wf s b (dropped k i) (if ltb k s.anchor then s.anchor - 1 else s.anchor) w cur
          (λ c. refl)
          (ground (
            arith,
            in_bounds s b w cur,
            index_of-bound i b.instructions e,
            length-erase_at k b.instructions (index_of-bound i b.instructions e),
          ))
          (λ t h.
            let (old, other) = kept b.terminator i t h in
            has_instr-erase_at i t b.instructions e other ∙ still_ended s b t w cur old)

pub position_at_end-Keeps : (i : ℕ) → Keeps (position_at_end i)
unfolding position_at_end get_block
position_at_end-Keeps i s w = elim (Option-cases (find_block i s.blocks)) [
  | inl n ↦ simp n (record { anchored = λ j b c f. cc; ended = w.ended; fresh = w.fresh })
  | inr (b', found) ↦ simp found (record {
    anchored = λ j b c f.
        (let same : b' ≡ b = cc in omega (arith, ap (λ (x : Block). length x.instructions) same));
    ended = w.ended;
    fresh = w.fresh;
  })
]

appended_wf :
    (s : State) (b : Block) (old : ℕ)
    → IsWellFormed s
    → s.current ≡ some old
    → old < s.next
    → b.ident ≡ s.next
    → b.instructions ≡ []
    → b.terminator ≡ none
    → IsWellFormed (record s { blocks = s.blocks ++ b ∷ []; next = suc s.next })
appended_wf s b old w cur low e l t = record {
  anchored = λ i x c f. elim (append_block-found i s.blocks b f) [
    | inl f' ↦ w.anchored i x c f'
    | inr (same, k) ↦ absurd (ground (arith, cur, c, e, same, low))
  ];
  ended = λ i x u f h. elim (append_block-found i s.blocks b f) [
    | inl f' ↦ w.ended i x u f' h
    | inr (same, k) ↦ cc (t, simp k at h)
  ];
  fresh = λ i x f. elim (append_block-found i s.blocks b f) [
    | inl f' ↦ omega (arith, w.fresh i x f')
    | inr (same, k) ↦ omega arith
  ];
}

pub append_basic_block-Keeps : (name : Text) → Keeps (append_basic_block name)
unfolding append_basic_block append_block take_name
append_basic_block-Keeps name =
    current-Keeps (λ b. append_block name)
      λ b s w cur.
        let (c, found) = current_block-ident s cur in
        appended_wf (take_name name s).1
          (record {
            ident = s.next;
            name = (deduplicate name s.scope).0;
            instructions = [];
            terminator = none;
          })
          b.ident (take_name-Keeps name s w) c (w.fresh b.ident b found) refl refl refl

pub position_at_start-Keeps : (i : ℕ) → Keeps (position_at_start i)
unfolding position_at_start
position_at_start-Keeps i s w = record {
  anchored = λ j b c f. omega arith;
  ended = w.ended;
  fresh = w.fresh;
}
