-- ===== src/Builder/Steps.antt =====
-- What the operations of llvmlite/ir/builder.py do where they go through, as equations on states.
use llvmlite.Prelude.{
  [], ap, ℕ, suc, ◌≡◌, refl, ◌∙◌, false, Option, none, some, arith, Option-cases, inl, inr,
}
use llvmlite.Result.{ok}
use llvmlite.Instructions.{Draft, Instr}
use llvmlite.Builder.{
  take_name, create_in, create, is_set, State, Block, find_block, update_block, current_block,
  option_block, get_current, need, insert, with_debug, put_at, ended_by, set_terminator,
  is_terminated,
}
use llvmlite.Builder.Ops.{emit, finish}
use llvmlite.Builder.Blocks.{find_block-ident, find_block-update_block, changed}
use llvmlite.Prelude.Texts.{Text}
use llvmlite.Scope.{deduplicate, add, register}

-- The current block, found by its own identity.
pub current_block-ident :
    (s : State) {b : Block}
    → current_block s ≡ some b
    → (s.current ≡ some b.ident) × (find_block b.ident s.blocks ≡ some b)
unfolding current_block option_block
current_block-ident s {b} h = elim (Option-cases s.current) [
  | inl n ↦ cc (simp n at h)
  | inr (i, e) ↦
      let found : find_block i s.blocks ≡ some b = simp e at h in
      let same : b.ident ≡ i = find_block-ident i s.blocks found in (simp same e, simp same found)
]

pub current_block-found :
    (s : State) (i : ℕ) → s.current ≡ some i → current_block s ≡ find_block i s.blocks
unfolding current_block option_block
current_block-found s i e = simp e refl

pub get_current_lem : (s : State) {b : Block} → current_block s ≡ some b → get_current s ≡ (ok b, s)
unfolding get_current need
get_current_lem s h = simp h refl

-- The object itself changes, not only its copy in a variable.
pub current_block-update :
    (s : State) (b : Block) (f : Block → Block) (anchor : ℕ)
    → current_block s ≡ some b
    → ((c : Block) → (f c).ident ≡ c.ident)
    → current_block (record s { blocks = update_block b.ident f s.blocks; anchor = anchor })
      ≡ some (f b)
unfolding changed
current_block-update s b f anchor h same =
    let (c, found) = current_block-ident s h in
    let s' : State = record s { blocks = update_block b.ident f s.blocks; anchor = anchor } in
    current_block-found s' b.ident c
    ∙ find_block-update_block b.ident f b.ident s.blocks same
    ∙ simp found (ground arith)

abbrev pub inserted : Instr → Block → State → State
inserted placed b s = record s {
  blocks = update_block b.ident (put_at s.anchor placed) s.blocks;
  anchor = suc s.anchor;
}

pub insert_lem :
    (instr : Instr) (s : State) {b : Block}
    → current_block s ≡ some b
    → insert instr s
      ≡ (ok (with_debug s.debug_metadata instr), inserted (with_debug s.debug_metadata instr) b s)
unfolding insert
insert_lem instr s h = simp (get_current_lem s h) refl

pub with_debug-ident : (md : Option _) (instr : Instr) → (with_debug md instr).ident ≡ instr.ident
unfolding with_debug
with_debug-ident none instr = refl
with_debug-ident (some md) instr = ground arith

pub set_terminator_lem :
    (term : Instr) (s : State) {b : Block}
    → current_block s ≡ some b
    → b.terminator ≡ none
    → set_terminator term s ≡ (
      ok (with_debug s.debug_metadata term),
      record s {
        blocks =
            update_block b.ident
              (ended_by (with_debug s.debug_metadata term).ident)
              (update_block b.ident (put_at s.anchor (with_debug s.debug_metadata term)) s.blocks);
        anchor = suc s.anchor;
      },
    )
unfolding set_terminator is_terminated
set_terminator_lem term s {b} h open_end =
    let open_block : is_terminated b ≡ false = ap is_set open_end in
    simp (get_current_lem s h) (rw open_block (simp (insert_lem term s h) refl))

-- The instruction that the constructor makes for the block, and the state behind it.
abbrev pub made : Draft → Block → State → Instr
made d b s = record {
  ident = s.next;
  parent = b.ident;
  typ = d.typ;
  opname = d.opname;
  operands = d.operands;
  operands_fixed = false;
  name = (deduplicate d.name s.scope).0;
  flags = d.flags;
  metadata = [];
  kind = d.kind;
}

abbrev pub named : Text → State → State
named name s = record s {
  scope = add (deduplicate name s.scope).0 (deduplicate name s.scope).1;
  next = suc s.next;
}

pub create_lem :
    (d : Draft) (s : State) {b : Block}
    → current_block s ≡ some b
    → create d s ≡ (ok (made d b s), named d.name s)
unfolding create create_in take_name register
create_lem d s h = let (c, found) = current_block-ident s h in simp c refl

-- `current_block` reads the blocks and the position alone.
pub current_block-named :
    (name : Text) (s : State) {b : Block}
    → current_block s ≡ some b
    → current_block (named name s) ≡ some b
unfolding current_block
current_block-named name s h = h

abbrev pub placed_as : Draft → Block → State → Instr
placed_as d b s = with_debug s.debug_metadata (made d b s)

pub emit_lem :
    (d : Draft) (s : State) {b : Block}
    → current_block s ≡ some b
    → emit d s ≡ (ok (placed_as d b s), inserted (placed_as d b s) b (named d.name s))
emit_lem d s {b} h =
    simp (create_lem d s h)
      (insert_lem (made d b s) (named d.name s) (current_block-named d.name s h))

pub finish_lem :
    (d : Draft) (s : State) {b : Block}
    → current_block s ≡ some b
    → b.terminator ≡ none
    → finish d s ≡ (
      ok (placed_as d b s),
      record s {
        scope = add (deduplicate d.name s.scope).0 (deduplicate d.name s.scope).1;
        next = suc s.next;
        blocks =
            update_block b.ident
              (ended_by (placed_as d b s).ident)
              (update_block b.ident (put_at s.anchor (placed_as d b s)) s.blocks);
        anchor = suc s.anchor;
      },
    )
finish_lem d s {b} h open_end =
    simp (create_lem d s h)
      (set_terminator_lem (made d b s) (named d.name s) (current_block-named d.name s h) open_end)
