-- ===== src/Builder/Branches.antt =====
-- `if_then` of llvmlite/ir/builder.py around straight-line code: the blocks and the jumps it builds.
use llvmlite.Prelude.{
  if◌then◌else◌, false, Option-cases, ◌<◌, ◌≤◌, ℕ, suc, ◌≡◌, inl, inr, Option-cases, refl, ◌∙◌, ap,
  [], ◌∷◌, ◌++◌, length, none, some, arith,
}
use llvmlite.Prelude.Texts.{Text, lit}
use llvmlite.Result.{Result, ok, err}
use llvmlite.Exec.{Exec, pure, resume, ◌>>=◌, ◌>>◌}
use llvmlite.Values.{Env, Value}
use llvmlite.Scope.{deduplicate}
use llvmlite.Instructions.{Instr, Draft}
use llvmlite.Instructions
use llvmlite.Instructions.Create.{terminator}
use llvmlite.Builder.{
  is_set, is_terminated, State, Block, find_block, current_block, label_of, append_basic_block,
  append_block, take_name, position_at_end, get_block, need,
}
use llvmlite.Builder.Control.{
  close_branch, branch, if_then, branch_helper, cbranch, weigh, label_suffix,
}
use llvmlite.Builder.Blocks.{find_block-append}
use llvmlite.Builder.Steps.{current_block-ident, current_block-found, get_current_lem, named}
use llvmlite.Builder.WellFormed.{IsWellFormed}
use llvmlite.Builder.Finish.{Finished, finish_open}

-- The block that `append_basic_block` makes.
abbrev pub new_block : Text → State → Block
new_block name s = record {
  ident = s.next;
  name = (deduplicate name s.scope).0;
  instructions = [];
  terminator = none;
}

abbrev pub appended : Text → State → State
appended name s = record (named name s) { blocks = s.blocks ++ new_block name s ∷ [] }

append_block_lem :
    (name : Text) (s : State) → append_block name s ≡ (ok (new_block name s), appended name s)
unfolding append_block take_name
append_block_lem name s = refl

append_lem :
    (name : Text) (s : State) {b : Block}
    → current_block s ≡ some b
    → append_basic_block name s ≡ (ok (new_block name s), appended name s)
unfolding append_basic_block append_block take_name
append_lem name s h = simp (get_current_lem s h) refl

old_found :
    (name : Text) (s : State) (j : ℕ) {b : Block}
    → find_block j s.blocks ≡ some b
    → find_block j (appended name s).blocks ≡ some b
old_found name s j h = find_block-append j s.blocks (new_block name s) ∙ simp h refl

current_block-appended :
    (name : Text) (s : State) {b : Block}
    → current_block s ≡ some b
    → current_block (appended name s) ≡ some b
current_block-appended name s {b} h =
    let (c, found) = current_block-ident s h in
    current_block-found (appended name s) b.ident c ∙ old_found name s b.ident found

-- No block has the next number yet.
unused : (s : State) → IsWellFormed s → (k : ℕ) → s.next ≤ k → find_block k s.blocks ≡ none
unused s w k low = elim (Option-cases (find_block k s.blocks)) [
  | inl n ↦ n
  | inr (b, e) ↦ absurd (omega (arith, w.fresh k b e))
]

new_found :
    (name : Text) (s : State)
    → find_block s.next s.blocks ≡ none
    → find_block s.next (appended name s).blocks ≡ some (new_block name s)
new_found name s h = find_block-append s.next s.blocks (new_block name s) ∙ simp h (ground arith)

pub resume-ok :
    {A B : Type 0} (out : Result A × State) (f : A → Exec State B) {a : A}
    → out.0 ≡ ok a
    → resume out f ≡ f a out.1
resume-ok (ok b, s) f h = ap (λ c. f c s) (cc)
resume-ok (err e, s) f h = cc

-- A block that is entered at its end.
pub position_at_end_lem :
    (i : ℕ) (s : State) {b : Block}
    → find_block i s.blocks ≡ some b
    → position_at_end i s ≡ (ok tt, record s { current = some i; anchor = length b.instructions })
unfolding position_at_end get_block need
position_at_end_lem i s h = simp h refl

-- The names and the blocks of an `if_then` at a block, and the state with its branch.
abbrev pub if_name : Block → Text
if_name b = label_suffix b.name (lit ".if")

abbrev pub end_name : Block → Text
end_name b = label_suffix b.name (lit ".endif")

abbrev pub then_block : Block → State → Block
then_block b s = new_block (if_name b) s

abbrev pub exit_block : Block → State → Block
exit_block b s = new_block (end_name b) (appended (if_name b) s)

abbrev pub forked : Block → State → State
forked b s = appended (end_name b) (appended (if_name b) s)

abbrev pub fork : Value → Block → State → Result Instr × State
fork pred b s = cbranch pred (then_block b s) (exit_block b s) (forked b s)

abbrev pub fork_draft : Value → Block → State → Draft
fork_draft pred b s =
    terminator (lit "br") (pred ∷ label_of (then_block b s) ∷ label_of (exit_block b s) ∷ [])
      Instructions.conditional_branch

forked_open :
    (b : Block) (s : State) → current_block s ≡ some b → current_block (forked b s) ≡ some b
forked_open b s h =
    current_block-appended (end_name b) (appended (if_name b) s)
      (current_block-appended (if_name b) s h)

pub fork_finished :
    (pred : Value) (b : Block) (s : State)
    → current_block s ≡ some b
    → b.terminator ≡ none
    → Finished (fork_draft pred b s) (forked b s) b (fork pred b s)
unfolding cbranch
fork_finished pred b s cur open_end =
    finish_open (fork_draft pred b s) (forked b s) b (forked_open b s cur) open_end

-- What the branch leaves of the two new blocks.
pub then_found :
    (pred : Value) (b : Block) (s : State)
    → IsWellFormed s
    → current_block s ≡ some b
    → b.terminator ≡ none
    → find_block (then_block b s).ident (fork pred b s).1.blocks ≡ some (then_block b s)
then_found pred b s w cur open_end =
    let (c, found) = current_block-ident s cur in
    let low : b.ident < s.next = w.fresh b.ident b found in
    (fork_finished pred b s cur open_end).others s.next (ground (arith, low))
    ∙ old_found (end_name b) (appended (if_name b) s) s.next
        (new_found (if_name b) s (unused s w s.next (omega arith)))

pub exit_found :
    (pred : Value) (b : Block) (s : State)
    → IsWellFormed s
    → current_block s ≡ some b
    → b.terminator ≡ none
    → find_block (exit_block b s).ident (fork pred b s).1.blocks ≡ some (exit_block b s)
exit_found pred b s w cur open_end =
    let (c, found) = current_block-ident s cur in
    let low : b.ident < s.next = w.fresh b.ident b found in
    (fork_finished pred b s cur open_end).others (suc s.next) (ground (arith, low))
    ∙ new_found (end_name b) (appended (if_name b) s) (
        find_block-append (suc s.next) s.blocks (then_block b s)
        ∙ rw (unused s w (suc s.next) (omega arith)) (ground arith))

fork_result :
    (pred : Value) (b : Block) (s : State) (cur : current_block s ≡ some b)
    (open_end : b.terminator ≡ none)
    → fork pred b s ≡ (ok (fork_finished pred b s cur open_end).term, (fork pred b s).1)
fork_result pred b s cur open_end =
    ap (λ r. (r, (fork pred b s).1)) (fork_finished pred b s cur open_end).result

-- `if_then` around a body: the branch, then the body in the new block, then the exit.
pub if_then_lem :
    {A : Type 0} (env : Env) (pred : Value) (body : Block → Exec State A) (b : Block) (s : State)
    → current_block s ≡ some b
    → b.terminator ≡ none
    → if_then env pred none body s
      ≡ resume
          (branch_helper
            (then_block b s)
            (exit_block b s)
            (body (exit_block b s))
            (fork pred b s).1)
          (λ a. position_at_end (exit_block b s).ident >> pure a)
unfolding if_then weigh
if_then_lem env pred body b s cur open_end = simp (get_current_lem s cur) (
    simp (get_current_lem (appended (if_name b) s) (current_block-appended (if_name b) s cur)) (
      ap
        (λ (x : Result _ × State). resume x (λ br.
          branch_helper (then_block b s) (exit_block b s) (body (exit_block b s)) >>= λ a.
          position_at_end (exit_block b s).ident >> pure a))
        (fork_result pred b s cur open_end)))

-- The end of a branch whose block the body has left open.
close_branch_lem :
    {A : Type 0} (bbexit : Block) (a : A) (s : State) (b : Block) {jump : Instr}
    → current_block s ≡ some b
    → b.terminator ≡ none
    → (branch bbexit s).0 ≡ ok jump
    → close_branch bbexit a s ≡ (ok a, (branch bbexit s).1)
unfolding close_branch
close_branch_lem bbexit a s b cur open_end done =
    let open_block : is_terminated b ≡ false = ap is_set open_end in
    ap
      (λ (x : Result Block × State).
        resume x (λ c. if is_terminated c then pure a else (branch bbexit >> pure a)))
      (get_current_lem s cur)
    ∙ rw open_block (resume-ok (branch bbexit s) (λ x. pure a) done)

pub branch_helper_lem :
    {A : Type 0} (bbenter bbexit : Block) (body : Exec State A) (s : State) (b0 b : Block) {a : A}
    {jump : Instr}
    → find_block bbenter.ident s.blocks ≡ some b0
    → (body (record s { current = some bbenter.ident; anchor = length b0.instructions })).0 ≡ ok a
    → current_block
        (body (record s { current = some bbenter.ident; anchor = length b0.instructions })).1
      ≡ some b
    → b.terminator ≡ none
    → (branch bbexit
        (body (record s { current = some bbenter.ident; anchor = length b0.instructions })).1).0
      ≡ ok jump
    → branch_helper bbenter bbexit body s ≡ (
      ok a,
      (branch bbexit
          (body (record s { current = some bbenter.ident; anchor = length b0.instructions })).1).1,
    )
unfolding branch_helper
branch_helper_lem bbenter bbexit body s b0 b {a} found gave cur open_end done =
    let s' : State = record s { current = some bbenter.ident; anchor = length b0.instructions } in
    ap (λ (x : Result (Unit {0}) × State). resume x (λ u. body >>= close_branch bbexit))
      (position_at_end_lem bbenter.ident s found)
    ∙ resume-ok (body s') (close_branch bbexit) gave
    ∙ close_branch_lem bbexit a (body s').1 b cur open_end done

pub leave_lem :
    {A : Type 0} (i : ℕ) (a : A) (s : State) {b : Block}
    → find_block i s.blocks ≡ some b
    → (position_at_end i >> pure a) s
      ≡ (ok a, record s { current = some i; anchor = length b.instructions })
leave_lem i a s found =
    ap (λ (x : Result (Unit {0}) × State). resume x (λ u. pure a)) (position_at_end_lem i s found)
