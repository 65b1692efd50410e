-- ===== src/Builder/Invariant.antt =====
-- The invariant of the builder of llvmlite/ir/builder.py over whole runs: sequences of calls, which
-- may raise and be caught by the caller in between.
use llvmlite.Prelude.{ℕ, List, [], ◌∷◌}
use llvmlite.Prelude.Texts.{Text}
use llvmlite.Values.{Value}
use llvmlite.Instructions.{Instr, Draft}
use llvmlite.Builder.{State, remove, append_basic_block, position_at_start, position_at_end}
use llvmlite.Builder.Ops.{emit, finish}
use llvmlite.Builder.Control.{set_metadata}
use llvmlite.Builder.WellFormed.{IsWellFormed}
use llvmlite.Builder.Moves.{
  remove-Keeps, append_basic_block-Keeps, position_at_start-Keeps, position_at_end-Keeps,
}
use llvmlite.Builder.Kept.{emit-Keeps, finish-Keeps, set_metadata-Keeps}

-- A call of the builder: an instruction or a terminator of any class, by what its constructor
-- computes, and calls that move the builder or change the function. `position_before`,
-- `position_after` and `Block.replace` may break the invariant and are left out.
pub data Command : Type 0 where
  insert_draft finish_draft : Draft → Command
  remove_instr : Instr → Command
  append : Text → Command
  at_start at_end : ℕ → Command
  attach : Instr → Text → Value → Command

-- The state behind a call, whether it has raised or not.
unfoldable pub perform : Command → State → State
unfolding remove append_basic_block position_at_start position_at_end set_metadata
perform (insert_draft d) s = (emit d s).1
perform (finish_draft d) s = (finish d s).1
perform (remove_instr instr) s = (remove instr s).1
perform (append name) s = (append_basic_block name s).1
perform (at_start i) s = (position_at_start i s).1
perform (at_end i) s = (position_at_end i s).1
perform (attach instr key node) s = (set_metadata instr key node s).1

unfoldable pub run : List Command → State → State
unfolding perform
run [] s = s
run (c ∷ cs) s = run cs (perform c s)

perform-IsWellFormed : (c : Command) (s : State) → IsWellFormed s → IsWellFormed (perform c s)
unfolding perform
perform-IsWellFormed (insert_draft d) s w = emit-Keeps d s w
perform-IsWellFormed (finish_draft d) s w = finish-Keeps d s w
perform-IsWellFormed (remove_instr instr) s w = remove-Keeps instr s w
perform-IsWellFormed (append name) s w = append_basic_block-Keeps name s w
perform-IsWellFormed (at_start i) s w = position_at_start-Keeps i s w
perform-IsWellFormed (at_end i) s w = position_at_end-Keeps i s w
perform-IsWellFormed (attach instr key node) s w = set_metadata-Keeps instr key node s w

-- Over any sequence of these calls: an instruction or a terminator of any class, `remove`,
-- `append_basic_block`, `position_at_start`, `position_at_end` and `set_metadata`, some of which may
-- raise, the builder stays within its block, and the terminator of each block is one of its
-- instructions. (`position_before`, `position_after` and `Block.replace` are not among them.)
pub run-IsWellFormed : (cs : List Command) (s : State) → IsWellFormed s → IsWellFormed (run cs s)
unfolding run
run-IsWellFormed [] s w = w
run-IsWellFormed (c ∷ cs) s w = run-IsWellFormed cs (perform c s) (perform-IsWellFormed c s w)
