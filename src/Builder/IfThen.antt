-- ===== src/Builder/IfThen.antt =====
-- `if_then` of llvmlite/ir/builder.py around straight-line code: the flow of control that it builds.
use llvmlite.Prelude.{
  ◌<◌, suc, ◌≡◌, refl, ◌∙◌, ap, List, [], ◌∷◌, ◌++◌, append-nil, map, insert_at, insert_at-length,
  none, some, arith,
}
use llvmlite.Prelude.Texts.{lit}
use llvmlite.Result.{Result, ok}
use llvmlite.Exec.{pure, resume, ◌>>◌}
use llvmlite.Values.{Env, Value}
use llvmlite.Instructions.{Instr, Draft}
use llvmlite.Instructions
use llvmlite.Instructions.Create.{terminator}
use llvmlite.Builder.{State, Block, find_block, current_block, label_of, position_at_end}
use llvmlite.Builder.Control.{if_then, branch_helper, branch}
use llvmlite.Builder.Steps.{current_block-ident, current_block-found}
use llvmlite.Builder.WellFormed.{IsWellFormed}
use llvmlite.Builder.Order.{emit_all, Emitted, emit_all_order}
use llvmlite.Builder.Finish.{Finished, finish_open}
use llvmlite.Builder.Branches.{
  leave_lem, branch_helper_lem, then_block, exit_block, fork, fork_finished, then_found, exit_found,
  if_then_lem,
}

-- The blocks behind an `if_then` whose body emits `ds`.
pub record Conditional (pred : Value) (ds : List Draft) (s : State) (b : Block)
    (out : Result (List Instr) × State) : Type 0 where
  pub br : Instr
  pub jump : Instr
  pub new : List Instr
  pub result : out.0 ≡ ok new
  pub opnames : map (λ (x : Instr). x.opname) new ≡ map (λ (d : Draft). d.opname) ds
  pub targets : br.operands ≡ pred ∷ label_of (then_block b s) ∷ label_of (exit_block b s) ∷ []
  pub header :
      find_block b.ident out.1.blocks
      ≡ some (record b {
        instructions = insert_at s.anchor br b.instructions;
        terminator = some br.ident;
      })
  pub target : jump.operands ≡ label_of (exit_block b s) ∷ []
  pub filled :
      find_block (then_block b s).ident out.1.blocks
      ≡ some (record (then_block b s) {
        instructions = new ++ jump ∷ [];
        terminator = some jump.ident;
      })
  pub exit : find_block (exit_block b s).ident out.1.blocks ≡ some (exit_block b s)
  pub current : out.1.current ≡ some (exit_block b s).ident
  pub anchor : out.1.anchor ≡ 0

abbrev entered : Value → Block → State → State
entered pred b s = record (fork pred b s).1 { current = some s.next; anchor = 0 }

-- The state behind the body.
abbrev behind : Value → List Draft → Block → State → State
behind pred ds b s = (emit_all ds (entered pred b s)).1

abbrev jumped : Value → List Draft → Block → State → Result Instr × State
jumped pred ds b s = branch (exit_block b s) (behind pred ds b s)

module _ (env : Env) (pred : Value) (ds : List Draft) (b : Block) (s : State) (w : IsWellFormed s)
    (cur : current_block s ≡ some b) (open_end : b.terminator ≡ none) where
  body_emitted :
      Emitted ds (entered pred b s) (then_block b s) [] [] (emit_all ds (entered pred b s))
  body_emitted =
      emit_all_order ds (entered pred b s) (then_block b s) [] []
        (current_block-found (entered pred b s) s.next refl ∙ then_found pred b s w cur open_end)
        refl refl

  body_current :
      current_block (behind pred ds b s)
      ≡ some (record (then_block b s) { instructions = body_emitted.new })
  body_current =
      body_emitted.filled
      ∙ ap (λ l. some (record (then_block b s) { instructions = l })) (append-nil body_emitted.new)

  jump_finished :
      Finished
        (terminator (lit "br") (label_of (exit_block b s) ∷ []) Instructions.branch)
        (behind pred ds b s)
        (record (then_block b s) { instructions = body_emitted.new })
        (jumped pred ds b s)
  unfolding branch
  jump_finished = finish_open _ (behind pred ds b s) _ body_current refl

  exit_kept : find_block (suc s.next) (jumped pred ds b s).1.blocks ≡ some (exit_block b s)
  exit_kept =
      jump_finished.others (suc s.next) (ground arith)
      ∙ body_emitted.others (suc s.next) (ground arith)
      ∙ exit_found pred b s w cur open_end

  helper_result :
      branch_helper (then_block b s) (exit_block b s) (emit_all ds) (fork pred b s).1
      ≡ (ok body_emitted.new, (jumped pred ds b s).1)
  helper_result =
      branch_helper_lem (then_block b s) (exit_block b s) (emit_all ds) (fork pred b s).1
        (then_block b s) (record (then_block b s) { instructions = body_emitted.new })
        (then_found pred b s w cur open_end) body_emitted.result body_current refl
        jump_finished.result

  if_then_result : if_then env pred none (λ bbend. emit_all ds) s ≡ (
    ok body_emitted.new,
    record (jumped pred ds b s).1 { current = some (suc s.next); anchor = 0 },
  )
  if_then_result =
      if_then_lem env pred (λ bbend. emit_all ds) b s cur open_end
      ∙ ap
          (λ (x : Result (List Instr) × State).
            resume x (λ a. position_at_end (suc s.next) >> pure a))
          helper_result
      ∙ leave_lem (suc s.next) body_emitted.new (jumped pred ds b s).1 exit_kept

  conditional : Conditional pred ds s b (
    ok body_emitted.new,
    record (jumped pred ds b s).1 { current = some (suc s.next); anchor = 0 },
  )
  conditional =
      let (c, found) = current_block-ident s cur in
      let low : b.ident < s.next = w.fresh b.ident b found in
      let f = fork_finished pred b s cur open_end in
      record {
        br = f.term;
        jump = jump_finished.term;
        new = body_emitted.new;
        result = refl;
        opnames = body_emitted.opnames;
        targets = f.operands;
        header =
            jump_finished.others b.ident (ground (arith, low))
            ∙ body_emitted.others b.ident (ground (arith, low))
            ∙ f.ended;
        target = jump_finished.operands;
        filled =
            jump_finished.ended
            ∙ ap
                (λ l. some (record (then_block b s) {
                  instructions = l;
                  terminator = some jump_finished.term.ident;
                }))
                (ap (λ k. insert_at k jump_finished.term body_emitted.new) body_emitted.anchor
                  ∙ insert_at-length jump_finished.term body_emitted.new);
        exit = exit_kept;
        current = refl;
        anchor = refl;
      }

-- `if_then` at an open block, around code that emits instructions in a row: the block ends with a
-- branch on the predicate to the new block and to the exit, the new block has the instructions in
-- order and then jumps to the exit, and the builder stands at the start of the empty exit.
pub if_then_flow :
    (env : Env) (pred : Value) (ds : List Draft) (b : Block) (s : State)
    → IsWellFormed s
    → current_block s ≡ some b
    → b.terminator ≡ none
    → Conditional pred ds s b (if_then env pred none (λ bbend. emit_all ds) s)
if_then_flow env pred ds b s w cur open_end =
    rw (if_then_result env pred ds b s w cur open_end) (conditional env pred ds b s w cur open_end)
