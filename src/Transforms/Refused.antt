-- ===== src/Transforms/Refused.antt =====
-- When `replace_all_calls` of llvmlite/ir/transforms.py raises: for a function of another type, and for
-- a call whose operands are no list any more.
use llvmlite.Prelude.{
  sym, ap, inl, inr, arith, ◌∙◌, Bool-cases, inl, inr, any, all, true, ◌≡◌, refl, List, [], ◌∷◌,
  ◌&&◌, if◌then◌else◌,
}
use llvmlite.Result.{type_error, err, Result, ok}
use llvmlite.Values.{Env, Value}
use llvmlite.Values.Identity.{value_eq}
use llvmlite.Instructions.{Instr}
use llvmlite.Transforms.{
  in_block, visit_basic_block, visit_function, replace_all_calls, same_function_type,
  visit_instruction, visit_call, is_call, when_same, set_callee,
}
use llvmlite.Builder.{Block}
use llvmlite.Transforms.Replaced.{
  visit_all-same, verdict, refuses_call, first_is, calls_of, first_passes, clashes, in_every_block,
  in_some_block,
}

refused :
    (r : Result (Unit {0})) (newfunc : Value) (args : List Value) (instr : Instr)
    → refuses_call instr r ≡ true
    → when_same r newfunc args instr ≡ (err type_error, instr, [])
refused (ok tt) newfunc args instr h = ap (λ b. set_callee b newfunc args instr) h
refused (err type_error) newfunc args instr h = refl
refused (err e) newfunc args instr h = cc

refused_call :
    (env : Env) (orig repl : Value) (ops : List Value) (instr : Instr)
    → first_passes (refuses_call instr) env orig repl ops ≡ true
    → visit_call env orig repl ops instr ≡ (verdict (first_is env orig ops) type_error, instr, [])
unfolding visit_call
refused_call env orig repl [] instr h = cc
refused_call env orig repl (callee ∷ args) instr h = elim (Bool-cases (value_eq env callee orig)) [
  | inl e ↦ rw e (refused (same_function_type repl callee) repl args instr (rw e at h))
  | inr e ↦ rw e refl
]

refused_instruction :
    (env : Env) (orig repl : Value) (instr : Instr)
    → clashes env orig repl instr ≡ true
    → visit_instruction env orig repl instr
      ≡ (verdict (calls_of env orig instr) type_error, instr, [])
unfolding visit_instruction
refused_instruction env orig repl instr h = elim (Bool-cases (is_call instr.kind)) [
  | inl e ↦
      ap (λ b. if b then visit_call env orig repl instr.operands instr else (ok tt, instr, [])) e
      ∙ refused_call env orig repl instr.operands instr (ground (arith, e, h))
      ∙ ap (λ b. (verdict (b && first_is env orig instr.operands) type_error, instr, [])) (sym e)
  | inr e ↦ rw e refl
]

-- When every call has a callee, and for each call whose callee equals `orig` the function type of
-- `repl` is another or the operands are the tuple that `replace_usage` leaves, `replace_all_calls`
-- changes and lists nothing; it raises a `TypeError` if there is a call whose callee equals `orig`,
-- and returns otherwise.
pub replace_all_calls_refused :
    (env : Env) (functions : List (List Block)) (orig repl : Value)
    → in_every_block (clashes env orig repl) functions ≡ true
    → replace_all_calls env functions orig repl
      ≡ (verdict (in_some_block (calls_of env orig) functions) type_error, functions, [])
unfolding replace_all_calls visit_function visit_basic_block
replace_all_calls_refused env functions orig repl good_functions =
    visit_all-same (visit_function env orig repl)
      (all (λ bb. all (clashes env orig repl) bb.instructions))
      (any (λ bb. any (calls_of env orig) bb.instructions)) type_error
      (λ blocks good_blocks.
        visit_all-same (visit_basic_block env orig repl)
          (λ bb. all (clashes env orig repl) bb.instructions)
          (λ bb. any (calls_of env orig) bb.instructions) type_error
          (λ bb good. ap (in_block bb) (
            visit_all-same (visit_instruction env orig repl) (clashes env orig repl)
              (calls_of env orig) type_error (refused_instruction env orig repl) bb.instructions
              good))
          blocks good_blocks)
      functions good_functions
