-- ===== src/Transforms.antt =====
-- llvmlite/ir/transforms.py on the blocks of the functions of a module: the visitors, and the
-- replacement of the callee of calls, with `replace_callee` of llvmlite/ir/instructions.py.
pub mod Refused
pub mod Replaced
use llvmlite.Prelude.{Bool, true, false, List, [], ◌∷◌, ◌++◌, ◌&&◌, if◌then◌else◌}
use llvmlite.Result.{Result, ok, err, index_error, type_error, guard, ◌>>=◌}
use llvmlite.Types.{Ty, type_eq}
use llvmlite.Values.{Env, Value, function_type}
use llvmlite.Values.Identity.{value_eq}
use llvmlite.Instructions.{Instr, Kind}
use llvmlite.Builder.{Block}

-- What a visit of an object leaves: whether it raised, the object, and the calls it has listed.
abbrev pub Visited {ℓ} : Type ℓ → Type ℓ
Visited A = Result (Unit {0}) × A × List Instr

module _ {ℓ} {A : Type ℓ} where
  abbrev pub go_on : Visited A → List A → Visited (List A) → Visited (List A)
  go_on (err raised, x, calls) xs rest = (err raised, x ∷ xs, calls)
  go_on (ok done, x, calls) xs (outcome, xs', calls') = (outcome, x ∷ xs', calls ++ calls')

  -- `for x in xs: visit(x)`, which an exception ends.
  unfoldable pub visit_all : (A → Visited A) → List A → Visited (List A)
  visit_all visit [] = (ok tt, [], [])
  visit_all visit (x ∷ xs) = go_on (visit x) xs (visit_all visit xs)

-- `isinstance(instr, CallInstr)`, which holds of an `InvokeInstr` too.
unfoldable pub is_call : Kind → Bool
is_call (Kind.call options) = true
is_call (Kind.invoke options normal_to unwind_to) = true
is_call _ = false

-- The test of `replace_callee`.
unfoldable pub same_function_type : Value → Value → Result (Unit {0})
unfolding type_eq function_type
same_function_type newfunc callee =
    function_type newfunc >>= λ t. function_type callee >>= λ u. guard (type_eq t u) type_error

abbrev pub with_callee : Value → List Value → Instr → Instr
with_callee newfunc args instr = record instr { operands = newfunc ∷ args }

-- `CallInstr.callee = newfunc`, which a tuple refuses.
abbrev pub set_callee : Bool → Value → List Value → Instr → Visited Instr
set_callee true newfunc args instr = (err type_error, instr, [])
set_callee false newfunc args instr =
    (ok tt, with_callee newfunc args instr, with_callee newfunc args instr ∷ [])

-- `replace_callee` behind its test.
abbrev pub when_same : Result (Unit {0}) → Value → List Value → Instr → Visited Instr
when_same (err raised) newfunc args instr = (err raised, instr, [])
when_same (ok same) newfunc args instr = set_callee instr.operands_fixed newfunc args instr

-- `ReplaceCalls.visit_Call` with the operands of the call, the first of which is its callee.
unfoldable pub visit_call : Env → Value → Value → List Value → Instr → Visited Instr
unfolding same_function_type value_eq
visit_call env orig repl [] instr = (err index_error, instr, [])
visit_call env orig repl (callee ∷ args) instr =
    if value_eq env callee orig
    then when_same (same_function_type repl callee) repl args instr
    else (ok tt, instr, [])

-- `CallVisitor.visit_Instruction`
unfoldable pub visit_instruction : Env → Value → Value → Instr → Visited Instr
unfolding visit_call is_call
visit_instruction env orig repl instr =
    if is_call instr.kind then visit_call env orig repl instr.operands instr else (ok tt, instr, [])

abbrev in_block : Block → Visited (List Instr) → Visited Block
in_block bb (outcome, instructions, calls) =
    (outcome, record bb { instructions = instructions }, calls)

-- `Visitor.visit_BasicBlock`
unfoldable pub visit_basic_block : Env → Value → Value → Block → Visited Block
unfolding visit_instruction visit_all
visit_basic_block env orig repl bb =
    in_block bb (visit_all (visit_instruction env orig repl) bb.instructions)

-- `Visitor.visit_Function`
unfoldable pub visit_function : Env → Value → Value → List Block → Visited (List Block)
unfolding visit_basic_block visit_all
visit_function env orig repl blocks = visit_all (visit_basic_block env orig repl) blocks

-- `replace_all_calls` on the blocks of each function of the module.
unfoldable pub replace_all_calls :
    Env → List (List Block) → Value → Value → Visited (List (List Block))
unfolding visit_function visit_all
replace_all_calls env functions orig repl = visit_all (visit_function env orig repl) functions
