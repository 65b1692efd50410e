-- ===== src/Instructions/Print/Flow.antt =====
-- `descr` of the terminators of llvmlite/ir/instructions.py.
use llvmlite.Prelude.{false, List, [], ◌∷◌}
use llvmlite.Prelude.Texts.{Text, lit, join}
use llvmlite.Result.{Result, ok, ◌>>=◌}
use llvmlite.Values.{Value, Env, get_reference}
use llvmlite.Instructions.{Instr, CallOptions}
use llvmlite.Instructions.Print.{
  cat, meta, line, typed_reference, typed_references, stringify_metadata,
}
use llvmlite.Instructions.Print.Descr.{operand, destination_texts, case_texts, with_call}

-- `Terminator.descr`, which ends no line.
unfoldable pub terminator_descr : Env → Instr → Result Text
unfolding lit cat typed_references stringify_metadata
terminator_descr env instr = ok (
    cat (
      instr.opname
      ∷ lit " "
      ∷ join (lit ", ") (typed_references env instr.operands)
      ∷ meta env instr
      ∷ []))

-- `Ret.descr`
unfoldable pub ret_descr : Env → Instr → List Value → Result Text
unfolding lit cat typed_reference stringify_metadata
ret_descr env instr [] = line (instr.opname ∷ meta env instr ∷ [])
ret_descr env instr (v ∷ vs) =
    line (instr.opname ∷ lit " " ∷ typed_reference env v ∷ meta env instr ∷ [])

-- `IndirectBranch.descr`
unfoldable pub indirect_descr : Env → Instr → List Value → Result Text
unfolding lit cat typed_reference destination_texts stringify_metadata operand
indirect_descr env instr destinations = operand 0 instr.operands >>= λ address. line (
    lit "indirectbr "
    ∷ typed_reference env address
    ∷ lit ", ["
    ∷ join (lit ", ") (destination_texts env destinations)
    ∷ lit "]  "
    ∷ meta env instr
    ∷ [])

-- `SwitchInstr.descr`
unfoldable pub switch_descr : Env → Instr → Value → List (Value × Value) → Result Text
unfolding lit cat typed_reference get_reference case_texts stringify_metadata operand
switch_descr env instr default cases = operand 0 instr.operands >>= λ value. line (
    lit "switch "
    ∷ typed_reference env value
    ∷ lit ", label "
    ∷ get_reference env default
    ∷ lit " ["
    ∷ join (lit " ") (case_texts env cases)
    ∷ lit "]  "
    ∷ meta env instr
    ∷ [])

-- `InvokeInstr.descr`, whose second line has the targets and the metadata.
unfoldable pub invoke_descr : Env → Instr → CallOptions → Value → Value → Result Text
unfolding lit cat get_reference stringify_metadata
invoke_descr env instr options normal_to unwind_to =
    with_call env instr options instr.operands false >>= λ called. line (
      called
      ∷ lit "      to label "
      ∷ get_reference env normal_to
      ∷ lit " unwind label "
      ∷ get_reference env unwind_to
      ∷ meta env instr
      ∷ [])
