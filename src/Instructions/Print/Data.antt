-- ===== src/Instructions/Print/Data.antt =====
-- `descr` of the classes of llvmlite/ir/instructions.py that compute values from values, and those of
-- vectors and aggregates.
use llvmlite.Prelude.{ℕ, List, [], ◌∷◌, map}
use llvmlite.Prelude.Texts.{Text, lit, decimal, join}
use llvmlite.Result.{Result, ◌>>=◌}
use llvmlite.Values.{Value, Env, get_reference}
use llvmlite.Instructions.{Instr}
use llvmlite.Instructions.Print.{
  cat, meta, line, type_str, typed_reference, typed_references, stringify_metadata,
}
use llvmlite.Instructions.Print.Descr.{operand, spaced_flags, incoming_texts}

-- `SelectInstr.descr`
unfoldable pub select_descr : Env → Instr → Result Text
unfolding lit cat typed_reference stringify_metadata operand
select_descr env instr = operand 0 instr.operands >>= λ cond. operand 1 instr.operands >>= λ lhs.
    operand 2 instr.operands >>= λ rhs. line (
      lit "select "
      ∷ join (lit " ") instr.flags
      ∷ lit " "
      ∷ typed_reference env cond
      ∷ lit ", "
      ∷ typed_reference env lhs
      ∷ lit ", "
      ∷ typed_reference env rhs
      ∷ lit " "
      ∷ meta env instr
      ∷ [])

-- `CompareInstr.descr`
unfoldable pub compare_descr : Env → Instr → Text → Result Text
unfolding lit cat typed_reference get_reference spaced_flags stringify_metadata operand
compare_descr env instr op = operand 0 instr.operands >>= λ lhs. operand 1 instr.operands >>= λ rhs.
    line (
      instr.opname
      ∷ spaced_flags instr.flags
      ∷ lit " "
      ∷ op
      ∷ lit " "
      ∷ typed_reference env lhs
      ∷ lit ", "
      ∷ get_reference env rhs
      ∷ lit " "
      ∷ meta env instr
      ∷ [])

-- `CastInstr.descr`
unfoldable pub cast_descr : Env → Instr → Result Text
unfolding lit cat typed_reference stringify_metadata operand
cast_descr env instr = operand 0 instr.operands >>= λ val. line (
    instr.opname
    ∷ lit " "
    ∷ typed_reference env val
    ∷ lit " to "
    ∷ type_str env instr.typ
    ∷ lit " "
    ∷ meta env instr
    ∷ [])

-- `PhiInstr.descr`
unfoldable pub phi_descr : Env → Instr → List (Value × Value) → Result Text
unfolding lit cat incoming_texts stringify_metadata
phi_descr env instr incomings = line (
    lit "phi "
    ∷ join (lit " ") instr.flags
    ∷ lit " "
    ∷ type_str env instr.typ
    ∷ lit " "
    ∷ join (lit ", ") (incoming_texts env incomings)
    ∷ lit " "
    ∷ meta env instr
    ∷ [])

-- `ExtractElement.descr` and `InsertElement.descr`, which write no metadata.
unfoldable pub element_descr : Env → Instr → Result Text
unfolding lit cat typed_references
element_descr env instr =
    line (instr.opname ∷ lit " " ∷ join (lit ", ") (typed_references env instr.operands) ∷ [])

-- `ExtractValue.descr` and `InsertValue.descr`
unfoldable pub extract_value_descr : Env → Instr → Value → List ℕ → Result Text
unfolding lit cat typed_reference stringify_metadata decimal
extract_value_descr env instr aggregate indices = line (
    lit "extractvalue "
    ∷ typed_reference env aggregate
    ∷ lit ", "
    ∷ join (lit ", ") (map decimal indices)
    ∷ lit " "
    ∷ meta env instr
    ∷ [])

unfoldable pub insert_value_descr : Env → Instr → Value → Value → List ℕ → Result Text
unfolding lit cat typed_reference stringify_metadata decimal
insert_value_descr env instr aggregate value indices = line (
    lit "insertvalue "
    ∷ typed_reference env aggregate
    ∷ lit ", "
    ∷ typed_reference env value
    ∷ lit ", "
    ∷ join (lit ", ") (map decimal indices)
    ∷ lit " "
    ∷ meta env instr
    ∷ [])

-- `ShuffleVector.descr`
unfoldable pub shuffle_descr : Env → Instr → Result Text
unfolding lit cat typed_references stringify_metadata
shuffle_descr env instr = line (
    lit "shufflevector "
    ∷ join (lit ", ") (typed_references env instr.operands)
    ∷ lit " "
    ∷ meta env instr
    ∷ [])
