-- ===== src/Instructions/Grow.antt =====
-- The methods of llvmlite/ir/instructions.py that add to an instruction after its construction:
-- `add_destination`, `add_case`, `add_incoming` and `add_clause`. Other classes have no such method.
use llvmlite.Prelude.{Bool, true, false, List, [], ◌∷◌, ◌++◌}
use llvmlite.Result.{
  Result, ok, err, assertion_error, attribute_error, index_error, guard, ◌>>=◌, ◌>>◌,
}
use llvmlite.Types.{array}
use llvmlite.Types.Lookup.{Bodies}
use llvmlite.Values.{Value, type_of, block, constant, formatted}
use llvmlite.Values.Wrap.{Raw, make_constant}
use llvmlite.Instructions.{Instr, Kind, Clause}

-- `isinstance(block, Block)`
unfoldable pub is_block : Value → Bool
is_block (block i n) = true
is_block _ = false

unfoldable pub destination_added : Value → Kind → Result Kind
unfolding is_block
destination_added b (Kind.indirect_branch destinations) =
    guard (is_block b) assertion_error >> ok (Kind.indirect_branch (destinations ++ b ∷ []))
destination_added b _ = err attribute_error

-- `IndirectBranch.add_destination`
unfoldable pub add_destination : Value → Instr → Result Instr
unfolding destination_added
add_destination b instr =
    destination_added b instr.kind >>= λ kind. ok (record instr { kind = kind })

-- A value as it is, and anything else as a constant of the type of the switch's value.
unfoldable pub case_value : Bodies → Raw → List Value → Result Value
unfolding make_constant type_of
case_value bodies (Raw.value v) operands = ok v
case_value bodies raw [] = err index_error
case_value bodies raw (v ∷ vs) = make_constant bodies raw (type_of v)

unfoldable pub case_added : Bodies → Raw → Value → List Value → Kind → Result Kind
unfolding is_block case_value
case_added bodies raw b operands (Kind.switch default cases) =
    guard (is_block b) assertion_error
    >> (case_value bodies raw operands >>= λ v. ok (Kind.switch default (cases ++ (v, b) ∷ [])))
case_added bodies raw b operands _ = err attribute_error

-- `SwitchInstr.add_case`
unfoldable pub add_case : Bodies → Raw → Value → Instr → Result Instr
unfolding case_added
add_case bodies raw b instr =
    case_added bodies raw b instr.operands instr.kind >>= λ kind. ok (record instr { kind = kind })

unfoldable pub incoming_added : Value → Value → Kind → Result Kind
unfolding is_block
incoming_added v b (Kind.phi incomings) =
    guard (is_block b) assertion_error >> ok (Kind.phi (incomings ++ (v, b) ∷ []))
incoming_added v b _ = err attribute_error

-- `PhiInstr.add_incoming`
unfoldable pub add_incoming : Value → Value → Instr → Result Instr
unfolding incoming_added
add_incoming v b instr = incoming_added v b instr.kind >>= λ kind. ok (record instr { kind = kind })

-- `CatchClause` and `FilterClause`, which is for a constant array.
unfoldable pub catch_clause : Value → Clause
catch_clause v = Clause.catch v

unfoldable pub filter_clause : Value → Result Clause
filter_clause (constant (array t n) c) = ok (Clause.filter (constant (array t n) c))
filter_clause (formatted (array t n) c) = ok (Clause.filter (formatted (array t n) c))
filter_clause _ = err assertion_error

unfoldable pub clause_added : Clause → Kind → Result Kind
clause_added clause (Kind.landing_pad cleanup clauses) =
    ok (Kind.landing_pad cleanup (clauses ++ clause ∷ []))
clause_added clause _ = err attribute_error

-- `LandingPadInstr.add_clause`
unfoldable pub add_clause : Clause → Instr → Result Instr
unfolding clause_added
add_clause clause instr =
    clause_added clause instr.kind >>= λ kind. ok (record instr { kind = kind })
