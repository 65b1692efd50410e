-- ===== src/Instructions.antt =====
-- llvmlite/ir/instructions.py: an instruction as a record, with what each class keeps beside the
-- common fields. The constructors' checks and the usages are in the modules below.
pub mod Create
pub mod Calls
pub mod Shuffle
pub mod Grow
pub mod CallArgs
pub mod Usage
pub mod Print
use llvmlite.Prelude.{ℕ, Bool, List, Option}
use llvmlite.Prelude.Texts.{Text}
use llvmlite.Types.{Ty}
use llvmlite.Attributes.{ArgumentAttributes}
use llvmlite.Values.{Value, instruction, alloca}

-- What a `CallInstr` keeps: its calling convention, tail marker, flags and attributes, and the
-- attributes of its arguments by their positions.
pub record CallOptions : Type 0 where
  pub cconv : Option Text
  pub tail : Text
  pub fastmath : List Text
  pub attributes : List Text
  pub arg_attributes : List (ℕ × ArgumentAttributes)

-- `_LandingPadClause`
pub data Clause : Type 0 where
  catch filter : Value → Clause

-- The class of an instruction. `operation` is `Instruction` itself. A `GEPInstr` keeps its pointer
-- and indices, an `ExtractValue` its aggregate, and an `InsertValue` that and the value a second
-- time beside the operands. A switch has its default and its cases, a `phi` its incoming pairs.
pub data Kind : Type 0 where
  operation branch conditional_branch ret select cast extract_element insert_element : Kind
  unreachable shuffle_vector : Kind
  indirect_branch : List Value → Kind
  switch : Value → List (Value × Value) → Kind
  compare : Text → Kind
  load store : Option ℕ → Kind
  load_atomic store_atomic : Text → ℕ → Kind
  alloca_of : Ty → Option ℕ → Kind
  gep_of : Value → List Value → Bool → Ty → Kind
  phi : List (Value × Value) → Kind
  extract_value : Value → List ℕ → Kind
  insert_value : Value → Value → List ℕ → Kind
  atomic_rmw : Text → Text → Kind
  cmpxchg : Text → Text → Kind
  fence : Text → Option Text → Kind
  comment : Text → Kind
  call : CallOptions → Kind
  invoke : CallOptions → Value → Value → Kind
  landing_pad : Bool → List Clause → Kind

-- An instruction: `ident` stands for the object, and `parent` for the block it was made for.
-- `operands_fixed` tells whether `operands` is a tuple, which `replace_usage` makes of the list.
pub record Instr : Type 0 where
  pub ident : ℕ
  pub parent : ℕ
  pub typ : Ty
  pub opname : Text
  pub operands : List Value
  pub operands_fixed : Bool
  pub name : Text
  pub flags : List Text
  pub metadata : List (Text × Value)
  pub kind : Kind

-- What a class gives to `Instruction.__init__`, and keeps itself.
pub record Draft : Type 0 where
  pub typ : Ty
  pub opname : Text
  pub operands : List Value
  pub name : Text
  pub flags : List Text
  pub kind : Kind

-- The instruction as an operand of others.
unfoldable pub as_value : ℕ → Ty → Text → Kind → Value
as_value i t n (alloca_of a align) = alloca i a t n
as_value i t n _ = instruction i t n

unfoldable pub value_of : Instr → Value
unfolding as_value
value_of instr = as_value instr.ident instr.typ instr.name instr.kind
