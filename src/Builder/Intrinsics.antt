-- ===== src/Builder/Intrinsics.antt =====
-- The methods of llvmlite/ir/builder.py that call an intrinsic of the module, inline assembler, the
-- complements, and landing pads: the decorators `_binop_with_overflow`, `_uniop_intrinsic_int`,
-- `_uniop_intrinsic_float`, `_uniop_intrinsic_with_flag` and `_triop_intrinsic`.
pub mod Declared
use llvmlite.Prelude.{
  ℕ, zero, suc, Bool, true, false, List, [], ◌∷◌, ◌++◌, ◌&&◌, not, Option, none, some, ◌==◌,
  if◌then◌else◌,
}
use llvmlite.Prelude.Texts.{Text, lit}
use llvmlite.Prelude.Int.{ℤ, pos, negsuc}
use llvmlite.Result.{Result, ok, err, type_error, value_error}
use llvmlite.Exec.{Exec, pure, raise, lift, ◌>>=◌, ◌>>◌}
use llvmlite.Types.{
  Ty, Tys, int, half, float, double, void, vector, function, literal_struct, type_eq, is_int,
}
use llvmlite.Types.Lookup.{Bodies}
use llvmlite.Values.{Value, Const, type_of, inline_asm}
use llvmlite.Values.Wrap.{Raw, Raws, make_constant, tys_of}
use llvmlite.Values.ConstOps.{BinOp}
use llvmlite.Instructions.{Instr, Kind, value_of}
use llvmlite.Instructions.Create.{draft}
use llvmlite.Instructions.Calls.{CallGiven, Tail}
use llvmlite.Module.Globals.{Globals, declare_intrinsic, function_of}
use llvmlite.Builder.{State}
use llvmlite.Builder.Ops
use llvmlite.Builder.Ops.{emit}

-- The builder with the globals of its module.
pub record Linked : Type 0 where
  pub builder : State
  pub globals : Globals

-- A method of one of the two.
abbrev pub in_builder : {A : Type 0} → Exec State A → Exec Linked A
in_builder method l =
    let (outcome, builder) = method l.builder in (outcome, record l { builder = builder })

abbrev pub in_globals : {A : Type 0} → Exec Globals A → Exec Linked A
in_globals method l =
    let (outcome, globals) = method l.globals in (outcome, record l { globals = globals })

-- A call with the defaults of `IRBuilder.call`, beside the convention that the callee keeps.
abbrev pub plain_given : Text → CallGiven
plain_given convention = record {
  convention = convention;
  cconv = none;
  fastmath = [];
  attrs = [];
  arg_attrs = [];
}

-- What the caller's module has: the flag for typed pointers, and what a function keeps as its calling
-- convention.
pub record Setting : Type 0 where
  pub typed_pointers : Bool
  pub convention : Value → Text

-- `self.module.declare_intrinsic(...)` and `self.call(fn, args, name)`.
unfoldable pub call_intrinsic :
    Setting → Text → List Ty → Option Ty → List Value → Text → Exec Linked Instr
unfolding declare_intrinsic Ops.call
call_intrinsic setting opname tys fnty args name =
    in_globals (declare_intrinsic setting.typed_pointers opname tys fnty) >>= λ fn.
    in_builder (Ops.call fn args name (Tail.truth false) (plain_given (setting.convention fn)))

-- `"llvm.%s.with.overflow" % (opname,)`
abbrev overflow_name : Text → Text
overflow_name opname = lit "llvm." ++ (opname ++ lit ".with.overflow")

abbrev overflow_type : Ty → Ty
overflow_type ty = function_of (literal_struct (tys_of (ty ∷ int 1 ∷ [])) false) (ty ∷ ty ∷ [])

-- `_binop_with_overflow`
unfoldable pub binop_with_overflow : Setting → Text → Value → Value → Text → Exec Linked Instr
unfolding lit type_eq is_int call_intrinsic
binop_with_overflow setting opname lhs rhs name =
    if not (type_eq (type_of lhs) (type_of rhs))
    then raise value_error
    else if not (is_int (type_of lhs))
    then raise type_error
    else call_intrinsic setting (overflow_name opname) (type_of lhs ∷ [])
        (some (overflow_type (type_of lhs))) (lhs ∷ rhs ∷ []) name

-- `_uniop_intrinsic_int`
unfoldable pub uniop_intrinsic_int : Setting → Text → Value → Text → Exec Linked Instr
unfolding is_int call_intrinsic
uniop_intrinsic_int setting opname operand name =
    if not (is_int (type_of operand))
    then raise type_error
    else call_intrinsic setting opname (type_of operand ∷ []) none (operand ∷ []) name

unfoldable pub is_float_or_double : Ty → Bool
is_float_or_double float = true
is_float_or_double double = true
is_float_or_double _ = false

unfoldable pub is_floating : Ty → Bool
unfolding is_float_or_double
is_floating half = true
is_floating t = is_float_or_double t

unfoldable pub is_int_of : ℕ → Ty → Bool
is_int_of width (int n) = n == width
is_int_of width t = false

-- `_uniop_intrinsic_float`
unfoldable pub uniop_intrinsic_float : Setting → Text → Value → Text → Exec Linked Instr
unfolding is_float_or_double call_intrinsic
uniop_intrinsic_float setting opname operand name =
    if not (is_float_or_double (type_of operand))
    then raise type_error
    else call_intrinsic setting opname (type_of operand ∷ []) none (operand ∷ []) name

-- `_uniop_intrinsic_with_flag`
unfoldable pub uniop_intrinsic_with_flag : Setting → Text → Value → Value → Text → Exec Linked Instr
unfolding is_int is_int_of call_intrinsic
uniop_intrinsic_with_flag setting opname operand flag name =
    if not (is_int (type_of operand))
    then raise type_error
    else if not (is_int_of 1 (type_of flag))
    then raise type_error
    else call_intrinsic setting opname (type_of operand ∷ type_of flag ∷ []) none
        (operand ∷ flag ∷ []) name

-- `_triop_intrinsic`
unfoldable pub triop_intrinsic : Setting → Text → Value → Value → Value → Text → Exec Linked Instr
unfolding type_eq is_floating call_intrinsic
triop_intrinsic setting opname a b c name =
    if not (type_eq (type_of a) (type_of b) && type_eq (type_of b) (type_of c))
    then raise type_error
    else if not (is_floating (type_of a))
    then raise type_error
    else call_intrinsic setting opname (type_of a ∷ type_of b ∷ type_of c ∷ []) none
        (a ∷ b ∷ c ∷ []) name

-- `convert_from_fp16`
unfoldable pub convert_from_fp16 : Setting → Value → Option Ty → Text → Exec Linked Instr
unfolding lit is_float_or_double is_int_of call_intrinsic
convert_from_fp16 setting a none name = raise type_error
convert_from_fp16 setting a (some to) name =
    if not (is_float_or_double to)
    then raise type_error
    else if not (is_int_of 16 (type_of a))
    then raise type_error
    else call_intrinsic setting (lit "llvm.convert.from.fp16") (to ∷ []) none (a ∷ []) name

-- `assume`
unfoldable pub assume : Setting → Value → Exec Linked Instr
unfolding lit call_intrinsic
assume setting cond = call_intrinsic setting (lit "llvm.assume") [] none (cond ∷ []) []

-- `asm`, `load_reg` and `store_reg`
unfoldable pub asm : Ty → Text → Text → List Value → Bool → Text → Exec State Instr
unfolding Ops.call
asm ftype code constraint args side_effect name =
    Ops.call (inline_asm ftype side_effect code constraint) args name (Tail.truth false)
      (plain_given [])

unfoldable pub load_reg : Ty → Text → Text → Exec State Instr
unfolding lit asm
load_reg reg_type reg_name name =
    asm (function_of reg_type []) [] (lit "={" ++ (reg_name ++ lit "}")) [] false name

unfoldable pub store_reg : Value → Ty → Text → Text → Exec State Instr
unfolding lit asm
store_reg value reg_type reg_name name =
    asm (function_of void (reg_type ∷ [])) [] (lit "{" ++ (reg_name ++ lit "}")) (value ∷ []) true
      name

unfoldable pub all_ones : ℕ → Raws
all_ones zero = Raws.end
all_ones (suc n) = Raws.more (Raw.atom (Const.number (negsuc 0))) (all_ones n)

-- The constant with which `not_` complements: -1, or a vector of it. A tuple has a number too.
unfoldable pub complement : ℕ → Ty → Raw
unfolding all_ones
complement i (vector t n) = Raw.sequence i (all_ones n)
complement i t = Raw.atom (Const.number (negsuc 0))

-- `not_` and `neg`
unfoldable pub not_ : Bodies → ℕ → Value → Text → Exec State Instr
unfolding complement make_constant Ops.binop
not_ bodies i value name =
    lift (make_constant bodies (complement i (type_of value)) (type_of value)) >>= λ rhs.
    Ops.binop BinOp.xor value rhs name []

unfoldable pub neg : Bodies → Value → Text → Exec State Instr
unfolding make_constant Ops.binop
neg bodies value name =
    lift (make_constant bodies (Raw.atom (Const.number (pos 0))) (type_of value)) >>= λ zero_value.
    Ops.binop BinOp.sub zero_value value name []

-- `landingpad`
unfoldable pub landingpad : Ty → Text → Bool → Exec State Instr
unfolding lit
landingpad typ name cleanup =
    emit (draft typ (lit "landingpad") [] name [] (Kind.landing_pad cleanup []))
