-- ===== src/Instructions/Calls.antt =====
-- `CallInstr` and the comparisons of llvmlite/ir/instructions.py: the checks of the arguments of a
-- call, and of the predicate and the flags of a comparison.
use llvmlite.Prelude.{
  ℕ, Option, none, some, ltb, length, true, false, Bool, List, [], ◌∷◌, all, if◌then◌else◌,
}
use llvmlite.Prelude.Texts.{Text, lit}
use llvmlite.Result.{Result, ok, err, ◌>>=◌, type_error, value_error, index_error, attribute_error}
use llvmlite.Types.{Ty, function, type_eq, is_metadata, ty_list}
use llvmlite.Values.{Value, md_argument, type_of, function_type}
use llvmlite.Attributes.{has, add_all, AttrKind, ArgumentAttributes, no_attributes}
use llvmlite.Prelude.Int.{ℤ, pos, negsuc}
use llvmlite.Instructions.{Draft, Kind, CallOptions}
use llvmlite.Instructions.Create.{draft, compare_type}

-- `MetaDataArgument(arg)` where the function wants metadata and the argument is none.
unfoldable pub fix_argument : Ty → Value → Value
unfolding is_metadata type_eq
fix_argument expected arg =
    if is_metadata expected
    then (if type_eq (type_of arg) expected then arg else md_argument arg)
    else arg

-- The loop over the parameters: a missing argument is an index error, a further one is kept.
unfoldable pub fix_arguments : List Ty → List Value → Result (List Value)
unfolding fix_argument
fix_arguments [] args = ok args
fix_arguments (t ∷ ts) [] = err index_error
fix_arguments (t ∷ ts) (arg ∷ args) =
    if type_eq (type_of (fix_argument t arg)) t
    then (fix_arguments ts args >>= λ rest. ok (fix_argument t arg ∷ rest))
    else err type_error

-- `CallInstr`: a call of a value with this function type.
unfoldable pub call_with : Text → Kind → Value → List Value → Text → Ty → Result Draft
unfolding fix_arguments
call_with opname kind callee args name (function r ts v) =
    fix_arguments (ty_list ts) args >>= λ fixed. ok (draft r opname (callee ∷ fixed) name [] kind)
call_with opname kind callee args name t = err attribute_error

-- The argument `tail`: a text, or an object that is read as a truth value.
pub data Tail : Type 0 where
  marker : Text → Tail
  truth : Bool → Tail

-- `TailMarkerOptions`
abbrev tail_options : List Text
tail_options = lit "tail" ∷ lit "musttail" ∷ lit "notail" ∷ []

unfoldable pub tail_text : Tail → Text
unfolding has lit
tail_text (truth true) = lit "tail"
tail_text (truth false) = []
tail_text (marker []) = []
tail_text (marker (c ∷ cs)) = if has (c ∷ cs) tail_options then c ∷ cs else lit "tail"

abbrev or_else : Option Text → Option Text → Option Text
or_else none other = other
or_else (some t) other = some t

-- What a caller gives beside the callee and the arguments. `convention` is what the callee keeps as
-- its calling convention, if it is a function.
pub record CallGiven : Type 0 where
  pub convention : Text
  pub cconv : Option Text
  pub fastmath : List Text
  pub attrs : List Text
  pub arg_attrs : List (ℤ × List Text)

unfoldable pub cconv_of : Value → CallGiven → Option Text
cconv_of (Value.func i t n) given = or_else given.cconv (some given.convention)
cconv_of callee given = given.cconv

-- `0 <= idx < len(args)`
unfoldable pub argument_index : ℕ → ℤ → Result ℕ
argument_index count (pos i) = if ltb i count then ok i else err value_error
argument_index count (negsuc i) = err value_error

-- The loop over `arg_attrs`.
unfoldable pub fix_arg_attrs : ℕ → List (ℤ × List Text) → Result (List (ℕ × ArgumentAttributes))
unfolding argument_index
fix_arg_attrs count [] = ok []
fix_arg_attrs count ((idx, names) ∷ more) = argument_index count idx >>= λ i.
    add_all AttrKind.argument names [] >>= λ attrs.
    fix_arg_attrs count more >>= λ rest. ok ((i, record no_attributes { names = attrs }) ∷ rest)

-- `CallInstr.__init__` up to the arguments.
unfoldable pub call_options : Value → ℕ → Tail → CallGiven → Result CallOptions
unfolding tail_text cconv_of fix_arg_attrs
call_options callee count tail given = add_all AttrKind.fastmath given.fastmath [] >>= λ flags.
    add_all AttrKind.call given.attrs [] >>= λ attrs.
    fix_arg_attrs count given.arg_attrs >>= λ arg_attrs. ok (record {
      cconv = cconv_of callee given;
      tail = tail_text tail;
      fastmath = flags;
      attributes = attrs;
      arg_attributes = arg_attrs;
    })

unfoldable pub call : Value → List Value → Text → Tail → CallGiven → Result Draft
unfolding lit call_with call_options
call callee args name tail given = call_options callee (length args) tail given >>= λ options.
    function_type callee >>= λ t. call_with (lit "call") (Kind.call options) callee args name t

-- `InvokeInstr`
unfoldable pub invoke : Value → List Value → Value → Value → Text → CallGiven → Result Draft
unfolding lit call_with call_options
invoke callee args normal_to unwind_to name given =
    call_options callee (length args) (truth false) given >>= λ options.
    function_type callee >>= λ t.
    call_with (lit "invoke") (Kind.invoke options normal_to unwind_to) callee args name t

-- `VALID_OP` and `VALID_FLAG`
abbrev pub icmp_ops : List Text
icmp_ops =
    lit "eq"
    ∷ lit "ne"
    ∷ lit "ugt"
    ∷ lit "uge"
    ∷ lit "ult"
    ∷ lit "ule"
    ∷ lit "sgt"
    ∷ lit "sge"
    ∷ lit "slt"
    ∷ lit "sle"
    ∷ []

abbrev pub fcmp_ops : List Text
fcmp_ops =
    lit "false"
    ∷ lit "oeq"
    ∷ lit "ogt"
    ∷ lit "oge"
    ∷ lit "olt"
    ∷ lit "ole"
    ∷ lit "one"
    ∷ lit "ord"
    ∷ lit "ueq"
    ∷ lit "ugt"
    ∷ lit "uge"
    ∷ lit "ult"
    ∷ lit "ule"
    ∷ lit "une"
    ∷ lit "uno"
    ∷ lit "true"
    ∷ []

abbrev fcmp_flags : List Text
fcmp_flags =
    lit "nnan"
    ∷ lit "ninf"
    ∷ lit "nsz"
    ∷ lit "arcp"
    ∷ lit "contract"
    ∷ lit "afn"
    ∷ lit "reassoc"
    ∷ lit "fast"
    ∷ []

-- `CompareInstr`
unfoldable pub compare_with :
    Text → List Text → List Text → Text → Value → Value → Text → List Text → Result Draft
unfolding compare_type has
compare_with opname valid_op valid_flag op lhs rhs name flags =
    if has op valid_op
    then (if all (λ flag. has flag valid_flag) flags
        then ok (
            draft (compare_type (type_of lhs)) opname (lhs ∷ rhs ∷ []) name flags (Kind.compare op))
        else err value_error)
    else err value_error

unfoldable pub icmp : Text → Value → Value → Text → Result Draft
unfolding lit compare_with
icmp op lhs rhs name = compare_with (lit "icmp") icmp_ops [] op lhs rhs name []

unfoldable pub fcmp : Text → Value → Value → Text → List Text → Result Draft
unfolding lit compare_with
fcmp op lhs rhs name flags = compare_with (lit "fcmp") fcmp_ops fcmp_flags op lhs rhs name flags
