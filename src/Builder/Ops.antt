-- ===== src/Builder/Ops.antt =====
-- The methods of llvmlite/ir/builder.py that add one instruction: each makes it for the current
-- block, with the checks of its class, and inserts it there.
use llvmlite.Prelude.{
  ◌==◌, any, ℕ, Bool, true, false, List, [], ◌∷◌, ◌++◌, Option, none, some, if◌then◌else◌,
}
use llvmlite.Prelude.Texts.{lit, Text}
use llvmlite.Result.{Result, ok, err, value_error, type_error, assertion_error}
use llvmlite.Exec.{Exec, pure, raise, lift, ◌>>=◌}
use llvmlite.Types.{void, Ty, type_eq, is_int, is_pointer, pointee}
use llvmlite.Types.Lookup.{Bodies}
use llvmlite.Attributes.{has}
use llvmlite.Values.{Value, type_of}
use llvmlite.Values.ConstOps.{BinOp, binop_name, CastOp, castop_name, cmp_map, is_equality}
use llvmlite.Instructions.{Instr, Draft, Kind, value_of}
use llvmlite.Instructions.Create
use llvmlite.Instructions.Create.{draft, terminator}
use llvmlite.Instructions.Calls
use llvmlite.Instructions.Shuffle
use llvmlite.Prelude.Int.{ℤ}
use llvmlite.Builder.{State, create, insert, set_terminator}

-- A constructor whose checks have passed, and `_insert`.
abbrev pub emit : Draft → Exec State Instr
emit d = create d >>= insert

abbrev pub emit_checked : Result Draft → Exec State Instr
emit_checked r = lift r >>= emit

abbrev pub finish : Draft → Exec State Instr
finish d = create d >>= set_terminator

-- `_unop` and `_uniop`
unfoldable pub unop : Text → Value → Text → List Text → Exec State Instr
unfolding create insert
unop opname arg name flags = emit (draft (type_of arg) opname (arg ∷ []) name flags Kind.operation)

-- `_binop`
unfoldable pub binop : BinOp → Value → Value → Text → List Text → Exec State Instr
unfolding create insert type_eq binop_name
binop op lhs rhs name flags =
    if type_eq (type_of lhs) (type_of rhs)
    then emit (draft (type_of lhs) (binop_name op) (lhs ∷ rhs ∷ []) name flags Kind.operation)
    else raise value_error

-- `_castop`: a value that has the type already is its own result.
unfoldable pub castop : CastOp → Value → Ty → Text → Exec State Value
unfolding create insert type_eq castop_name value_of
castop op val typ name =
    if type_eq (type_of val) typ
    then pure val
    else (emit (Create.cast (castop_name op) val typ name) >>= λ instr. pure (value_of instr))

-- The predicate of `_icmp`, and of `fcmp_ordered` and `fcmp_unordered`.
abbrev pub signed_or_equal : Text → Text → Option Text → Result Text
signed_or_equal prefix cmpop none = err value_error
signed_or_equal prefix cmpop (some op) = ok (if is_equality cmpop then op else prefix ++ op)

unfoldable pub icmp_op : Text → Text → Result Text
unfolding cmp_map is_equality
icmp_op prefix cmpop = signed_or_equal prefix cmpop (cmp_map cmpop)

abbrev pub prefixed : Text → Text → Option Text → Text
prefixed prefix cmpop none = cmpop
prefixed prefix cmpop (some op) = prefix ++ op

unfoldable pub fcmp_op : Text → Text → Text
unfolding cmp_map
fcmp_op prefix cmpop = prefixed prefix cmpop (cmp_map cmpop)

unfoldable pub icmp : Text → Text → Value → Value → Text → Exec State Instr
unfolding create insert icmp_op
icmp prefix cmpop lhs rhs name =
    lift (icmp_op prefix cmpop) >>= λ op. emit_checked (Calls.icmp op lhs rhs name)

unfoldable pub fcmp : Text → Text → Value → Value → Text → List Text → Exec State Instr
unfolding create insert fcmp_op
fcmp prefix cmpop lhs rhs name flags =
    emit_checked (Calls.fcmp (fcmp_op prefix cmpop) lhs rhs name flags)

unfoldable pub select : Value → Value → Value → Text → List Text → Exec State Instr
unfolding create insert
select cond lhs rhs name flags = emit_checked (Create.select cond lhs rhs name flags)

-- `alloca`: a size that is a value must be an integer.
abbrev size_ok : Option Value → Bool
size_ok none = true
size_ok (some v) = is_int (type_of v)

unfoldable pub alloca : Ty → Option Value → Text → Exec State Instr
unfolding create insert
alloca typ size name =
    if size_ok size then emit_checked (Create.alloca typ size name) else raise assertion_error

unfoldable pub load : Bodies → Value → Text → Option ℕ → Option Ty → Exec State Instr
unfolding create insert
load bodies ptr name align typ =
    if is_pointer (type_of ptr)
    then emit_checked (Create.load bodies ptr name typ align)
    else raise type_error

unfoldable pub load_atomic : Bodies → Value → Text → ℕ → Text → Option Ty → Exec State Instr
unfolding create insert
load_atomic bodies ptr ordering align name typ =
    if is_pointer (type_of ptr)
    then emit_checked (Create.load_atomic bodies ptr ordering align name typ)
    else raise type_error

-- `store` accepts any value at an opaque pointer.
unfoldable pub store_fits : Ty → Ty → Bool
unfolding type_eq
store_fits (Ty.ptr a) t = true
store_fits (Ty.typed_ptr p a) t = type_eq p t
store_fits p t = false

unfoldable pub store : Value → Value → Option ℕ → Exec State Instr
unfolding create insert store_fits
store value ptr align =
    if store_fits (type_of ptr) (type_of value)
    then emit (Create.store value ptr align)
    else raise type_error

-- `store_atomic` asks even an opaque pointer for its pointee.
unfoldable pub store_atomic : Value → Value → Text → ℕ → Exec State Instr
unfolding create insert type_eq
store_atomic value ptr ordering align =
    if is_pointer (type_of ptr)
    then (lift (pointee (type_of ptr)) >>= λ t.
        if type_eq t (type_of value)
        then emit (Create.store_atomic value ptr ordering align)
        else raise type_error)
    else raise type_error

unfoldable pub call : Value → List Value → Text → Calls.Tail → Calls.CallGiven → Exec State Instr
unfolding create insert
call fn args name tail given = emit_checked (Calls.call fn args name tail given)

unfoldable pub gep : Bodies → Value → List Value → Bool → Text → Option Ty → Exec State Instr
unfolding create insert
gep bodies ptr indices inbounds name source_etype =
    emit_checked (Create.gep bodies ptr indices inbounds name source_etype)

unfoldable pub extract_element : Value → Value → Text → Exec State Instr
unfolding create insert
extract_element vector idx name = emit_checked (Create.extract_element vector idx name)

unfoldable pub insert_element : Value → Value → Value → Text → Exec State Instr
unfolding create insert
insert_element vector value idx name = emit_checked (Create.insert_element vector value idx name)

unfoldable pub shuffle_vector : (ℕ → Option ℤ) → Value → Value → Value → Text → Exec State Instr
unfolding Shuffle.shuffle_vector
shuffle_vector equals vector1 vector2 mask name =
    emit_checked (Shuffle.shuffle_vector equals vector1 vector2 mask name)

unfoldable pub extract_value : Bodies → Value → List ℕ → Text → Exec State Instr
unfolding create insert
extract_value bodies agg idx name = emit_checked (Create.extract_value bodies agg idx name)

unfoldable pub insert_value : Bodies → Value → Value → List ℕ → Text → Exec State Instr
unfolding create insert
insert_value bodies agg value idx name =
    emit_checked (Create.insert_value bodies agg value idx name)

unfoldable pub phi : Ty → Text → List Text → Exec State Instr
unfolding create insert
phi typ name flags = emit (Create.phi typ name flags)

unfoldable pub atomic_rmw : Text → Value → Value → Text → Text → Exec State Instr
unfolding create insert
atomic_rmw op ptr value ordering name = emit (Create.atomic_rmw op ptr value ordering name)

abbrev or_else : Option Text → Text → Text
or_else none default = default
or_else (some t) default = t

unfoldable pub cmpxchg : Value → Value → Value → Text → Option Text → Text → Exec State Instr
unfolding create insert
cmpxchg ptr cmp val ordering failordering name =
    emit (Create.cmpxchg ptr cmp val ordering (or_else failordering ordering) name)

-- `fence` and `comment`, whose classes check their argument once the name is taken.
abbrev fence_orderings : List Text
fence_orderings = lit "acquire" ∷ lit "release" ∷ lit "acq_rel" ∷ lit "seq_cst" ∷ []

unfoldable pub fence : Text → Option Text → Text → Exec State Instr
unfolding create insert lit has
fence ordering targetscope name =
    create (draft void (lit "fence") [] name [] (Kind.fence ordering targetscope)) >>= λ instr.
    if has ordering fence_orderings then insert instr else raise value_error

unfoldable pub comment : Text → Exec State Instr
unfolding create insert lit
comment text = create (draft void (lit ";") [] [] [] (Kind.comment text)) >>= λ instr.
    if any (λ c. c == 10) text then raise assertion_error else insert instr
