-- ===== src/Values/ConstOps.antt =====
-- `_ConstOpMixin` of llvmlite/ir/values.py: operations on constants and globals, which return
-- constants that are already formatted.
use llvmlite.Prelude.{
  ℕ, zero, suc, Bool, true, ◌&&◌, List, ◌++◌, map, Option, none, some, if◌then◌else◌,
}
use llvmlite.Prelude.Texts.{Text, text_eq, lit, join}
use llvmlite.Prelude.Int.{pos, negsuc}
use llvmlite.Result.{Result, ok, err, type_error, value_error, attribute_error, ◌>>=◌, ◌>>◌, guard}
use llvmlite.Types.{Ty, int, vector, type_eq, is_pointer, is_int, as_pointer, addrspace_of, pointee}
use llvmlite.Types.Print.{type_text}
use llvmlite.Types.Lookup.{Bodies}
use llvmlite.Values.{
  Value, Env, number, constant, formatted, global_variable, type_of, get_reference, typed_text,
}
use llvmlite.Values.Wrap.{Raws, atom, make_formatted, sequence, end, more, make_constant}
use llvmlite.Values.Gep.{gep_all}

-- The operations that `@_binop` defines, by the name of the instruction.
pub data BinOp : Type 0 where
  shl lshr ashr add fadd sub fsub mul fmul udiv sdiv fdiv urem srem frem or and xor : BinOp

unfoldable pub binop_name : BinOp → Text
unfolding lit
binop_name shl = lit "shl"
binop_name lshr = lit "lshr"
binop_name ashr = lit "ashr"
binop_name add = lit "add"
binop_name fadd = lit "fadd"
binop_name sub = lit "sub"
binop_name fsub = lit "fsub"
binop_name mul = lit "mul"
binop_name fmul = lit "fmul"
binop_name udiv = lit "udiv"
binop_name sdiv = lit "sdiv"
binop_name fdiv = lit "fdiv"
binop_name urem = lit "urem"
binop_name srem = lit "srem"
binop_name frem = lit "frem"
binop_name or = lit "or"
binop_name and = lit "and"
binop_name xor = lit "xor"

-- The operations that `@_castop` defines; the last one is the builder's alone.
pub data CastOp : Type 0 where
  trunc zext sext fptrunc fpext bitcast fptoui uitofp fptosi sitofp : CastOp
  ptrtoint inttoptr addrspacecast : CastOp

unfoldable pub castop_name : CastOp → Text
unfolding lit
castop_name trunc = lit "trunc"
castop_name zext = lit "zext"
castop_name sext = lit "sext"
castop_name fptrunc = lit "fptrunc"
castop_name fpext = lit "fpext"
castop_name bitcast = lit "bitcast"
castop_name fptoui = lit "fptoui"
castop_name uitofp = lit "uitofp"
castop_name fptosi = lit "fptosi"
castop_name sitofp = lit "sitofp"
castop_name ptrtoint = lit "ptrtoint"
castop_name inttoptr = lit "inttoptr"
castop_name addrspacecast = lit "addrspacecast"

-- `"{0} {1}".format(v.type, v.get_reference())`
unfoldable pub operand_text : Env → Value → Text
unfolding typed_text
operand_text env v = typed_text env (type_of v) (get_reference env v)

unfoldable pub binop_text : Env → BinOp → Value → Value → Text
unfolding operand_text lit binop_name
binop_text env op lhs rhs =
    binop_name op
    ++ (lit " (" ++ (operand_text env lhs ++ (lit ", " ++ (operand_text env rhs ++ lit ")"))))

-- `_binop`
unfoldable pub const_binop : Env → BinOp → Value → Value → Result Value
unfolding binop_text make_formatted
const_binop env op lhs rhs =
    if type_eq (type_of lhs) (type_of rhs)
    then make_formatted (type_of lhs) (binop_text env op lhs rhs)
    else err value_error

-- The bodies that `ptrtoint` and `inttoptr` have under `@_castop`.
unfoldable pub cast_check : CastOp → Ty → Ty → Result (Unit {0})
unfolding is_pointer is_int
cast_check ptrtoint from to = guard (is_pointer from) type_error >> guard (is_int to) type_error
cast_check inttoptr from to = guard (is_int from) type_error >> guard (is_pointer to) type_error
cast_check op from to = ok tt

unfoldable pub cast_text : Env → CastOp → Value → Ty → Text
unfolding operand_text lit castop_name
cast_text env op v typ =
    castop_name op
    ++ (lit " ("
        ++ (operand_text env v ++ (lit " to " ++ (type_text env.typed_pointers typ ++ lit ")"))))

-- `_castop`
unfoldable pub const_cast : Env → CastOp → Value → Ty → Result Value
unfolding cast_check cast_text make_formatted
const_cast env op v typ =
    cast_check op (type_of v) typ
    >> (if type_eq typ (type_of v) then ok v else make_formatted typ (cast_text env op v typ))

-- `_CMP_MAP`, which the builder has once more.
unfoldable pub cmp_map : Text → Option Text
unfolding lit text_eq
cmp_map cmpop =
    if text_eq cmpop (lit ">")
    then some (lit "gt")
    else if text_eq cmpop (lit "<")
    then some (lit "lt")
    else if text_eq cmpop (lit "==")
    then some (lit "eq")
    else if text_eq cmpop (lit "!=")
    then some (lit "ne")
    else if text_eq cmpop (lit ">=")
    then some (lit "ge")
    else if text_eq cmpop (lit "<=")
    then some (lit "le")
    else none

unfoldable pub is_equality : Text → Bool
unfolding lit text_eq
is_equality cmpop = if text_eq cmpop (lit "==") then true else text_eq cmpop (lit "!=")

-- The comparison that `_cmp` writes behind `icmp` or `fcmp`.
unfoldable pub signed_op : Text → Text → Text → Option Text → Result Text
unfolding lit is_equality
signed_op prefix sign cmpop none = err value_error
signed_op prefix sign cmpop (some op) =
    ok (if text_eq prefix (lit "i") && is_equality cmpop then op else sign ++ op)

unfoldable pub const_cmp_op : Text → Text → Text → Result Text
unfolding signed_op cmp_map
const_cmp_op prefix sign cmpop = signed_op prefix sign cmpop (cmp_map cmpop)

unfoldable pub cmp_text : Env → Text → Text → Value → Value → Text
unfolding operand_text lit
cmp_text env prefix op lhs rhs =
    prefix
    ++ (lit "cmp "
        ++ (op
            ++ (lit " ("
                ++ (operand_text env lhs ++ (lit ", " ++ (operand_text env rhs ++ lit ")"))))))

-- `_cmp`, of which `icmp_signed` and the like give the prefix and the sign.
unfoldable pub const_cmp : Env → Text → Text → Text → Value → Value → Result Value
unfolding const_cmp_op cmp_text make_formatted
const_cmp env prefix sign cmpop lhs rhs = const_cmp_op prefix sign cmpop >>= λ op.
    if type_eq (type_of lhs) (type_of rhs)
    then make_formatted (int 1) (cmp_text env prefix op lhs rhs)
    else err value_error

-- `(-1,) * count`
minus_ones : ℕ → Raws
minus_ones zero = end
minus_ones (suc n) = more (atom (number (negsuc 0))) (minus_ones n)

-- The constant -1 of `not_`, a vector of them for a vector type.
unfoldable pub all_ones : Bodies → Ty → Result Value
unfolding minus_ones
all_ones bodies (vector t n) = make_constant bodies (sequence 0 (minus_ones n)) (vector t n)
all_ones bodies t = make_constant bodies (atom (number (negsuc 0))) t

-- `not_`, `neg` and `fneg`
unfoldable pub const_not : Env → Bodies → Value → Result Value
unfolding all_ones const_binop
const_not env bodies v = all_ones bodies (type_of v) >>= λ rhs. const_binop env xor v rhs

unfoldable pub const_neg : Env → Bodies → Value → Result Value
unfolding const_binop
const_neg env bodies v =
    make_constant bodies (atom (number (pos 0))) (type_of v) >>= λ lhs. const_binop env sub lhs v

unfoldable pub const_fneg : Env → Value → Result Value
unfolding operand_text lit make_formatted
const_fneg env v = make_formatted (type_of v) (lit "fneg (" ++ (operand_text env v ++ lit ")"))

-- `self.addrspace` of a constant and of a global variable; a function has none.
unfoldable pub value_addrspace : Value → Result ℕ
unfolding is_pointer
value_addrspace (global_variable i t a n) = ok a
value_addrspace (constant t c) = if is_pointer t then addrspace_of t else err type_error
value_addrspace (formatted t s) = if is_pointer t then addrspace_of t else err type_error
value_addrspace v = err attribute_error

unfoldable pub gep_text : Env → Ty → Value → List Value → Text
unfolding operand_text lit join
gep_text env source v indices =
    lit "getelementptr ("
    ++ (type_text env.typed_pointers source
        ++ (lit ", "
            ++ (operand_text env v
                ++ (lit ", " ++ (join (lit ", ") (map (operand_text env) indices) ++ lit ")")))))

-- `gep`
unfoldable pub const_gep : Env → Bodies → Value → List Value → Result Value
unfolding gep_text value_addrspace make_formatted
const_gep env bodies v indices =
    guard (is_pointer (type_of v)) type_error
    >> (gep_all bodies (type_of v) indices >>= λ outtype. pointee (type_of v) >>= λ source.
        value_addrspace v >>= λ addrspace.
        as_pointer outtype addrspace >>= λ typ. make_formatted typ (gep_text env source v indices))
