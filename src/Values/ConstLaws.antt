-- ===== src/Values/ConstLaws.antt =====
-- What the constant operations of llvmlite/ir/values.py give: the written operation, of the type of
-- its operands or of the target of a cast.
use llvmlite.Prelude.{◌≡◌, refl, true, false, if◌then◌else◌, Bool-cases, inl, inr, sym, ap}
use llvmlite.Prelude.Texts.{Text}
use llvmlite.Result.{ok, err, value_error, >>=-eq-ok}
use llvmlite.Types.{Ty, void, vector, type_eq, is_vector, is_void}
use llvmlite.Types.Equality.{type_eq_refl}
use llvmlite.Values.{Env, Value, Values, formatted, text, items, constant, type_of}
use llvmlite.Values.Wrap.{repeat_value, scalar_constant, make_formatted}
use llvmlite.Values.ConstOps.{
  BinOp, binop_text, const_binop, CastOp, const_cast, cast_check, cast_text,
}

scalar_constant_text :
    (t : Ty) (s : Text)
    → is_vector t ≡ false
    → is_void t ≡ false
    → scalar_constant t (text s) ≡ ok (text s)
unfolding scalar_constant is_vector is_void
scalar_constant_text void s h k = cc
scalar_constant_text (vector t n) s h k = cc
scalar_constant_text _ s h k = refl

make_formatted_text :
    (t : Ty) (s : Text)
    → is_vector t ≡ false
    → is_void t ≡ false
    → make_formatted t s ≡ ok (formatted t (text s))
unfolding make_formatted
make_formatted_text t s h k = rw (scalar_constant_text t s h k) refl

-- A binary operation on constants that are no vectors: operands of different types are refused, and
-- otherwise the constant has their type, and is referred to by the written operation.
pub const_binop_text :
    (env : Env) (op : BinOp) (lhs rhs : Value)
    → is_vector (type_of lhs) ≡ false
    → is_void (type_of lhs) ≡ false
    → const_binop env op lhs rhs ≡ (
        if type_eq (type_of lhs) (type_of rhs)
        then ok (formatted (type_of lhs) (text (binop_text env op lhs rhs)))
        else err value_error)
unfolding const_binop
const_binop_text env op lhs rhs h k =
    rw (make_formatted_text (type_of lhs) (binop_text env op lhs rhs) h k) refl

items_only :
    (t : Ty) (s : Text) (v : Value)
    → is_vector t ≡ true
    → make_formatted t s ≡ ok v
    → (vs : Values) × (v ≡ formatted t (items vs))
unfolding make_formatted scalar_constant is_vector
items_only (vector t n) s v h e =
    let (c, made, rest) = >>=-eq-ok (scalar_constant (vector t n) (text s)) _ e in
    let (inner, made', rest') = >>=-eq-ok (scalar_constant t (text s)) _ made in
    (repeat_value n (constant t inner), cc)
items_only _ s v h e = cc

-- On vectors the operation is not the content of the constant: it is wrapped as the content of each
-- element first, so that the constant holds a sequence of elements.
pub const_binop_vector :
    (env : Env) (op : BinOp) (lhs rhs v : Value)
    → is_vector (type_of lhs) ≡ true
    → const_binop env op lhs rhs ≡ ok v
    → (vs : Values) × (v ≡ formatted (type_of lhs) (items vs))
unfolding const_binop
const_binop_vector env op lhs rhs v h e = elim (Bool-cases (type_eq (type_of lhs) (type_of rhs))) [
  | inl same ↦ items_only (type_of lhs) (binop_text env op lhs rhs) v h (rw same at e)
  | inr other ↦ cc (rw other at e)
]

formatted_type : (t : Ty) (s : Text) {v : Value} → make_formatted t s ≡ ok v → type_of v ≡ t
unfolding make_formatted type_of
formatted_type t s {v} h =
    let (c, made, rest) = >>=-eq-ok (scalar_constant t (text s)) _ h in
    let e : formatted t c ≡ v = cc in sym (ap type_of e)

-- A cast of a constant that goes through has the type that was asked for.
pub const_cast_type :
    (env : Env) (op : CastOp) (v : Value) (typ : Ty) {r : Value}
    → const_cast env op v typ ≡ ok r
    → type_eq typ (type_of r) ≡ true
unfolding const_cast
const_cast_type env op v typ {r} h =
    let (u, checked, rest) = >>=-eq-ok (cast_check op (type_of v) typ) _ h in
    elim (Bool-cases (type_eq typ (type_of v))) [
      | inl same ↦ let e : v ≡ r = cc (rw same at rest) in rw (← e) same
      | inr other ↦
          rw (formatted_type typ (cast_text env op v typ) (rw other at rest)) (type_eq_refl typ)
    ]
