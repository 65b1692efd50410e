-- ===== src/Values/Wrap.antt =====
-- The construction of constants in llvmlite/ir: `wrap_constant_value` of types.py, and
-- `Constant.__init__`, `literal_array` and `literal_struct` of values.py.
use llvmlite.Prelude.{
  all, Bool, ℕ, zero, suc, List, [], ◌∷◌, length, replicate, ◌==◌, if◌then◌else◌, Option, none,
  some,
}
use llvmlite.Prelude.Int.{pos}
use llvmlite.Result.{Result, ok, err, type_error, value_error, assertion_error, ◌>>=◌}
use llvmlite.Types.{
  Ty, Tys, void, vector, array, int, literal_struct, identified, ty_list, type_eq, is_void,
}
use llvmlite.Types
use llvmlite.Types.Lookup.{Bodies}
use llvmlite.Values.{
  of_list, type_of, Value, Values, Const, constant, formatted, null, text, number, other, single,
  items, nil, cons,
}
use llvmlite.Prelude.Texts.{Text}

mutual
  -- What the caller passes to a constructor: one object, which may be a value, or a list or tuple
  -- with its identity.
  pub data Raw : Type 0 where
    atom : Const → Raw
    value : Value → Raw
    sequence : ℕ → Raws → Raw

  pub data Raws : Type 0 where
    end : Raws
    more : Raw → Raws → Raws

unfoldable pub count : Raws → ℕ
count end = 0
count (more r rs) = suc (count rs)

-- `(v, ) * count`
unfoldable pub repeat_value : ℕ → Value → Values
repeat_value zero v = nil
repeat_value (suc n) v = cons v (repeat_value n v)

-- `Constant(typ, c)` of an object that is neither a value nor a sequence: a vector repeats it.
unfoldable pub scalar_constant : Ty → Const → Result Const
unfolding repeat_value
scalar_constant void c = err assertion_error
scalar_constant (int n) null = ok (number (pos 0))
scalar_constant (vector t n) c =
    scalar_constant t c >>= λ inner. ok (items (repeat_value n (constant t inner)))
scalar_constant t c = ok c

-- A value passed where a constant's content is expected: a vector repeats a constant of its element
-- type, and builds a constant of any other value to repeat it.
unfoldable pub splat : Ty → Value → Result Const
unfolding repeat_value
splat (vector t n) (constant s c) =
    if type_eq s t then ok (items (repeat_value n (constant s c))) else err type_error
splat (vector t n) (formatted s c) =
    if type_eq s t then ok (items (repeat_value n (formatted s c))) else err type_error
splat (vector t n) v = splat t v >>= λ inner. ok (items (repeat_value n (constant t inner)))
splat void v = err assertion_error
splat t v = ok (single v)

-- `FormattedConstant(typ, s)`, whose text goes through `wrap_constant_value` too.
unfoldable pub make_formatted : Ty → Text → Result Value
unfolding scalar_constant
make_formatted t s = scalar_constant t (text s) >>= λ content. ok (formatted t content)

-- The types that a sequence is zipped with; `len` of an opaque struct fails its assertion.
unfoldable pub struct_elements : Option Tys → Result (List Ty)
unfolding ty_list
struct_elements none = err assertion_error
struct_elements (some ts) = ok (ty_list ts)

-- `none` for the types whose `wrap_constant_value` keeps what it is given.
unfoldable pub element_types : Bodies → Ty → Option (Result (List Ty))
unfolding struct_elements ty_list
element_types bodies (vector t n) = some (ok (replicate n t))
element_types bodies (array t n) = some (ok (replicate n t))
element_types bodies (literal_struct ts p) = some (ok (ty_list ts))
element_types bodies (identified name p) = some (struct_elements (bodies name))
element_types bodies t = none

-- The length test, and the constant of the wrapped elements.
unfoldable pub assemble :
    Option (Result (List Ty)) → Ty → ℕ → ℕ → (List Ty → Result Values) → Result Value
assemble none t i n wrapped = if is_void t then err assertion_error else ok (constant t (other i))
assemble (some (err e)) t i n wrapped = err e
assemble (some (ok ts)) t i n wrapped =
    if n == length ts then (wrapped ts >>= λ vs. ok (constant t (items vs))) else err value_error

-- `typ.wrap_constant_value` and the assertions of `Constant.__init__`.
unfoldable mutual
  pub make_constant : Bodies → Raw → Ty → Result Value
  make_constant bodies (atom c) t = scalar_constant t c >>= λ content. ok (constant t content)
  make_constant bodies (value v) t = splat t v >>= λ content. ok (constant t content)
  make_constant bodies (sequence i rs) t =
      assemble (element_types bodies t) t i (count rs) (wrap_items bodies rs)

  -- `[Constant(ty, val) if not isinstance(val, Value) else val for ty, val in zip(…)]`
  pub wrap_items : Bodies → Raws → List Ty → Result Values
  wrap_items bodies end ts = ok nil
  wrap_items bodies (more r rs) [] = ok nil
  wrap_items bodies (more (value v) rs) (t ∷ ts) = wrap_items bodies rs ts >>= λ vs. ok (cons v vs)
  wrap_items bodies (more r rs) (t ∷ ts) =
      make_constant bodies r t >>= λ v. wrap_items bodies rs ts >>= λ vs. ok (cons v vs)

unfoldable pub types_of : List Value → List Ty
types_of [] = []
types_of (v ∷ vs) = type_of v ∷ types_of vs

unfoldable pub tys_of : List Ty → Tys
tys_of [] = Types.nil
tys_of (t ∷ ts) = Types.cons t (tys_of ts)

-- `Constant.literal_array`
unfoldable pub literal_array : List Value → Result Value
unfolding types_of
literal_array [] = err value_error
literal_array (el ∷ elems) =
    if all (λ other. type_eq (type_of el) other) (types_of (el ∷ elems))
    then ok (constant (array (type_of el) (length (el ∷ elems))) (items (of_list (el ∷ elems))))
    else err type_error

-- `Constant.literal_struct`
unfoldable pub literal_struct_of : List Value → Bool → Value
unfolding tys_of
literal_struct_of elems packed =
    constant (literal_struct (tys_of (types_of elems)) packed) (items (of_list elems))
