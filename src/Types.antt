-- ===== src/Types.antt =====
-- llvmlite/ir/types.py: the types as data, their equality, text, pointers and element lookup. The
-- proofs and the larger operations are in the modules below.
pub mod Equality
pub mod Print
pub mod Lookup
use llvmlite.Prelude.{
  ℕ, zero, suc, ◌+◌, ◌-◌, Bool, true, false, not, ◌&&◌, ◌||◌, List, [], ◌∷◌, ◌++◌, map, Option,
  none, some, ◌==◌, bool_eq, if◌then◌else◌,
}
use llvmlite.Prelude.Texts.{Text, text_eq, lit, decimal, join}
use llvmlite.Escape.{wrapname}
use llvmlite.Result.{Result, ok, err, type_error, assertion_error, attribute_error}

-- One constructor for each class. `ptr` is an opaque `PointerType`, `typed_ptr` a
-- `_TypedPointerType`. A `LabelType` has no `__eq__` and is compared by identity, the number here.
-- The body of an identified struct, which `set_body` sets later, is kept by its context.
mutual
  pub data Ty : Type 0 where
    metadata void half float double : Ty
    label : ℕ → Ty
    ptr : ℕ → Ty
    typed_ptr : Ty → ℕ → Ty
    function : Ty → Tys → Bool → Ty
    int : ℕ → Ty
    vector array : Ty → ℕ → Ty
    literal_struct : Tys → Bool → Ty
    identified : Text → Bool → Ty

  pub data Tys : Type 0 where
    nil : Tys
    cons : Ty → Tys → Tys

-- The `__eq__` methods. Those that return nothing for another class return false here.
unfoldable mutual
  pub type_eq : Ty → Ty → Bool
  type_eq metadata metadata = true
  type_eq void void = true
  type_eq half half = true
  type_eq float float = true
  type_eq double double = true
  type_eq (label i) (label j) = i == j
  type_eq (ptr a) (ptr b) = a == b
  type_eq (ptr a) (typed_ptr t b) = a == b
  type_eq (typed_ptr s a) (ptr b) = a == b
  type_eq (typed_ptr s a) (typed_ptr t b) = type_eq s t && (a == b)
  type_eq (function r xs v) (function s ys w) = type_eq r s && (types_eq xs ys && bool_eq v w)
  type_eq (int m) (int n) = m == n
  type_eq (vector s m) (vector t n) = type_eq s t && (m == n)
  type_eq (array s m) (array t n) = type_eq s t && (m == n)
  type_eq (literal_struct xs p) (literal_struct ys q) = types_eq xs ys && bool_eq p q
  type_eq (identified x p) (identified y q) = text_eq x y && bool_eq p q
  type_eq _ _ = false

  -- Equality of the tuples of argument or element types.
  pub types_eq : Tys → Tys → Bool
  types_eq nil nil = true
  types_eq (cons x xs) (cons y ys) = type_eq x y && types_eq xs ys
  types_eq _ _ = false

-- `isinstance(t, PointerType)`
unfoldable pub is_pointer : Ty → Bool
is_pointer (ptr a) = true
is_pointer (typed_ptr t a) = true
is_pointer _ = false

unfoldable pub is_int : Ty → Bool
is_int (int n) = true
is_int _ = false

unfoldable pub is_vector : Ty → Bool
is_vector (vector t n) = true
is_vector _ = false

unfoldable pub is_metadata : Ty → Bool
is_metadata metadata = true
is_metadata _ = false

unfoldable pub is_void : Ty → Bool
is_void void = true
is_void _ = false

-- `Type.as_pointer` through `PointerType.__new__` and the constructors: a pointer to an opaque
-- pointer is opaque, one to `void` fails an assertion, and `MetaDataType.as_pointer` raises.
unfoldable pub as_pointer : Ty → ℕ → Result Ty
as_pointer metadata addrspace = err type_error
as_pointer void addrspace = err assertion_error
as_pointer (ptr a) addrspace = ok (ptr addrspace)
as_pointer t addrspace = ok (typed_ptr t addrspace)

-- `PointerType.addrspace`, and the attribute error of any other type.
unfoldable pub addrspace_of : Ty → Result ℕ
addrspace_of (ptr a) = ok a
addrspace_of (typed_ptr t a) = ok a
addrspace_of _ = err attribute_error

-- `t.pointee`, which only a typed pointer has.
unfoldable pub pointee : Ty → Result Ty
pointee (typed_ptr t a) = ok t
pointee _ = err attribute_error

unfoldable pub ty_list : Tys → List Ty
ty_list nil = []
ty_list (cons t ts) = t ∷ ty_list ts
