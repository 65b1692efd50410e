-- ===== src/Types/Print.antt =====
-- The text of the types: `_to_string`, `__str__` and `intrinsic_name` of llvmlite/ir/types.py. The
-- flag is `ir_layer_typed_pointers_enabled` of llvmlite/__init__.py.
use llvmlite.Prelude.{
  sym, ℕ, ◌≡◌, refl, ap, ap₂, ◌∙◌, Bool, true, false, List, [], ◌∷◌, ◌++◌, ◌==◌, if◌then◌else◌,
}
use llvmlite.Prelude.Texts.{Text, lit, decimal, join}
use llvmlite.Escape.{wrapname}
use llvmlite.Result.{Result, ok, err, attribute_error, ◌>>=◌}
use llvmlite.Types.{
  Ty, Tys, metadata, void, half, float, double, label, ptr, typed_ptr, function, int, vector, array,
  literal_struct, identified, nil, cons, type_eq,
}
use llvmlite.Types.Equality.{erase, erase_all, type_eq-erase}

-- `PointerType._to_string`
unfoldable pub ptr_text : ℕ → Text
unfolding lit
ptr_text addrspace =
    if addrspace == 0 then lit "ptr" else lit "ptr addrspace(" ++ (decimal addrspace ++ lit ")")

-- `_TypedPointerType._to_string` with typed pointers enabled
unfoldable pub typed_ptr_text : Text → ℕ → Text
unfolding lit
typed_ptr_text pointee addrspace =
    if addrspace == 0
    then pointee ++ lit "*"
    else pointee ++ (lit " addrspace(" ++ (decimal addrspace ++ lit ")*"))

-- `FunctionType._to_string`
unfoldable pub function_text : Text → List Text → Bool → Text
unfolding lit join
function_text return_type [] true = return_type ++ lit " (...)"
function_text return_type [] false = return_type ++ lit " ()"
function_text return_type (a ∷ args) true =
    return_type ++ (lit " (" ++ (join (lit ", ") (a ∷ args) ++ lit ", ...)"))
function_text return_type (a ∷ args) false =
    return_type ++ (lit " (" ++ (join (lit ", ") (a ∷ args) ++ lit ")"))

-- `VectorType._to_string` and `ArrayType._to_string` between their brackets
unfoldable pub sequence_text : ℕ → Text → Text
unfolding lit
sequence_text count element = decimal count ++ (lit " x " ++ element)

-- `_wrap_packed`
unfoldable pub wrap_packed : Bool → Text → Text
unfolding lit
wrap_packed packed textrepr = if packed then lit "<" ++ (textrepr ++ lit ">") else textrepr

-- `BaseStructType.structure_repr` of the texts of the elements
unfoldable pub structure_repr : Bool → List Text → Text
unfolding lit join wrap_packed
structure_repr packed elements =
    wrap_packed packed (lit "{" ++ (join (lit ", ") elements ++ lit "}"))

-- `IdentifiedStructType._to_string`
unfoldable pub identified_text : Text → Text
unfolding wrapname
identified_text name = b'%' ∷ wrapname name

unfoldable mutual
  -- `str(t)`
  pub type_text : Bool → Ty → Text
  type_text enabled metadata = lit "metadata"
  type_text enabled (label i) = lit "label"
  type_text enabled (ptr a) = ptr_text a
  type_text true (typed_ptr t a) = typed_ptr_text (type_text true t) a
  type_text false (typed_ptr t a) = ptr_text a
  type_text enabled void = lit "void"
  type_text enabled (function r xs v) =
      function_text (type_text enabled r) (types_text enabled xs) v
  type_text enabled (int n) = b'i' ∷ decimal n
  type_text enabled half = lit "half"
  type_text enabled float = lit "float"
  type_text enabled double = lit "double"
  type_text enabled (vector t n) = lit "<" ++ (sequence_text n (type_text enabled t) ++ lit ">")
  type_text enabled (array t n) = lit "[" ++ (sequence_text n (type_text enabled t) ++ lit "]")
  type_text enabled (literal_struct xs p) = structure_repr p (types_text enabled xs)
  type_text enabled (identified name p) = identified_text name

  -- `[str(t) for t in ts]`
  pub types_text : Bool → Tys → List Text
  types_text enabled nil = []
  types_text enabled (cons t ts) = type_text enabled t ∷ types_text enabled ts

-- The suffix of an overloaded intrinsic; the classes without the attribute raise.
unfoldable pub intrinsic_name : Bool → Ty → Result Text
unfolding lit
intrinsic_name enabled (ptr a) = ok (b'p' ∷ decimal a)
intrinsic_name true (typed_ptr t a) = do
  inner ← intrinsic_name true t
  ok (b'p' ∷ (decimal a ++ inner))
intrinsic_name false (typed_ptr t a) = ok (b'p' ∷ decimal a)
intrinsic_name enabled (int n) = ok (b'i' ∷ decimal n)
intrinsic_name enabled half = ok (lit "f16")
intrinsic_name enabled float = ok (lit "f32")
intrinsic_name enabled double = ok (lit "f64")
intrinsic_name enabled t = err attribute_error

mutual
  unfolding type_text erase

  text_erased : (t : Ty) → type_text false t ≡ type_text false (erase t)
  text_erased metadata = refl
  text_erased (typed_ptr t a) = refl
  text_erased (function r xs v) = ap₂ (λ a b. function_text a b v) (text_erased r) (texts_erased xs)
  text_erased (vector t n) = ap (λ x. lit "<" ++ (sequence_text n x ++ lit ">")) (text_erased t)
  text_erased (array t n) = ap (λ x. lit "[" ++ (sequence_text n x ++ lit "]")) (text_erased t)
  text_erased (literal_struct xs p) = ap (structure_repr p) (texts_erased xs)
  text_erased _ = refl

  texts_erased : (ts : Tys) → types_text false ts ≡ types_text false (erase_all ts)
  texts_erased nil = refl
  texts_erased (cons t ts) = ap₂ (λ a b. a ∷ b) (text_erased t) (texts_erased ts)

-- With typed pointers disabled, types that `__eq__` takes for equal are written alike.
pub type_text-eq : (s t : Ty) → type_eq s t ≡ true → type_text false s ≡ type_text false t
type_text-eq s t h =
    text_erased s ∙ ap (type_text false) (type_eq-erase s t h) ∙ sym (text_erased t)

sample_text :
    type_text true (typed_ptr (function void (cons (int 32) (cons (array float 4) nil)) true) 3)
    ≡ lit "void (i32, [4 x float], ...) addrspace(3)*"
unfolding type_text ptr_text typed_ptr_text function_text sequence_text decimal lit
sample_text = refl
