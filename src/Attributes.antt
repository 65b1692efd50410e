-- ===== src/Attributes.antt =====
-- The attribute sets of llvmlite/ir/values.py and llvmlite/ir/instructions.py: `AttributeSet` and
-- its subclasses, with what they write.
pub mod Sets
pub mod Inlining
use llvmlite.Prelude.{
  ℕ, zero, suc, ◌+◌, Bool, true, false, not, ◌&&◌, ◌||◌, List, [], ◌∷◌, ◌++◌, map, any, ltb, ◌==◌,
  Option, none, some, if◌then◌else◌,
}
use llvmlite.Prelude.Texts.{Text, text_eq, lit, decimal}
use llvmlite.Result.{Result, ok, err, value_error, ◌>>=◌}
use llvmlite.Types.{Ty, pointee}
use llvmlite.Types.Print.{type_text}

-- `<` on texts
unfoldable pub text_lt : Text → Text → Bool
text_lt s [] = false
text_lt [] (d ∷ ds) = true
text_lt (c ∷ cs) (d ∷ ds) = if c == d then text_lt cs ds else ltb c d

unfoldable pub has : Text → List Text → Bool
has name [] = false
has name (x ∷ xs) = if text_eq x name then true else has name xs

-- `set.add`, on a list without duplicates.
unfoldable pub insert : Text → List Text → List Text
unfolding has
insert name xs = if has name xs then xs else name ∷ xs

-- `sorted`, by insertion.
unfoldable pub place : Text → List Text → List Text
place name [] = name ∷ []
place name (x ∷ xs) =
    let later = x ∷ place name xs in
    if text_eq name x then x ∷ xs else if text_lt name x then name ∷ x ∷ xs else later

unfoldable pub sorted : List Text → List Text
unfolding place
sorted [] = []
sorted (x ∷ xs) = place x (sorted xs)

-- The classes, by their `_known`.
pub data AttrKind : Type 0 where
  function argument call fastmath : AttrKind

abbrev function_attrs : List Text
function_attrs = map lit (
    "argmemonly" ∷ "alwaysinline" ∷ "builtin" ∷ "cold" ∷ "convergent" ∷ "inaccessiblememonly"
    ∷ "inaccessiblemem_or_argmemonly" ∷ "inlinehint" ∷ "jumptable" ∷ "minsize" ∷ "naked"
    ∷ "nobuiltin" ∷ "noduplicate" ∷ "noimplicitfloat" ∷ "noinline" ∷ "nonlazybind" ∷ "norecurse"
    ∷ "noredzone" ∷ "noreturn" ∷ "nounwind" ∷ "optnone" ∷ "optsize" ∷ "readnone" ∷ "readonly"
    ∷ "returns_twice" ∷ "sanitize_address" ∷ "sanitize_memory" ∷ "sanitize_thread" ∷ "ssp"
    ∷ "sspreg" ∷ "sspstrong" ∷ "uwtable" ∷ [])

-- The attributes of arguments that are written with a type, and the others.
abbrev typed_attrs : List Text
typed_attrs =
    map lit ("byref" ∷ "byval" ∷ "elementtype" ∷ "inalloca" ∷ "preallocated" ∷ "sret" ∷ [])

abbrev untyped_attrs : List Text
untyped_attrs = map lit (
    "captures(none)" ∷ "immarg" ∷ "inreg" ∷ "nest" ∷ "noalias" ∷ "nofree" ∷ "nonnull" ∷ "noundef"
    ∷ "returned" ∷ "signext" ∷ "swiftasync" ∷ "swifterror" ∷ "swiftself" ∷ "zeroext" ∷ [])

abbrev call_attrs : List Text
call_attrs = map lit (
    "convergent" ∷ "noreturn" ∷ "nounwind" ∷ "readonly" ∷ "readnone" ∷ "noinline" ∷ "alwaysinline"
    ∷ [])

abbrev fastmath_flags : List Text
fastmath_flags =
    map lit ("fast" ∷ "nnan" ∷ "ninf" ∷ "nsz" ∷ "arcp" ∷ "contract" ∷ "afn" ∷ "reassoc" ∷ [])

unfoldable pub known : AttrKind → List Text
unfolding lit
known function = function_attrs
known argument = typed_attrs ++ untyped_attrs
known call = call_attrs
known fastmath = fastmath_flags

-- `AttributeSet.add`
unfoldable pub base_add : AttrKind → Text → List Text → Result (List Text)
unfolding has insert
base_add kind name attrs = if has name (known kind) then ok (insert name attrs) else err value_error

abbrev pub alwaysinline : Text
alwaysinline = lit "alwaysinline"

abbrev pub noinline : Text
noinline = lit "noinline"

-- `add` of each class: `FunctionAttributes` refuses the two opposite attributes together.
unfoldable pub add : AttrKind → Text → List Text → Result (List Text)
unfolding base_add
add function name attrs =
    if (text_eq name alwaysinline && has noinline attrs)
      || (text_eq name noinline && has alwaysinline attrs)
    then err value_error
    else base_add function name attrs
add kind name attrs = base_add kind name attrs

-- `for name in args: self.add(name)` of the constructor
unfoldable pub add_all : AttrKind → List Text → List Text → Result (List Text)
unfolding add
add_all kind [] attrs = ok attrs
add_all kind (name ∷ names) attrs = add kind name attrs >>= λ more. add_all kind names more

-- `_expand`: the attribute error of a type without a pointee is passed on.
unfoldable pub expand : Bool → AttrKind → Ty → Text → Result Text
unfolding lit has
expand enabled argument typ name =
    if has name typed_attrs
    then (pointee typ >>= λ t. ok (name ++ (lit "(" ++ (type_text enabled t ++ lit ")"))))
    else ok name
expand enabled kind typ name = ok name

unfoldable pub expand_each : Bool → AttrKind → Ty → List Text → Result (List Text)
unfolding expand
expand_each enabled kind typ [] = ok []
expand_each enabled kind typ (name ∷ attrs) = expand enabled kind typ name >>= λ first.
    expand_each enabled kind typ attrs >>= λ rest. ok (first ∷ rest)

-- `AttributeSet._to_list`
unfoldable pub to_list : Bool → AttrKind → Ty → List Text → Result (List Text)
unfolding expand_each sorted
to_list enabled kind typ attrs = expand_each enabled kind typ (sorted attrs)

-- `ArgumentAttributes` with its three numbers.
pub record ArgumentAttributes : Type 0 where
  pub names : List Text
  pub align : ℕ
  pub dereferenceable : ℕ
  pub dereferenceable_or_null : ℕ

abbrev pub no_attributes : ArgumentAttributes
no_attributes = record { names = []; align = 0; dereferenceable = 0; dereferenceable_or_null = 0 }

-- A number that is written only if it is not zero.
unfoldable pub if_set : ℕ → Text → Text → List Text
if_set n before after = if n == 0 then [] else (before ++ (decimal n ++ after)) ∷ []

-- `ArgumentAttributes._to_list`
unfoldable pub argument_list : Bool → Ty → ArgumentAttributes → Result (List Text)
unfolding to_list if_set lit
argument_list enabled typ attrs = to_list enabled argument typ attrs.names >>= λ names. ok (
    names
    ++ (if_set attrs.align (lit "align ") []
        ++ (if_set attrs.dereferenceable (lit "dereferenceable(") (lit ")")
            ++ if_set attrs.dereferenceable_or_null (lit "dereferenceable_or_null(") (lit ")"))))
