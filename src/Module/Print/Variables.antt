-- ===== src/Module/Print/Variables.antt =====
-- `GlobalVariable` of llvmlite/ir/values.py as text.
use llvmlite.Prelude.{
  ◌||◌, ℕ, Bool, true, false, List, [], ◌∷◌, ◌++◌, ◌==◌, if◌then◌else◌, Option, none, some,
}
use llvmlite.Prelude.Texts.{text_eq, Text, lit, decimal}
use llvmlite.Escape.{named_reference}
use llvmlite.Result.{Result, ok, err, type_error, assertion_error, ◌>>=◌}
use llvmlite.Types.{Ty, is_void, type_eq}
use llvmlite.Values.{Value, Const, Env, type_of, get_reference, const_text}
use llvmlite.Instructions.Print.{cat, type_str, stringify_metadata, rstrip}
use llvmlite.Module.Print.{around}

-- A `GlobalVariable` with what its text shows.
pub record Variable : Type 0 where
  pub name : Text
  pub value_type : Ty
  pub initializer : Option Value
  pub linkage : Text
  pub storage_class : Text
  pub unnamed_addr : Bool
  pub global_constant : Bool
  pub addrspace : ℕ
  pub section : Text
  pub align : Option ℕ
  pub metadata : List (Text × Value)

-- External linkage is the default of a variable without an initializer.
unfoldable pub linkage_of : Text → Option Value → Text
unfolding lit
linkage_of [] none = lit "external"
linkage_of [] (some v) = []
linkage_of (c ∷ cs) initializer = c ∷ cs

abbrev is_external : Text → Bool
is_external linkage = text_eq linkage (lit "external") || text_eq linkage (lit "extern_weak")

-- The initializer, checked, or `undef`, or nothing for an external variable.
unfoldable pub initial_text : Env → Ty → Text → Option Value → Result Text
unfolding lit type_eq get_reference const_text is_void
initial_text env t linkage (some v) =
    if type_eq (type_of v) t then ok (lit " " ++ get_reference env v) else err type_error
initial_text env t linkage none =
    if is_external linkage
    then ok []
    else if is_void t
    then err assertion_error
    else ok (lit " " ++ const_text env t Const.undefined)

abbrev flag_text : Bool → Text → Text
flag_text true t = t
flag_text false t = []

abbrev addrspace_text : ℕ → Text
addrspace_text n = if n == 0 then [] else cat (lit "addrspace(" ∷ decimal n ∷ lit ") " ∷ [])

abbrev align_suffix : Option ℕ → Text
align_suffix none = []
align_suffix (some n) = lit ", align " ++ decimal n

-- `GlobalVariable.descr`
unfoldable pub variable_descr : Env → Variable → Result Text
unfolding lit cat linkage_of initial_text stringify_metadata
variable_descr env v =
    initial_text env v.value_type (linkage_of v.linkage v.initializer) v.initializer >>= λ initial.
    ok (
      cat (
        around [] (linkage_of v.linkage v.initializer) (lit " ")
        ∷ around [] v.storage_class (lit " ")
        ∷ flag_text v.unnamed_addr (lit "unnamed_addr ")
        ∷ addrspace_text v.addrspace
        ∷ (if v.global_constant then lit "constant" else lit "global")
        ∷ lit " "
        ∷ type_str env v.value_type
        ∷ initial
        ∷ around (lit ", section \"") v.section (lit "\"")
        ∷ align_suffix v.align
        ∷ stringify_metadata env true v.metadata
        ∷ (10 ∷ [])
        ∷ []))

-- `_to_string` of a global variable.
unfoldable pub variable_str : Env → Variable → Result Text
unfolding variable_descr named_reference lit rstrip
variable_str env v =
    variable_descr env v >>= λ d. ok (rstrip (named_reference (lit "@") v.name ++ (lit " = " ++ d)))
