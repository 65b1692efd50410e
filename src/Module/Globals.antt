-- ===== src/Module/Globals.antt =====
-- The global values of llvmlite/ir/module.py: their table, the constructors of functions and global
-- variables of llvmlite/ir/values.py that enter it, and `declare_intrinsic`.
pub mod Declared
use llvmlite.Prelude.{
  ℕ, suc, Bool, true, false, List, [], ◌∷◌, ◌++◌, length, Option, none, some, if◌then◌else◌, ◌==◌,
}
use llvmlite.Prelude.Texts.{Text, lit, text_eq, join}
use llvmlite.Result.{
  Result, ok, err, assertion_error, attribute_error, index_error, key_error, not_implemented,
}
use llvmlite.Result
use llvmlite.Exec.{Exec, pure, raise, lift, ◌>>=◌, ◌>>◌}
use llvmlite.Scope.{NameScope, register, deduplicate}
use llvmlite.Types.{Ty, Tys, void, int, function, as_pointer}
use llvmlite.Types.Print.{intrinsic_name}
use llvmlite.Values.{Value, Env, func, global_variable}
use llvmlite.Values.Wrap.{tys_of}
use llvmlite.Attributes.{has}

-- The fields of a `Module` for its globals: a dictionary in the order of insertion, the scope, which
-- is that of the metadata too (Module.Shared), and the number of the next object.
pub record Globals : Type 0 where
  pub scope : NameScope
  pub table : List (Text × Value)
  pub next : ℕ

unfoldable pub find_global : Text → List (Text × Value) → Option Value
find_global name [] = none
find_global name ((key, v) ∷ rest) = if text_eq key name then some v else find_global name rest

unfoldable pub is_global : Option Value → Bool
is_global none = false
is_global (some v) = true

abbrev pub found_or_key_error : Option Value → Result Value
found_or_key_error none = err key_error
found_or_key_error (some v) = ok v

-- `get_global`, with the `KeyError` of a dictionary.
unfoldable pub get_global : Text → Globals → Result Value
unfolding find_global
get_global name m = found_or_key_error (find_global name m.table)

-- `get_unique_name`: the counters of the scope advance, and the name is not taken.
unfoldable pub get_unique_name : Text → Globals → Text × Globals
unfolding deduplicate
get_unique_name name m =
    let (fresh, scope') = deduplicate name m.scope in (fresh, record m { scope = scope' })

-- `add_global` of a value with this name.
unfoldable pub add_global : Text → Value → Exec Globals Value
unfolding find_global is_global
add_global name v m =
    if is_global (find_global name m.table)
    then (err assertion_error, m)
    else (ok v, record m { table = m.table ++ (name, v) ∷ []; next = suc m.next })

-- `NamedValue._set_name` of a global value, whose name is not deduplicated.
unfoldable pub take_global_name : Text → Exec Globals Text
unfolding register
take_global_name name m =
    let (r, scope') = register name false m.scope in (r, record m { scope = scope' })

abbrev check_function : Ty → Result (Unit {0})
check_function (function r ts v) = ok tt
check_function t = err attribute_error

-- `Function.__init__`
unfoldable pub new_function : Ty → Text → Exec Globals Value
unfolding as_pointer take_global_name add_global
new_function ftype name = lift (as_pointer ftype 0) >>= λ t. take_global_name name >>= λ taken.
    lift (check_function ftype) >> λ m. add_global taken (func m.next t taken) m

-- `GlobalVariable.__init__`
unfoldable pub new_global_variable : Ty → Text → ℕ → Exec Globals Value
unfolding as_pointer take_global_name add_global
new_global_variable typ name addrspace = lift (as_pointer typ addrspace) >>= λ t.
    take_global_name name >>= λ taken m.
    add_global taken (global_variable m.next t addrspace taken) m

unfoldable pub suffixes_of : Bool → List Ty → Result (List Text)
unfolding intrinsic_name
suffixes_of enabled [] = ok []
suffixes_of enabled (t ∷ ts) =
    Result.◌>>=◌ (intrinsic_name enabled t)
      (λ first. Result.◌>>=◌ (suffixes_of enabled ts) (λ rest. ok (first ∷ rest)))

abbrev first_suffix : Bool → List Ty → Result (List Text)
first_suffix enabled [] = err index_error
first_suffix enabled (t ∷ ts) = Result.◌>>=◌ (intrinsic_name enabled t) (λ first. ok (first ∷ []))

abbrev one_suffix : List Text
one_suffix = lit "llvm.cttz" ∷ lit "llvm.ctlz" ∷ lit "llvm.fma" ∷ []

unfoldable pub intrinsic_text : Bool → Text → List Ty → Result Text
unfolding suffixes_of has lit
intrinsic_text enabled intrinsic tys =
    Result.◌>>=◌
      (if has intrinsic one_suffix then first_suffix enabled tys else suffixes_of enabled tys)
      (λ suffixes. ok (join (lit ".") (intrinsic ∷ suffixes)))

abbrev pub function_of : Ty → List Ty → Ty
function_of result args = function result (tys_of args) false

-- The function type of an intrinsic at one, two or three types.
unfoldable pub unary_type : Text → Ty → Ty
unfolding text_eq lit
unary_type intrinsic t =
    if text_eq intrinsic (lit "llvm.powi")
    then function_of t (t ∷ int 32 ∷ [])
    else if text_eq intrinsic (lit "llvm.pow")
    then function_of t (t ∷ t ∷ [])
    else if text_eq intrinsic (lit "llvm.convert.from.fp16")
    then function_of t (int 16 ∷ [])
    else if text_eq intrinsic (lit "llvm.convert.to.fp16")
    then function_of (int 16) (t ∷ [])
    else function_of t (t ∷ [])

unfoldable pub binary_type : Text → Ty → Ty → Result Ty
unfolding text_eq lit has
binary_type intrinsic s t =
    if text_eq intrinsic (lit "llvm.memset")
    then ok (function_of void (s ∷ int 8 ∷ t ∷ int 1 ∷ []))
    else if has intrinsic (lit "llvm.cttz" ∷ lit "llvm.ctlz" ∷ [])
    then ok (function_of s (s ∷ int 1 ∷ []))
    else err not_implemented

unfoldable pub ternary_type : Text → Ty → Ty → Ty → Result Ty
unfolding text_eq lit has
ternary_type intrinsic s t u =
    if has intrinsic (lit "llvm.memcpy" ∷ lit "llvm.memmove" ∷ [])
    then ok (function_of void (s ∷ t ∷ u ∷ int 1 ∷ []))
    else if text_eq intrinsic (lit "llvm.fma")
    then ok (function_of s (s ∷ s ∷ s ∷ []))
    else err not_implemented

unfoldable pub intrinsic_type : Text → List Ty → Option Ty → Result Ty
unfolding unary_type binary_type ternary_type text_eq lit
intrinsic_type intrinsic tys (some fnty) = ok fnty
intrinsic_type intrinsic [] none =
    if text_eq intrinsic (lit "llvm.assume")
    then ok (function_of void (int 1 ∷ []))
    else err not_implemented
intrinsic_type intrinsic (t ∷ []) none = ok (unary_type intrinsic t)
intrinsic_type intrinsic (s ∷ t ∷ []) none = binary_type intrinsic s t
intrinsic_type intrinsic (s ∷ t ∷ u ∷ []) none = ternary_type intrinsic s t u
intrinsic_type intrinsic (s ∷ t ∷ u ∷ v ∷ ts) none = err not_implemented

unfoldable pub known_or_declared : Result Ty → Text → Option Value → Exec Globals Value
unfolding new_function
known_or_declared fnty name (some v) = pure v
known_or_declared fnty name none = lift fnty >>= λ t. new_function t name

unfoldable pub declare_intrinsic : Bool → Text → List Ty → Option Ty → Exec Globals Value
unfolding intrinsic_text intrinsic_type known_or_declared find_global
declare_intrinsic enabled intrinsic tys fnty =
    lift (intrinsic_text enabled intrinsic tys) >>= λ name m.
    known_or_declared (intrinsic_type intrinsic tys fnty) name (find_global name m.table) m
