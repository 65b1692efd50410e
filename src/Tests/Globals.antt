-- ===== src/Tests/Globals.antt =====
-- The globals of a module of llvmlite/ir/module.py: an intrinsic that is declared twice, and a global
-- with the name of a metadata node.
use llvmlite.Prelude.{◌≡◌, ◌≢◌, refl, false, [], ◌∷◌, none, length}
use llvmlite.Prelude.Texts.{Text, lit, join, decimal}
use llvmlite.Result.{ok}
use llvmlite.Scope
use llvmlite.Types.{typed_ptr, int}
use llvmlite.Values.{Env, Value, Values, func, global_variable, md_node, md_string, nil, cons}
use llvmlite.Module.Metadata
use llvmlite.Module.Metadata.{intern, find_cached}
use llvmlite.Module.Shared.{Module, on_globals, on_metadata, node_renamed}
use llvmlite.Module.Globals.{Globals, new_global_variable, function_of, declare_intrinsic}

abbrev no_globals : Globals
no_globals = record { scope = Scope.empty; table = []; next = 0 }

-- `llvm.powi.i32` as the first declaration leaves it.
abbrev powi_declared : Globals
powi_declared = (declare_intrinsic false (lit "llvm.powi") (int 32 ∷ []) none no_globals).1

abbrev powi : Value
powi = func 0 (typed_ptr (function_of (int 32) (int 32 ∷ int 32 ∷ [])) 0) (lit "llvm.powi.i32")

powi_returned :
    declare_intrinsic false (lit "llvm.powi") (int 32 ∷ []) none no_globals
    ≡ (ok powi, powi_declared)
unfolding declare_intrinsic lit Scope.is_used join decimal
powi_returned = refl

abbrev env : Env
env = record {
  typed_pointers = false;
  float_bits = λ c. 0;
  to_single = λ n. n;
  to_half = λ n. n;
  str_of = λ c. [];
}

-- A module with a global variable that is named like its first metadata node would be.
abbrev no_module : Module
no_module = record { globals = no_globals; metadata = Metadata.empty }

abbrev numbered_module : Module
numbered_module = (on_globals (new_global_variable (int 32) (decimal 0) 0) no_module).1

variable_made :
    on_globals
      (new_global_variable (int 32) (decimal (length no_module.metadata.nodes)) 0)
      no_module
    ≡ (ok (global_variable 0 (typed_ptr (int 32) 0) 0 (decimal 0)), numbered_module)
unfolding new_global_variable Scope.is_used decimal llvmlite.Prelude.Texts.text_eq
variable_made = refl

abbrev key : Values
key = cons (md_string (lit "a")) nil

node_renamed_example :
    (name : Text) × ((on_metadata (intern env key) numbered_module).0 ≡ md_node name key)
    × (name ≢ decimal (length no_module.metadata.nodes))
unfolding find_cached
node_renamed_example = node_renamed env key (int 32) 0 no_module variable_made refl
