-- ===== src/Binding.antt =====
-- The objects of llvmlite/binding that wrap resources of LLVM: `ObjectRef` of ffi.py with `close` and
-- `detach`, and the state that the objects of one process share. An object has the number of the
-- resource that it wraps, as each resource here is wrapped once. A number with no object counts as
-- closed.
pub mod Disposal
pub mod Engine
pub mod Contract
pub mod Agreement
pub mod Closing
pub mod Calls
pub mod Engines
pub mod Safety
pub mod Closed
pub mod Lifetimes
pub mod Features
pub mod Lock
pub mod Orc
pub mod ValueRefs
use llvmlite.Prelude.{
  ℕ, suc, Bool, true, false, List, [], ◌∷◌, ◌++◌, Option, none, some, ◌==◌, ◌&&◌, ◌||◌, not,
  if◌then◌else◌,
}
use llvmlite.Result.{Result, ok, err, argument_error, value_error}
use llvmlite.Exec.{Exec, pure, raise, ◌>>=◌, ◌>>◌}

-- The class of an object with what it keeps: an `ExecutionEngine` its set of modules and its target
-- data.
pub data Resource : Type 0 where
  module_of target_machine target_data : Resource
  engine : List ℕ → Option ℕ → Resource

-- `_owned` and `_closed` of an `ObjectRef`. `_ptr` is `None` from the time that it is closed.
pub record Ref : Type 0 where
  pub resource : Resource
  pub closed : Bool
  pub owned : Bool

-- The calls of LLVM's C interface that pass on, take back, use or dispose of a resource.
pub data Call : Type 0 where
  create use_of dispose : ℕ → Call
  create_engine : ℕ → ℕ → ℕ → Bool → Call
  remove_module : ℕ → ℕ → Bool → Call
  add_module get_target_data link clone : ℕ → ℕ → Call

-- The objects, the number of the next one, and the calls made, the last one first.
pub record World : Type 0 where
  pub refs : ℕ → Ref
  pub next : ℕ
  pub calls : List Call

abbrev pub set_ref : ℕ → Ref → (ℕ → Ref) → ℕ → Ref
set_ref i r refs j = if j == i then r else refs j

-- No object exists yet.
abbrev pub start : World
start = record {
  refs = λ i. record { resource = module_of; closed = true; owned = false };
  next = 0;
  calls = [];
}

abbrev pub call : Call → World → World
call c w = record w { calls = c ∷ w.calls }

-- `ObjectRef.__init__` around the resource that a call has returned.
abbrev pub wrap : Resource → Bool → World → World
wrap resource owned w = record w {
  refs = set_ref w.next (record { resource = resource; closed = false; owned = owned }) w.refs;
  next = suc w.next;
}

unfoldable pub is_module : Resource → Bool
is_module module_of = true
is_module _ = false

unfoldable pub is_machine : Resource → Bool
is_machine target_machine = true
is_machine _ = false

unfoldable pub is_target_data : Resource → Bool
is_target_data target_data = true
is_target_data _ = false

unfoldable pub is_engine : Resource → Bool
is_engine (engine modules td) = true
is_engine _ = false

-- The modules of an engine.
unfoldable pub modules_of : Resource → List ℕ
modules_of (engine modules td) = modules
modules_of _ = []

-- `_td` of an engine.
unfoldable pub td_of : Resource → Option ℕ
td_of (engine modules td) = td
td_of _ = none

unfoldable pub contains : ℕ → List ℕ → Bool
contains i [] = false
contains i (j ∷ js) = i == j || contains i js

-- Removal from a set.
unfoldable pub without : ℕ → List ℕ → List ℕ
without i [] = []
without i (j ∷ js) = if i == j then without i js else j ∷ without i js

abbrev pub closed_ref : Ref → Ref
closed_ref r = record r { closed = true }

-- `ObjectRef.detach`
unfoldable pub detach : ℕ → World → World
detach i w = record w {
  refs = set_ref i (if (w.refs i).closed then w.refs i else closed_ref (w.refs i)) w.refs;
}

unfoldable pub detach_all : List ℕ → World → World
unfolding detach
detach_all [] w = w
detach_all (i ∷ is) w = detach_all is (detach i w)

unfoldable pub detach_option : Option ℕ → World → World
unfolding detach
detach_option none w = w
detach_option (some i) w = detach i w

-- `_dispose` of each class. The object cache of an engine is left out.
unfoldable pub dispose_of : ℕ → Resource → World → World
unfolding detach_all detach_option
dispose_of i (engine modules td) w =
    let w' = detach_option td (detach_all modules w) in
    call (Call.dispose i)
      (record w' { refs = set_ref i (record (w'.refs i) { resource = engine [] td }) w'.refs })
dispose_of i resource w = call (Call.dispose i) w

-- `ObjectRef.close`, which is `__exit__` and `__del__` too.
unfoldable pub close : ℕ → World → World
unfolding dispose_of detach
close i w = detach i (
    if not (w.refs i).closed && not (w.refs i).owned then dispose_of i (w.refs i).resource w else w)
