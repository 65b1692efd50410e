-- ===== src/Binding/Engine.antt =====
-- What llvmlite/binding does with modules and engines: parsing and cloning (module.py), linking
-- (linker.py), the machines of targets.py, and `ExecutionEngine` of executionengine.py.
use llvmlite.Prelude.{ℕ, Bool, true, false, List, [], ◌∷◌, Option, none, some, if◌then◌else◌}
use llvmlite.Result.{ok, err, argument_error, key_error, runtime_error}
use llvmlite.Exec.{Exec, pure, ◌>>=◌, ◌>>◌}
use llvmlite.Binding.{
  td_of, World, Ref, Resource, module_of, target_machine, target_data, engine, Call, call, wrap,
  set_ref, is_module, is_machine, is_target_data, is_engine, modules_of, contains, without, detach,
  close,
}

-- An argument of a C function: a closed object has no pointer to pass, and ctypes refuses it, as it
-- does an object of another class.
unfoldable pub argument : (Resource → Bool) → ℕ → Exec World Resource
argument test i w =
    if (w.refs i).closed
    then (err argument_error, w)
    else if test (w.refs i).resource
    then (ok (w.refs i).resource, w)
    else (err argument_error, w)

abbrev pub update : ℕ → (Ref → Ref) → World → World
update i f w = record w { refs = set_ref i (f (w.refs i)) w.refs }

abbrev pub set_owned : Bool → Ref → Ref
set_owned b r = record r { owned = b }

abbrev pub set_resource : Resource → Ref → Ref
set_resource res r = record r { resource = res }

-- `parse_assembly` or `parse_bitcode` of a text that LLVM accepts.
unfoldable pub parse : Exec World ℕ
parse w = (ok w.next, wrap module_of false (call (Call.create w.next) w))

-- `Target.create_target_machine`
unfoldable pub create_target_machine : Exec World ℕ
create_target_machine w = (ok w.next, wrap target_machine false (call (Call.create w.next) w))

-- A method that hands an object of its class to LLVM and leaves its owner as it is: `verify` of a
-- module, `set_asm_verbosity` of a target machine, `finalize_object` of an engine, `get_abi_size` of
-- target data.
unfoldable pub use_object : (Resource → Bool) → ℕ → Exec World Resource
unfolding argument
use_object test i = argument test i >>= λ r w. (ok r, call (Call.use_of i) w)

-- `create_mcjit_compiler`, and whether LLVM has made an engine.
unfoldable pub create_mcjit_compiler : ℕ → ℕ → Bool → Exec World ℕ
unfolding argument is_module is_machine
create_mcjit_compiler m tm made =
    argument is_module m
    >> (argument is_machine tm >> λ w.
        let called = call (Call.create_engine w.next m tm made) w in
        if made
        then (
          ok w.next,
          wrap (engine (m ∷ []) none) false
              (update m (set_owned true) (update tm (set_owned true) called)),
        )
        else (err runtime_error, called))

unfoldable pub with_modules : List ℕ → Resource → Resource
with_modules ms (engine modules td) = engine ms td
with_modules ms resource = resource

-- `add_module`, whose test comes before the call.
unfoldable pub add_module : ℕ → ℕ → Exec World (Unit {0})
unfolding argument is_module is_engine modules_of contains with_modules
add_module e m w =
    if contains m (modules_of (w.refs e).resource)
    then (err key_error, w)
    else (argument is_engine e
          >> (argument is_module m >> λ w'. (
            ok tt,
            update e (λ r. set_resource (with_modules (m ∷ modules_of r.resource) r.resource) r)
                (update m (set_owned true) (call (Call.add_module e m) w')),
          )))
        w

-- `remove_module`, and whether LLVM reports a failure. A module that the set lacks is a key error
-- behind the call.
unfoldable pub remove_module : ℕ → ℕ → Bool → Exec World (Unit {0})
unfolding argument is_module is_engine modules_of contains without with_modules
remove_module e m failed = argument is_engine e >>= λ r. argument is_module m >> λ w.
    let called = call (Call.remove_module e m failed) w in
    if failed
    then (err runtime_error, called)
    else if contains m (modules_of r)
    then (
      ok tt,
      update m (set_owned false) (
          update e
            (λ r'. set_resource (with_modules (without m (modules_of r'.resource)) r'.resource) r')
            called),
    )
    else (err key_error, called)

unfoldable pub with_td : ℕ → Resource → Resource
with_td d (engine modules td) = engine modules (some d)
with_td d resource = resource

-- `ExecutionEngine.target_data`, which is made once.
unfoldable pub known_or_new : ℕ → Option ℕ → Exec World ℕ
unfolding argument is_engine with_td
known_or_new e (some d) = pure d
known_or_new e none = argument is_engine e >> λ w. (
  ok w.next,
  update e (λ r. set_resource (with_td w.next r.resource) r)
      (wrap target_data true (call (Call.get_target_data e w.next) w)),
)

unfoldable pub get_target_data : ℕ → Exec World ℕ
unfolding td_of known_or_new
get_target_data e w = known_or_new e (td_of (w.refs e).resource) w

-- `link_modules`, and whether LLVM reports a failure: the source is gone either way.
unfoldable pub link_modules : ℕ → ℕ → Bool → Exec World (Unit {0})
unfolding argument is_module detach
link_modules dst src failed =
    argument is_module dst
    >> (argument is_module src >> λ w.
        ((if failed then err runtime_error else ok tt), detach src (call (Call.link dst src) w)))

-- `ModuleRef.clone`
unfoldable pub clone : ℕ → Exec World ℕ
unfolding argument is_module
clone m =
    argument is_module m >> λ w. (ok w.next, wrap module_of false (call (Call.clone m w.next) w))

-- `ModuleRef.link_in`
unfoldable pub link_in : ℕ → ℕ → Bool → Bool → Exec World (Unit {0})
unfolding clone link_modules
link_in dst other true failed = clone other >>= λ copy. link_modules dst copy failed
link_in dst other false failed = link_modules dst other failed

-- The calls that a program makes on the objects.
pub data Op : Type 0 where
  parse_of create_machine_of : Op
  use_module use_machine use_engine use_data get_data close_of detach_of clone_of : ℕ → Op
  create_engine : ℕ → ℕ → Bool → Op
  add : ℕ → ℕ → Op
  remove link : ℕ → ℕ → Bool → Op
  link_in_of : ℕ → ℕ → Bool → Bool → Op

unfoldable pub step : Op → World → World
unfolding parse create_target_machine use_object get_target_data clone create_mcjit_compiler
    add_module remove_module link_modules link_in close detach
step Op.parse_of w = (parse w).1
step Op.create_machine_of w = (create_target_machine w).1
step (Op.use_module m) w = (use_object is_module m w).1
step (Op.use_machine tm) w = (use_object is_machine tm w).1
step (Op.use_engine e) w = (use_object is_engine e w).1
step (Op.use_data d) w = (use_object is_target_data d w).1
step (Op.get_data e) w = (get_target_data e w).1
step (Op.close_of i) w = close i w
step (Op.detach_of i) w = detach i w
step (Op.clone_of m) w = (clone m w).1
step (Op.create_engine m tm made) w = (create_mcjit_compiler m tm made w).1
step (Op.add e m) w = (add_module e m w).1
step (Op.remove e m failed) w = (remove_module e m failed w).1
step (Op.link dst src failed) w = (link_modules dst src failed w).1
step (Op.link_in_of dst other preserve failed) w = (link_in dst other preserve failed w).1

unfoldable pub run : List Op → World → World
unfolding step
run [] w = w
run (op ∷ ops) w = run ops (step op w)
