-- ===== src/Tests/Binding.antt =====
-- Programs over the objects of llvmlite/binding.
use llvmlite.Prelude.{ℕ, ◌≡◌, refl, true, false, List, [], ◌∷◌, some, none}
use llvmlite.Prelude.Texts.{Text, lit, join}
use llvmlite.Result.{key_error, ok, err, runtime_error}
use llvmlite.Binding.{contains, World, start, close, modules_of, is_machine}
use llvmlite.Binding.Engine.{use_object, step, Op, run, create_mcjit_compiler}
use llvmlite.Binding.Contract.{Native, gone, held, alone, replay}
use llvmlite.Binding.Agreement.{keeps}
use llvmlite.Binding.Calls.{IsSafe, start-IsSafe}
use llvmlite.Binding.Safety.{AllDocumented, run-IsSafe, run_refines}
use llvmlite.Binding.Features.{Item, flatten, get_feature, get_host_cpu_features}
use llvmlite.Binding.Features.Flat.{distinct, separable, get_host_cpu_features-flatten}
use llvmlite.Binding.Lifetimes.{
  Given, close_engine_ends, machine_outlives_engine, failed_engine_disposes_twice,
}

-- A module, a target machine, and an engine of the two.
abbrev setup : List Op
setup = Op.parse_of ∷ Op.create_machine_of ∷ Op.create_engine 0 1 true ∷ []

-- A target machine is used and goes to an engine, whose target data is used; a second module goes to
-- the engine and comes back, and is used while the engine is there.
abbrev program : List Op
program =
    Op.parse_of
    ∷ Op.create_machine_of
    ∷ Op.use_machine 1
    ∷ Op.create_engine 0 1 true
    ∷ Op.get_data 2
    ∷ Op.use_data 3
    ∷ Op.parse_of
    ∷ Op.add 2 4
    ∷ Op.use_engine 2
    ∷ Op.remove 2 4 false
    ∷ Op.use_module 4
    ∷ Op.close_of 0
    ∷ []

setup-AllDocumented : AllDocumented setup start
unfolding step run
setup-AllDocumented = (tt, (tt, ((refl, refl, refl), tt)))

program-AllDocumented : AllDocumented program start
unfolding step run llvmlite.Binding.is_target_data
program-AllDocumented = (
  tt,
  (tt, (refl, ((refl, refl, refl), (tt, (tt, (tt, ((λ h. refl), (tt, (tt, (tt, (tt, tt))))))))))),
)

run_refines_example :
    (n : Native) × (replay (run program start).calls ≡ some n)
    × ((i : ℕ)
        → ((run program start).refs i).closed ≡ false
        → (((run program start).refs i).owned ≡ false → n i ≡ alone)
          × (n i ≡ alone → ((run program start).refs i).owned ≡ false)
          × ((e : ℕ)
              → (contains i (modules_of ((run program start).refs e).resource) ≡ true
                  → n i ≡ held e)
                × (is_machine ((run program start).refs i).resource ≡ false
                    → n i ≡ held e
                    → keeps ((run program start).refs e).resource i ≡ true)))
run_refines_example = run_refines program program-AllDocumented

abbrev ready : World
ready = run setup start

ready-IsSafe : IsSafe ready
ready-IsSafe = run-IsSafe setup start setup-AllDocumented start-IsSafe

close_engine_ends_example :
    (n : Native) × (replay (close 2 ready).calls ≡ some n)
    × (n 2 ≡ gone)
    × (n 0 ≡ gone)
    × (((close 2 ready).refs 2).closed ≡ true)
    × (((close 2 ready).refs 0).closed ≡ true)
unfolding run step
close_engine_ends_example = close_engine_ends 2 0 ready ready-IsSafe refl refl refl refl

abbrev separate : World
separate = run (Op.parse_of ∷ Op.create_machine_of ∷ []) start

separate-IsSafe : IsSafe separate
separate-IsSafe =
    run-IsSafe (Op.parse_of ∷ Op.create_machine_of ∷ []) start (tt, (tt, tt)) start-IsSafe

separate-Given : Given 0 1 separate
unfolding run step
separate-Given = record {
  module_open = refl;
  module_free = refl;
  module_class = refl;
  machine_open = refl;
  machine_free = refl;
  machine_class = refl;
}

machine_outlives_engine_example :
    ((create_mcjit_compiler 0 1 true separate).0 ≡ ok 2)
    × ((n : Native) × (replay (close 2 (create_mcjit_compiler 0 1 true separate).1).calls ≡ some n)
        × (n 1 ≡ gone))
    × (((close 2 (create_mcjit_compiler 0 1 true separate).1).refs 1).closed ≡ false)
    × (replay
          (use_object is_machine 1 (close 2 (create_mcjit_compiler 0 1 true separate).1)).1.calls
        ≡ none)
unfolding run step
machine_outlives_engine_example =
    machine_outlives_engine 0 1 separate separate-IsSafe separate-Given

failed_engine_disposes_twice_example :
    ((create_mcjit_compiler 0 1 false separate).0 ≡ err runtime_error)
    × ((n : Native) × (replay (create_mcjit_compiler 0 1 false separate).1.calls ≡ some n)
        × (n 0 ≡ gone))
    × (((create_mcjit_compiler 0 1 false separate).1.refs 0).closed ≡ false)
    × (((create_mcjit_compiler 0 1 false separate).1.refs 0).owned ≡ false)
    × (replay (close 0 (create_mcjit_compiler 0 1 false separate).1).calls ≡ none)
unfolding run step
failed_engine_disposes_twice_example =
    failed_engine_disposes_twice 0 1 separate separate-IsSafe separate-Given

abbrev cpu_features : List Item
cpu_features = (lit "sse2", true) ∷ (lit "avx", false) ∷ []

get_host_cpu_features-flatten_example :
    (m : List Item) × (get_host_cpu_features (some (flatten true cpu_features)) ≡ ok m)
    × ((k : Text) → get_feature k m ≡ get_feature k cpu_features)
unfolding distinct separable lit llvmlite.Prelude.Texts.text_eq
get_host_cpu_features-flatten_example = get_host_cpu_features-flatten true cpu_features refl refl

flattened : flatten true cpu_features ≡ lit "-avx,+sse2"
unfolding flatten lit join
flattened = refl

unset : get_host_cpu_features (some (lit "+a,,x")) ≡ err key_error
unfolding get_host_cpu_features lit
unset = refl
