-- ===== src/Binding/Engines.antt =====
-- The calls of llvmlite/binding on engines, each of which LLVM's contract allows.
use llvmlite.Prelude.{
  ℕ, ◌≡◌, refl, ap, ◌∙◌, ◌⊎◌, arith, Bool, true, false, ◌&&◌, Option, none, some, Bool-cases, inl,
  inr, if◌then◌else◌,
}
use llvmlite.Binding.{
  td_of, without, World, Call, call, is_module, is_machine, is_engine, modules_of, contains,
}
use llvmlite.Binding.Contract.{
  Status, held, allowed, alone, unborn, gone, put, perform, is_live, is_alone, is_unborn,
  is_held_by,
}
use llvmlite.Binding.Agreement.{add-Agrees, call-Agrees, engine-Agrees}
use llvmlite.Binding.Closing.{td-Agrees, remove-Agrees, given-Agrees}
use llvmlite.Binding.Engine.{
  add_module, create_mcjit_compiler, known_or_new, remove_module, update, set_owned, set_resource,
  with_modules,
}
use llvmlite.Binding.Calls.{module_facts, IsSafe, argument-IsSafe, called-IsSafe, module_live}

pub create_mcjit_compiler-IsSafe :
    (m tm : ℕ) (w : World)
    → (w.refs m).owned ≡ false
    → (w.refs tm).owned ≡ false
    → IsSafe w
    → IsSafe (create_mcjit_compiler m tm true w).1
unfolding create_mcjit_compiler perform is_alone is_unborn
create_mcjit_compiler-IsSafe m tm w om ot s = argument-IsSafe is_module m w _ s (λ cm hm.
    argument-IsSafe is_machine tm w _ s (λ ct ht.
      called-IsSafe (Call.create_engine w.next m tm true) w _ s.native _
        (is_unborn (s.native w.next) && (is_alone (s.native m) && is_alone (s.native tm)))
        s.carried_out
        (ground (arith, s.agrees.unborn_ahead w.next, s.agrees.standing m, s.agrees.standing tm))
        refl refl
        (engine-Agrees m tm (call (Call.create_engine w.next m tm true) w) s.native cm ct ht hm
          (s.agrees.standing m cm om) (s.agrees.standing tm ct ot)
          (call-Agrees (Call.create_engine w.next m tm true) w s.native s.agrees))))

pub add_module-IsSafe :
    (e m : ℕ) (w : World)
    → (contains m (modules_of (w.refs e).resource) ≡ false → (w.refs m).owned ≡ false)
    → IsSafe w
    → IsSafe (add_module e m w).1
unfolding add_module perform is_alone
add_module-IsSafe e m w om s = elim (Bool-cases (contains m (modules_of (w.refs e).resource))) [
  | inl listed ↦ rw listed s
  | inr new ↦ rw new (
      argument-IsSafe is_engine e w _ s (λ ce he. argument-IsSafe is_module m w _ s (λ cm hm.
        called-IsSafe (Call.add_module e m) w _ s.native _
          (is_alone (s.native e) && is_alone (s.native m)) s.carried_out
          (ground (arith, s.agrees.standing e, s.agrees.free_engine e, s.agrees.standing m, om new))
          refl refl
          (add-Agrees e m (call (Call.add_module e m) w) s.native ce he cm hm
            (s.agrees.standing m cm (om new))
            (call-Agrees (Call.add_module e m) w s.native s.agrees)))))
]

eq_of_held_by : (e : ℕ) (t : Status) → is_held_by e t ≡ true → t ≡ held e
unfolding is_held_by
eq_of_held_by e unborn h = cc
eq_of_held_by e alone h = cc
eq_of_held_by e gone h = cc
eq_of_held_by e (held f) h = ground arith

module _ (e m : ℕ) (w : World) (s : IsSafe w) (ce : (w.refs e).closed ≡ false)
    (he : is_engine (w.refs e).resource ≡ true) (cm : (w.refs m).closed ≡ false)
    (hm : is_module (w.refs m).resource ≡ true) where
  both_there : (is_alone (s.native e) && is_live (s.native m)) ≡ true
  unfolding is_alone
  both_there =
      ground (arith, s.agrees.standing e, s.agrees.free_engine e, module_live m w s.native s.agrees)

  -- LLVM has failed, or the set lacked the module: the objects stay as they are.
  refused-IsSafe :
      (failed : Bool)
      → contains m (modules_of (w.refs e).resource) ≡ false ⊎ failed ≡ true
      → IsSafe (call (Call.remove_module e m failed) w)
  unfolding perform
  refused-IsSafe true h =
      called-IsSafe (Call.remove_module e m true) w (call (Call.remove_module e m true) w) s.native
        s.native (is_alone (s.native e) && is_live (s.native m)) s.carried_out both_there refl refl
        (call-Agrees (Call.remove_module e m true) w s.native s.agrees)
  refused-IsSafe false (inr h) = cc
  refused-IsSafe false (inl h) = elim (Bool-cases (is_held_by e (s.native m))) [
    | inl b ↦
        called-IsSafe (Call.remove_module e m false) w (call (Call.remove_module e m false) w)
          s.native (put m alone s.native) (is_alone (s.native e) && is_live (s.native m))
          s.carried_out both_there (rw b refl) refl
          (given-Agrees e m (call (Call.remove_module e m false) w) s.native cm hm
            (module_facts (w.refs m).resource hm) (eq_of_held_by e (s.native m) b) h
            (call-Agrees (Call.remove_module e m false) w s.native s.agrees))
    | inr b ↦
        called-IsSafe (Call.remove_module e m false) w (call (Call.remove_module e m false) w)
          s.native s.native (is_alone (s.native e) && is_live (s.native m)) s.carried_out both_there
          (rw b refl) refl (call-Agrees (Call.remove_module e m false) w s.native s.agrees)
  ]

  -- LLVM and the set give the module back.
  removed-IsSafe :
      contains m (modules_of (w.refs e).resource) ≡ true
      → IsSafe (
          update m (set_owned false) (
            update e
              (λ r. set_resource (with_modules (without m (modules_of r.resource)) r.resource) r)
              (call (Call.remove_module e m false) w)))
  unfolding perform is_held_by
  removed-IsSafe listed =
      let holds : s.native m ≡ held e = s.agrees.listed m e listed cm in
      called-IsSafe (Call.remove_module e m false) w _ s.native (put m alone s.native)
        (is_alone (s.native e) && is_live (s.native m)) s.carried_out both_there
        (ap
            (λ t.
              allowed (is_alone (s.native e) && is_live (s.native m))
                (if is_held_by e t then put m alone s.native else s.native))
            holds
          ∙ ground arith)
        refl
        (remove-Agrees e m (call (Call.remove_module e m false) w) s.native ce he cm hm holds
          (call-Agrees (Call.remove_module e m false) w s.native s.agrees))

pub remove_module-IsSafe :
    (e m : ℕ) (failed : Bool) (w : World) → IsSafe w → IsSafe (remove_module e m failed w).1
unfolding remove_module
remove_module-IsSafe e m true w s = argument-IsSafe is_engine e w _ s (λ ce he.
    argument-IsSafe is_module m w _ s (λ cm hm. refused-IsSafe e m w s ce he cm hm true (inr refl)))
remove_module-IsSafe e m false w s = argument-IsSafe is_engine e w _ s (λ ce he.
    argument-IsSafe is_module m w _ s (λ cm hm.
      elim (Bool-cases (contains m (modules_of (w.refs e).resource))) [
        | inl h ↦ rw h (removed-IsSafe e m w s ce he cm hm h)
        | inr h ↦ rw h (refused-IsSafe e m w s ce he cm hm false (inl h))
      ]))

pub known_or_new-IsSafe :
    (e : ℕ) (o : Option ℕ) (w : World)
    → td_of (w.refs e).resource ≡ o
    → IsSafe w
    → IsSafe (known_or_new e o w).1
unfolding known_or_new perform is_alone
known_or_new-IsSafe e (some d) w h s = s
known_or_new-IsSafe e none w h s = argument-IsSafe is_engine e w _ s (λ ce he.
    called-IsSafe (Call.get_target_data e w.next) w _ s.native _
      (is_alone (s.native e) && is_unborn (s.native w.next)) s.carried_out
      (ground (arith, s.agrees.standing e, s.agrees.free_engine e, s.agrees.unborn_ahead w.next))
      refl refl
      (td-Agrees e (call (Call.get_target_data e w.next) w) s.native ce he h
        (call-Agrees (Call.get_target_data e w.next) w s.native s.agrees)))
