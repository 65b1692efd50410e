-- ===== src/Binding/Lock/Stuck.antt =====
-- A callback of the lock of llvmlite/binding/ffi.py that raises.
use llvmlite.Prelude.{
  ◌≤◌, ℕ, suc, ◌<◌, ◌==◌, ◌≡◌, ◌≢◌, ◌⊎◌, refl, sym, ap, ◌∙◌, arith, Bool, true, List, [], ◌∷◌, none,
  some, length, Bool-cases, inl, inr,
}
use llvmlite.Binding.Lock.{
  Callback, RLock, acquire, acquire_from, release, Phase, entering, calling, exiting, System, idle,
  with_stack, Step, enter, acq_called, acq_raised, begin, returned, rel_called, rel_raised, leave,
  Schedule, stop, go,
}
use llvmlite.Binding.Lock.Held.{
  IsHeld, same_number, some-injective, no_thread, Taken, first, again, acquire-Taken, Released,
  kept, freed, release-Released, stack-same, stack-other, step-IsHeld, run_steps-IsHeld,
  idle-IsHeld,
}

-- The thread owns the lock more often than it will release it.
record IsStuck (t : ℕ) (s : System) : Type 0 where
  owned : s.lock.owner ≡ some t
  leaked : length (s.threads t) < s.lock.count

-- A step within the calls of any thread that leaves the lock alone.
stack-IsStuck :
    (t u : ℕ) (p : Phase) (rest ps : List Phase) (s : System)
    → s.threads u ≡ p ∷ rest
    → length ps ≤ suc (length rest)
    → IsStuck t s
    → IsStuck t (with_stack u ps s)
stack-IsStuck t u p rest ps s h le x = record {
  owned = x.owned;
  leaked = elim (Bool-cases (t == u)) [
    | inl same ↦ omega (
      arith,
      le,
      ap length h,
      x.leaked,
      ap length (stack-same u t ps s same),
      ap (λ v. length (s.threads v)) (same_number u t same),
    )
    | inr other ↦ omega (arith, x.leaked, ap length (stack-other u t ps s other))
  ];
}

enter-IsStuck :
    (t u : ℕ) (p : Phase) (s : System) (l : RLock)
    → Taken u s.lock l
    → IsStuck t s
    → IsStuck t (with_stack u (p ∷ s.threads u) (record s { lock = l }))
enter-IsStuck t u p s l (first free owned once) x = absurd (no_thread (sym free ∙ x.owned))
enter-IsStuck t u p s l (again before owned more) x =
    let who : u ≡ t = some-injective (sym before ∙ x.owned) in
    record {
      owned = owned ∙ ap some who;
      leaked = omega (
        arith,
        more,
        x.leaked,
        ap length (stack-same u t (p ∷ s.threads u) s (ground (arith, who))),
        ap (λ v. length (s.threads v)) who,
      );
    }

leave-IsStuck :
    (t u : ℕ) (p : Phase) (rest : List Phase) (s : System) (l : RLock)
    → s.threads u ≡ p ∷ rest
    → Released s.lock l
    → IsHeld s
    → IsStuck t s
    → IsStuck t (with_stack u rest (record s { lock = l }))
leave-IsStuck t u p rest s l h (kept many same_owner less) a x =
    let who : u ≡ t = some-injective (sym (a.held u p rest h) ∙ x.owned) in
    record {
      owned = same_owner ∙ x.owned;
      leaked = omega (
        arith,
        many,
        less,
        x.leaked,
        ap length h,
        ap length (stack-same u t rest s (ground (arith, who))),
        ap (λ v. length (s.threads v)) who,
      );
    }
leave-IsStuck t u p rest s l h (freed last none_left) a x =
    let who : u ≡ t = some-injective (sym (a.held u p rest h) ∙ x.owned) in
    absurd (omega (arith, last, x.leaked, ap length h, ap (λ v. length (s.threads v)) who))

refused : (t u : ℕ) (s : System) → s.lock.owner ≡ some t → u ≢ t → acquire u s.lock ≡ none
unfolding acquire
refused t u s owned other =
    ap (λ o. acquire_from u o s.lock.count) owned ∙ elim (Bool-cases (t == u)) [
      | inl same ↦ absurd (other (sym (same_number u t same)))
      | inr differs ↦ rw differs refl
    ]

out-IsStuck :
    (s : System) (t : ℕ) (p : Phase) (rest : List Phase)
    → s.threads t ≡ p ∷ rest
    → IsHeld s
    → IsStuck t (with_stack t rest s)
out-IsStuck s t p rest h a = record {
  owned = a.held t p rest h;
  leaked = omega (
    arith,
    a.counted t (a.held t p rest h),
    ap length h,
    ap length (stack-same t t rest s (ground arith)),
  );
}

module _ {raises : ℕ → Bool} {cblist : List Callback} where
  step-IsStuck :
      {t : ℕ} {s u : System} → Step raises cblist s u → IsHeld s → IsStuck t s → IsStuck t u
  step-IsStuck {t} (enter u s l h) a x = enter-IsStuck t u _ s l (acquire-Taken u s.lock l h) x
  step-IsStuck {t} (acq_called u f fs rest s h r) a x =
      stack-IsStuck t u (entering (f ∷ fs)) rest (entering fs ∷ rest) s h (omega arith) x
  step-IsStuck {t} (acq_raised u f fs rest s h r) a x =
      stack-IsStuck t u (entering (f ∷ fs)) rest rest s h (omega arith) x
  step-IsStuck {t} (begin u rest s h) a x =
      stack-IsStuck t u (entering []) rest (calling ∷ rest) s h (omega arith) x
  step-IsStuck {t} (returned u rest s h) a x =
      stack-IsStuck t u calling rest (_ ∷ rest) s h (omega arith) x
  step-IsStuck {t} (rel_called u f fs rest s h r) a x =
      stack-IsStuck t u (exiting (f ∷ fs)) rest (exiting fs ∷ rest) s h (omega arith) x
  step-IsStuck {t} (rel_raised u f fs rest s h r) a x =
      stack-IsStuck t u (exiting (f ∷ fs)) rest rest s h (omega arith) x
  step-IsStuck {t} (leave u rest s h) a x =
      leave-IsStuck t u (exiting []) rest s (release s.lock) h (release-Released s.lock) a x

  run_steps-IsStuck :
      {t : ℕ} {s u : System} → Schedule raises cblist s u → IsHeld s → IsStuck t s → IsStuck t u
  run_steps-IsStuck (stop s) a x = x
  run_steps-IsStuck (go s u v before last) a x =
      step-IsStuck last (run_steps-IsHeld before a) (run_steps-IsStuck before a x)

  -- When a callback raises, before the call or behind it, the lock is not released any more: in every
  -- later state, whatever the threads do, no thread but the one whose callback raised gets it.
  pub raised_stuck :
      (s v : System) (t u f : ℕ) (fs : List ℕ) (rest : List Phase)
      → Schedule raises cblist idle s
      → (s.threads t ≡ entering (f ∷ fs) ∷ rest) ⊎ (s.threads t ≡ exiting (f ∷ fs) ∷ rest)
      → raises f ≡ true
      → Schedule raises cblist (with_stack t rest s) v
      → u ≢ t
      → acquire u v.lock ≡ none
  raised_stuck s v t u f fs rest steps (inl h) r later other =
      let a = run_steps-IsHeld steps idle-IsHeld in
      let x =
        run_steps-IsStuck later
          (step-IsHeld {raises = raises} {cblist = cblist} (acq_raised t f fs rest s h r) a)
          (out-IsStuck s t (entering (f ∷ fs)) rest h a) in
      refused t u v x.owned other
  raised_stuck s v t u f fs rest steps (inr h) r later other =
      let a = run_steps-IsHeld steps idle-IsHeld in
      let x =
        run_steps-IsStuck later
          (step-IsHeld {raises = raises} {cblist = cblist} (rel_raised t f fs rest s h r) a)
          (out-IsStuck s t (exiting (f ∷ fs)) rest h a) in
      refused t u v x.owned other
