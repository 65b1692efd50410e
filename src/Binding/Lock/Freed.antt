-- ===== src/Binding/Lock/Freed.antt =====
-- When the lock of llvmlite/binding/ffi.py is free again, and when it never is.
use llvmlite.Prelude.{
  ℕ, suc, ◌≤◌, ◌==◌, ◌≡◌, refl, sym, ap, ◌∙◌, arith, Bool, false, List, [], ◌∷◌, Option, none, some,
  length, Bool-cases, inl, inr,
}
use llvmlite.Binding.Lock.{
  Callback, RLock, release, Phase, entering, calling, exiting, System, idle, with_stack, Step,
  enter, acq_called, acq_raised, begin, returned, rel_called, rel_raised, leave, Schedule, stop, go,
}
use llvmlite.Binding.Lock.Held.{
  IsHeld, same_number, some-injective, no_thread, Taken, first, again, acquire-Taken, Released,
  kept, freed, release-Released, stack-same, stack-other, unowned, run_steps-IsHeld, idle-IsHeld,
}

-- The owner has the lock as often as it is in a call, and at least once.
abbrev IsExact : System → Type 0
IsExact s =
    (t : ℕ) → s.lock.owner ≡ some t → (s.lock.count ≡ length (s.threads t)) × (1 ≤ s.lock.count)

stack-IsExact :
    (t : ℕ) (p : Phase) (rest ps : List Phase) (s : System)
    → s.threads t ≡ p ∷ rest
    → length ps ≡ suc (length rest)
    → IsExact s
    → IsExact (with_stack t ps s)
stack-IsExact t p rest ps s h le x u e =
    let (counted, positive) = x u e in
    (
      elim (Bool-cases (u == t)) [
        | inl same ↦ omega (
          arith,
          le,
          counted,
          ap length h,
          ap length (stack-same t u ps s same),
          ap (λ v. length (s.threads v)) (same_number t u same),
        )
        | inr other ↦ omega (arith, counted, ap length (stack-other t u ps s other))
      ],
      positive,
    )

enter-IsExact :
    (t : ℕ) (p : Phase) (s : System) (l : RLock)
    → Taken t s.lock l
    → IsHeld s
    → IsExact s
    → IsExact (with_stack t (p ∷ s.threads t) (record s { lock = l }))
enter-IsExact t p s l (first free owned once) a x u e =
    let who : t ≡ u = some-injective (sym owned ∙ e) in
    (
      omega (
        arith,
        once,
        ap length (stack-same t u (p ∷ s.threads t) s (ground (arith, who))),
        ap length (unowned s a free t),
      ),
      omega (arith, once),
    )
enter-IsExact t p s l (again before owned more) a x u e =
    let who : t ≡ u = some-injective (sym owned ∙ e) in
    let (counted, positive) = x t before in
    (
      omega (
        arith,
        more,
        counted,
        ap length (stack-same t u (p ∷ s.threads t) s (ground (arith, who))),
      ),
      omega (arith, more),
    )

leave-IsExact :
    (t : ℕ) (p : Phase) (rest : List Phase) (s : System) (l : RLock)
    → s.threads t ≡ p ∷ rest
    → Released s.lock l
    → IsHeld s
    → IsExact s
    → IsExact (with_stack t rest (record s { lock = l }))
leave-IsExact t p rest s l h (kept many same_owner less) a x u e =
    let who : t ≡ u = some-injective (sym (a.held t p rest h) ∙ sym same_owner ∙ e) in
    let (counted, positive) = x t (a.held t p rest h) in
    (
      omega (
        arith,
        many,
        less,
        counted,
        ap length h,
        ap length (stack-same t u rest s (ground (arith, who))),
      ),
      omega (arith, many, less),
    )
leave-IsExact t p rest s l h (freed last none_left) a x u e = absurd (no_thread (sym none_left ∙ e))

module _ {raises : ℕ → Bool} {cblist : List Callback} where
  step-IsExact :
      {s u : System}
      → ((f : ℕ) → raises f ≡ false)
      → Step raises cblist s u
      → IsHeld s
      → IsExact s
      → IsExact u
  step-IsExact quiet (enter t s l h) a x = enter-IsExact t _ s l (acquire-Taken t s.lock l h) a x
  step-IsExact quiet (acq_called t f fs rest s h r) a x =
      stack-IsExact t (entering (f ∷ fs)) rest (entering fs ∷ rest) s h refl x
  step-IsExact quiet (acq_raised t f fs rest s h r) a x = absurd (ground (arith, r, quiet f))
  step-IsExact quiet (begin t rest s h) a x =
      stack-IsExact t (entering []) rest (calling ∷ rest) s h refl x
  step-IsExact quiet (returned t rest s h) a x = stack-IsExact t calling rest (_ ∷ rest) s h refl x
  step-IsExact quiet (rel_called t f fs rest s h r) a x =
      stack-IsExact t (exiting (f ∷ fs)) rest (exiting fs ∷ rest) s h refl x
  step-IsExact quiet (rel_raised t f fs rest s h r) a x = absurd (ground (arith, r, quiet f))
  step-IsExact quiet (leave t rest s h) a x =
      leave-IsExact t (exiting []) rest s (release s.lock) h (release-Released s.lock) a x

  run_steps-IsExact :
      {s u : System}
      → ((f : ℕ) → raises f ≡ false)
      → Schedule raises cblist s u
      → IsHeld s
      → IsExact s
      → IsExact u
  run_steps-IsExact quiet (stop s) a x = x
  run_steps-IsExact quiet (go s u v before last) a x =
      step-IsExact quiet last (run_steps-IsHeld before a) (run_steps-IsExact quiet before a x)

  -- If no callback raises, the lock is free whenever no thread is in a call.
  pub threads_free :
      (s : System)
      → ((f : ℕ) → raises f ≡ false)
      → Schedule raises cblist idle s
      → ((t : ℕ) → s.threads t ≡ [])
      → s.lock.owner ≡ none
  threads_free s quiet steps out = go_on s.lock.owner refl
    where
      go_on : (o : Option ℕ) → s.lock.owner ≡ o → s.lock.owner ≡ none
      go_on none e = e
      go_on (some t) e =
          let (counted, positive) =
            run_steps-IsExact quiet steps idle-IsHeld (λ u h. absurd (no_thread h)) t e in
          absurd (omega (arith, counted, positive, ap length (out t)))
