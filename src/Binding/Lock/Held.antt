-- ===== src/Binding/Lock/Held.antt =====
-- The lock of llvmlite/binding/ffi.py is held while a thread is in a call.
use llvmlite.Prelude.{
  ℕ, suc, ◌-◌, ◌≤◌, ◌<◌, ◌==◌, ◌≡◌, refl, sym, ap, ◌∙◌, arith, Bool, true, false, List, [], ◌∷◌,
  Option, none, some, length, ltb, if◌then◌else◌, Bool-cases, inl, inr,
}
use llvmlite.Binding.Lock.{
  acquire_from, Callback, RLock, acquire, release, Phase, entering, calling, exiting, System, idle,
  with_stack, Step, enter, acq_called, acq_raised, begin, returned, rel_called, rel_raised, leave,
  Schedule, stop, go,
}

-- Who is in a call owns the lock, as often as it is in one, or more often.
pub record IsHeld (s : System) : Type 0 where
  pub held : (t : ℕ) (p : Phase) (ps : List Phase) → s.threads t ≡ p ∷ ps → s.lock.owner ≡ some t
  pub counted : (t : ℕ) → s.lock.owner ≡ some t → length (s.threads t) ≤ s.lock.count

pub idle-IsHeld : IsHeld idle
idle-IsHeld = record { held = λ t p ps e. cc; counted = λ t e. cc }

pub same_number : (t u : ℕ) → (u == t) ≡ true → u ≡ t
same_number t u e = ground (arith, e)

-- What an acquired lock is.
pub data Taken (t : ℕ) (l m : RLock) : Type 0 where
  first : l.owner ≡ none → m.owner ≡ some t → m.count ≡ 1 → Taken t l m
  again : l.owner ≡ some t → m.owner ≡ some t → m.count ≡ suc l.count → Taken t l m

if_some : (b : Bool) (x m : RLock) → (if b then some x else none) ≡ some m → (b ≡ true) × (m ≡ x)
if_some true x m h = (refl, cc)
if_some false x m h = cc

lock_from :
    (t : ℕ) (l m : RLock) (o : Option ℕ)
    → l.owner ≡ o
    → acquire_from t o l.count ≡ some m
    → Taken t l m
lock_from t l m none e h = first e (ap RLock.owner (some_lock h)) (ap RLock.count (some_lock h))
  where
    some_lock : {a b : RLock} → ◌≡◌ {A = Option RLock} (some a) (some b) → b ≡ a
    some_lock e = cc
lock_from t l m (some u) e h =
    let (same, is) = if_some (u == t) (record { owner = some u; count = suc l.count }) m h in
    let named : ◌≡◌ {A = Option ℕ} (some u) (some t) = ap some (same_number t u same) in
    again (e ∙ named) (ap RLock.owner is ∙ named) (ap RLock.count is)

pub acquire-Taken : (t : ℕ) (l m : RLock) → acquire t l ≡ some m → Taken t l m
unfolding acquire
acquire-Taken t l m h = lock_from t l m l.owner refl h

-- The calls of a thread after a change of its own, and after that of another.
pub stack-same :
    (t u : ℕ) (ps : List Phase) (s : System) → (u == t) ≡ true → (with_stack t ps s).threads u ≡ ps
stack-same t u ps s same = rw same refl

pub stack-other :
    (t u : ℕ) (ps : List Phase) (s : System)
    → (u == t) ≡ false
    → (with_stack t ps s).threads u ≡ s.threads u
stack-other t u ps s other = rw other refl

-- A step that leaves the lock alone, in a call that the thread is in already.
stack-IsHeld :
    (t : ℕ) (p : Phase) (rest ps : List Phase) (s : System)
    → s.threads t ≡ p ∷ rest
    → length ps ≤ suc (length rest)
    → IsHeld s
    → IsHeld (with_stack t ps s)
stack-IsHeld t p rest ps s h le a = record {
  held = λ u q qs e. elim (Bool-cases (u == t)) [
    | inl same ↦ a.held t p rest h ∙ ap some (sym (same_number t u same))
    | inr other ↦ a.held u q qs (sym (stack-other t u ps s other) ∙ e)
  ];
  counted = λ u e. elim (Bool-cases (u == t)) [
    | inl same ↦ omega (
      arith,
      le,
      ap length (stack-same t u ps s same),
      ap length h,
      a.counted t (a.held t p rest h),
    )
    | inr other ↦ omega (arith, ap length (stack-other t u ps s other), a.counted u e)
  ];
}

pub no_thread : {t : ℕ} → ◌≡◌ {A = Option ℕ} none (some t) → ⊥
no_thread e = cc

pub some-injective : {t u : ℕ} → ◌≡◌ {A = Option ℕ} (some t) (some u) → t ≡ u
some-injective e = cc

-- Without an owner no thread is in a call.
pub unowned : (s : System) → IsHeld s → s.lock.owner ≡ none → (t : ℕ) → s.threads t ≡ []
unowned s a free t = go (s.threads t) refl
  where
    go : (ps : List Phase) → s.threads t ≡ ps → s.threads t ≡ []
    go [] e = e
    go (p ∷ ps) e = absurd (no_thread (sym free ∙ a.held t p ps e))

enter-IsHeld :
    (t : ℕ) (p : Phase) (s : System) (l : RLock)
    → Taken t s.lock l
    → IsHeld s
    → IsHeld (with_stack t (p ∷ s.threads t) (record s { lock = l }))
enter-IsHeld t p s l (first free owned once) a = record {
  held = λ u q qs e. elim (Bool-cases (u == t)) [
    | inl same ↦ owned ∙ ap some (sym (same_number t u same))
    | inr other ↦
        absurd (
          no_thread
            (sym free ∙ a.held u q qs (sym (stack-other t u (p ∷ s.threads t) s other) ∙ e)))
  ];
  counted = λ u e.
      let who : t ≡ u = some-injective (sym owned ∙ e) in
      omega (
        arith,
        once,
        ap length (stack-same t u (p ∷ s.threads t) s (ground (arith, who))),
        ap length (unowned s a free t),
      );
}
enter-IsHeld t p s l (again before owned more) a = record {
  held = λ u q qs e. elim (Bool-cases (u == t)) [
    | inl same ↦ owned ∙ ap some (sym (same_number t u same))
    | inr other ↦
        owned ∙ sym before ∙ a.held u q qs (sym (stack-other t u (p ∷ s.threads t) s other) ∙ e)
  ];
  counted = λ u e.
      let who : t ≡ u = some-injective (sym owned ∙ e) in
      omega (
        arith,
        more,
        ap length (stack-same t u (p ∷ s.threads t) s (ground (arith, who))),
        a.counted t before,
      );
}

-- What a released lock is.
pub data Released (l m : RLock) : Type 0 where
  kept : 1 < l.count → m.owner ≡ l.owner → m.count ≡ l.count - 1 → Released l m
  freed : l.count ≤ 1 → m.owner ≡ none → Released l m

pub release-Released : (l : RLock) → Released l (release l)
unfolding release
release-Released l = elim (Bool-cases (ltb 1 l.count)) [
  | inl many ↦ rw many (kept (ground (arith, many)) refl refl)
  | inr last ↦ rw last (freed (ground (arith, last)) refl)
]

leave-IsHeld :
    (t : ℕ) (p : Phase) (rest : List Phase) (s : System) (l : RLock)
    → s.threads t ≡ p ∷ rest
    → Released s.lock l
    → IsHeld s
    → IsHeld (with_stack t rest (record s { lock = l }))
leave-IsHeld t p rest s l h (kept many same_owner less) a = record {
  held = λ u q qs e. elim (Bool-cases (u == t)) [
    | inl same ↦ same_owner ∙ a.held t p rest h ∙ ap some (sym (same_number t u same))
    | inr other ↦ same_owner ∙ a.held u q qs (sym (stack-other t u rest s other) ∙ e)
  ];
  counted = λ u e.
      let who : t ≡ u = some-injective (sym (a.held t p rest h) ∙ sym same_owner ∙ e) in
      omega (
        arith,
        many,
        less,
        ap length (stack-same t u rest s (ground (arith, who))),
        ap length h,
        a.counted t (a.held t p rest h),
      );
}
leave-IsHeld t p rest s l h (freed last none_left) a = record {
  held = λ u q qs e. elim (Bool-cases (u == t)) [
    | inl same ↦ absurd (
        omega (
          arith,
          last,
          ap length h,
          a.counted t (a.held t p rest h),
          ap length (sym (stack-same t u rest s same) ∙ e),
        ))
    | inr other ↦
        let who : t ≡ u =
          some-injective
            (sym (a.held t p rest h) ∙ a.held u q qs (sym (stack-other t u rest s other) ∙ e)) in
        absurd (ground (arith, who, other))
  ];
  counted = λ u e. absurd (no_thread (sym none_left ∙ e));
}

module _ {raises : ℕ → Bool} {cblist : List Callback} where
  pub step-IsHeld : {s u : System} → Step raises cblist s u → IsHeld s → IsHeld u
  step-IsHeld (enter t s l h) a = enter-IsHeld t _ s l (acquire-Taken t s.lock l h) a
  step-IsHeld (acq_called t f fs rest s h r) a =
      stack-IsHeld t (entering (f ∷ fs)) rest (entering fs ∷ rest) s h (omega arith) a
  step-IsHeld (acq_raised t f fs rest s h r) a =
      stack-IsHeld t (entering (f ∷ fs)) rest rest s h (omega arith) a
  step-IsHeld (begin t rest s h) a =
      stack-IsHeld t (entering []) rest (calling ∷ rest) s h (omega arith) a
  step-IsHeld (returned t rest s h) a = stack-IsHeld t calling rest (_ ∷ rest) s h (omega arith) a
  step-IsHeld (rel_called t f fs rest s h r) a =
      stack-IsHeld t (exiting (f ∷ fs)) rest (exiting fs ∷ rest) s h (omega arith) a
  step-IsHeld (rel_raised t f fs rest s h r) a =
      stack-IsHeld t (exiting (f ∷ fs)) rest rest s h (omega arith) a
  step-IsHeld (leave t rest s h) a =
      leave-IsHeld t (exiting []) rest s (release s.lock) h (release-Released s.lock) a

  pub run_steps-IsHeld : {s u : System} → Schedule raises cblist s u → IsHeld s → IsHeld u
  run_steps-IsHeld (stop s) a = a
  run_steps-IsHeld (go s u v before last) a = step-IsHeld last (run_steps-IsHeld before a)

  -- Whatever the threads do and whichever callbacks raise: two threads that are in calls of LLVM at
  -- the same time, or at the callbacks around them, are one.
  pub threads_exclude :
      (s : System) (t u : ℕ) (p q : Phase) (ps qs : List Phase)
      → Schedule raises cblist idle s
      → s.threads t ≡ p ∷ ps
      → s.threads u ≡ q ∷ qs
      → t ≡ u
  threads_exclude s t u p q ps qs steps h k =
      let a = run_steps-IsHeld steps idle-IsHeld in
      some-injective (sym (a.held t p ps h) ∙ a.held u q qs k)
