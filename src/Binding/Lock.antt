-- ===== src/Binding/Lock.antt =====
-- The lock around the calls of LLVM in llvmlite/binding/ffi.py: `_LLVMLock` with its callbacks, and
-- `_lib_fn_wrapper.__call__` of several threads, step by step. The callbacks are registered before
-- the first call.
pub mod Held
pub mod Freed
pub mod Stuck
use llvmlite.Prelude.{
  ℕ, suc, ◌-◌, ◌==◌, ◌≡◌, Bool, true, false, List, [], ◌∷◌, ◌++◌, map, Option, none, some, ltb,
  if◌then◌else◌,
}
use llvmlite.Result.{Result, ok, err, value_error, ◌>>=◌}

-- The callbacks that are registered together, by the identities of the functions.
pub record Callback : Type 0 where
  pub acq_fn : ℕ
  pub rel_fn : ℕ

-- `register`
unfoldable pub register : ℕ → ℕ → List Callback → List Callback
register acq rel cblist = cblist ++ record { acq_fn = acq; rel_fn = rel } ∷ []

abbrev is_callback : ℕ → ℕ → Callback → Bool
is_callback acq rel c = if c.acq_fn == acq then c.rel_fn == rel else false

-- `unregister`, which removes the first entry and raises if there is none.
unfoldable pub unregister : ℕ → ℕ → List Callback → Result (List Callback)
unregister acq rel [] = err value_error
unregister acq rel (c ∷ cs) =
    let rest = unregister acq rel cs >>= λ ds. ok (c ∷ ds) in
    if is_callback acq rel c then ok cs else rest

-- `threading.RLock`: the thread that owns it, and how often.
pub record RLock : Type 0 where
  pub owner : Option ℕ
  pub count : ℕ

-- `acquire`, which waits while another thread owns the lock.
abbrev pub acquire_from : ℕ → Option ℕ → ℕ → Option RLock
acquire_from t none n = some (record { owner = some t; count = 1 })
acquire_from t (some u) n = if u == t then some (record { owner = some u; count = suc n }) else none

unfoldable pub acquire : ℕ → RLock → Option RLock
acquire t l = acquire_from t l.owner l.count

-- `release` by the thread that owns it.
unfoldable pub release : RLock → RLock
release l =
    if ltb 1 l.count then record l { count = l.count - 1 } else record { owner = none; count = 0 }

-- Where a thread stands in `with self._lock: return self._cfn(...)`: at the callbacks that are left
-- of `__enter__`, in the call, or at those that are left of `__exit__`.
pub data Phase : Type 0 where
  entering : List ℕ → Phase
  calling : Phase
  exiting : List ℕ → Phase

-- The lock, and for each thread the calls it is in, the innermost first: Python code that is called
-- back may call LLVM again.
pub record System : Type 0 where
  pub lock : RLock
  pub threads : ℕ → List Phase

abbrev pub idle : System
idle = record { lock = record { owner = none; count = 0 }; threads = λ t. [] }

abbrev pub with_stack : ℕ → List Phase → System → System
with_stack t phases s = record s { threads = λ u. if u == t then phases else s.threads u }

-- One step of one thread, with the callbacks that are registered and those that raise. An exception
-- in `__enter__` or in the loop of `__exit__` leaves the statement without the rest of it.
pub data Step (raises : ℕ → Bool) (cblist : List Callback) : System → System → Type 0 where
  enter :
      (t : ℕ) (s : System) (l : RLock)
      → acquire t s.lock ≡ some l
      → Step raises cblist s (
          with_stack t
            (entering (map (λ c. c.acq_fn) cblist) ∷ s.threads t)
            (record s { lock = l }))
  acq_called :
      (t f : ℕ) (fs : List ℕ) (rest : List Phase) (s : System)
      → s.threads t ≡ entering (f ∷ fs) ∷ rest
      → raises f ≡ false
      → Step raises cblist s (with_stack t (entering fs ∷ rest) s)
  acq_raised :
      (t f : ℕ) (fs : List ℕ) (rest : List Phase) (s : System)
      → s.threads t ≡ entering (f ∷ fs) ∷ rest
      → raises f ≡ true
      → Step raises cblist s (with_stack t rest s)
  begin :
      (t : ℕ) (rest : List Phase) (s : System)
      → s.threads t ≡ entering [] ∷ rest
      → Step raises cblist s (with_stack t (calling ∷ rest) s)
  returned :
      (t : ℕ) (rest : List Phase) (s : System)
      → s.threads t ≡ calling ∷ rest
      → Step raises cblist s (with_stack t (exiting (map (λ c. c.rel_fn) cblist) ∷ rest) s)
  rel_called :
      (t f : ℕ) (fs : List ℕ) (rest : List Phase) (s : System)
      → s.threads t ≡ exiting (f ∷ fs) ∷ rest
      → raises f ≡ false
      → Step raises cblist s (with_stack t (exiting fs ∷ rest) s)
  rel_raised :
      (t f : ℕ) (fs : List ℕ) (rest : List Phase) (s : System)
      → s.threads t ≡ exiting (f ∷ fs) ∷ rest
      → raises f ≡ true
      → Step raises cblist s (with_stack t rest s)
  leave :
      (t : ℕ) (rest : List Phase) (s : System)
      → s.threads t ≡ exiting [] ∷ rest
      → Step raises cblist s (with_stack t rest (record s { lock = release s.lock }))

-- Any number of steps.
pub data Schedule (raises : ℕ → Bool) (cblist : List Callback) : System → System → Type 0 where
  stop : (s : System) → Schedule raises cblist s s
  go :
      (s u v : System)
      → Schedule raises cblist s u
      → Step raises cblist u v
      → Schedule raises cblist s v
