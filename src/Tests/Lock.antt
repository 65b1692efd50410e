-- ===== src/Tests/Lock.antt =====
-- Runs of threads through the lock of llvmlite/binding/ffi.py.
use llvmlite.Prelude.{some, arith, ℕ, ◌≡◌, ◌≢◌, refl, inl, Bool, false, List, [], ◌∷◌, ◌==◌, none}
use llvmlite.Result.{ok, err, value_error}
use llvmlite.Binding.Lock.{
  release, Callback, register, unregister, acquire, RLock, Phase, entering, calling, exiting,
  System, idle, with_stack, enter, acq_called, begin, returned, rel_called, leave, Schedule, stop,
  go,
}
use llvmlite.Binding.Lock.Held.{threads_exclude}
use llvmlite.Binding.Lock.Freed.{threads_free}
use llvmlite.Binding.Lock.Stuck.{raised_stuck}

abbrev callbacks : List Callback
callbacks = record { acq_fn = 1; rel_fn = 2 } ∷ []

registered : register 1 2 [] ≡ callbacks
unfolding register
registered = refl

unregistered : unregister 1 2 callbacks ≡ ok []
unfolding unregister
unregistered = refl

unknown : unregister 2 1 callbacks ≡ err value_error
unfolding unregister
unknown = refl

abbrev quiet : ℕ → Bool
quiet f = false

abbrev first_raises : ℕ → Bool
first_raises f = f == 1

abbrev owned : RLock
owned = record { owner = some 0; count = 1 }

-- Thread 0 with the lock and these phases.
abbrev at : List Phase → System → System
at phases s = with_stack 0 phases (record s { lock = owned })

abbrev entered : System
entered = at (entering (1 ∷ []) ∷ []) idle

abbrev notified : System
notified = with_stack 0 (entering [] ∷ []) entered

abbrev inside : System
inside = with_stack 0 (calling ∷ []) notified

abbrev outside : System
outside = with_stack 0 (exiting (2 ∷ []) ∷ []) inside

abbrev ready_to_leave : System
ready_to_leave = with_stack 0 (exiting [] ∷ []) outside

abbrev left : System
left = with_stack 0 [] (record ready_to_leave { lock = release owned })

to_entered : {raises : ℕ → Bool} → Schedule raises callbacks idle entered
unfolding acquire
to_entered = go idle idle entered (stop idle) (enter 0 idle owned refl)

to_inside : Schedule quiet callbacks idle inside
to_inside =
    go idle notified inside
      (go idle entered notified to_entered (acq_called 0 1 [] [] entered refl refl))
      (begin 0 [] notified refl)

to_left : Schedule quiet callbacks idle left
to_left =
    go idle ready_to_leave left
      (go idle outside ready_to_leave (go idle inside outside to_inside (returned 0 [] inside refl))
        (rel_called 0 2 [] [] outside refl refl))
      (leave 0 [] ready_to_leave refl)

threads_exclude_example : ◌≡◌ {A = ℕ} 0 0
threads_exclude_example = threads_exclude inside 0 0 calling calling [] [] to_inside refl refl

all_out : (t : ℕ) → left.threads t ≡ []
all_out t = ground arith

threads_free_example : left.lock.owner ≡ none
threads_free_example = threads_free left (λ f. refl) to_left all_out

other_thread : ◌≢◌ {A = ℕ} 1 0
other_thread = λ e. omega (arith, e)

raised_stuck_example : acquire 1 (with_stack 0 [] entered).lock ≡ none
raised_stuck_example =
    raised_stuck entered (with_stack 0 [] entered) 0 1 1 [] [] (to_entered {raises = first_raises})
      (inl refl) refl (stop (with_stack 0 [] entered)) other_thread
