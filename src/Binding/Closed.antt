-- ===== src/Binding/Closed.antt =====
-- `close` and `detach` of an object of llvmlite/binding/ffi.py, in any order, and what closing an object
-- does to the resources of LLVM.
use llvmlite.Prelude.{Bool, none, ℕ, ◌≡◌, refl, ap, ◌∙◌, arith, true, false, some, if◌then◌else◌}
use llvmlite.Exec.{Exec, ◌>>=◌}
use llvmlite.Binding.{call, is_machine, Resource, World, Call, detach, dispose_of, close}
use llvmlite.Binding.Engine.{argument, use_object}
use llvmlite.Binding.Contract.{
  is_live, Native, gone, put, replay, perform, then_perform, allowed, is_alone, is_held_by,
}
use llvmlite.Binding.Disposal.{dispose-Disposed}
use llvmlite.Binding.Calls.{IsSafe}
use llvmlite.Result.{ok, Result}

pub close_run :
    (i : ℕ) (w : World)
    → (w.refs i).closed ≡ false
    → (w.refs i).owned ≡ false
    → close i w ≡ detach i (dispose_of i (w.refs i).resource w)
unfolding close
close_run i w c o = rw (c, o) refl

close_closed : (i : ℕ) (w : World) → (w.refs i).closed ≡ true → (close i w).calls ≡ w.calls
unfolding close detach
close_closed i w c = rw c refl

pub close-closed : (i : ℕ) (w : World) → ((close i w).refs i).closed ≡ true
unfolding close detach
close-closed i w = ground arith

detach-closed : (i : ℕ) (w : World) → ((detach i w).refs i).closed ≡ true
unfolding detach
detach-closed i w = ground arith

detach-calls : (i : ℕ) (w : World) → (detach i w).calls ≡ w.calls
unfolding detach
detach-calls i w = refl

-- Closing closes an object whatever state it is in. A second close, and a close of an object that
-- was detached, call nothing in LLVM.
pub close_once :
    (i : ℕ) (w : World)
    → (((close i w).refs i).closed ≡ true)
      × ((close i (close i w)).calls ≡ (close i w).calls)
      × ((close i (detach i w)).calls ≡ w.calls)
close_once i w = (
  close-closed i w,
  close_closed i (close i w) (close-closed i w),
  close_closed i (detach i w) (detach-closed i w) ∙ detach-calls i w,
)

-- The resources behind the close of an object that stands alone.
abbrev pub behind : ℕ → Native → Native
behind i n = put i gone (λ j. if is_held_by i (n j) then gone else n j)

pub closed_native :
    (i : ℕ) (w : World) (s : IsSafe w)
    → (w.refs i).closed ≡ false
    → (w.refs i).owned ≡ false
    → replay (close i w).calls ≡ some (behind i s.native)
unfolding replay perform is_alone
closed_native i w s c o =
    ap (λ (v : World). replay v.calls) (close_run i w c o)
    ∙ ap replay (dispose-Disposed i w (w.refs i).resource refl).1
    ∙ ap (then_perform (Call.dispose i)) s.carried_out
    ∙ ap (λ t. allowed (is_alone t) (behind i s.native)) (s.agrees.standing i c o)

-- A C function that gets an open object of its class.
pub argument_passed :
    {A : Type 0} (test : Resource → Bool) (i : ℕ) (w : World) (next : Resource → Exec World A)
    → (w.refs i).closed ≡ false
    → test (w.refs i).resource ≡ true
    → (argument test i >>= next) w ≡ next (w.refs i).resource w
unfolding argument
argument_passed test i w next c h = rw (c, h) refl

-- Closing an open, unowned object of a resource that is gone, and using one, are refused by LLVM.
pub dispose_refused :
    (i : ℕ) (w : World) (n : Native)
    → replay w.calls ≡ some n
    → n i ≡ gone
    → (w.refs i).closed ≡ false
    → (w.refs i).owned ≡ false
    → replay (close i w).calls ≡ none
unfolding replay perform is_alone
dispose_refused i w n done ended c o =
    ap (λ (v : World). replay v.calls) (close_run i w c o)
    ∙ ap replay (dispose-Disposed i w (w.refs i).resource refl).1
    ∙ ap (then_perform (Call.dispose i)) done
    ∙ ap (λ t. allowed (is_alone t) (behind i n)) ended

pub use_refused :
    (tm : ℕ) (w : World) (n : Native)
    → replay w.calls ≡ some n
    → n tm ≡ gone
    → (w.refs tm).closed ≡ false
    → is_machine (w.refs tm).resource ≡ true
    → replay (use_object is_machine tm w).1.calls ≡ none
unfolding use_object replay perform is_live
use_refused tm w n done ended c h =
    ap (λ (p : Result Resource × World). replay p.1.calls)
      (argument_passed is_machine tm w (λ r w'. (ok r, call (Call.use_of tm) w')) c h)
    ∙ ap (then_perform (Call.use_of tm)) done
    ∙ ap (λ t. allowed (is_live t) n) ended
