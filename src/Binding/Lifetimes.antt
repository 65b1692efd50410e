-- ===== src/Binding/Lifetimes.antt =====
-- What the end of an engine of llvmlite/binding leaves behind, and what its failed creation does.
use llvmlite.Prelude.{
  subst, ◌<◌, ◌==◌, [], ◌∷◌, Bool, sym, Option, ℕ, ◌≡◌, refl, ap, ◌∙◌, arith, true, false, none,
  some, if◌then◌else◌,
}
use llvmlite.Result.{Result, ok, err, runtime_error}
use llvmlite.Binding.{
  td_of, engine, wrap, World, Call, call, is_module, is_machine, is_engine, modules_of, contains,
  close,
}
use llvmlite.Binding.Engine.{use_object, set_owned, update, argument, create_mcjit_compiler}
use llvmlite.Binding.Contract.{
  alone, Native, gone, held, put, replay, perform, then_perform, is_alone, is_unborn, is_held_by,
}
use llvmlite.Binding.Agreement.{keeps}
use llvmlite.Binding.Disposal.{dispose-Disposed}
use llvmlite.Binding.Calls.{IsSafe}
use llvmlite.Binding.Engines.{create_mcjit_compiler-IsSafe}
use llvmlite.Binding.Closed.{
  argument_passed, dispose_refused, use_refused, close_run, closed_native, close-closed, behind,
}

-- When an open engine is closed, LLVM disposes of it and of each open module in its set, and the
-- objects of all of these are closed.
pub close_engine_ends :
    (e m : ℕ) (w : World) (s : IsSafe w)
    → (w.refs e).closed ≡ false
    → is_engine (w.refs e).resource ≡ true
    → (w.refs m).closed ≡ false
    → contains m (modules_of (w.refs e).resource) ≡ true
    → (n : Native) × (replay (close e w).calls ≡ some n)
      × (n e ≡ gone)
      × (n m ≡ gone)
      × (((close e w).refs e).closed ≡ true)
      × (((close e w).refs m).closed ≡ true)
unfolding is_held_by
close_engine_ends e m w s ce he cm listed =
    let own : (w.refs e).owned ≡ false = s.agrees.free_engine e he in
    let held_there : s.native m ≡ held e = s.agrees.listed m e listed cm in
    (
      behind e s.native,
      closed_native e w s ce own,
      ground arith,
      ground (arith, held_there),
      close-closed e w,
      ap (λ (v : World). (v.refs m).closed) (close_run e w ce own)
          ∙ (dispose-Disposed e w (w.refs e).resource refl).0.closes m (ground (arith, listed)),
    )

abbrev from_some : Native → Option Native → Native
from_some other none = other
from_some other (some n) = n

same_native : (w : World) (s : IsSafe w) {n : Native} → replay w.calls ≡ some n → s.native ≡ n
same_native w s h = ap (from_some s.native) (sym s.carried_out ∙ h)

-- When an open engine is closed, a resource that it holds in LLVM and that its object does not list
-- is gone, and the object that wraps it stays as open as it was.
unlisted_outlives :
    (e tm : ℕ) (w : World) (n : Native)
    → IsSafe w
    → replay w.calls ≡ some n
    → (w.refs e).closed ≡ false
    → is_engine (w.refs e).resource ≡ true
    → n tm ≡ held e
    → keeps (w.refs e).resource tm ≡ false
    → (n' : Native) × (replay (close e w).calls ≡ some n')
      × (n' tm ≡ gone)
      × (((close e w).refs tm).closed ≡ (w.refs tm).closed)
unfolding is_held_by
unlisted_outlives e tm w n s so_far ce he held_there unlisted =
    let own : (w.refs e).owned ≡ false = s.agrees.free_engine e he in
    let holds : s.native tm ≡ held e =
      ap (λ (m : Native). m tm) (same_native w s so_far) ∙ held_there in
    (
      behind e s.native,
      closed_native e w s ce own,
      ground (arith, holds),
      ap (λ (v : World). (v.refs tm).closed) (close_run e w ce own)
          ∙ (dispose-Disposed e w (w.refs e).resource refl).0.spares tm unlisted
              (ground (arith, holds, s.agrees.standing e)),
    )

-- What `create_mcjit_compiler` finds when it is called as its documentation asks.
pub record Given (m tm : ℕ) (w : World) : Type 0 where
  pub module_open : (w.refs m).closed ≡ false
  pub module_free : (w.refs m).owned ≡ false
  pub module_class : is_module (w.refs m).resource ≡ true
  pub machine_open : (w.refs tm).closed ≡ false
  pub machine_free : (w.refs tm).owned ≡ false
  pub machine_class : is_machine (w.refs tm).resource ≡ true

-- The objects behind the making of an engine.
abbrev made : ℕ → ℕ → World → World
made m tm w = wrap (engine (m ∷ []) none) false (
    update m (set_owned true)
      (update tm (set_owned true) (call (Call.create_engine w.next m tm true) w)))

module _ (m tm : ℕ) (w : World) (s : IsSafe w) (g : Given m tm w) where
  created_run : create_mcjit_compiler m tm true w ≡ (ok w.next, made m tm w)
  unfolding create_mcjit_compiler
  created_run =
      argument_passed is_module m w _ g.module_open g.module_class
      ∙ argument_passed is_machine tm w _ g.machine_open g.machine_class

  failed_run :
      create_mcjit_compiler m tm false w
      ≡ (err runtime_error, call (Call.create_engine w.next m tm false) w)
  unfolding create_mcjit_compiler argument
  failed_run = rw (g.module_open, g.module_class, g.machine_open, g.machine_class) refl

  -- LLVM takes the module and the target machine, also when it makes no engine.
  taken :
      (made : Bool)
      → replay (Call.create_engine w.next m tm made ∷ w.calls)
        ≡ some (
            if made
            then put w.next alone (put m (held w.next) (put tm (held w.next) s.native))
            else put m gone (put tm gone s.native))
  unfolding replay perform is_alone is_unborn
  taken made =
      ap (then_perform (Call.create_engine w.next m tm made)) s.carried_out
      ∙ ground (
        arith,
        s.agrees.unborn_ahead w.next,
        s.agrees.standing m g.module_open g.module_free,
        s.agrees.standing tm g.machine_open g.machine_free,
      )

  made-IsSafe : IsSafe (made m tm w)
  made-IsSafe =
      subst (λ (p : Result ℕ × World). IsSafe p.1) created_run
        (create_mcjit_compiler-IsSafe m tm w g.module_free g.machine_free s)

  machine_apart : (tm == m) ≡ false
  unfolding is_module is_machine
  machine_apart = ground (arith, g.module_class, g.machine_class)

  below : (m < w.next) × (tm < w.next)
  below = (
    ground (arith, s.agrees.absent m, g.module_open),
    ground (arith, s.agrees.absent tm, g.machine_open),
  )

  closed_engine :
      (n : Native) × (replay (close w.next (made m tm w)).calls ≡ some n)
      × (n tm ≡ gone)
      × (((close w.next (made m tm w)).refs tm).closed ≡ ((made m tm w).refs tm).closed)
  unfolding contains modules_of td_of is_engine
  closed_engine =
      unlisted_outlives w.next tm (made m tm w) _ made-IsSafe (taken true) (ground arith)
        (ground arith) (ground (arith, below, machine_apart)) (ground (arith, machine_apart))

  engine_apart : ((made m tm w).refs tm).closed ≡ false
  engine_apart = ground (arith, below, machine_apart, g.machine_open)

  still_machine : is_machine ((close w.next (made m tm w)).refs tm).resource ≡ true
  unfolding is_engine
  still_machine =
      ap (λ (v : World). is_machine (v.refs tm).resource)
        (close_run w.next (made m tm w) (ground arith) (ground arith))
      ∙ (dispose-Disposed w.next (made m tm w) ((made m tm w).refs w.next).resource
            refl).0.same_machine
          tm
      ∙ ground (arith, below, machine_apart, g.machine_class)

-- A target machine outlives its engine: when `create_mcjit_compiler` has made an engine as documented
-- and that engine is closed, LLVM has disposed of the target machine, but its object is still open,
-- so that its next use reaches LLVM, where the contract forbids it.
pub machine_outlives_engine :
    (m tm : ℕ) (w : World)
    → IsSafe w
    → Given m tm w
    → ((create_mcjit_compiler m tm true w).0 ≡ ok w.next)
      × ((n : Native) × (replay (close w.next (create_mcjit_compiler m tm true w).1).calls ≡ some n)
          × (n tm ≡ gone))
      × (((close w.next (create_mcjit_compiler m tm true w).1).refs tm).closed ≡ false)
      × (replay
            (use_object is_machine tm (close w.next (create_mcjit_compiler m tm true w).1)).1.calls
          ≡ none)
machine_outlives_engine m tm w s g =
    let (n, done, ended, same) = closed_engine m tm w s g in
    let still_open = same ∙ engine_apart m tm w s g in
    subst
      (λ (p : Result ℕ × World).
        (p.0 ≡ ok w.next)
        × ((n' : Native) × (replay (close w.next p.1).calls ≡ some n') × (n' tm ≡ gone))
        × (((close w.next p.1).refs tm).closed ≡ false)
        × (replay (use_object is_machine tm (close w.next p.1)).1.calls ≡ none))
      (sym (created_run m tm w s g))
      (
        refl,
        (n, done, ended),
        still_open,
        use_refused tm (close w.next (made m tm w)) n done ended still_open
            (still_machine m tm w s g),
      )

-- When LLVM makes no engine, `create_mcjit_compiler` raises with the module gone in LLVM and its
-- object still open and owned by nobody, so that closing it makes LLVM dispose of the module a
-- second time.
pub failed_engine_disposes_twice :
    (m tm : ℕ) (w : World)
    → IsSafe w
    → Given m tm w
    → ((create_mcjit_compiler m tm false w).0 ≡ err runtime_error)
      × ((n : Native) × (replay (create_mcjit_compiler m tm false w).1.calls ≡ some n)
          × (n m ≡ gone))
      × (((create_mcjit_compiler m tm false w).1.refs m).closed ≡ false)
      × (((create_mcjit_compiler m tm false w).1.refs m).owned ≡ false)
      × (replay (close m (create_mcjit_compiler m tm false w).1).calls ≡ none)
failed_engine_disposes_twice m tm w s g =
    let called = call (Call.create_engine w.next m tm false) w in
    subst
      (λ (p : Result ℕ × World).
        (p.0 ≡ err runtime_error)
        × ((n : Native) × (replay p.1.calls ≡ some n) × (n m ≡ gone))
        × ((p.1.refs m).closed ≡ false)
        × ((p.1.refs m).owned ≡ false)
        × (replay (close m p.1).calls ≡ none))
      (sym (failed_run m tm w s g))
      (
        refl,
        (put m gone (put tm gone s.native), taken m tm w s g false, ground arith),
        g.module_open,
        g.module_free,
        dispose_refused m called (put m gone (put tm gone s.native)) (taken m tm w s g false)
            (ground arith) g.module_open g.module_free,
      )
