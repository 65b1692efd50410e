-- ===== src/Binding/Calls.antt =====
-- The calls of llvmlite/binding on modules, each of which LLVM's contract allows.
use llvmlite.Prelude.{
  ℕ, ◌≡◌, inl, inr, refl, ap, ◌∙◌, arith, Bool, true, false, not, List, ◌∷◌, some, Bool-cases, ◌==◌,
  ◌&&◌, if◌then◌else◌,
}
use llvmlite.Result.{runtime_error, ok, err}
use llvmlite.Exec.{Exec, ◌>>=◌}
use llvmlite.Binding.{
  td_of, is_target_data, World, Resource, Call, start, call, wrap, is_module, is_machine, is_engine,
  modules_of, contains, module_of, target_machine, target_data, engine, detach, dispose_of, close,
}
use llvmlite.Binding.Engine.{argument, use_object, link_modules, clone}
use llvmlite.Binding.Contract.{
  then_perform, allowed, Native, alone, unborn, gone, put, perform, replay, is_live, is_alone,
  is_unborn, is_held_by,
}
use llvmlite.Binding.Agreement.{Agrees, call-Agrees, wrap-Agrees}
use llvmlite.Binding.Closing.{detach-Agrees, gone-Agrees}
use llvmlite.Binding.Disposal.{Disposed-Agrees, dispose-Disposed}

-- LLVM has carried out every call so far, and agrees with the objects.
pub record IsSafe (w : World) : Type 0 where
  pub native : Native
  pub carried_out : replay w.calls ≡ some native
  pub agrees : Agrees w native

replay-call :
    (c : Call) (cs : List Call) {n n' : Native}
    → replay cs ≡ some n
    → perform c n ≡ some n'
    → replay (c ∷ cs) ≡ some n'
unfolding replay
replay-call c cs h k = rw h k

-- A C function gets an open object of its class, or the objects stay as they are.
pub argument-IsSafe :
    {A : Type 0} (test : Resource → Bool) (i : ℕ) (w : World) (next : Resource → Exec World A)
    → IsSafe w
    → ((w.refs i).closed ≡ false
        → test (w.refs i).resource ≡ true
        → IsSafe (next (w.refs i).resource w).1)
    → IsSafe ((argument test i >>= next) w).1
unfolding argument
argument-IsSafe test i w next s k = elim (Bool-cases (w.refs i).closed) [
  | inl e ↦ rw e s
  | inr e ↦ elim (Bool-cases (test (w.refs i).resource)) [
    | inl good ↦ rw (e, good) (k e good)
    | inr bad ↦ rw (e, bad) s
  ]
]

pub module_facts : (res : Resource) → is_module res ≡ true → is_machine res ≡ false
unfolding is_module is_machine
module_facts module_of h = refl
module_facts target_machine h = cc
module_facts target_data h = refl
module_facts (engine ms td) h = refl

pub data_facts : (res : Resource) → is_target_data res ≡ true → is_machine res ≡ false
unfolding is_target_data is_machine
data_facts module_of h = refl
data_facts target_machine h = cc
data_facts target_data h = refl
data_facts (engine ms td) h = refl

pub start-IsSafe : IsSafe start
unfolding replay modules_of td_of is_engine contains
start-IsSafe = record {
  native = λ i. unborn;
  carried_out = refl;
  agrees = record {
    unborn_ahead = λ i h. refl;
    absent = λ i h. (refl, refl);
    standing = λ i c o. cc;
    free = λ i c o. refl;
    td_known = λ e d h. cc;
    live = λ i c m. cc;
    kept = λ i e h c m. cc;
    listed = λ i e h c. cc;
    made = λ i e h. cc;
    free_engine = λ e h. cc;
  };
}

-- A call that LLVM allows, with the state behind it, and the objects that the code leaves.
pub called-IsSafe :
    (c : Call) (w w' : World) (n n' : Native) (test : Bool)
    → replay w.calls ≡ some n
    → test ≡ true
    → perform c n ≡ allowed test n'
    → w'.calls ≡ c ∷ w.calls
    → Agrees w' n'
    → IsSafe w'
unfolding replay
called-IsSafe c w w' n n' test run_so_far ok_to result same a = record {
  native = n';
  carried_out =
      ap replay same ∙ ap (then_perform c) run_so_far ∙ result ∙ ap (λ t. allowed t n') ok_to;
  agrees = a;
}

pub fresh_object-IsSafe :
    (res : Resource) (w : World)
    → is_engine res ≡ false
    → IsSafe w
    → IsSafe (wrap res false (call (Call.create w.next) w))
unfolding perform is_unborn
fresh_object-IsSafe res w plain s =
    called-IsSafe (Call.create w.next) w (wrap res false (call (Call.create w.next) w)) s.native
      (put w.next alone s.native) (is_unborn (s.native w.next)) s.carried_out
      (ground (arith, s.agrees.unborn_ahead w.next)) refl refl
      (wrap-Agrees res (call (Call.create w.next) w) s.native plain
        (call-Agrees (Call.create w.next) w s.native s.agrees))

pub module_live :
    (m : ℕ) (w : World) (n : Native)
    → Agrees w n
    → (w.refs m).closed ≡ false
    → is_module (w.refs m).resource ≡ true
    → is_live (n m) ≡ true
module_live m w n a c h = a.live m c (module_facts (w.refs m).resource h)

pub use_object-IsSafe :
    (test : Resource → Bool) (i : ℕ) (w : World) (s : IsSafe w)
    → ((w.refs i).closed ≡ false → test (w.refs i).resource ≡ true → is_live (s.native i) ≡ true)
    → IsSafe (use_object test i w).1
unfolding use_object perform
use_object-IsSafe test i w s alive =
    argument-IsSafe test i w (λ r w'. (ok r, call (Call.use_of i) w')) s
      (λ c h.
        called-IsSafe (Call.use_of i) w (call (Call.use_of i) w) s.native s.native
          (is_live (s.native i)) s.carried_out (alive c h) refl refl
          (call-Agrees (Call.use_of i) w s.native s.agrees))

pub use_free-IsSafe :
    (test : Resource → Bool) (i : ℕ) (w : World)
    → (test (w.refs i).resource ≡ true → (w.refs i).owned ≡ false)
    → IsSafe w
    → IsSafe (use_object test i w).1
unfolding is_live
use_free-IsSafe test i w o s =
    use_object-IsSafe test i w s (λ c h. ap is_live (s.agrees.standing i c (o h)))

pub use_plain-IsSafe :
    (test : Resource → Bool) (i : ℕ) (w : World)
    → (test (w.refs i).resource ≡ true → is_machine (w.refs i).resource ≡ false)
    → IsSafe w
    → IsSafe (use_object test i w).1
use_plain-IsSafe test i w m s = use_object-IsSafe test i w s (λ c h. s.agrees.live i c (m h))

pub clone-IsSafe : (m : ℕ) (w : World) → IsSafe w → IsSafe (clone m w).1
unfolding clone perform is_unborn is_engine
clone-IsSafe m w s =
    argument-IsSafe is_module m w
      (λ r w'. (ok w'.next, wrap module_of false (call (Call.clone m w'.next) w'))) s
      (λ c h.
        called-IsSafe (Call.clone m w.next) w (wrap module_of false (call (Call.clone m w.next) w))
          s.native (put w.next alone s.native) (is_live (s.native m) && is_unborn (s.native w.next))
          s.carried_out
          (ground (arith, s.agrees.unborn_ahead w.next, module_live m w s.native s.agrees)) refl
          refl
          (wrap-Agrees module_of (call (Call.clone m w.next) w) s.native refl
            (call-Agrees (Call.clone m w.next) w s.native s.agrees)))

pub link_modules-IsSafe :
    (dst src : ℕ) (failed : Bool) (w : World)
    → (dst == src) ≡ false
    → (w.refs src).owned ≡ false
    → IsSafe w
    → IsSafe (link_modules dst src failed w).1
unfolding link_modules perform is_alone detach
link_modules-IsSafe dst src failed w apart own s =
    argument-IsSafe is_module dst w
      (λ r.
        (argument is_module src >>= λ r' w'.
        ((if failed then err runtime_error else ok tt), detach src (call (Call.link dst src) w'))))
      s
      (λ cd hd.
        argument-IsSafe is_module src w
          (λ r' w'. (
            (if failed then err runtime_error else ok tt),
            detach src (call (Call.link dst src) w'),
          ))
          s
          (λ cs hs.
            called-IsSafe (Call.link dst src) w (detach src (call (Call.link dst src) w)) s.native
              (put src gone s.native)
              (not (dst == src) && (is_live (s.native dst) && is_alone (s.native src)))
              s.carried_out
              (ground (arith, apart, module_live dst w s.native s.agrees, s.agrees.standing src))
              refl refl
              (gone-Agrees src (detach src (call (Call.link dst src) w)) s.native (ground arith)
                (ground (arith, s.agrees.absent src))
                (detach-Agrees src (call (Call.link dst src) w) s.native
                  (call-Agrees (Call.link dst src) w s.native s.agrees)))))

-- Detaching needs no call of LLVM.
pub detach-IsSafe : (i : ℕ) (w : World) → IsSafe w → IsSafe (detach i w)
unfolding detach
detach-IsSafe i w s = record {
  native = s.native;
  carried_out = s.carried_out;
  agrees = detach-Agrees i w s.native s.agrees;
}

dispose-IsSafe :
    (i : ℕ) (w : World)
    → (w.refs i).closed ≡ false
    → (w.refs i).owned ≡ false
    → IsSafe w
    → IsSafe (detach i (dispose_of i (w.refs i).resource w))
unfolding perform is_alone
dispose-IsSafe i w c o s =
    let (d, same) = dispose-Disposed i w (w.refs i).resource refl in
    called-IsSafe (Call.dispose i) w (detach i (dispose_of i (w.refs i).resource w)) s.native
      (put i gone (λ j. if is_held_by i (s.native j) then gone else s.native j))
      (is_alone (s.native i)) s.carried_out (ap is_alone (s.agrees.standing i c o)) refl same
      (Disposed-Agrees i w (detach i (dispose_of i (w.refs i).resource w)) s.native d
        (s.agrees.standing i c o) s.agrees)

pub close-IsSafe : (i : ℕ) (w : World) → IsSafe w → IsSafe (close i w)
unfolding close
close-IsSafe i w s = elim (Bool-cases (w.refs i).closed) [
  | inl e ↦ rw e (detach-IsSafe i w s)
  | inr e ↦ elim (Bool-cases (w.refs i).owned) [
    | inl o ↦ rw (e, o) (detach-IsSafe i w s)
    | inr o ↦ rw (e, o) (dispose-IsSafe i w e o s)
  ]
]
