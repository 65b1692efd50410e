-- ===== src/Binding/Safety.antt =====
-- Programs over the objects of llvmlite/binding: what they ask of LLVM, and what closing them does.
use llvmlite.Result.{Result, ok}
use llvmlite.Prelude.{
  ℕ, ◌<◌, subst, ◌≡◌, refl, arith, Bool, true, false, List, [], ◌∷◌, some, ◌==◌, Bool-cases, inl,
  inr,
}
use llvmlite.Binding.{
  is_target_data, World, Call, call, wrap, start, is_module, is_machine, is_engine, modules_of,
  contains, module_of, target_machine, td_of,
}
use llvmlite.Binding.Engine.{
  Op, argument, step, run, parse, create_target_machine, get_target_data, clone, link_in,
}
use llvmlite.Binding.Contract.{alone, Native, held, replay}
use llvmlite.Binding.Agreement.{keeps}
use llvmlite.Binding.Calls.{
  IsSafe, start-IsSafe, fresh_object-IsSafe, use_plain-IsSafe, use_free-IsSafe, module_facts,
  data_facts, clone-IsSafe, link_modules-IsSafe, close-IsSafe, detach-IsSafe,
}
use llvmlite.Binding.Engines.{
  create_mcjit_compiler-IsSafe, add_module-IsSafe, remove_module-IsSafe, known_or_new-IsSafe,
}

-- What the documentation asks of a call: what is given away is not owned by another, a module is not
-- linked into itself, LLVM makes the engine, a clone is linked into a module that exists, and a target
-- machine is not used once an engine has it. All else may be called in any state.
abbrev pub Documented : Op → World → Type 0
Documented (Op.create_engine m tm made) w =
    (made ≡ true) × ((w.refs m).owned ≡ false) × ((w.refs tm).owned ≡ false)
Documented (Op.add e m) w =
    contains m (modules_of (w.refs e).resource) ≡ false → (w.refs m).owned ≡ false
Documented (Op.link dst src failed) w = ((dst == src) ≡ false) × ((w.refs src).owned ≡ false)
Documented (Op.link_in_of dst other false failed) w =
    ((dst == other) ≡ false) × ((w.refs other).owned ≡ false)
Documented (Op.link_in_of dst other true failed) w = dst < w.next
Documented (Op.use_machine tm) w = (w.refs tm).owned ≡ false
Documented _ w = Unit

abbrev pub AllDocumented : List Op → World → Type 0
AllDocumented [] w = Unit
AllDocumented (op ∷ ops) w = Documented op w × AllDocumented ops (step op w)

clone_run :
    (m : ℕ) (w : World)
    → (w.refs m).closed ≡ false
    → is_module (w.refs m).resource ≡ true
    → clone m w ≡ (ok w.next, wrap module_of false (call (Call.clone m w.next) w))
unfolding clone argument
clone_run m w e good = rw (e, good) refl

-- The clone is a new object, and it is linked in the place of the module.
link_clone-IsSafe :
    (dst other : ℕ) (failed : Bool) (w : World)
    → dst < w.next
    → IsSafe w
    → IsSafe (link_in dst other true failed w).1
unfolding link_in clone argument
link_clone-IsSafe dst other failed w there s =
    let cloned : IsSafe (clone other w).1 = clone-IsSafe other w s in
    elim (Bool-cases (w.refs other).closed) [
      | inl e ↦ rw e s
      | inr e ↦ elim (Bool-cases (is_module (w.refs other).resource)) [
        | inl good ↦
            rw (e, good)
              (link_modules-IsSafe dst w.next failed _ (ground arith) (ground arith)
                (subst (λ (p : Result ℕ × World). IsSafe p.1) (clone_run other w e good) cloned))
        | inr bad ↦ rw (e, bad) s
      ]
    ]

step-IsSafe : (op : Op) (w : World) → Documented op w → IsSafe w → IsSafe (step op w)
unfolding step parse create_target_machine is_engine get_target_data link_in
step-IsSafe Op.parse_of w d s = fresh_object-IsSafe module_of w refl s
step-IsSafe Op.create_machine_of w d s = fresh_object-IsSafe target_machine w refl s
step-IsSafe (Op.use_module m) w d s =
    use_plain-IsSafe is_module m w (module_facts (w.refs m).resource) s
step-IsSafe (Op.use_machine tm) w d s = use_free-IsSafe is_machine tm w (λ h. d) s
step-IsSafe (Op.use_engine e) w d s = use_free-IsSafe is_engine e w (s.agrees.free_engine e) s
step-IsSafe (Op.use_data t) w d s =
    use_plain-IsSafe is_target_data t w (data_facts (w.refs t).resource) s
step-IsSafe (Op.get_data e) w d s = known_or_new-IsSafe e (td_of (w.refs e).resource) w refl s
step-IsSafe (Op.close_of i) w d s = close-IsSafe i w s
step-IsSafe (Op.detach_of i) w d s = detach-IsSafe i w s
step-IsSafe (Op.clone_of m) w d s = clone-IsSafe m w s
step-IsSafe (Op.create_engine m tm true) w d s = create_mcjit_compiler-IsSafe m tm w d.1 d.2 s
step-IsSafe (Op.create_engine m tm false) w d s = cc (d.0)
step-IsSafe (Op.add e m) w d s = add_module-IsSafe e m w d s
step-IsSafe (Op.remove e m failed) w d s = remove_module-IsSafe e m failed w s
step-IsSafe (Op.link dst src failed) w d s = link_modules-IsSafe dst src failed w d.0 d.1 s
step-IsSafe (Op.link_in_of dst other false failed) w d s =
    link_modules-IsSafe dst other failed w d.0 d.1 s
step-IsSafe (Op.link_in_of dst other true failed) w d s = link_clone-IsSafe dst other failed w d s

pub run-IsSafe : (ops : List Op) (w : World) → AllDocumented ops w → IsSafe w → IsSafe (run ops w)
unfolding run
run-IsSafe [] w d s = s
run-IsSafe (op ∷ ops) w d s = run-IsSafe ops (step op w) d.1 (step-IsSafe op w d.0 s)

-- Take any sequence of calls in which nothing is given away that another owns, no module is linked
-- into itself, LLVM makes every engine, a clone is linked into a module that exists, and no target
-- machine is used after an engine has taken it; objects may be closed, detached and used in any order
-- and any number of times otherwise. Then LLVM carries out every call that reaches it: none disposes
-- of a resource a second time or uses one that is gone. Behind the sequence an open object is unowned
-- exactly when its resource stands alone in LLVM, an open object that an engine lists is held by that
-- engine, and an open object other than a target machine that an engine holds is listed by it or is
-- its target data.
pub run_refines :
    (ops : List Op)
    → AllDocumented ops start
    → (n : Native) × (replay (run ops start).calls ≡ some n)
      × ((i : ℕ)
          → ((run ops start).refs i).closed ≡ false
          → (((run ops start).refs i).owned ≡ false → n i ≡ alone)
            × (n i ≡ alone → ((run ops start).refs i).owned ≡ false)
            × ((e : ℕ)
                → (contains i (modules_of ((run ops start).refs e).resource) ≡ true → n i ≡ held e)
                  × (is_machine ((run ops start).refs i).resource ≡ false
                      → n i ≡ held e
                      → keeps ((run ops start).refs e).resource i ≡ true)))
run_refines ops d =
    let s = run-IsSafe ops start d start-IsSafe in
    (
      s.native,
      s.carried_out,
      λ i c. (
        s.agrees.standing i c,
        s.agrees.free i c,
        λ e. (λ h. s.agrees.listed i e h c, λ m h. s.agrees.kept i e h c m),
      ),
    )
