-- ===== src/Builder/Intrinsics/Declared.antt =====
-- The calls of intrinsics in llvmlite/ir/builder.py against the table of the module's globals.
use llvmlite.Prelude.{
  refl, ℕ, [], ◌∷◌, ◌∙◌, some, none, length, false, ◌≡◌, ap, sym, subst, List, Option,
}
use llvmlite.Prelude.Texts.{Text, lit}
use llvmlite.Result.{Result, ok, err, >>=-eq-ok}
use llvmlite.Exec.{Exec, resume, resume-eq-ok}
use llvmlite.Types.{Ty, function, ty_list}
use llvmlite.Values.{Value, function_type}
use llvmlite.Instructions.{Instr, Draft, Kind}
use llvmlite.Instructions.Calls
use llvmlite.Instructions.Calls.{Tail}
use llvmlite.Module.Globals.{Globals, declare_intrinsic}
use llvmlite.Module.Globals.Declared.{declare_intrinsic_again}
use llvmlite.Builder.{State, create, create_in, insert, get_current}
use llvmlite.Builder.Finish.{with_debug-operands}
use llvmlite.Builder.Ops.{emit}
use llvmlite.Builder.Ops
use llvmlite.Builder.Intrinsics.{
  Linked, Setting, in_builder, in_globals, plain_given, call_intrinsic,
}

same_globals :
    {A : Type 0} (method : Exec State A) (l : Linked) {a : A} {l' : Linked}
    → in_builder method l ≡ (ok a, l')
    → l'.globals ≡ l.globals
same_globals {A} method l h = ap (λ (p : Result A × Linked). p.1.globals) (sym h)

in_globals-run :
    {A : Type 0} (method : Exec Globals A) (l : Linked) {a : A}
    → method l.globals ≡ (ok a, l.globals)
    → in_globals method l ≡ (ok a, l)
in_globals-run {A} method l h = ap (λ (p : Result A × Globals). (p.0, record l { globals = p.1 })) h

in_globals-ok :
    {A : Type 0} (method : Exec Globals A) (l : Linked) {a : A} {l' : Linked}
    → in_globals method l ≡ (ok a, l')
    → method l.globals ≡ (ok a, l'.globals)
in_globals-ok {A} method l h = ap (λ (p : Result A × Linked). (p.0, p.1.globals)) h

abbrev pub first : List Value → Option Value
first [] = none
first (v ∷ vs) = some v

abbrev first_in : Result Draft → Option Value
first_in (err e) = none
first_in (ok d) = first d.operands

abbrev operands_in : Result Instr × State → List Value
operands_in (err e, s) = []
operands_in (ok instr, s) = instr.operands

callee_with :
    (opname : Text) (kind : Kind) (callee : Value) (args : List Value) (name : Text) (t : Ty)
    {d : Draft}
    → Calls.call_with opname kind callee args name t ≡ ok d
    → first d.operands ≡ some callee
unfolding Calls.call_with
callee_with opname kind callee args name (function r ts v) h =
    let (fixed, e, made) = >>=-eq-ok (Calls.fix_arguments (ty_list ts) args) _ h in
    ap first_in (sym made)
callee_with opname kind callee args name _ h = cc

callee_of :
    (fn : Value) (args : List Value) (name : Text) (tail : Tail) (given : Calls.CallGiven)
    {d : Draft}
    → Calls.call fn args name tail given ≡ ok d
    → first d.operands ≡ some fn
unfolding Calls.call
callee_of fn args name tail given h =
    let (options, e, rest) = >>=-eq-ok (Calls.call_options fn (length args) tail given) _ h in
    let (t, e', made) = >>=-eq-ok (function_type fn) _ rest in
    callee_with (lit "call") (Kind.call options) fn args name t made

built-operands :
    (o : Option ℕ) (d : Draft) (s : State) {instr : Instr} {s' : State}
    → create_in o d s ≡ (ok instr, s')
    → instr.operands ≡ d.operands
unfolding create_in
built-operands none d s h = cc
built-operands (some parent) d s h = ap operands_in (sym h)

emit-operands :
    (d : Draft) (s : State) {instr : Instr} {s' : State}
    → emit d s ≡ (ok instr, s')
    → instr.operands ≡ d.operands
unfolding create insert
emit-operands d s h =
    let (x, mid, e, rest) = resume-eq-ok (create d s) insert h in
    let (b, mid', e', made) = resume-eq-ok (get_current mid) _ rest in
    ap operands_in (sym made)
    ∙ with_debug-operands mid'.debug_metadata x
    ∙ built-operands s.current d s e

call-callee :
    (fn : Value) (args : List Value) (name : Text) (tail : Tail) (given : Calls.CallGiven)
    (s : State) {instr : Instr} {s' : State}
    → Ops.call fn args name tail given s ≡ (ok instr, s')
    → first instr.operands ≡ some fn
unfolding Ops.call
call-callee fn args name tail given s h =
    let (d, mid, e, rest) = resume-eq-ok (Calls.call fn args name tail given, s) emit h in
    ap first (emit-operands d mid rest)
    ∙ callee_of fn args name tail given (ap (λ (p : Result Draft × State). p.0) e)

-- A second call, if it was made, has the same callee, its first operand.
abbrev pub CallAlike : Instr → Result Instr → Type 0
CallAlike instr (err e) = Unit
CallAlike instr (ok instr') =
    (fn : Value) × (first instr.operands ≡ some fn) × (first instr'.operands ≡ some fn)

module _ (setting : Setting) (opname : Text) (tys : List Ty) (fnty : Option Ty) where
  declared_before :
      (args : List Value) (name : Text) (l : Linked) {instr : Instr} {l' : Linked}
      → call_intrinsic setting opname tys fnty args name l ≡ (ok instr, l')
      → (fn : Value) × (first instr.operands ≡ some fn)
        × (declare_intrinsic setting.typed_pointers opname tys fnty l'.globals
            ≡ (ok fn, l'.globals))
  unfolding call_intrinsic
  declared_before args name l {instr} {l'} h =
      let declare = declare_intrinsic setting.typed_pointers opname tys fnty in
      let (fn, mid, e, rest) = resume-eq-ok (in_globals declare l) _ h in
      let given : Calls.CallGiven = plain_given (setting.convention fn) in
      let same : mid.globals ≡ l'.globals =
        sym (same_globals (Ops.call fn args name (Tail.truth false) given) mid rest) in
      (
        fn,
        call-callee fn args name (Tail.truth false) given mid.builder
            (ap (λ (p : Result Instr × Linked). (p.0, p.1.builder)) rest),
        subst (λ (g : Globals). declare g ≡ (ok fn, g)) same
            (declare_intrinsic_again setting.typed_pointers opname tys fnty l.globals
              (in_globals-ok declare l e)),
      )

  alike :
      (fn : Value) (args : List Value) (name : Text) (s : State) (instr : Instr)
      → first instr.operands ≡ some fn
      → (out : Result Instr × State)
      → Ops.call fn args name (Tail.truth false) (plain_given (setting.convention fn)) s ≡ out
      → CallAlike instr out.0
  alike fn args name s instr h (err e, s') k = tt
  alike fn args name s instr h (ok instr', s') k =
      (fn, h, call-callee fn args name (Tail.truth false) (plain_given (setting.convention fn)) s k)

  -- When a call of an intrinsic has returned, a further call of the same intrinsic at the same types,
  -- with whatever arguments, declares nothing: it leaves the module's globals as they are, whether it
  -- returns or raises, and if it returns, it calls the same function.
  pub call_intrinsic_again :
      (args args' : List Value) (name name' : Text) (l : Linked) {instr : Instr} {l' : Linked}
      → call_intrinsic setting opname tys fnty args name l ≡ (ok instr, l')
      → ((call_intrinsic setting opname tys fnty args' name' l').1.globals ≡ l'.globals)
        × CallAlike instr (call_intrinsic setting opname tys fnty args' name' l').0
  unfolding call_intrinsic
  call_intrinsic_again args args' name name' l {instr} {l'} h =
      let (fn, callee, again) = declared_before args name l h in
      subst
        (λ (p : Result Value × Linked).
          ((resume p (λ f. in_builder (
              Ops.call f args' name' (Tail.truth false)
                (plain_given (setting.convention f))))).1.globals
            ≡ l'.globals)
          × CallAlike instr
              (resume p (λ f. in_builder (
                Ops.call f args' name' (Tail.truth false) (plain_given (setting.convention f))))).0)
        (sym (in_globals-run (declare_intrinsic setting.typed_pointers opname tys fnty) l' again))
        (refl, alike fn args' name' l'.builder instr callee _ refl)
