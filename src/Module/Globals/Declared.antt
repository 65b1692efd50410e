-- ===== src/Module/Globals/Declared.antt =====
-- The table of globals behind the constructors and `declare_intrinsic` of llvmlite/ir/module.py.
use llvmlite.Prelude.{
  suc, sym, ◌≡◌, refl, ◌∙◌, ap, Bool, List, [], ◌∷◌, ◌++◌, Option, none, some, arith, if◌then◌else◌,
}
use llvmlite.Prelude.Texts.{Text, text_eq_refl}
use llvmlite.Result.{Result, ok, err, assertion_error}
use llvmlite.Exec.{resume, resume-eq-ok}
use llvmlite.Scope.{register}
use llvmlite.Types.{Ty, as_pointer}
use llvmlite.Values.{Value, func}
use llvmlite.Module.Globals.{
  Globals, find_global, is_global, add_global, take_global_name, check_function, new_function,
  known_or_declared, get_global, found_or_key_error, declare_intrinsic, intrinsic_text,
  intrinsic_type,
}

find_global-added :
    (name : Text) (v : Value) (table : List (Text × Value))
    → find_global name table ≡ none
    → find_global name (table ++ (name, v) ∷ []) ≡ some v
unfolding find_global
find_global-added name v [] h = rw (text_eq_refl name) refl
find_global-added name v ((key, w) ∷ rest) h = ground (arith, h, find_global-added name v rest)

-- `add_global` behind its test.
abbrev added : Text → Value → Globals → Option Value → Result Value × Globals
added name v m o =
    if is_global o
    then (err assertion_error, m)
    else (ok v, record m { table = m.table ++ (name, v) ∷ []; next = suc m.next })

added-finds :
    (name : Text) (v : Value) (m : Globals) (o : Option Value) {w : Value} {n : Globals}
    → find_global name m.table ≡ o
    → added name v m o ≡ (ok w, n)
    → find_global name n.table ≡ some w
unfolding is_global
added-finds name v m (some x) e h = cc
added-finds name v m none {w} e h =
    let same : v ≡ w = cc in
    ap (λ (p : Result Value × Globals). find_global name p.1.table) (sym h)
    ∙ find_global-added name v m.table e
    ∙ ap some same

add_global-finds :
    (name : Text) (v : Value) (m : Globals) {w : Value} {n : Globals}
    → add_global name v m ≡ (ok w, n)
    → find_global name n.table ≡ some w
unfolding add_global
add_global-finds name v m h = added-finds name v m (find_global name m.table) refl h

take_global_name-ok :
    (name : Text) (m : Globals) {taken : Text} {n : Globals}
    → take_global_name name m ≡ (ok taken, n)
    → taken ≡ name
unfolding take_global_name register
take_global_name-ok name m h = ground (arith, h)

new_function-finds :
    (t : Ty) (name : Text) (m : Globals) {v : Value} {n : Globals}
    → new_function t name m ≡ (ok v, n)
    → find_global name n.table ≡ some v
unfolding new_function
new_function-finds t name m {v} {n} h =
    let (p, m₁, e₁, h₁) = resume-eq-ok (as_pointer t 0, m) _ h in
    let (taken, m₂, e₂, h₂) = resume-eq-ok (take_global_name name m₁) _ h₁ in
    let (u, m₃, e₃, h₃) = resume-eq-ok (check_function t, m₂) _ h₂ in
    ap (λ key. find_global key n.table) (sym (take_global_name-ok name m₁ e₂))
    ∙ add_global-finds taken (func m₃.next p taken) m₃ h₃

known_or_declared-finds :
    (fnty : Result Ty) (name : Text) (m : Globals) (o : Option Value) {v : Value} {n : Globals}
    → find_global name m.table ≡ o
    → known_or_declared fnty name o m ≡ (ok v, n)
    → find_global name n.table ≡ some v
unfolding known_or_declared
known_or_declared-finds fnty name m (some w) e h = ground (arith, h, e)
known_or_declared-finds fnty name m none e h =
    let (t, m₁, e₁, h₁) = resume-eq-ok (fnty, m) _ h in new_function-finds t name m₁ h₁

-- When the declaration of an intrinsic returns a function, the same declaration made again on the
-- module that is left returns the same function and changes nothing in the module.
pub declare_intrinsic_again :
    (enabled : Bool) (intrinsic : Text) (tys : List Ty) (fnty : Option Ty) (m : Globals) {v : Value}
    {n : Globals}
    → declare_intrinsic enabled intrinsic tys fnty m ≡ (ok v, n)
    → declare_intrinsic enabled intrinsic tys fnty n ≡ (ok v, n)
unfolding declare_intrinsic known_or_declared
declare_intrinsic_again enabled intrinsic tys fnty m {v} {n} h =
    let (name, m₁, e₁, h₁) = resume-eq-ok (intrinsic_text enabled intrinsic tys, m) _ h in
    let text : intrinsic_text enabled intrinsic tys ≡ ok name = ap (λ p. p.0) e₁ in
    let found : find_global name n.table ≡ some v =
      known_or_declared-finds (intrinsic_type intrinsic tys fnty) name m₁ _ refl h₁ in
    ap
      (λ (r : Result Text).
        resume (r, n)
          (λ key k.
            known_or_declared (intrinsic_type intrinsic tys fnty) key (find_global key k.table) k))
      text
    ∙ ap (λ o. known_or_declared (intrinsic_type intrinsic tys fnty) name o n) found

-- A function that the constructor returns is the global that the module has under the name given.
pub new_function-get_global :
    (t : Ty) (name : Text) (m : Globals) {v : Value} {n : Globals}
    → new_function t name m ≡ (ok v, n)
    → get_global name n ≡ ok v
unfolding get_global
new_function-get_global t name m h = ap found_or_key_error (new_function-finds t name m h)
