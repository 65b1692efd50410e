-- ===== src/Instructions/CallArgs.antt =====
-- What a call of llvmlite/ir/instructions.py accepts: arguments of the types of the parameters.
use llvmlite.Prelude.{
  ◌↔◌, sym, subst, ◌≡◌, refl, true, false, List, [], ◌∷◌, arith, inl, inr, Bool-cases,
}
use llvmlite.Result.{ok, >>=-eq-ok}
use llvmlite.Types.{metadata, Ty, type_eq, is_metadata}
use llvmlite.Values.{Value, md_argument, type_of}
use llvmlite.Instructions.Calls.{fix_argument, fix_arguments}

-- The arguments fit the parameters, and there is one for each.
pub data Fits : List Ty → List Value → List Value → Type 0 where
  done : (args : List Value) → Fits [] args args
  as_is :
      {t : Ty} {ts : List Ty} (arg : Value) {args out : List Value}
      → type_eq (type_of arg) t ≡ true
      → Fits ts args out
      → Fits (t ∷ ts) (arg ∷ args) (arg ∷ out)
  wrapped :
      {t : Ty} {ts : List Ty} (arg : Value) {args out : List Value}
      → is_metadata t ≡ true
      → type_eq (type_of arg) t ≡ false
      → Fits ts args out
      → Fits (t ∷ ts) (arg ∷ args) (md_argument arg ∷ out)

metadata_eq : (t : Ty) → is_metadata t ≡ true → type_eq metadata t ≡ true
unfolding is_metadata type_eq
metadata_eq metadata h = refl
metadata_eq _ h = cc

-- The three ways of an argument at its parameter.
fixed_as_is : (t : Ty) (arg : Value) → type_eq (type_of arg) t ≡ true → fix_argument t arg ≡ arg
unfolding fix_argument
fixed_as_is t arg e = ground arith

fixed_wrapped :
    (t : Ty) (arg : Value)
    → is_metadata t ≡ true
    → type_eq (type_of arg) t ≡ false
    → fix_argument t arg ≡ md_argument arg
unfolding fix_argument
fixed_wrapped t arg m e = ground arith

fixed_refused : (t : Ty) (arg : Value) → is_metadata t ≡ false → fix_argument t arg ≡ arg
unfolding fix_argument
fixed_refused t arg m = ground arith

fit_cons :
    (t : Ty) (ts : List Ty) (arg : Value) (args : List Value) {out : List Value}
    → fix_arguments (t ∷ ts) (arg ∷ args) ≡ ok out
    → (type_eq (type_of (fix_argument t arg)) t ≡ true)
      × ((rest : List Value) × (fix_arguments ts args ≡ ok rest)
          × (out ≡ fix_argument t arg ∷ rest))
unfolding fix_arguments
fit_cons t ts arg args h = elim (Bool-cases (type_eq (type_of (fix_argument t arg)) t)) [
  | inl fine ↦
      let (rest, tail, last) = >>=-eq-ok (fix_arguments ts args) _ (rw fine at h) in
      (fine, (rest, tail, cc))
  | inr bad ↦ cc (rw bad at h)
]

-- A call that goes through has such arguments: each has the type of its parameter, or stands for
-- metadata and is wrapped; what exceeds the parameters is handed on as it is.
fix_arguments_fit :
    (ts : List Ty) (args : List Value) {out : List Value}
    → fix_arguments ts args ≡ ok out
    → Fits ts args out
unfolding fix_arguments
fix_arguments_fit [] args {out} h =
    let e : args ≡ out = cc in subst (λ o. Fits [] args o) e (done args)
fix_arguments_fit (t ∷ ts) [] h = cc
fix_arguments_fit (t ∷ ts) (arg ∷ args) {out} h =
    let (fine, (rest, tail, last)) = fit_cons t ts arg args h in
    let ih = fix_arguments_fit ts args tail in
    elim (Bool-cases (type_eq (type_of arg) t)) [
      | inl same ↦
          subst (λ o. Fits (t ∷ ts) (arg ∷ args) o) (sym (rw (fixed_as_is t arg same) at last))
            (as_is arg same ih)
      | inr differ ↦ elim (Bool-cases (is_metadata t)) [
        | inl meta ↦
            subst (λ o. Fits (t ∷ ts) (arg ∷ args) o)
              (sym (rw (fixed_wrapped t arg meta differ) at last)) (wrapped arg meta differ ih)
        | inr plain ↦ cc (rw (fixed_refused t arg plain, differ) at fine)
      ]
    ]

fits_accepted :
    {ts : List Ty} {args out : List Value} → Fits ts args out → fix_arguments ts args ≡ ok out
unfolding fix_arguments type_of
fits_accepted (done args) = refl
fits_accepted (as_is {t} arg e r) = rw (fixed_as_is t arg e, e, fits_accepted r) refl
fits_accepted (wrapped {t} arg m e r) =
    rw (fixed_wrapped t arg m e, metadata_eq t m, fits_accepted r) refl

-- A call goes through exactly on arguments that fit, and what it keeps of them is determined: each
-- is the argument, of the type of its parameter, or stands for metadata and is wrapped, and what
-- exceeds the parameters is handed on as it is.
pub fix_arguments_iff :
    (ts : List Ty) (args out : List Value) → (fix_arguments ts args ≡ ok out) ↔ Fits ts args out
fix_arguments_iff ts args out = (fix_arguments_fit ts args, fits_accepted)
