-- ===== src/Result.antt =====
-- Python's exceptions as values. What was written before a raise stays written, so an operation on
-- an object returns its state beside the error too.
use llvmlite.Prelude.{◌≡◌, refl, Bool, true, false}

-- One constructor for each exception class that the code raises or lets through.
pub data Error : Type 0 where
  type_error value_error name_error assertion_error attribute_error : Error
  index_error key_error runtime_error not_implemented argument_error : Error

pub data Result {ℓ} (A : Type ℓ) : Type ℓ where
  err : Error → Result A
  ok : A → Result A

-- `if not test: raise e`
abbrev pub guard : Bool → Error → Result (Unit {0})
guard false raised = err raised
guard true raised = ok tt

module _ {ℓ κ} {A : Type ℓ} {B : Type κ} where
  infixl 5 ◌>>=◌
  -- Going on with what a step has returned; an exception passes through.
  abbrev pub ◌>>=◌ : Result A → (A → Result B) → Result B
  err raised >>= next = err raised
  ok value >>= next = next value

  pub >>=-eq-ok :
      (step : Result A) (next : A → Result B) {out : B}
      → (step >>= next) ≡ ok out
      → (value : A) × (step ≡ ok value) × (next value ≡ ok out)
  >>=-eq-ok (err raised) next h = cc
  >>=-eq-ok (ok value) next h = (value, refl, h)

infixl 5 ◌>>◌
abbrev pub ◌>>◌ {κ} : {B : Type κ} → Result (Unit {0}) → Result B → Result B
check >> rest = check >>= λ _. rest

pub guard-eq-ok : (test : Bool) (e : Error) {u : Unit {0}} → guard test e ≡ ok u → test ≡ true
guard-eq-ok false e h = cc
guard-eq-ok true e h = refl
