-- ===== src/Exec.antt =====
-- Methods that change an object and may raise: the object comes back beside the error too, as what
-- was written before a raise stays written.
use llvmlite.Prelude.{◌≡◌, refl}
use llvmlite.Result.{Error, Result, ok, err}

abbrev pub Exec {ℓ} : Type ℓ → Type ℓ → Type ℓ
Exec Obj A = Obj → Result A × Obj

module _ {ℓ} {Obj A B : Type ℓ} where
  -- What follows a step that has returned; after a raise it does not run.
  abbrev pub resume : Result A × Obj → (A → Exec Obj B) → Result B × Obj
  resume (err raised, obj) next = (err raised, obj)
  resume (ok value, obj) next = next value obj

  infixl 10 ◌>>=◌ ◌>>◌
  abbrev pub ◌>>=◌ : Exec Obj A → (A → Exec Obj B) → Exec Obj B
  ◌>>=◌ step next obj = resume (step obj) next

  abbrev pub ◌>>◌ : Exec Obj A → Exec Obj B → Exec Obj B
  step >> rest = step >>= λ _. rest

module _ {ℓ} {Obj A B : Type ℓ} where
  -- A chain that returns has a first step that returns.
  pub resume-eq-ok :
      (run : Result A × Obj) (next : A → Exec Obj B) {out : B} {last : Obj}
      → resume run next ≡ (ok out, last)
      → (value : A) × (mid : Obj) × (run ≡ (ok value, mid)) × (next value mid ≡ (ok out, last))
  resume-eq-ok (err raised, obj) next h = cc
  resume-eq-ok (ok value, obj) next h = (value, obj, refl, h)

module _ {ℓ} {Obj A : Type ℓ} where
  -- A check that reads the arguments alone.
  abbrev pub lift : Result A → Exec Obj A
  lift checked obj = (checked, obj)

  abbrev pub raise : Error → Exec Obj A
  raise e obj = (err e, obj)

  abbrev pub pure : A → Exec Obj A
  pure value obj = (ok value, obj)
