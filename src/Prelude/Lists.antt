-- ===== src/Prelude/Lists.antt =====
-- Lists measured and indexed by native numbers, under the library's names.
use Prim.Native.Nat.{ℕ, zero, suc, ◌+◌, ◌≤◌}
use mathlib.Core.Path.{◌≡◌, refl, ap}
use mathlib.Core.Bool.{Bool, true, false}
use mathlib.Core.List.{map, List, [], ◌∷◌, ◌++◌}
use mathlib.Core.Option.{Option, none, some}
use native.Mathlib.Omega.{arith}
use llvmlite.Prelude.Tests.{if◌then◌else◌}

module _ {ℓ} {A : Type ℓ} where
  abbrev pub length : List A → ℕ
  length [] = 0
  length (x ∷ xs) = suc (length xs)

  abbrev pub get_elem? : List A → ℕ → Option A
  get_elem? [] i = none
  get_elem? (x ∷ xs) zero = some x
  get_elem? (x ∷ xs) (suc i) = get_elem? xs i

  -- `list.insert(i, x)` at a position that is not negative: past the end it appends.
  abbrev pub insert_at : ℕ → A → List A → List A
  insert_at i a [] = a ∷ []
  insert_at zero a (x ∷ xs) = a ∷ x ∷ xs
  insert_at (suc i) a (x ∷ xs) = x ∷ insert_at i a xs

  -- `del xs[i]`, which the callers do within the bounds.
  abbrev pub erase_at : ℕ → List A → List A
  erase_at i [] = []
  erase_at zero (x ∷ xs) = xs
  erase_at (suc i) (x ∷ xs) = x ∷ erase_at i xs

  abbrev pub take : ℕ → List A → List A
  take zero xs = []
  take (suc n) [] = []
  take (suc n) (x ∷ xs) = x ∷ take n xs

  abbrev pub replicate : ℕ → A → List A
  replicate zero a = []
  replicate (suc n) a = a ∷ replicate n a

  pub length-append : (xs ys : List A) → length (xs ++ ys) ≡ length xs + length ys
  length-append [] ys = omega arith
  length-append (x ∷ xs) ys = omega (arith, length-append xs ys)

  pub length-insert_at : (i : ℕ) (a : A) (xs : List A) → length (insert_at i a xs) ≡ suc (length xs)
  length-insert_at i a [] = refl
  length-insert_at zero a (x ∷ xs) = refl
  length-insert_at (suc i) a (x ∷ xs) = ap suc (length-insert_at i a xs)

  pub insert_at-length : (a : A) (xs : List A) → insert_at (length xs) a xs ≡ xs ++ a ∷ []
  insert_at-length a [] = refl
  insert_at-length a (x ∷ xs) = ap (λ l. x ∷ l) (insert_at-length a xs)

  pub erase_at-insert_at :
      (i : ℕ) (a : A) (xs : List A) → i ≤ length xs → erase_at i (insert_at i a xs) ≡ xs
  erase_at-insert_at zero a [] h = refl
  erase_at-insert_at (suc i) a [] h = absurd (omega arith)
  erase_at-insert_at zero a (x ∷ xs) h = refl
  erase_at-insert_at (suc i) a (x ∷ xs) h =
      ap (λ l. x ∷ l) (erase_at-insert_at i a xs (omega arith))

  pub get_elem?-insert_at :
      (i : ℕ) (a : A) (xs : List A) → i ≤ length xs → get_elem? (insert_at i a xs) i ≡ some a
  get_elem?-insert_at zero a [] h = refl
  get_elem?-insert_at (suc i) a [] h = absurd (omega arith)
  get_elem?-insert_at zero a (x ∷ xs) h = refl
  get_elem?-insert_at (suc i) a (x ∷ xs) h = get_elem?-insert_at i a xs (omega arith)

  pub length-replicate : (n : ℕ) (a : A) → length (replicate n a) ≡ n
  length-replicate zero a = refl
  length-replicate (suc n) a = ap suc (length-replicate n a)

  -- `any` of a test, with the recursive call waiting.
  abbrev pub any : (A → Bool) → List A → Bool
  any p [] = false
  any p (x ∷ xs) = let rest = any p xs in if p x then true else rest

  abbrev pub all : (A → Bool) → List A → Bool
  all p [] = true
  all p (x ∷ xs) = let rest = all p xs in if p x then rest else false

  pub all-cons :
      (p : A → Bool) (x : A) (xs : List A)
      → all p (x ∷ xs) ≡ true
      → (p x ≡ true) × (all p xs ≡ true)
  all-cons p x xs h = ground arith

  pub append-cancel_left : (xs : List A) {ys zs : List A} → xs ++ ys ≡ xs ++ zs → ys ≡ zs
  append-cancel_left [] h = h
  append-cancel_left (x ∷ xs) h = append-cancel_left xs (cc)

module _ {ℓ} {A : Type ℓ} (p : A → Bool) where
  -- Tests of some member.
  pub any-insert_at :
      (k : ℕ) (x : A) (xs : List A) → any p (insert_at k x xs) ≡ (if p x then true else any p xs)
  any-insert_at k x [] = refl
  any-insert_at zero x (y ∷ ys) = refl
  any-insert_at (suc k) x (y ∷ ys) = ground (arith, any-insert_at k x ys)

  pub any-erase_at : (k : ℕ) (xs : List A) → any p xs ≡ false → any p (erase_at k xs) ≡ false
  any-erase_at k [] h = refl
  any-erase_at zero (y ∷ ys) h = ground arith
  any-erase_at (suc k) (y ∷ ys) h = ground (arith, any-erase_at k ys)

  -- A change that never makes the test pass.
  pub any-map :
      (f : A → A)
      → ((x : A) → p x ≡ false → p (f x) ≡ false)
      → (xs : List A) → any p xs ≡ false
      → any p (map f xs) ≡ false
  any-map f keeps [] h = refl
  any-map f keeps (x ∷ xs) h = ground (arith, keeps x, any-map f keeps xs)
