-- ===== src/Prelude/Split.antt =====
-- `str.split` at one character, with the lemmas that undo `join` and lines.
use Prim.Native.Nat.{ℕ}
use mathlib.Core.Path.{◌≡◌, refl, ap, ◌∙◌}
use mathlib.Core.Logic.{inl, inr}
use mathlib.Core.Bool.{Bool, true, not}
use mathlib.Core.List.{List, [], ◌∷◌, ◌++◌}
use native.Mathlib.Omega.{arith}
use llvmlite.Prelude.Tests.{◌==◌, if◌then◌else◌, Bool-cases}
use llvmlite.Prelude.Lists.{all, all-cons}
use llvmlite.Prelude.Texts.{Text, join}

abbrev push : ℕ → List Text → List Text
push c [] = (c ∷ []) ∷ []
push c (l ∷ ls) = (c ∷ l) ∷ ls

-- `text.split(sep)`
unfoldable pub split_on : ℕ → Text → List Text
split_on sep [] = [] ∷ []
split_on sep (c ∷ cs) = let rest = split_on sep cs in if c == sep then [] ∷ rest else push c rest

-- A text without this character.
abbrev pub lacks : ℕ → Text → Bool
lacks sep t = all (λ c. not (c == sep)) t

pub lacks-append :
    (sep : ℕ) (s t : Text) → lacks sep s ≡ true → lacks sep t ≡ true → lacks sep (s ++ t) ≡ true
lacks-append sep [] t h k = k
lacks-append sep (c ∷ cs) t h k =
    let (here, later) = all-cons (λ d. not (d == sep)) c cs h in
    ground (arith, lacks-append sep cs t later k)

pub split_on-append :
    (sep : ℕ) (t rest : Text)
    → lacks sep t ≡ true
    → split_on sep (t ++ sep ∷ rest) ≡ t ∷ split_on sep rest
unfolding split_on
split_on-append sep [] rest h = ground arith
split_on-append sep (c ∷ cs) rest h =
    let (here, later) = all-cons (λ d. not (d == sep)) c cs h in
    ground (arith, split_on-append sep cs rest later)

pub split_on-last : (sep : ℕ) (t : Text) → lacks sep t ≡ true → split_on sep t ≡ t ∷ []
unfolding split_on
split_on-last sep [] h = refl
split_on-last sep (c ∷ cs) h =
    let (here, later) = all-cons (λ d. not (d == sep)) c cs h in
    ground (arith, split_on-last sep cs later)

pub split_on-cons : (sep : ℕ) (t : Text) → (l : Text) × (ls : List Text) × (split_on sep t ≡ l ∷ ls)
unfolding split_on
split_on-cons sep [] = ([], [], refl)
split_on-cons sep (c ∷ cs) = elim (Bool-cases (c == sep)) [
  | inl e ↦ ([], split_on sep cs, rw e refl)
  | inr e ↦ let (l, ls, h) = split_on-cons sep cs in (c ∷ l, ls, rw e (ap (push c) h))
]

-- Splitting undoes joining.
pub split_on-join :
    (sep : ℕ) (t : Text) (ts : List Text)
    → all (lacks sep) (t ∷ ts) ≡ true
    → split_on sep (join (sep ∷ []) (t ∷ ts)) ≡ t ∷ ts
unfolding join
split_on-join sep t [] h =
    let (here, later) = all-cons (lacks sep) t [] h in split_on-last sep t here
split_on-join sep t (u ∷ us) h =
    let (here, later) = all-cons (lacks sep) t (u ∷ us) h in
    split_on-append sep t (join (sep ∷ []) (u ∷ us)) here
    ∙ ap (λ rest. t ∷ rest) (split_on-join sep u us later)
