-- ===== src/Scope/Fresh.antt =====
-- The loop of `NameScope.deduplicate` ends, and what it returns is not in use.
use llvmlite.Prelude.{
  ℕ, zero, suc, ◌+◌, ◌≤◌, ◌<◌, ◌≡◌, refl, ap, ◌∙◌, inl, inr, true, false, Option, none, some, List,
  [], ◌∷◌, arith, ltb, length, if◌then◌else◌, Bool-cases,
}
use llvmlite.Prelude.Texts.{
  Text, text_eq, text_eq→eq, text_eq_refl, read_digits, read_digits-decimal, strip_prefix,
  strip_prefix-append,
}
use llvmlite.Scope.{
  NameScope, contains, is_used, numbered, count_up, dedup_loop, enough_fuel, deduplicate,
}

-- The number after a basename and a dot; 0 for any other text.
number_after : Option Text → ℕ
number_after none = 0
number_after (some []) = 0
number_after (some (c ∷ cs)) = read_digits 0 cs

ident_of : Text → Text → ℕ
unfolding number_after
ident_of basename name = number_after (strip_prefix basename name)

ident_of-numbered : (basename : Text) (k : ℕ) → ident_of basename (numbered basename k) ≡ k
unfolding ident_of numbered
ident_of-numbered basename k = rw strip_prefix-append (read_digits-decimal k)

-- How many of the names have a number above `k`.
count_above : Text → ℕ → List Text → ℕ
count_above b k [] = 0
count_above b k (x ∷ xs) = (if ltb k (ident_of b x) then 1 else 0) + count_above b k xs

count_above-le-length : (b : Text) (k : ℕ) (xs : List Text) → count_above b k xs ≤ length xs
unfolding count_above
count_above-le-length b k [] = omega arith
count_above-le-length b k (x ∷ xs) = ground (arith, count_above-le-length b k xs)

count_above_mono :
    (b : Text) (k : ℕ) (xs : List Text) → count_above b (suc k) xs ≤ count_above b k xs
unfolding count_above
count_above_mono b k [] = omega arith
count_above_mono b k (x ∷ xs) = ground (arith, count_above_mono b k xs)

-- The name with the next number is counted at `k` and no more at `k + 1`.
count_above_drops :
    (b : Text) (k : ℕ) (name : Text) (xs : List Text)
    → ident_of b name ≡ suc k
    → contains name xs ≡ true
    → count_above b (suc k) xs < count_above b k xs
unfolding count_above contains
count_above_drops b k name [] e h = cc
count_above_drops b k name (x ∷ xs) e h = elim (Bool-cases (text_eq x name)) [
  | inl same ↦
      let e' : ident_of b x ≡ suc k = ap (ident_of b) (text_eq→eq x name same) ∙ e in
      ground (arith, count_above_mono b k xs)
  | inr other ↦ ground (arith, count_above_drops b k name xs e (rw other at h))
]

basenamemap-count_up : (b : Text) (k : ℕ) (s : NameScope) → (count_up b k s).basenamemap b ≡ k
unfolding count_up
basenamemap-count_up b k s = ground (arith, text_eq_refl b)

-- Rounds after the first: the name that is tried carries the counter of the basename.
dedup_loop_numbered :
    (f : ℕ) (b name : Text) (s : NameScope) (k : ℕ)
    → ident_of b name ≡ suc k
    → s.basenamemap b ≡ suc k
    → count_above b k s.useset < f
    → is_used s (dedup_loop f b name s).0 ≡ false
unfolding dedup_loop is_used count_up
dedup_loop_numbered zero b name s k e c h = absurd (omega arith)
dedup_loop_numbered (suc f) b name s k e c h = elim (Bool-cases (contains name s.useset)) [
  | inl used ↦
      let next = suc (s.basenamemap b) in
      rw used (
        dedup_loop_numbered f b (numbered b next) (count_up b next s) (suc k)
          (ident_of-numbered b next ∙ ap suc c) (basenamemap-count_up b next s ∙ ap suc c)
          (ground (arith, count_above_drops b k name s.useset e used)))
  | inr new ↦ rw new new
]

-- With a name that comes from the caller, one more round.
dedup_loop_fresh :
    (f : ℕ) (name : Text) (s : NameScope)
    → enough_fuel s ≤ f
    → is_used s (dedup_loop f name name s).0 ≡ false
unfolding dedup_loop is_used count_up
dedup_loop_fresh zero name s h = absurd (omega arith)
dedup_loop_fresh (suc f) name s h = elim (Bool-cases (contains name s.useset)) [
  | inl used ↦
      let next = suc (s.basenamemap name) in
      let room : count_above name (s.basenamemap name) s.useset < f =
        omega (arith, count_above-le-length name (s.basenamemap name) s.useset) in
      rw used (
        dedup_loop_numbered f name (numbered name next) (count_up name next s) (s.basenamemap name)
          (ident_of-numbered name next) (basenamemap-count_up name next s) room)
  | inr new ↦ rw new new
]

-- A round that has found its name is the last one, whatever fuel is left.
dedup_loop_stable :
    (f : ℕ) (b name : Text) (s : NameScope)
    → is_used s (dedup_loop f b name s).0 ≡ false
    → dedup_loop (suc f) b name s ≡ dedup_loop f b name s
unfolding dedup_loop is_used count_up
dedup_loop_stable zero b name s h = rw h
dedup_loop_stable (suc f) b name s h = elim (Bool-cases (contains name s.useset)) [
  | inl used ↦
      let next = suc (s.basenamemap b) in
      rw used (dedup_loop_stable f b (numbered b next) (count_up b next s) (rw used at h))
  | inr new ↦ rw new
]

-- The name that `deduplicate` returns is not in use, for every hint and every scope.
pub deduplicate_fresh : (name : Text) (s : NameScope) → is_used s (deduplicate name s).0 ≡ false
unfolding deduplicate
deduplicate_fresh name s = dedup_loop_fresh (enough_fuel s) name s (omega arith)

more_fuel :
    (extra : ℕ) (name : Text) (s : NameScope)
    → dedup_loop (extra + enough_fuel s) name name s ≡ deduplicate name s
unfolding deduplicate
more_fuel zero name s = ap (λ f. dedup_loop f name name s) (omega arith)
more_fuel (suc extra) name s =
    ap (λ f. dedup_loop f name name s) (omega arith)
    ∙ dedup_loop_stable (extra + enough_fuel s) name name s
        (dedup_loop_fresh (extra + enough_fuel s) name s (omega arith))
    ∙ more_fuel extra name s

-- The `while` loop of `deduplicate` ends by its own test within two rounds more than there are names
-- in use: the name that it returns then is not in use, for every hint and every scope, and any larger
-- number of rounds gives the same name and the same counters.
pub deduplicate_ends :
    (name : Text) (s : NameScope)
    → (is_used s (deduplicate name s).0 ≡ false)
      × ((extra : ℕ) → dedup_loop (extra + enough_fuel s) name name s ≡ deduplicate name s)
deduplicate_ends name s = (deduplicate_fresh name s, λ extra. more_fuel extra name s)

-- The set of names in use is left alone by the loop.
pub useset-dedup_loop :
    (f : ℕ) (b name : Text) (s : NameScope) → (dedup_loop f b name s).1.useset ≡ s.useset
unfolding dedup_loop count_up
useset-dedup_loop zero b name s = refl
useset-dedup_loop (suc f) b name s =
    let next = suc (s.basenamemap b) in
    ground (arith, useset-dedup_loop f b (numbered b next) (count_up b next s))

pub useset-deduplicate : (name : Text) (s : NameScope) → (deduplicate name s).1.useset ≡ s.useset
unfolding deduplicate
useset-deduplicate name s = useset-dedup_loop (enough_fuel s) name name s
