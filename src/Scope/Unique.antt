-- ===== src/Scope/Unique.antt =====
-- `NameScope.register`: what is handed out was free before and is taken after, so that no two
-- registrations of a scope return the same name.
use llvmlite.Prelude.{
  ◌≡◌, refl, sym, ap, ◌∙◌, inl, inr, Bool, true, false, List, [], ◌∷◌, arith, if◌then◌else◌,
  Bool-cases,
}
use llvmlite.Prelude.Texts.{Text, text_eq, text_eq→eq, text_eq_refl}
use llvmlite.Result.{Error, Result, ok, err, name_error}
use llvmlite.Scope.{NameScope, contains, is_used, add, deduplicate, register}
use llvmlite.Scope.Fresh.{deduplicate_fresh, useset-deduplicate}

pub is_used-add :
    (name other : Text) (s : NameScope)
    → is_used (add name s) other ≡ (if text_eq name other then true else is_used s other)
unfolding add is_used
is_used-add name other s = elim (Bool-cases (contains name s.useset)) [
  | inl old ↦ elim (Bool-cases (text_eq name other)) [
    | inl same ↦ rw (old, same) (ap (λ n. contains n s.useset) (sym (text_eq→eq _ _ same)) ∙ old)
    | inr differ ↦ rw (old, differ) refl
  ]
  | inr new ↦ rw new refl
]

pub is_used-deduplicate :
    (name other : Text) (s : NameScope) → is_used (deduplicate name s).1 other ≡ is_used s other
unfolding is_used
is_used-deduplicate name other s = ap (contains other) (useset-deduplicate name s)

-- What a registration that succeeds does: its name was free, and exactly it is added.
pub record Registered (s : NameScope) (t : Text) (s' : NameScope) : Type 0 where
  pub was_free : is_used s t ≡ false
  pub now_used : (u : Text) → is_used s' u ≡ (if text_eq t u then true else is_used s u)

-- A registration that returns a name, deduplicated or not, returns one that was free, marks it as
-- used, and changes the status of no other name.
pub register_takes :
    (name : Text) (d : Bool) (s : NameScope) {t : Text}
    → (register name d s).0 ≡ ok t
    → Registered s t (register name d s).1
unfolding register
register_takes name true s {t} h =
    let e : (deduplicate name s).0 ≡ t = cc in
    record {
      was_free = rw (← e) (deduplicate_fresh name s);
      now_used = λ u. rw (← e) (
          is_used-add (deduplicate name s).0 u (deduplicate name s).1
          ∙ ap (λ r. if text_eq (deduplicate name s).0 u then true else r)
              (is_used-deduplicate name u s));
    }
register_takes name false s {t} h = elim (Bool-cases (is_used s name)) [
  | inl used ↦ cc (rw used at h)
  | inr new ↦
      let e : name ≡ t = cc (rw new at h) in
      record { was_free = rw (← e) new; now_used = λ u. rw (new, ← e) (is_used-add name u s) }
]

-- Without deduplication a registration fails exactly on a name in use, and then changes nothing.
pub register_fails :
    (name : Text) (s : NameScope)
    → is_used s name ≡ true
    → register name false s ≡ (err name_error, s)
unfolding register
register_fails name s h = rw h

-- A sequence of registrations, as the constructors of named values make them.
unfoldable pub register_all : List (Text × Bool) → NameScope → List (Result Text) × NameScope
register_all [] s = ([], s)
register_all ((name, d) ∷ rest) s =
    let (r, s') = register name d s in let (rs, s'') = register_all rest s' in (r ∷ rs, s'')

-- The names that the registrations returned.
unfoldable pub granted : List (Result Text) → List Text
granted [] = []
granted (ok t ∷ rs) = t ∷ granted rs
granted (err _ ∷ rs) = granted rs

abbrev pub AllDistinct : List Text → Type 0
AllDistinct [] = Unit {0}
AllDistinct (t ∷ ts) = (contains t ts ≡ false) × AllDistinct ts

-- A registration that raises leaves the scope as it was.
pub register-err :
    (name : Text) (d : Bool) (s : NameScope) {x : Error}
    → (register name d s).0 ≡ err x
    → (register name d s).1 ≡ s
unfolding register
register-err name true s h = cc
register-err name false s h = ground arith

register-keeps_used :
    (name : Text) (d : Bool) (s : NameScope) (u : Text)
    → is_used s u ≡ true
    → is_used (register name d s).1 u ≡ true
register-keeps_used name d s u h = go (register name d s).0 refl
  where
    go : (r : Result Text) → (register name d s).0 ≡ r → is_used (register name d s).1 u ≡ true
    go (ok t) e = ground (arith, (register_takes name d s e).now_used u)
    go (err x) e = rw (register-err name d s e) h

used-not_granted :
    (reqs : List (Text × Bool)) (s : NameScope) (u : Text)
    → is_used s u ≡ true
    → contains u (granted (register_all reqs s).0) ≡ false
unfolding register_all granted contains
used-not_granted [] s u h = refl
used-not_granted ((name, d) ∷ rest) s u h =
    let later = used-not_granted rest (register name d s).1 u (register-keeps_used name d s u h) in
    go (register name d s).0 refl later
  where
    go :
        (r : Result Text)
        → (register name d s).0 ≡ r
        → contains u (granted (register_all rest (register name d s).1).0) ≡ false
        → contains u (granted (r ∷ (register_all rest (register name d s).1).0)) ≡ false
    go (err x) e later = later
    go (ok t) e later = ground (arith, text_eq→eq t u, (register_takes name d s e).was_free, later)

-- Among all names that a scope hands out, whatever the hints and however names that must not be
-- deduplicated fail in between, no two are equal.
pub register_all_distinct :
    (reqs : List (Text × Bool)) (s : NameScope) → AllDistinct (granted (register_all reqs s).0)
unfolding register_all granted
register_all_distinct [] s = tt
register_all_distinct ((name, d) ∷ rest) s =
    go (register name d s).0 refl (register_all_distinct rest (register name d s).1)
  where
    go :
        (r : Result Text)
        → (register name d s).0 ≡ r
        → AllDistinct (granted (register_all rest (register name d s).1).0)
        → AllDistinct (granted (r ∷ (register_all rest (register name d s).1).0))
    go (err x) e later = later
    go (ok t) e later = (
      used-not_granted rest (register name d s).1 t
          ((register_takes name d s e).now_used t ∙ rw text_eq_refl),
      later,
    )
