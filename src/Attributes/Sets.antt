-- ===== src/Attributes/Sets.antt =====
-- An attribute set is a set: it has what was added and nothing else, and is written in an order that
-- does not depend on the order of insertion.
use llvmlite.Prelude.{
  ◌||◌, ◌≡◌, refl, sym, ap, ◌∙◌, inl, inr, Bool, true, false, ◌&&◌, List, [], ◌∷◌, Bool-cases, ap₂,
  &&-pair, &&-intro, arith, if◌then◌else◌,
}
use llvmlite.Prelude.Texts.{text_eq_sym, Text, text_eq, text_eq→eq, text_eq_refl, text_eq_iff}
use llvmlite.Attributes.{
  function, known, base_add, add, add_all, AttrKind, text_lt, has, insert, place, sorted, to_list,
  expand_each,
}
use llvmlite.Types.{Ty}
use llvmlite.Result.{>>=-eq-ok, ok}

-- The set after `add(name)` has `name`, and has of the other names those it had.
pub has-insert :
    (name other : Text) (xs : List Text)
    → has other (insert name xs) ≡ (if text_eq name other then true else has other xs)
unfolding has insert
has-insert name other xs = elim (Bool-cases (has name xs)) [
  | inl there ↦ elim (Bool-cases (text_eq name other)) [
    | inl same ↦ rw (there, same) (rw (← text_eq→eq name other same) there)
    | inr differ ↦ rw (there, differ) refl
  ]
  | inr absent ↦ rw absent refl
]

has-place :
    (name other : Text) (xs : List Text)
    → has other (place name xs) ≡ (if text_eq name other then true else has other xs)
unfolding has place
has-place name other [] = refl
has-place name other (x ∷ xs) = ground (
  arith,
  has-place name other xs,
  text_eq_iff name x,
  text_eq_iff x other,
  text_eq_iff name other,
)

has-sorted : (other : Text) (xs : List Text) → has other (sorted xs) ≡ has other xs
unfolding has sorted
has-sorted other [] = refl
has-sorted other (x ∷ xs) = has-place x other (sorted xs) ∙ ground (arith, has-sorted other xs)

text_lt_irrefl : (s : Text) → text_lt s s ≡ false
unfolding text_lt
text_lt_irrefl [] = refl
text_lt_irrefl (c ∷ cs) = ground (arith, text_lt_irrefl cs)

text_lt_trans : (s t u : Text) → text_lt s t ≡ true → text_lt t u ≡ true → text_lt s u ≡ true
unfolding text_lt
text_lt_trans s t [] h k = cc
text_lt_trans s [] (c ∷ cs) h k = cc
text_lt_trans [] (d ∷ ds) (e ∷ es) h k = refl
text_lt_trans (c ∷ cs) (d ∷ ds) (e ∷ es) h k = ground (arith, text_lt_trans cs ds es)

text_lt_total : (s t : Text) → text_eq s t ≡ false → text_lt s t ≡ false → text_lt t s ≡ true
unfolding text_lt text_eq
text_lt_total [] [] h k = cc
text_lt_total [] (d ∷ ds) h k = cc
text_lt_total (c ∷ cs) [] h k = refl
text_lt_total (c ∷ cs) (d ∷ ds) h k = ground (arith, text_lt_total cs ds)

abbrev is_below : Text → List Text → Bool
is_below x [] = true
is_below x (y ∷ ys) = text_lt x y

-- Strictly ascending: sorted, and no name twice.
unfoldable pub is_ascending : List Text → Bool
is_ascending [] = true
is_ascending (x ∷ xs) = is_below x xs && is_ascending xs

is_below-place :
    (x name : Text) (xs : List Text)
    → text_lt x name ≡ true
    → is_below x xs ≡ true
    → is_below x (place name xs) ≡ true
unfolding place
is_below-place x name [] h k = h
is_below-place x name (y ∷ ys) h k = ground arith

-- Placing a name keeps a list in order, and free of duplicates.
place_ascending :
    (name : Text) (xs : List Text) → is_ascending xs ≡ true → is_ascending (place name xs) ≡ true
unfolding place is_ascending
place_ascending name [] h = refl
place_ascending name (x ∷ xs) h = elim (Bool-cases (text_eq name x)) [
  | inl same ↦ rw same h
  | inr differ ↦ elim (Bool-cases (text_lt name x)) [
    | inl before ↦ rw (differ, before) (&&-intro _ _ before h)
    | inr after ↦
        let (below, rest) = &&-pair (is_below x xs) (is_ascending xs) h in
        rw (differ, after)
          (&&-intro (is_below x (place name xs)) (is_ascending (place name xs))
            (is_below-place x name xs (text_lt_total name x differ after) below)
            (place_ascending name xs rest))
  ]
]

sorted_ascending : (xs : List Text) → is_ascending (sorted xs) ≡ true
unfolding sorted is_ascending
sorted_ascending [] = refl
sorted_ascending (x ∷ xs) = place_ascending x (sorted xs) (sorted_ascending xs)

-- Every member of an ascending list is above what is below its head.
below_all :
    (x name : Text) (xs : List Text)
    → is_ascending xs ≡ true
    → is_below x xs ≡ true
    → has name xs ≡ true
    → text_lt x name ≡ true
unfolding is_ascending has
below_all x name [] h b m = cc
below_all x name (y ∷ ys) h b m = elim (Bool-cases (text_eq y name)) [
  | inl same ↦ rw (← text_eq→eq y name same) b
  | inr other ↦
      let (below, rest) = &&-pair (is_below y ys) (is_ascending ys) h in
      text_lt_trans x y name b (below_all y name ys rest below (rw other at m))
]

not_has_head :
    (x : Text) (xs : List Text) → is_ascending xs ≡ true → is_below x xs ≡ true → has x xs ≡ false
not_has_head x xs h b = elim (Bool-cases (has x xs)) [
  | inl there ↦ cc (below_all x x xs h b there, text_lt_irrefl x)
  | inr absent ↦ absent
]

same_head :
    (x y : Text) (xs ys : List Text)
    → is_ascending xs ≡ true
    → is_below x xs ≡ true
    → is_ascending ys ≡ true
    → is_below y ys ≡ true
    → has x (y ∷ ys) ≡ true
    → has y (x ∷ xs) ≡ true
    → x ≡ y
unfolding has
same_head x y xs ys hx bx hy by m n = elim (Bool-cases (text_eq x y)) [
  | inl same ↦ text_eq→eq x y same
  | inr differ ↦
      let up = below_all y x ys hy by (rw (text_eq_sym y x, differ) at m) in
      let down = below_all x y xs hx bx (rw differ at n) in
      cc (text_lt_trans x y x down up, text_lt_irrefl x)
]

-- Two ascending lists with the same members are the same list.
ascending_ext :
    (xs ys : List Text)
    → is_ascending xs ≡ true
    → is_ascending ys ≡ true
    → ((name : Text) → has name xs ≡ has name ys)
    → xs ≡ ys
unfolding is_ascending has
ascending_ext [] [] h k e = refl
ascending_ext [] (y ∷ ys) h k e = cc (e y, text_eq_refl y)
ascending_ext (x ∷ xs) [] h k e = cc (e x, text_eq_refl x)
ascending_ext (x ∷ xs) (y ∷ ys) h k e =
    let (bx, hx) = &&-pair (is_below x xs) (is_ascending xs) h in
    let (by, hy) = &&-pair (is_below y ys) (is_ascending ys) k in
    let head =
      same_head x y xs ys hx bx hy by (sym (e x) ∙ rw text_eq_refl) (e y ∙ rw text_eq_refl) in
    ap₂ ◌∷◌ head (ascending_ext xs ys hx hy (tail_members head hx bx hy by))
  where
    tail_members :
        x ≡ y
        → is_ascending xs ≡ true
        → is_below x xs ≡ true
        → is_ascending ys ≡ true
        → is_below y ys ≡ true
        → (name : Text) → has name xs ≡ has name ys
    tail_members head hx bx hy by name = elim (Bool-cases (text_eq x name)) [
      | inl same ↦
          let there = text_eq→eq x name same in
          rw (← there) (not_has_head x xs hx bx ∙ sym (rw head (not_has_head y ys hy by)))
      | inr other ↦ rw (← head, other) at (e name)
    ]

-- An `add` that does not raise is an insertion of a known name.
pub add_ok :
    (kind : AttrKind) (name : Text) (attrs : List Text) {out : List Text}
    → add kind name attrs ≡ ok out
    → (out ≡ insert name attrs) × (has name (known kind) ≡ true)
unfolding add base_add
add_ok function name attrs h = ground arith
add_ok _ name attrs h = ground arith

-- The names that a run of `add` leaves in the set.
pub add_all_members :
    (kind : AttrKind) (names attrs : List Text) {out : List Text}
    → add_all kind names attrs ≡ ok out
    → (name : Text) → has name out ≡ (has name names || has name attrs)
unfolding add_all has
add_all_members kind [] attrs {out} e name = let same : attrs ≡ out = cc in rw (← same) refl
add_all_members kind (n ∷ names) attrs e name =
    let (more, added, rest) = >>=-eq-ok (add kind n attrs) _ e in
    let same = (add_ok kind n attrs added).0 in
    add_all_members kind names more rest name ∙ rw (same, has-insert) (ground arith)

-- Two runs of `add` from an empty set that do not raise leave sets that `_to_list` writes alike if
-- they were given the same names, in whatever order and however often.
pub add_all_order :
    (enabled : Bool) (kind : AttrKind) (typ : Ty) (ms ns : List Text) {out out' : List Text}
    → add_all kind ms [] ≡ ok out
    → add_all kind ns [] ≡ ok out'
    → ((name : Text) → has name ms ≡ has name ns)
    → to_list enabled kind typ out ≡ to_list enabled kind typ out'
unfolding has to_list
add_all_order enabled kind typ ms ns {out} {out'} h k same =
    let members = add_all_members kind ms [] h in
    let members' = add_all_members kind ns [] k in
    ap (expand_each enabled kind typ) (
      ascending_ext (sorted out) (sorted out') (sorted_ascending out) (sorted_ascending out')
        (λ name.
          has-sorted name out
          ∙ (members name ∙ ap (λ b. b || false) (same name) ∙ sym (members' name))
          ∙ sym (has-sorted name out')))
