-- ===== src/Types/Equality.antt =====
-- `__eq__` of the types: an equivalence on types without opaque pointers, where it is structural
-- equality; an opaque pointer equals every pointer of its address space.
use llvmlite.Prelude.{
  ==_iff, &&-pair, &&-parts, ◌∙◌, sym, ap, ◌↔◌, false, ℕ, ◌≡◌, refl, ap₂, Bool, true, ◌&&◌, arith,
  ◌==◌, bool_eq, bool_eq_iff,
}
use llvmlite.Prelude.Texts.{text_eq, text_eq→eq, text_eq_refl, text_eq_sym}
use llvmlite.Types.{
  Ty, Tys, metadata, void, half, float, double, label, ptr, typed_ptr, function, int, vector, array,
  literal_struct, identified, nil, cons, type_eq, types_eq,
}

mutual
  unfolding type_eq

  eq_refl : (t : Ty) → type_eq t t ≡ true
  eq_refl metadata = refl
  eq_refl void = refl
  eq_refl half = refl
  eq_refl float = refl
  eq_refl double = refl
  eq_refl (label i) = ground arith
  eq_refl (ptr a) = ground arith
  eq_refl (typed_ptr t a) = ground (arith, eq_refl t)
  eq_refl (function r xs v) = ground (arith, eq_refl r, eqs_refl xs, bool_eq_iff v v)
  eq_refl (int n) = ground arith
  eq_refl (vector t n) = ground (arith, eq_refl t)
  eq_refl (array t n) = ground (arith, eq_refl t)
  eq_refl (literal_struct xs p) = ground (arith, eqs_refl xs, bool_eq_iff p p)
  eq_refl (identified x p) = ground (arith, text_eq_refl x, bool_eq_iff p p)

  eqs_refl : (ts : Tys) → types_eq ts ts ≡ true
  eqs_refl nil = refl
  eqs_refl (cons t ts) = ground (arith, eq_refl t, eqs_refl ts)

-- Every type equals itself.
pub type_eq_refl : (t : Ty) → type_eq t t ≡ true
type_eq_refl t = eq_refl t

bool_eq_sym : (a b : Bool) → bool_eq a b ≡ bool_eq b a
bool_eq_sym a b = ground arith

nat_eq_sym : (m n : ℕ) → (m == n) ≡ (n == m)
nat_eq_sym m n = ground arith

mutual
  unfolding type_eq

  eq_sym : (s t : Ty) → type_eq s t ≡ type_eq t s
  eq_sym metadata metadata = refl
  eq_sym void void = refl
  eq_sym half half = refl
  eq_sym float float = refl
  eq_sym double double = refl
  eq_sym (label i) (label j) = nat_eq_sym i j
  eq_sym (ptr a) (ptr b) = nat_eq_sym a b
  eq_sym (ptr a) (typed_ptr t b) = nat_eq_sym a b
  eq_sym (typed_ptr s a) (ptr b) = nat_eq_sym a b
  eq_sym (typed_ptr s a) (typed_ptr t b) = ap₂ ◌&&◌ (eq_sym s t) (nat_eq_sym a b)
  eq_sym (function r xs v) (function s ys w) =
      ap₂ ◌&&◌ (eq_sym r s) (ap₂ ◌&&◌ (eqs_sym xs ys) (bool_eq_sym v w))
  eq_sym (int m) (int n) = nat_eq_sym m n
  eq_sym (vector s m) (vector t n) = ap₂ ◌&&◌ (eq_sym s t) (nat_eq_sym m n)
  eq_sym (array s m) (array t n) = ap₂ ◌&&◌ (eq_sym s t) (nat_eq_sym m n)
  eq_sym (literal_struct xs p) (literal_struct ys q) = ap₂ ◌&&◌ (eqs_sym xs ys) (bool_eq_sym p q)
  eq_sym (identified x p) (identified y q) = ap₂ ◌&&◌ (text_eq_sym x y) (bool_eq_sym p q)
  eq_sym _ _ = refl

  eqs_sym : (xs ys : Tys) → types_eq xs ys ≡ types_eq ys xs
  eqs_sym nil nil = refl
  eqs_sym (cons x xs) (cons y ys) = ap₂ ◌&&◌ (eq_sym x y) (eqs_sym xs ys)
  eqs_sym _ _ = refl

-- `__eq__` is symmetric, although the classes define it separately.
pub type_eq_sym : (s t : Ty) → type_eq s t ≡ type_eq t s
type_eq_sym s t = eq_sym s t

-- No opaque pointer anywhere in the type.
unfoldable mutual
  pub no_opaque : Ty → Bool
  no_opaque (ptr a) = false
  no_opaque (typed_ptr t a) = no_opaque t
  no_opaque (function r xs v) = no_opaque r && all_no_opaque xs
  no_opaque (vector t n) = no_opaque t
  no_opaque (array t n) = no_opaque t
  no_opaque (literal_struct xs p) = all_no_opaque xs
  no_opaque _ = true

  pub all_no_opaque : Tys → Bool
  all_no_opaque nil = true
  all_no_opaque (cons t ts) = no_opaque t && all_no_opaque ts

mutual
  unfolding type_eq no_opaque

  structural : (s t : Ty) → no_opaque s ≡ true → no_opaque t ≡ true → type_eq s t ≡ true → s ≡ t
  structural (typed_ptr s a) (typed_ptr t b) h k e =
      let (es, en) = &&-pair (type_eq s t) (a == b) e in
      cc (structural s t h k es, (==_iff a b).0 en)
  structural (function r xs v) (function s ys w) h k e =
      let (er, exs, ev) = &&-parts (type_eq r s) (types_eq xs ys) (bool_eq v w) e in
      let (hr, hxs) = &&-pair (no_opaque r) (all_no_opaque xs) h in
      let (kr, kxs) = &&-pair (no_opaque s) (all_no_opaque ys) k in
      cc (structural r s hr kr er, structurals xs ys hxs kxs exs, (bool_eq_iff v w).0 ev)
  structural (vector s m) (vector t n) h k e =
      let (es, en) = &&-pair (type_eq s t) (m == n) e in
      cc (structural s t h k es, (==_iff m n).0 en)
  structural (array s m) (array t n) h k e =
      let (es, en) = &&-pair (type_eq s t) (m == n) e in
      cc (structural s t h k es, (==_iff m n).0 en)
  structural (literal_struct xs p) (literal_struct ys q) h k e =
      let (es, ep) = &&-pair (types_eq xs ys) (bool_eq p q) e in
      cc (structurals xs ys h k es, (bool_eq_iff p q).0 ep)
  structural (identified x p) (identified y q) h k e =
      let (ex, ep) = &&-pair (text_eq x y) (bool_eq p q) e in
      cc (text_eq→eq x y ex, (bool_eq_iff p q).0 ep)
  structural metadata metadata h k e = refl
  structural void void h k e = refl
  structural half half h k e = refl
  structural float float h k e = refl
  structural double double h k e = refl
  structural (label i) (label j) h k e = ground arith
  structural (int m) (int n) h k e = ground arith
  structural _ _ h k e = cc

  structurals :
      (xs ys : Tys)
      → all_no_opaque xs ≡ true
      → all_no_opaque ys ≡ true
      → types_eq xs ys ≡ true
      → xs ≡ ys
  structurals nil nil h k e = refl
  structurals (cons x xs) (cons y ys) h k e =
      let (ex, exs) = &&-pair (type_eq x y) (types_eq xs ys) e in
      let (hx, hxs) = &&-pair (no_opaque x) (all_no_opaque xs) h in
      let (kx, kxs) = &&-pair (no_opaque y) (all_no_opaque ys) k in
      cc (structural x y hx kx ex, structurals xs ys hxs kxs exs)
  structurals _ _ h k e = cc

-- On types without opaque pointers `__eq__` is structural equality, so that there it is an
-- equivalence.
pub type_eq_structural :
    (s t : Ty) → no_opaque s ≡ true → no_opaque t ≡ true → (type_eq s t ≡ true) ↔ (s ≡ t)
type_eq_structural s t h k = (structural s t h k, λ p. ap (type_eq s) (sym p) ∙ type_eq_refl s)

-- The type that LLVM sees: every pointer is opaque.
unfoldable mutual
  pub erase : Ty → Ty
  erase (typed_ptr t a) = ptr a
  erase (function r xs v) = function (erase r) (erase_all xs) v
  erase (vector t n) = vector (erase t) n
  erase (array t n) = array (erase t) n
  erase (literal_struct xs p) = literal_struct (erase_all xs) p
  erase t = t

  pub erase_all : Tys → Tys
  erase_all nil = nil
  erase_all (cons t ts) = cons (erase t) (erase_all ts)

mutual
  unfolding type_eq erase

  erases : (s t : Ty) → type_eq s t ≡ true → erase s ≡ erase t
  erases (typed_ptr s a) (typed_ptr t b) e =
      cc ((==_iff a b).0 (&&-pair (type_eq s t) (a == b) e).1)
  erases (typed_ptr s a) (ptr b) e = ground arith
  erases (ptr a) (typed_ptr t b) e = ground arith
  erases (ptr a) (ptr b) e = ground arith
  erases (function r xs v) (function s ys w) e =
      let (er, exs, ev) = &&-parts (type_eq r s) (types_eq xs ys) (bool_eq v w) e in
      cc (erases r s er, erases_all xs ys exs, (bool_eq_iff v w).0 ev)
  erases (vector s m) (vector t n) e =
      let (es, en) = &&-pair (type_eq s t) (m == n) e in cc (erases s t es, (==_iff m n).0 en)
  erases (array s m) (array t n) e =
      let (es, en) = &&-pair (type_eq s t) (m == n) e in cc (erases s t es, (==_iff m n).0 en)
  erases (literal_struct xs p) (literal_struct ys q) e =
      let (es, ep) = &&-pair (types_eq xs ys) (bool_eq p q) e in
      cc (erases_all xs ys es, (bool_eq_iff p q).0 ep)
  erases (identified x p) (identified y q) e =
      let (ex, ep) = &&-pair (text_eq x y) (bool_eq p q) e in
      cc (text_eq→eq x y ex, (bool_eq_iff p q).0 ep)
  erases metadata metadata e = refl
  erases void void e = refl
  erases half half e = refl
  erases float float e = refl
  erases double double e = refl
  erases (label i) (label j) e = ground arith
  erases (int m) (int n) e = ground arith
  erases _ _ e = cc

  erases_all : (xs ys : Tys) → types_eq xs ys ≡ true → erase_all xs ≡ erase_all ys
  erases_all nil nil e = refl
  erases_all (cons x xs) (cons y ys) e =
      let (ex, exs) = &&-pair (type_eq x y) (types_eq xs ys) e in
      cc (erases x y ex, erases_all xs ys exs)
  erases_all _ _ e = cc

-- Types that `__eq__` takes for equal are one type once all pointers are opaque, as they are in
-- LLVM.
pub type_eq-erase : (s t : Ty) → type_eq s t ≡ true → erase s ≡ erase t
type_eq-erase s t e = erases s t e

mutual
  unfolding type_eq erase

  eq_erased : (t : Ty) → type_eq t (erase t) ≡ true
  eq_erased (typed_ptr t a) = ground arith
  eq_erased (function r xs v) = ground (arith, eq_erased r, eq_all_erased xs, bool_eq_iff v v)
  eq_erased (vector t n) = ground (arith, eq_erased t)
  eq_erased (array t n) = ground (arith, eq_erased t)
  eq_erased (literal_struct xs p) = ground (arith, eq_all_erased xs, bool_eq_iff p p)
  eq_erased t = type_eq_refl t

  eq_all_erased : (ts : Tys) → types_eq ts (erase_all ts) ≡ true
  eq_all_erased nil = refl
  eq_all_erased (cons t ts) = ground (arith, eq_erased t, eq_all_erased ts)

-- Every type equals the one with its pointers made opaque.
pub type_eq_erased : (t : Ty) → type_eq t (erase t) ≡ true
type_eq_erased t = eq_erased t

-- `__eq__` is not transitive: pointers to two types that differ both equal the opaque pointer of
-- their address space, and not one another.
pub type_eq_not_transitive :
    (s t : Ty) (a : ℕ)
    → type_eq s t ≡ false
    → (type_eq (typed_ptr s a) (ptr a) ≡ true)
      × (type_eq (ptr a) (typed_ptr t a) ≡ true)
      × (type_eq (typed_ptr s a) (typed_ptr t a) ≡ false)
unfolding type_eq
type_eq_not_transitive s t a h = ground arith
