-- ===== src/Values/Elements.antt =====
-- What `wrap_constant_value` of llvmlite/ir/types.py makes of sequences: one value for each element
-- of the type, of the element's type.
use llvmlite.Prelude.{
  ℕ, ◌≡◌, ◌≢◌, refl, inl, inr, List, [], ◌∷◌, length, ◌==◌, ==_iff, Bool-cases, Option, none, some,
  arith,
}
use llvmlite.Result.{Result, ok, err, value_error, ◌>>=◌}
use llvmlite.Types.{Ty}
use llvmlite.Types.Lookup.{Bodies}
use llvmlite.Values.{Value, Values, Const, constant, items, cons, type_of, value_list}
use llvmlite.Values.Wrap.{
  Raw, Raws, atom, value, sequence, end, more, count, scalar_constant, splat, element_types,
  assemble, make_constant, wrap_items, types_of,
}

-- No element of the sequence is a value already.
abbrev pub NoValues : Raws → Type 0
NoValues end = Unit {0}
NoValues (more (value v) rs) = ⊥
NoValues (more r rs) = NoValues rs

typed_content :
    (m : Result Const) (t : Ty) {v : Value}
    → (m >>= λ content. ok (constant t content)) ≡ ok v
    → type_of v ≡ t
unfolding type_of
typed_content (ok c) t h = ground arith
typed_content (err e) t h = cc

typed_items :
    (m : Result Values) (t : Ty) {v : Value}
    → (m >>= λ vs. ok (constant t (items vs))) ≡ ok v
    → type_of v ≡ t
unfolding type_of
typed_items (ok c) t h = ground arith
typed_items (err e) t h = cc

typed_assembly :
    (o : Option (Result (List Ty))) (t : Ty) (i n : ℕ) (wrapped : List Ty → Result Values)
    {v : Value}
    → assemble o t i n wrapped ≡ ok v
    → type_of v ≡ t
unfolding assemble
typed_assembly none t i n wrapped h = unfold type_of in ground arith
typed_assembly (some (err x)) t i n wrapped h = cc
typed_assembly (some (ok ts)) t i n wrapped h = elim (Bool-cases (n == length ts)) [
  | inl fits ↦ typed_items (wrapped ts) t (rw fits at h)
  | inr wrong ↦ cc (rw wrong at h)
]

-- A constant that was built has the type that it was built at, whatever its content.
pub type_of-make_constant :
    (bodies : Bodies) (r : Raw) (t : Ty) {v : Value}
    → make_constant bodies r t ≡ ok v
    → type_of v ≡ t
unfolding make_constant
type_of-make_constant bodies (atom c) t h = typed_content (scalar_constant t c) t h
type_of-make_constant bodies (value w) t h = typed_content (splat t w) t h
type_of-make_constant bodies (sequence i rs) t h =
    typed_assembly (element_types bodies t) t i (count rs) (wrap_items bodies rs) h

prepended_types :
    (m : Result Value) (k : Result Values) (t : Ty) (ts : List Ty) {vs : Values}
    → ((v : Value) → m ≡ ok v → type_of v ≡ t)
    → ((ws : Values) → k ≡ ok ws → types_of (value_list ws) ≡ ts)
    → (m >>= λ v. k >>= λ ws. ok (cons v ws)) ≡ ok vs
    → types_of (value_list vs) ≡ t ∷ ts
unfolding types_of value_list
prepended_types (ok v) (ok ws) t ts p q h = ground (arith, p v refl, q ws refl)
prepended_types (ok v) (err e) t ts p q h = cc
prepended_types (err e) k t ts p q h = cc

wrapped_types :
    (bodies : Bodies) (rs : Raws) (ts : List Ty) {vs : Values}
    → NoValues rs
    → count rs ≡ length ts
    → wrap_items bodies rs ts ≡ ok vs
    → types_of (value_list vs) ≡ ts
unfolding make_constant types_of count value_list
wrapped_types bodies end [] n e h = ground arith
wrapped_types bodies end (t ∷ ts) n e h = absurd (omega arith)
wrapped_types bodies (more r rs) [] n e h = absurd (omega arith)
wrapped_types bodies (more (value v) rs) (t ∷ ts) n e h = absurd n
wrapped_types bodies (more (atom c) rs) (t ∷ ts) n e h =
    prepended_types (make_constant bodies (atom c) t) (wrap_items bodies rs ts) t ts
      (λ v made. type_of-make_constant bodies (atom c) t made)
      (λ ws wrapped. wrapped_types bodies rs ts n (omega arith) wrapped) h
wrapped_types bodies (more (sequence i xs) rs) (t ∷ ts) n e h =
    prepended_types (make_constant bodies (sequence i xs) t) (wrap_items bodies rs ts) t ts
      (λ v made. type_of-make_constant bodies (sequence i xs) t made)
      (λ ws wrapped. wrapped_types bodies rs ts n (omega arith) wrapped) h

content_of :
    (m : Result Values) (t s : Ty) {vs : Values}
    → (m >>= λ ws. ok (constant t (items ws))) ≡ ok (constant s (items vs))
    → m ≡ ok vs
content_of (ok ws) t s h = ground arith
content_of (err e) t s h = cc

assembled :
    (ts : List Ty) (t : Ty) (i n : ℕ) (wrapped : List Ty → Result Values) {s : Ty} {vs : Values}
    → assemble (some (ok ts)) t i n wrapped ≡ ok (constant s (items vs))
    → (n ≡ length ts) × (wrapped ts ≡ ok vs)
unfolding assemble
assembled ts t i n wrapped {s} h = elim (Bool-cases (n == length ts)) [
  | inl fits ↦ ((==_iff n (length ts)).0 fits, content_of (wrapped ts) t s (rw fits at h))
  | inr wrong ↦ cc (rw wrong at h)
]

-- A sequence of another length than that of the vector, array or struct is refused with a value
-- error.
pub make_constant_wrong_count :
    (bodies : Bodies) (i : ℕ) (rs : Raws) (t : Ty) (ts : List Ty)
    → element_types bodies t ≡ some (ok ts)
    → count rs ≢ length ts
    → make_constant bodies (sequence i rs) t ≡ err value_error
unfolding make_constant
make_constant_wrong_count bodies i rs t ts e wrong =
    rw e (unfold assemble in ground (arith, ==_iff (count rs) (length ts)))

-- A constant of a vector, array or struct type from a sequence of plain Python objects holds one
-- value for each element of the type, and each value has its element's type.
pub make_constant_elements :
    (bodies : Bodies) (i : ℕ) (rs : Raws) (t : Ty) (ts : List Ty) (s : Ty) (vs : Values)
    → element_types bodies t ≡ some (ok ts)
    → NoValues rs
    → make_constant bodies (sequence i rs) t ≡ ok (constant s (items vs))
    → types_of (value_list vs) ≡ ts
unfolding make_constant
make_constant_elements bodies i rs t ts s vs e n h =
    let (fits, wrapped) = assembled ts t i (count rs) (wrap_items bodies rs) (rw e at h) in
    wrapped_types bodies rs ts n fits wrapped
