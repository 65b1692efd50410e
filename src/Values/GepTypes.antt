-- ===== src/Values/GepTypes.antt =====
-- The result type of a `GEPInstr` of llvmlite/ir/instructions.py is a pointer to what the indices
-- lead to, in the address space of the last pointer on the way.
use llvmlite.Prelude.{
  ◌⊎◌, sym, subst, ℕ, ◌≡◌, ◌≢◌, refl, ap, ◌∙◌, inl, inr, Bool, true, false, List, [], ◌∷◌, ◌++◌,
  Option, none, some, arith, Bool-cases, if◌then◌else◌,
}
use llvmlite.Result.{value_error, Result, ok, err, >>=-eq-ok, ◌>>=◌}
use llvmlite.Types.{Ty, ptr, typed_ptr, is_pointer, as_pointer, pointee, void, metadata}
use llvmlite.Types.Lookup.{Bodies}
use llvmlite.Values.{Value}
use llvmlite.Values.Gep.{
  gep, gep_all, Walk, last_addrspace, walk, was_pointer, last_type, walked_type, start_walk,
  gep_instr_type, is_opaque,
}

-- Where the last step led from a pointer, that pointer points to the present type.
record IsOnPath (w : Walk) : Type 0 where
  from_pointer :
      (l : Ty) → w.lasttyp ≡ some l → is_pointer l ≡ true → l ≡ typed_ptr w.typ w.lastaddrspace

abbrev next_walk : Walk → Ty → Walk
next_walk w next = record {
  typ = next;
  lasttyp = some w.typ;
  lastaddrspace = last_addrspace w.typ w.lastaddrspace;
}

step_from_pointer :
    (bodies : Bodies) (t : Ty) (old : ℕ) (i : Value) {next : Ty}
    → gep bodies t i ≡ ok next
    → is_pointer t ≡ true
    → t ≡ typed_ptr next (last_addrspace t old)
unfolding gep is_pointer last_addrspace
step_from_pointer bodies (ptr a) old i e h = cc
step_from_pointer bodies (typed_ptr t a) old i e h = ground arith
step_from_pointer bodies _ old i e h = cc

next_walk-IsOnPath :
    (bodies : Bodies) (w : Walk) (i : Value) (next : Ty)
    → gep bodies w.typ i ≡ ok next
    → IsOnPath (next_walk w next)
next_walk-IsOnPath bodies w i next e = record {
  from_pointer = λ l same p.
      let l' : w.typ ≡ l = cc in
      sym l' ∙ step_from_pointer bodies w.typ w.lastaddrspace i e (rw l' p);
}

walk-IsOnPath :
    (bodies : Bodies) (w : Walk) (indices : List Value) {v : Walk}
    → IsOnPath w
    → walk bodies w indices ≡ ok v
    → IsOnPath v
unfolding walk
walk-IsOnPath bodies w [] h e = subst IsOnPath (cc) h
walk-IsOnPath bodies w (i ∷ indices) h e =
    let (next, stepped, rest) = >>=-eq-ok (gep bodies w.typ i) _ e in
    walk-IsOnPath bodies (next_walk w next) indices (next_walk-IsOnPath bodies w i next stepped)
      rest

as_pointer_typed :
    (t : Ty) (a : ℕ)
    → is_pointer t ≡ false
    → t ≢ void
    → t ≢ metadata
    → as_pointer t a ≡ ok (typed_ptr t a)
unfolding as_pointer is_pointer
as_pointer_typed void a p nv nm = absurd (nv refl)
as_pointer_typed metadata a p nv nm = absurd (nm refl)
as_pointer_typed (ptr b) a p nv nm = cc
as_pointer_typed (typed_ptr t b) a p nv nm = cc
as_pointer_typed _ a p nv nm = refl

walked_type-as_pointer :
    (w : Walk) {typ : Ty}
    → IsOnPath w
    → w.typ ≢ void
    → w.typ ≢ metadata
    → walked_type w ≡ ok typ
    → as_pointer w.typ w.lastaddrspace ≡ ok typ
unfolding walked_type
walked_type-as_pointer w {typ} p nv nm h = elim (Bool-cases (is_pointer w.typ)) [
  | inl direct ↦ rw direct at h
  | inr other ↦
      go w.lasttyp refl (rw other at h) (as_pointer_typed w.typ w.lastaddrspace other nv nm)
]
  where
    go :
        (o : Option Ty)
        → w.lasttyp ≡ o
        → (if was_pointer o then ok (last_type w.typ o) else as_pointer w.typ w.lastaddrspace)
          ≡ ok typ
        → as_pointer w.typ w.lastaddrspace ≡ ok (typed_ptr w.typ w.lastaddrspace)
        → as_pointer w.typ w.lastaddrspace ≡ ok typ
    go none e h' k = h'
    go (some l) e h' k = elim (Bool-cases (is_pointer l)) [
      | inl from ↦ cc (k, p.from_pointer l e from, rw from at h')
      | inr none_such ↦ rw none_such at h'
    ]

typ-walk :
    (bodies : Bodies) (w : Walk) (indices : List Value) {v : Walk}
    → walk bodies w indices ≡ ok v
    → gep_all bodies w.typ indices ≡ ok v.typ
unfolding walk gep_all
typ-walk bodies w [] e = ground arith
typ-walk bodies w (i ∷ indices) e =
    let (next, stepped, rest) = >>=-eq-ok (gep bodies w.typ i) _ e in
    rw stepped (typ-walk bodies (next_walk w next) indices rest)

start_walk-IsOnPath : (t : Ty) → IsOnPath (start_walk t)
start_walk-IsOnPath t = record { from_pointer = λ l e p. cc }

unless_opaque :
    (b : Bool) (m : Result (Ty × Ty)) {r : Ty × Ty}
    → (if b then err value_error else m) ≡ ok r
    → m ≡ ok r
unless_opaque true m h = cc
unless_opaque false m h = h

same_type : {s t u v : Ty} → ◌≡◌ {A = Result (Ty × Ty)} (ok (s, u)) (ok (t, v)) → s ≡ t
same_type h = cc

two_special : (t : Ty) → (t ≡ void) ⊎ ((t ≡ metadata) ⊎ ((t ≢ void) × (t ≢ metadata)))
two_special void = inl refl
two_special metadata = inr (inl refl)
two_special _ = inr (inr (λ h. cc, λ h. cc))

decided :
    (w : Walk) (typ : Ty)
    → (w.typ ≢ void → w.typ ≢ metadata → as_pointer w.typ w.lastaddrspace ≡ ok typ)
    → (as_pointer w.typ w.lastaddrspace ≡ ok typ) ⊎ ((w.typ ≡ void) ⊎ (w.typ ≡ metadata))
decided w typ f = elim (two_special w.typ) [
  | inl v ↦ inr (inl v)
  | inr (inl m) ↦ inr (inr m)
  | inr (inr (nv, nm)) ↦ inl (f nv nm)
]

-- The types that the indices are applied to, in order.
pub visited : Bodies → Ty → List Value → Result (List Ty)
visited bodies t [] = ok []
visited bodies t (i ∷ indices) =
    gep bodies t i >>= λ next. visited bodies next indices >>= λ ts. ok (t ∷ ts)

-- The address space of a pointer type.
abbrev pub space_of : Ty → List ℕ
space_of (ptr a) = a ∷ []
space_of (typed_ptr t a) = a ∷ []
space_of _ = []

abbrev pub spaces_of : List Ty → List ℕ
spaces_of [] = []
spaces_of (t ∷ ts) = space_of t ++ spaces_of ts

abbrev pub last_of : ℕ → List ℕ → ℕ
last_of a [] = a
last_of a (b ∷ bs) = last_of b bs

last_of-space_of :
    (t : Ty) (old : ℕ) (rest : List ℕ)
    → last_of old (space_of t ++ rest) ≡ last_of (last_addrspace t old) rest
unfolding last_addrspace
last_of-space_of (ptr a) old rest = refl
last_of-space_of (typed_ptr t a) old rest = refl
last_of-space_of _ old rest = refl

walk-visited :
    (bodies : Bodies) (w : Walk) (indices : List Value) {v : Walk}
    → walk bodies w indices ≡ ok v
    → (ts : List Ty) × (visited bodies w.typ indices ≡ ok ts)
      × (v.lastaddrspace ≡ last_of w.lastaddrspace (spaces_of ts))
unfolding walk visited
walk-visited bodies w [] e = ([], refl, ground arith)
walk-visited bodies w (i ∷ indices) e =
    let (next, stepped, rest) = >>=-eq-ok (gep bodies w.typ i) _ e in
    let (ts, seen, space) = walk-visited bodies (next_walk w next) indices rest in
    (
      w.typ ∷ ts,
      ap (λ (r : Result Ty). r >>= λ n. visited bodies n indices >>= λ us. ok (w.typ ∷ us)) stepped
          ∙ ap (λ (r : Result (List Ty)). r >>= λ us. ok (w.typ ∷ us)) seen,
      space ∙ sym (last_of-space_of w.typ w.lastaddrspace (spaces_of ts)),
    )

-- Without a `source_etype`, the type of a `GEPInstr` is a pointer to the type that the constant
-- `gep` walks to over the same indices, in the address space of the last pointer type to which an
-- index was applied (0 if there is none): the branch that returns the last pointer itself makes no
-- difference, unless the type walked to is void or metadata.
pub gep_instr_type-as_pointer :
    (bodies : Bodies) (t : Ty) (indices : List Value) {typ source : Ty}
    → gep_instr_type bodies t indices none ≡ ok (typ, source)
    → (ts : List Ty) × (visited bodies t indices ≡ ok ts)
      × ((last : Ty) × (gep_all bodies t indices ≡ ok last)
          × ((as_pointer last (last_of 0 (spaces_of ts)) ≡ ok typ)
              ⊎ ((last ≡ void) ⊎ (last ≡ metadata))))
unfolding gep_instr_type
gep_instr_type-as_pointer bodies t indices {typ} h =
    let (opaque, tested, rest) = >>=-eq-ok (is_opaque bodies t) _ h in
    let (w, walked, rest₁) =
      >>=-eq-ok (walk bodies (start_walk t) indices) _ (unless_opaque opaque _ rest) in
    let (typ', found, rest₂) = >>=-eq-ok (walked_type w) _ rest₁ in
    let (source', pointed, last) = >>=-eq-ok (pointee t) _ rest₂ in
    let on_path = walk-IsOnPath bodies (start_walk t) indices (start_walk-IsOnPath t) walked in
    let same : typ' ≡ typ = same_type last in
    let (ts, seen, space) = walk-visited bodies (start_walk t) indices walked in
    (
      ts,
      seen,
      (
        w.typ,
        typ-walk bodies (start_walk t) indices walked,
        subst (λ a. (as_pointer w.typ a ≡ ok typ) ⊎ ((w.typ ≡ void) ⊎ (w.typ ≡ metadata))) space
            (decided w typ (λ nv nm. walked_type-as_pointer w on_path nv nm (found ∙ ap ok same))),
      ),
    )
