-- ===== src/Builder/Blocks.antt =====
-- The blocks of a builder's state as a store of objects, and the instructions of one block by their
-- identities.
use llvmlite.Prelude.{
  ap, ◌∙◌, sym, ◌⊎◌, ℕ, zero, suc, ◌<◌, ◌≡◌, refl, Bool, true, false, List, [], ◌∷◌, ◌++◌, map,
  length, insert_at, erase_at, ◌==◌, if◌then◌else◌, Option, none, some, arith, Bool-cases,
  Option-cases, inl, inr,
}
use llvmlite.Instructions.{Instr}
use llvmlite.Builder.{Block, find_block, update_block, index_of}

pub find_block-ident :
    (i : ℕ) (bs : List Block) {b : Block} → find_block i bs ≡ some b → b.ident ≡ i
unfolding find_block
find_block-ident i [] h = cc
find_block-ident i (x ∷ bs) h = elim (Bool-cases (x.ident == i)) [
  | inl e ↦ ground (arith, h, e)
  | inr e ↦ find_block-ident i bs (rw e at h)
]

unfoldable pub changed : ℕ → (Block → Block) → ℕ → Option Block → Option Block
changed i f j none = none
changed i f j (some b) = some (if i == j then f b else b)

-- A change of one object is seen through its identity alone.
pub find_block-update_block :
    (i : ℕ) (f : Block → Block) (j : ℕ) (bs : List Block)
    → ((b : Block) → (f b).ident ≡ b.ident)
    → find_block j (update_block i f bs) ≡ changed i f j (find_block j bs)
unfolding find_block update_block changed
find_block-update_block i f j [] h = refl
find_block-update_block i f j (b ∷ bs) h = ground (arith, h b, find_block-update_block i f j bs h)

abbrev pub mapped : (Block → Block) → Option Block → Option Block
mapped f none = none
mapped f (some b) = some (f b)

pub find_block-map :
    (f : Block → Block) (j : ℕ) (bs : List Block)
    → ((b : Block) → (f b).ident ≡ b.ident)
    → find_block j (map f bs) ≡ mapped f (find_block j bs)
unfolding find_block
find_block-map f j [] h = refl
find_block-map f j (b ∷ bs) h = ground (arith, h b, find_block-map f j bs h)

abbrev pub or_block : Option Block → Option Block → Option Block
or_block none c = c
or_block (some b) c = some b

pub find_block-append :
    (j : ℕ) (bs : List Block) (b : Block)
    → find_block j (bs ++ b ∷ [])
      ≡ or_block (find_block j bs) (if b.ident == j then some b else none)
unfolding find_block
find_block-append j [] b = refl
find_block-append j (x ∷ bs) b = ground (arith, find_block-append j bs b)

-- `instr in instructions`
unfoldable pub has_instr : ℕ → List Instr → Bool
has_instr i [] = false
has_instr i (x ∷ xs) = if x.ident == i then true else has_instr i xs

pub has_instr-insert_at :
    (k : ℕ) (x : Instr) (i : ℕ) (xs : List Instr)
    → has_instr i (insert_at k x xs) ≡ (if x.ident == i then true else has_instr i xs)
unfolding has_instr
has_instr-insert_at k x i [] = refl
has_instr-insert_at zero x i (y ∷ xs) = refl
has_instr-insert_at (suc k) x i (y ∷ xs) = ground (arith, has_instr-insert_at k x i xs)

pub index_of-bound : (i : ℕ) (xs : List Instr) {k : ℕ} → index_of i xs ≡ some k → k < length xs
unfolding index_of
index_of-bound i [] h = cc
index_of-bound i (x ∷ xs) h = elim (Bool-cases (x.ident == i)) [
  | inl e ↦ ground (arith, h, e)
  | inr e ↦ elim (Option-cases (index_of i xs)) [
    | inl n ↦ cc (rw (e, n) at h)
    | inr (k, s) ↦ let up : k < length xs = index_of-bound i xs s in ground (arith, h, e, s, up)
  ]
]

-- Taking out one instruction leaves the others.
pub has_instr-erase_at :
    (i j : ℕ) (xs : List Instr) {k : ℕ}
    → index_of i xs ≡ some k
    → (i == j) ≡ false
    → has_instr j (erase_at k xs) ≡ has_instr j xs
unfolding index_of has_instr
has_instr-erase_at i j [] h d = cc
has_instr-erase_at i j (x ∷ xs) h d = elim (Bool-cases (x.ident == i)) [
  | inl e ↦ ground (arith, h, e, d)
  | inr e ↦ elim (Option-cases (index_of i xs)) [
    | inl n ↦ cc (rw (e, n) at h)
    | inr (k, s) ↦ ground (arith, h, e, s, has_instr-erase_at i j xs s d)
  ]
]

pub length-erase_at :
    {A : Type 0} (k : ℕ) (xs : List A) → k < length xs → suc (length (erase_at k xs)) ≡ length xs
length-erase_at k [] h = absurd (omega arith)
length-erase_at zero (x ∷ xs) h = refl
length-erase_at (suc k) (x ∷ xs) h = omega (arith, length-erase_at k xs (omega arith))

changed_cases :
    (i : ℕ) (f : Block → Block) (j : ℕ) (o : Option Block) {x : Block}
    → changed i f j o ≡ some x
    → ((c : Block) × (i ≡ j) × (o ≡ some c) × (x ≡ f c)) ⊎ (((i == j) ≡ false) × (o ≡ some x))
unfolding changed
changed_cases i f j none h = cc
changed_cases i f j (some c) h = elim (Bool-cases (i == j)) [
  | inl e ↦ inl (c, ground (arith, e), refl, cc (rw e at h))
  | inr e ↦ inr (e, cc (rw e at h))
]

-- A block that is found behind a change is the changed one, or was there before.
pub update_block-found :
    (i : ℕ) (f : Block → Block) (j : ℕ) (bs : List Block) {x : Block}
    → ((b : Block) → (f b).ident ≡ b.ident)
    → find_block j (update_block i f bs) ≡ some x
    → ((c : Block) × (i ≡ j) × (find_block j bs ≡ some c) × (x ≡ f c))
      ⊎ (((i == j) ≡ false) × (find_block j bs ≡ some x))
update_block-found i f j bs same h =
    changed_cases i f j (find_block j bs) (sym (find_block-update_block i f j bs same) ∙ h)

or_block_cases :
    (o : Option Block) (j : ℕ) (b : Block) {x : Block}
    → or_block o (if b.ident == j then some b else none) ≡ some x
    → (o ≡ some x) ⊎ ((b.ident ≡ j) × (x ≡ b))
or_block_cases none j b h = elim (Bool-cases (b.ident == j)) [
  | inl e ↦ inr (ground (arith, e), cc (rw e at h))
  | inr e ↦ cc (rw e at h)
]
or_block_cases (some c) j b h = inl h

-- A block that is found behind an appended one is that one, or was there before.
pub append_block-found :
    (j : ℕ) (bs : List Block) (b : Block) {x : Block}
    → find_block j (bs ++ b ∷ []) ≡ some x
    → (find_block j bs ≡ some x) ⊎ ((b.ident ≡ j) × (x ≡ b))
append_block-found j bs b h =
    or_block_cases (find_block j bs) j b (sym (find_block-append j bs b) ∙ h)

mapped_cases :
    (f : Block → Block) (o : Option Block) {x : Block}
    → mapped f o ≡ some x
    → (c : Block) × (o ≡ some c) × (x ≡ f c)
mapped_cases f none h = cc
mapped_cases f (some c) h = (c, refl, cc)

pub map-found :
    (f : Block → Block) (j : ℕ) (bs : List Block) {x : Block}
    → ((b : Block) → (f b).ident ≡ b.ident)
    → find_block j (map f bs) ≡ some x
    → (c : Block) × (find_block j bs ≡ some c) × (x ≡ f c)
map-found f j bs same h = mapped_cases f (find_block j bs) (sym (find_block-map f j bs same) ∙ h)

pub length-map : {A B : Type 0} (f : A → B) (xs : List A) → length (map f xs) ≡ length xs
length-map f [] = refl
length-map f (x ∷ xs) = ap suc (length-map f xs)

pub has_instr-map :
    (f : Instr → Instr) (i : ℕ) (xs : List Instr)
    → ((x : Instr) → (f x).ident ≡ x.ident)
    → has_instr i (map f xs) ≡ has_instr i xs
unfolding has_instr
has_instr-map f i [] same = refl
has_instr-map f i (x ∷ xs) same = ground (arith, same x, has_instr-map f i xs same)

pub has_instr-index_of :
    (i : ℕ) (xs : List Instr)
    → has_instr i xs ≡ true
    → (k : ℕ) × (index_of i xs ≡ some k) × (k < length xs)
unfolding has_instr index_of
has_instr-index_of i [] h = cc
has_instr-index_of i (x ∷ xs) h = elim (Bool-cases (x.ident == i)) [
  | inl e ↦ (0, ground (arith, e), omega arith)
  | inr e ↦
      let (k, at_k, low) = has_instr-index_of i xs (rw e at h) in
      (suc k, ground (arith, e, at_k), omega (arith, low))
]

pub changed-other :
    (i : ℕ) (f : Block → Block) (j : ℕ) (o : Option Block) → (i == j) ≡ false → changed i f j o ≡ o
unfolding changed
changed-other i f j none h = refl
changed-other i f j (some b) h = ground arith
