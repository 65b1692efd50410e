-- ===== src/Binding/Features/Flat.antt =====
-- Reading flattened features back: `flatten` and `get_host_cpu_features` of
-- llvmlite/binding/targets.py.
use llvmlite.Prelude.{
  inl, inr, Bool-cases, append_assoc, append-nil, sym, some, Bool-cases, map, false, Option,
  all-cons, ◌++◌, ◌≡◌, refl, ap, ◌∙◌, Bool, true, not, ◌&&◌, List, [], ◌∷◌, all, arith,
}
use llvmlite.Prelude.Texts.{text_eq→eq, join, Text, text_eq, text_eq_sym}
use llvmlite.Prelude.Split.{split_on-join, split_on, lacks}
use llvmlite.Binding.Features.{
  item_lt, if_content, items_of, found, flatten, flag_of, get_feature, put_feature,
  get_host_cpu_features, read_flag, item_text, read_features, Item, insert_item, sort_items,
}
use llvmlite.Result.{◌>>=◌, ok}

-- A key that no item has.
unfoldable pub is_fresh : Text → List Item → Bool
is_fresh k m = all (λ (x : Item). not (text_eq x.0 k)) m

-- Each key once, as in a dictionary.
unfoldable pub distinct : List Item → Bool
unfolding is_fresh
distinct [] = true
distinct (x ∷ m) = is_fresh x.0 m && distinct m

-- No name holds the separator.
unfoldable pub separable : List Item → Bool
separable m = all (λ (x : Item). lacks b',' x.0) m

all-insert_item :
    (p : Item → Bool) (x : Item) (m : List Item) → all p (insert_item x m) ≡ (p x && all p m)
unfolding insert_item
all-insert_item p x [] = ground arith
all-insert_item p x (y ∷ m) = ground (arith, all-insert_item p x m)

all-sort_items : (p : Item → Bool) (m : List Item) → all p (sort_items m) ≡ all p m
unfolding sort_items
all-sort_items p [] = refl
all-sort_items p (x ∷ m) =
    all-insert_item p x (sort_items m) ∙ ap (λ b. p x && b) (all-sort_items p m) ∙ ground arith

distinct-insert_item :
    (x : Item) (m : List Item)
    → is_fresh x.0 m ≡ true
    → distinct m ≡ true
    → distinct (insert_item x m) ≡ true
unfolding insert_item distinct is_fresh
distinct-insert_item x [] f d = refl
distinct-insert_item x (y ∷ m) f d = ground (
  arith,
  all-insert_item (λ z. not (text_eq z.0 y.0)) x m,
  distinct-insert_item x m,
  text_eq_sym x.0 y.0,
)

distinct-sort_items : (m : List Item) → distinct m ≡ true → distinct (sort_items m) ≡ true
unfolding sort_items distinct is_fresh
distinct-sort_items [] d = refl
distinct-sort_items (x ∷ m) d =
    distinct-insert_item x (sort_items m)
      (all-sort_items (λ z. not (text_eq z.0 x.0)) m ∙ ground arith)
      (distinct-sort_items m (ground arith))

read_flag-flag_of : (v : Bool) → read_flag (flag_of v) ≡ ok v
unfolding read_flag flag_of
read_flag-flag_of true = refl
read_flag-flag_of false = refl

-- A new key stands behind the others.
put_feature-fresh :
    (k : Text) (v : Bool) (m : List Item)
    → is_fresh k m ≡ true
    → put_feature k v m ≡ m ++ (k, v) ∷ []
unfolding put_feature is_fresh
put_feature-fresh k v [] f = refl
put_feature-fresh k v ((l, w) ∷ m) f =
    let (here, later) = all-cons (λ (x : Item). not (text_eq x.0 k)) (l, w) m f in
    ground (arith, put_feature-fresh k v m later)

distinct-middle :
    (acc : List Item) (x : Item) (m : List Item)
    → distinct (acc ++ x ∷ m) ≡ true
    → is_fresh x.0 acc ≡ true
unfolding distinct is_fresh
distinct-middle [] x m d = refl
distinct-middle (y ∷ acc) x m d =
    ground (arith, distinct-middle acc x m, all-middle acc, text_eq_sym x.0 y.0)
  where
    all-middle :
        (acc : List Item)
        → all (λ z. not (text_eq z.0 y.0)) (acc ++ x ∷ m) ≡ true
        → text_eq x.0 y.0 ≡ false
    all-middle [] h = ground arith
    all-middle (z ∷ acc) h = ground (arith, all-middle acc)

read_items :
    (m acc : List Item)
    → distinct (acc ++ m) ≡ true
    → read_features (map item_text m) acc ≡ ok (acc ++ m)
unfolding read_features item_text
read_items [] acc d = ap ok (sym (append-nil acc))
read_items ((k, v) ∷ m) acc d =
    ap (λ r. r >>= λ w. read_features (map item_text m) (put_feature k w acc)) (read_flag-flag_of v)
    ∙ ap (read_features (map item_text m))
        (put_feature-fresh k v acc (distinct-middle acc (k, v) m d))
    ∙ read_items m (acc ++ (k, v) ∷ []) (ap distinct (append_assoc acc ((k, v) ∷ []) m) ∙ d)
    ∙ ap ok (append_assoc acc ((k, v) ∷ []) m)

lacks-item_text : (m : List Item) → separable m ≡ true → all (lacks b',') (map item_text m) ≡ true
unfolding separable item_text flag_of
lacks-item_text [] h = refl
lacks-item_text ((k, v) ∷ m) h =
    let (here, later) = all-cons (λ (x : Item). lacks b',' x.0) (k, v) m h in
    ground (arith, lacks-item_text m later)

content_lem :
    (x : Item) (m : List Item)
    → if_content (join (b',' ∷ []) (item_text x ∷ map item_text m))
      ≡ read_features (split_on b',' (join (b',' ∷ []) (item_text x ∷ map item_text m))) []
unfolding item_text join
content_lem x [] = refl
content_lem x (y ∷ m) = refl

read_joined :
    (m : List Item)
    → distinct m ≡ true
    → separable m ≡ true
    → if_content (join (b',' ∷ []) (map item_text m)) ≡ ok m
unfolding join read_features
read_joined [] d s = refl
read_joined (x ∷ m) d s =
    content_lem x m
    ∙ ap (λ feats. read_features feats [])
        (split_on-join b',' (item_text x) (map item_text m) (lacks-item_text (x ∷ m) s))
    ∙ read_items (x ∷ m) [] d

-- Sorting leaves what each key stands for.
get_feature-insert_item :
    (k : Text) (x : Item) (m : List Item)
    → is_fresh x.0 m ≡ true
    → get_feature k (insert_item x m) ≡ get_feature k (x ∷ m)
unfolding get_feature insert_item is_fresh
get_feature-insert_item k x [] f = refl
get_feature-insert_item k x (y ∷ m) f = elim (Bool-cases (item_lt x y)) [
  | inl e ↦ rw e refl
  | inr e ↦
      let (here, later) = all-cons (λ (z : Item). not (text_eq z.0 x.0)) y m f in
      rw e (
        ap (found (text_eq y.0 k) y.1) (get_feature-insert_item k x m later)
        ∙ swap_found (text_eq x.0 k) (text_eq y.0 k) (get_feature k m) (once here))
]
  where
    swap_found :
        (a b : Bool) (rest : Option Bool)
        → (a && b) ≡ false
        → found b y.1 (found a x.1 rest) ≡ found a x.1 (found b y.1 rest)
    swap_found true true rest h = cc
    swap_found true false rest h = refl
    swap_found false true rest h = refl
    swap_found false false rest h = refl

    once : not (text_eq y.0 x.0) ≡ true → (text_eq x.0 k && text_eq y.0 k) ≡ false
    once h = elim (Bool-cases (text_eq x.0 k)) [
      | inl a ↦ elim (Bool-cases (text_eq y.0 k)) [
        | inl b ↦ absurd (ground (arith, ap (text_eq y.0) (text_eq→eq x.0 k a) ∙ b))
        | inr b ↦ rw (a, b) refl
      ]
      | inr a ↦ rw a refl
    ]

get_feature-sort_items :
    (k : Text) (m : List Item) → distinct m ≡ true → get_feature k (sort_items m) ≡ get_feature k m
unfolding get_feature sort_items distinct is_fresh
get_feature-sort_items k [] d = refl
get_feature-sort_items k (x ∷ m) d =
    get_feature-insert_item k x (sort_items m)
      (all-sort_items (λ z. not (text_eq z.0 x.0)) m ∙ ground arith)
    ∙ ap (found (text_eq x.0 k) x.1) (get_feature-sort_items k m (ground arith))

-- What `flatten` writes of a dictionary whose names hold no comma, sorted or not, is read by
-- `get_host_cpu_features` as a dictionary with the same value for every name.
pub get_host_cpu_features-flatten :
    (sort : Bool) (m : List Item)
    → distinct m ≡ true
    → separable m ≡ true
    → (m' : List Item) × (get_host_cpu_features (some (flatten sort m)) ≡ ok m')
      × ((k : Text) → get_feature k m' ≡ get_feature k m)
unfolding get_host_cpu_features flatten items_of separable
get_host_cpu_features-flatten true m d s = (
  sort_items m,
  read_joined (sort_items m) (distinct-sort_items m d)
      (all-sort_items (λ (x : Item). lacks b',' x.0) m ∙ s),
  λ k. get_feature-sort_items k m d,
)
get_host_cpu_features-flatten false m d s = (m, read_joined m d s, λ k. refl)
