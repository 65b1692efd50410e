-- ===== src/Module/DebugInfo/Again.antt =====
-- `Module.add_debug_info` a second time.
use llvmlite.Prelude.{
  if◌then◌else◌, false, ◌≡◌, refl, sym, ap, ap₂, ◌∙◌, arith, inl, inr, Bool, true, List, [], ◌∷◌,
  ◌++◌, append-nil, Option, none, some, Option-cases, &&-pair, &&-intro,
}
use llvmlite.Prelude.Texts.{Text}
use llvmlite.Values.{Value, Env, DiItems, di_of, item}
use llvmlite.Values.Identity.{items_comparable, di_comparable, is_comparable}
use llvmlite.Module.Metadata.{Metadata, DiKey, sequence, add_metadata, fix_operand, take_name}
use llvmlite.Module.Metadata.Cache.{
  Extends, Extends-refl, Extends-trans, operands_comparable, operand_comparable, all_cached,
  fix-Fixed,
}
use llvmlite.Module.Metadata.Again.{Unchanged, Extends-Unchanged, add_metadata_again}
use llvmlite.Module.DebugInfo
use llvmlite.Module.DebugInfo.{
  Given, given_sequence, given, fix_given, fix_di_operands, insert_item, sort_items, str_token,
  str_ditok_operands, key_eq, find_di, intern_di, add_debug_info, key_of, new_di,
}
use llvmlite.Module.DebugInfo.Kept.{
  given_comparable, comparable-sort_items, comparable-str_ditok_operands, key_eq_refl,
  given-dicache,
}

-- What fixing the operands guarantees of them and of the new state.
record FixedItems (xs : DiItems) (m m' : Metadata) : Type 0 where
  comparable : items_comparable xs ≡ true
  cached : all_cached m'.metadatacache ≡ true
  extends : Extends m m'

given-FixedItems :
    (env : Env) (xs : List (Text × Given)) (m : Metadata)
    → given_comparable xs ≡ true
    → all_cached m.metadatacache ≡ true
    → FixedItems (fix_di_operands env xs m).0 m (fix_di_operands env xs m).1
unfolding fix_di_operands fix_given given_comparable items_comparable add_metadata
    operand_comparable fix_operand
given-FixedItems env [] m h c = record { comparable = refl; cached = c; extends = Extends-refl m }
given-FixedItems env ((name, given_sequence ops) ∷ xs) m h c =
    let (ho, hxs) = &&-pair (operands_comparable ops) (given_comparable xs) h in
    let first = fix-Fixed env (sequence ops) m ho c in
    let rest = given-FixedItems env xs (add_metadata env ops m).1 hxs first.cached in
    record {
      comparable =
          &&-intro (is_comparable (add_metadata env ops m).0)
            (items_comparable (fix_di_operands env xs (add_metadata env ops m).1).0)
            first.comparable rest.comparable;
      cached = rest.cached;
      extends = Extends-trans first.extends rest.extends;
    }
given-FixedItems env ((name, given x) ∷ xs) m h c =
    let (hx, hxs) = &&-pair (di_comparable x) (given_comparable xs) h in
    let rest = given-FixedItems env xs m hxs c in
    record {
      comparable =
          &&-intro (di_comparable x) (items_comparable (fix_di_operands env xs m).0) hx
            rest.comparable;
      cached = rest.cached;
      extends = rest.extends;
    }

-- Fixing the same operands in a later state gives the same, and makes no node.
given_again :
    (env : Env) (xs : List (Text × Given)) (m n : Metadata)
    → given_comparable xs ≡ true
    → all_cached m.metadatacache ≡ true
    → Extends (fix_di_operands env xs m).1 n
    → ((fix_di_operands env xs n).0 ≡ (fix_di_operands env xs m).0)
      × Unchanged n (fix_di_operands env xs n).1
unfolding fix_di_operands fix_given given_comparable operand_comparable add_metadata fix_operand
given_again env [] m n h c x = (refl, record { nodes = refl; cache = refl })
given_again env ((name, given_sequence ops) ∷ xs) m n h c x =
    let (ho, hxs) = &&-pair (operands_comparable ops) (given_comparable xs) h in
    let first = fix-Fixed env (sequence ops) m ho c in
    let rest = given-FixedItems env xs (add_metadata env ops m).1 hxs first.cached in
    let (same, kept) = add_metadata_again env ops m n ho c (Extends-trans rest.extends x) in
    let (sames, kepts) =
      given_again env xs (add_metadata env ops m).1 (add_metadata env ops n).1 hxs first.cached
        (Extends-Unchanged x kept) in
    (
      ap₂ (item name) (ap di_of same) sames,
      record { nodes = kepts.nodes ∙ kept.nodes; cache = kepts.cache ∙ kept.cache },
    )
given_again env ((name, given y) ∷ xs) m n h c x =
    let (hy, hxs) = &&-pair (di_comparable y) (given_comparable xs) h in
    let (sames, kept) = given_again env xs m n hxs c x in (ap (item name y) sames, kept)

find_di-append :
    (env : Env) (key : DiKey) (c d : List (DiKey × Value)) (v : Value)
    → find_di env key c ≡ some v
    → find_di env key (c ++ d) ≡ some v
unfolding find_di
find_di-append env key [] d v h = cc
find_di-append env key ((k, w) ∷ c) d v h = ground (arith, find_di-append env key c d v)

is_absent :
    (b : Bool) (w : Value) (rest : Option Value)
    → (if b then some w else rest) ≡ none
    → (b ≡ false) × (rest ≡ none)
is_absent true w rest h = cc
is_absent false w rest h = (refl, h)

find_di-last :
    (env : Env) (key : DiKey) (c : List (DiKey × Value)) (v : Value)
    → find_di env key c ≡ none
    → key_eq env key key ≡ true
    → find_di env key (c ++ (key, v) ∷ []) ≡ some v
unfolding find_di
find_di-last env key [] v h e = rw e
find_di-last env key ((k, w) ∷ c) v h e =
    let (other, later) = is_absent (key_eq env k key) w (find_di env key c) h in
    rw other (find_di-last env key c v later e)

-- After a node was made or found for a key, the cache has it; the cache of the other nodes is as it
-- was.
intern_di-cached :
    (env : Env) (xs : DiItems) (key : DiKey) (m : Metadata)
    → key_eq env key key ≡ true
    → find_di env key (intern_di env xs key m).1.dicache ≡ some (intern_di env xs key m).0
unfolding intern_di
intern_di-cached env xs key m e = elim (Option-cases (find_di env key m.dicache)) [
  | inr (v, old) ↦ rw (old, DebugInfo.cached_or_new) old
  | inl new ↦ rw (new, DebugInfo.cached_or_new) (find_di-last env key m.dicache _ new e)
]

intern_di-Extends :
    (env : Env) (xs : DiItems) (key : DiKey) (m : Metadata) → Extends m (intern_di env xs key m).1
unfolding intern_di take_name
intern_di-Extends env xs key m = go (find_di env key m.dicache)
  where
    go : (o : Option Value) → Extends m (DebugInfo.cached_or_new o xs key m).1
    go none = record { added = []; grown = sym (append-nil m.metadatacache) }
    go (some v) = Extends-refl m

-- A later state of a module: both parts of the cache have only grown.
pub record IsLater (m n : Metadata) : Type 0 where
  pub extends : Extends m n
  pub added : List (DiKey × Value)
  pub grown : n.dicache ≡ m.dicache ++ added

-- Adding the same debug information to a module once more returns the node that the first call
-- returned and makes no node, for the nested sequences neither; other metadata may have been added
-- to the cache between the two calls. The values of the operands and of the cache are such that
-- Python compares them by content or by an identity that the value carries.
pub add_debug_info_again :
    (env : Env) (kind : Text) (ops : List (Text × Given)) (is_distinct : Bool) (m n : Metadata)
    → given_comparable ops ≡ true
    → all_cached m.metadatacache ≡ true
    → IsLater (add_debug_info env kind ops is_distinct m).1 n
    → ((add_debug_info env kind ops is_distinct n).0
        ≡ (add_debug_info env kind ops is_distinct m).0)
      × Unchanged n (add_debug_info env kind ops is_distinct n).1
unfolding add_debug_info intern_di
add_debug_info_again env kind ops is_distinct m n h c x =
    let xs = sort_items (fix_di_operands env ops m).0 in
    let key = key_of kind xs is_distinct in
    let m₁ = (fix_di_operands env ops m).1 in
    let n₁ = (fix_di_operands env ops n).1 in
    let fixed = given-FixedItems env ops m h c in
    let (same, kept) =
      given_again env ops m n h c (Extends-trans (intern_di-Extends env xs key m₁) x.extends) in
    let reflexive : key_eq env key key ≡ true = key_eq_refl env key (
      comparable-sort_items (str_ditok_operands xs) (
        comparable-str_ditok_operands xs
          (comparable-sort_items (fix_di_operands env ops m).0 fixed.comparable))) in
    let known : find_di env key n₁.dicache ≡ some (intern_di env xs key m₁).0 =
      ap (find_di env key) (given-dicache env ops n ∙ x.grown)
      ∙ find_di-append env key (intern_di env xs key m₁).1.dicache x.added
          (intern_di env xs key m₁).0 (intern_di-cached env xs key m₁ reflexive) in
    rw (same, known) (refl, kept)
