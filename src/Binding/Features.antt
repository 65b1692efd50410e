-- ===== src/Binding/Features.antt =====
-- The features of a processor in llvmlite/binding/targets.py: `FeatureMap` with `flatten`, and
-- `get_host_cpu_features`. A dictionary is the list of its items, in their order.
pub mod Flat
use llvmlite.Prelude.{
  ℕ, Bool, true, false, not, ◌&&◌, ◌||◌, ◌==◌, if◌then◌else◌, List, [], ◌∷◌, map, Option, none,
  some,
}
use llvmlite.Prelude.Texts.{Text, text_eq, join}
use llvmlite.Prelude.Split.{split_on}
use llvmlite.Result.{Result, ok, err, key_error, ◌>>=◌}
use llvmlite.Attributes.{text_lt}

abbrev pub Item : Type 0
Item = Text × Bool

-- `<` on pairs, and on `bool`.
unfoldable pub item_lt : Item → Item → Bool
unfolding text_lt text_eq
item_lt (k, v) (l, w) = text_lt k l || (text_eq k l && (not v && w))

unfoldable pub insert_item : Item → List Item → List Item
unfolding item_lt
insert_item x [] = x ∷ []
insert_item x (y ∷ ys) =
    let later = y ∷ insert_item x ys in if item_lt x y then x ∷ y ∷ ys else later

-- `sorted(self.items())`
unfoldable pub sort_items : List Item → List Item
unfolding insert_item
sort_items [] = []
sort_items (x ∷ xs) = insert_item x (sort_items xs)

unfoldable pub flag_of : Bool → ℕ
flag_of true = b'+'
flag_of false = b'-'

unfoldable pub item_text : Item → Text
unfolding flag_of
item_text (k, v) = flag_of v ∷ k

-- The items in the order of `flatten`.
unfoldable pub items_of : Bool → List Item → List Item
unfolding sort_items
items_of sort m = if sort then sort_items m else m

-- `FeatureMap.flatten`
unfoldable pub flatten : Bool → List Item → Text
unfolding items_of item_text join
flatten sort m = join (b',' ∷ []) (map item_text (items_of sort m))

-- `flag_map[c]`
unfoldable pub read_flag : ℕ → Result Bool
read_flag c = if c == b'+' then ok true else if c == b'-' then ok false else err key_error

-- `outdict[k] = v`
unfoldable pub put_feature : Text → Bool → List Item → List Item
unfolding text_eq
put_feature k v [] = (k, v) ∷ []
put_feature k v ((l, w) ∷ m) =
    let later = (l, w) ∷ put_feature k v m in if text_eq l k then (l, v) ∷ m else later

-- The loop over the parts of the text, which passes over empty ones.
unfoldable pub read_features : List Text → List Item → Result (List Item)
unfolding read_flag put_feature
read_features [] outdict = ok outdict
read_features ([] ∷ feats) outdict = read_features feats outdict
read_features ((c ∷ name) ∷ feats) outdict =
    read_flag c >>= λ v. read_features feats (put_feature name v outdict)

abbrev pub if_content : Text → Result (List Item)
if_content [] = ok []
if_content (c ∷ cs) = read_features (split_on b',' (c ∷ cs)) []

-- `get_host_cpu_features` of the text that LLVM gives, if it gives one.
unfoldable pub get_host_cpu_features : Option Text → Result (List Item)
unfolding split_on read_features
get_host_cpu_features none = ok []
get_host_cpu_features (some content) = if_content content

abbrev pub found : Bool → Bool → Option Bool → Option Bool
found same v rest = if same then some v else rest

-- `m.get(k)`
unfoldable pub get_feature : Text → List Item → Option Bool
unfolding text_eq
get_feature k [] = none
get_feature k ((l, v) ∷ m) = found (text_eq l k) v (get_feature k m)
