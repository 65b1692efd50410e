-- ===== src/Module/DebugInfo/Kept.antt =====
-- What `add_debug_info` of llvmlite/ir/module.py keeps: operands that can be compared, and the cache.
use llvmlite.Prelude.{
  ◌≡◌, refl, ◌∙◌, arith, inl, inr, Bool, true, ◌&&◌, List, [], ◌∷◌, Option, none, some, Bool-cases,
  &&-pair, &&-intro, bool_eq,
}
use llvmlite.Prelude.Texts.{Text, text_eq_refl}
use llvmlite.Attributes.{text_lt}
use llvmlite.Values.{
  Value, Values, Env, DiOperand, DiItems, di_none, di_bool, di_token, di_str, di_int, di_of,
  no_items, item,
}
use llvmlite.Values.Identity.{di_items_eq_refl, items_comparable, di_comparable}
use llvmlite.Module.Metadata.{
  Metadata, DiKey, Operands, Operand, absent, string, value, sequence, end, more, add_metadata,
  fix_operand, fix_operands, intern, take_name, cached_or_new, find_cached,
}
use llvmlite.Module.Metadata.Cache.{operands_comparable}
use llvmlite.Module.DebugInfo.{
  Given, given_sequence, given, fix_given, fix_di_operands, insert_item, sort_items, str_token,
  str_ditok_operands, key_eq,
}

-- The values in what is given can be compared.
unfoldable pub given_comparable : List (Text × Given) → Bool
unfolding operands_comparable di_comparable
given_comparable [] = true
given_comparable ((name, given_sequence ops) ∷ rest) =
    operands_comparable ops && given_comparable rest
given_comparable ((name, given x) ∷ rest) = di_comparable x && given_comparable rest

comparable-insert_item :
    (name : Text) (x : DiOperand) (xs : DiItems)
    → di_comparable x ≡ true
    → items_comparable xs ≡ true
    → items_comparable (insert_item name x xs) ≡ true
unfolding insert_item items_comparable
comparable-insert_item name x no_items h k = rw h refl
comparable-insert_item name x (item other y ys) h k =
    let (hy, hys) = &&-pair (di_comparable y) (items_comparable ys) k in
    elim (Bool-cases (text_lt name other)) [
      | inl e ↦ rw e (&&-intro (di_comparable x) (di_comparable y && items_comparable ys) h k)
      | inr e ↦ rw e (
          &&-intro (di_comparable y) (items_comparable (insert_item name x ys)) hy
            (comparable-insert_item name x ys h hys))
    ]

pub comparable-sort_items :
    (xs : DiItems) → items_comparable xs ≡ true → items_comparable (sort_items xs) ≡ true
unfolding sort_items items_comparable
comparable-sort_items no_items h = refl
comparable-sort_items (item name x xs) h =
    let (hx, hxs) = &&-pair (di_comparable x) (items_comparable xs) h in
    comparable-insert_item name x (sort_items xs) hx (comparable-sort_items xs hxs)

comparable-str_token :
    (name : Text) (x : DiOperand) → di_comparable x ≡ true → di_comparable (str_token name x) ≡ true
unfolding str_token di_comparable
comparable-str_token name di_none h = refl
comparable-str_token name (di_bool b) h = refl
comparable-str_token name (di_token i s) h = ground arith
comparable-str_token name (di_str s) h = refl
comparable-str_token name (di_int k) h = refl
comparable-str_token name (di_of v) h = h

pub comparable-str_ditok_operands :
    (xs : DiItems) → items_comparable xs ≡ true → items_comparable (str_ditok_operands xs) ≡ true
unfolding str_ditok_operands items_comparable
comparable-str_ditok_operands no_items h = refl
comparable-str_ditok_operands (item name x xs) h =
    let (hx, hxs) = &&-pair (di_comparable x) (items_comparable xs) h in
    &&-intro (di_comparable (str_token name x)) (items_comparable (str_ditok_operands xs))
      (comparable-str_token name x hx) (comparable-str_ditok_operands xs hxs)

bool_eq_refl : (b : Bool) → bool_eq b b ≡ true
bool_eq_refl b = ground arith

pub key_eq_refl :
    (env : Env) (key : DiKey) → items_comparable key.items ≡ true → key_eq env key key ≡ true
unfolding key_eq
key_eq_refl env key h =
    rw (text_eq_refl key.kind, di_items_eq_refl env key.items h, bool_eq_refl key.distinct) refl

-- The part of the cache for debug information is left alone by `add_metadata`.
intern-dicache :
    (env : Env) (key : Values) (m : Metadata) → (intern env key m).1.dicache ≡ m.dicache
unfolding intern
intern-dicache env key m = go (find_cached env key m.metadatacache)
  where
    go : (o : Option Value) → (cached_or_new o key m).1.dicache ≡ m.dicache
    go none = refl
    go (some v) = refl

mutual
  unfolding fix_operand take_name

  fix-dicache :
      (env : Env) (op : Operand) (m : Metadata) → (fix_operand env op m).1.dicache ≡ m.dicache
  fix-dicache env absent m = refl
  fix-dicache env (string s) m = refl
  fix-dicache env (value v) m = refl
  fix-dicache env (sequence ops) m =
      intern-dicache env (fix_operands env ops m).0 (fix_operands env ops m).1
      ∙ fixes-dicache env ops m

  fixes-dicache :
      (env : Env) (ops : Operands) (m : Metadata) → (fix_operands env ops m).1.dicache ≡ m.dicache
  fixes-dicache env end m = refl
  fixes-dicache env (more op ops) m =
      fixes-dicache env ops (fix_operand env op m).1 ∙ fix-dicache env op m

add_metadata-dicache :
    (env : Env) (ops : Operands) (m : Metadata) → (add_metadata env ops m).1.dicache ≡ m.dicache
unfolding add_metadata
add_metadata-dicache env ops m = fix-dicache env (sequence ops) m

pub given-dicache :
    (env : Env) (xs : List (Text × Given)) (m : Metadata)
    → (fix_di_operands env xs m).1.dicache ≡ m.dicache
unfolding fix_di_operands fix_given
given-dicache env [] m = refl
given-dicache env ((name, given_sequence ops) ∷ xs) m =
    given-dicache env xs (add_metadata env ops m).1 ∙ add_metadata-dicache env ops m
given-dicache env ((name, given x) ∷ xs) m = given-dicache env xs m
