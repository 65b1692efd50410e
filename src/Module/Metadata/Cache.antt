-- ===== src/Module/Metadata/Cache.antt =====
-- The cache of `Module.add_metadata`: adding the same metadata again gives the same node.
use llvmlite.Prelude.{
  ◌≡◌, refl, sym, ap, ◌∙◌, inl, inr, Bool, true, ◌&&◌, List, [], ◌∷◌, ◌++◌, append_assoc,
  append-nil, Option, none, some, arith, Option-cases, &&-pair, &&-intro,
}
use llvmlite.Values.{Value, Values, Env}
use llvmlite.Values.Identity.{values_eq, is_comparable, all_comparable}
use llvmlite.Module.Metadata.{
  Metadata, Operand, Operands, absent, string, sequence, value, end, more, take_name, find_cached,
  cached_or_new, intern, fix_operand, fix_operands,
}

-- The values among the operands can be compared, at every depth.
unfoldable mutual
  pub operand_comparable : Operand → Bool
  operand_comparable (sequence ops) = operands_comparable ops
  operand_comparable (value v) = is_comparable v
  operand_comparable op = true

  pub operands_comparable : Operands → Bool
  operands_comparable end = true
  operands_comparable (more op ops) = operand_comparable op && operands_comparable ops

find_cached-append :
    (env : Env) (key : Values) (c d : List (Values × Value)) (v : Value)
    → find_cached env key c ≡ some v
    → find_cached env key (c ++ d) ≡ some v
unfolding find_cached
find_cached-append env key [] d v h = cc
find_cached-append env key ((k, w) ∷ c) d v h = ground (arith, find_cached-append env key c d v)

find_cached-last :
    (env : Env) (key : Values) (c : List (Values × Value)) (v : Value)
    → find_cached env key c ≡ none
    → values_eq env key key ≡ true
    → find_cached env key (c ++ (key, v) ∷ []) ≡ some v
unfolding find_cached
find_cached-last env key [] v h e = rw e
find_cached-last env key ((k, w) ∷ c) v h e = ground (arith, find_cached-last env key c v)

-- Nothing that matters to a later call is lost: the cache only grows at its end.
pub record Extends (m n : Metadata) : Type 0 where
  pub added : List (Values × Value)
  pub grown : n.metadatacache ≡ m.metadatacache ++ added

pub Extends-refl : (m : Metadata) → Extends m m
Extends-refl m = record { added = []; grown = sym (append-nil m.metadatacache) }

pub Extends-trans : {m n o : Metadata} → Extends m n → Extends n o → Extends m o
Extends-trans {m} a b = record {
  added = a.added ++ b.added;
  grown = b.grown ∙ ap (λ c. c ++ b.added) a.grown ∙ append_assoc m.metadatacache a.added b.added;
}

pub intern-Extends : (env : Env) (key : Values) (m : Metadata) → Extends m (intern env key m).1
unfolding intern
intern-Extends env key m = go (find_cached env key m.metadatacache)
  where
    go : (o : Option Value) → Extends m (cached_or_new o key m).1
    go none = record { added = _; grown = refl }
    go (some v) = Extends-refl m

-- After a node was made or found for a key, the cache has it.
pub intern-cached :
    (env : Env) (key : Values) (m : Metadata)
    → values_eq env key key ≡ true
    → find_cached env key (intern env key m).1.metadatacache ≡ some (intern env key m).0
unfolding intern
intern-cached env key m e = elim (Option-cases (find_cached env key m.metadatacache)) [
  | inr (v, old) ↦ rw (old, cached_or_new) old
  | inl new ↦ rw (new, cached_or_new) (find_cached-last env key m.metadatacache _ new e)
]

-- A key in the cache is answered from it, in every later state.
pub intern-known :
    (env : Env) (key : Values) (m n : Metadata) (v : Value)
    → Extends m n
    → find_cached env key m.metadatacache ≡ some v
    → intern env key n ≡ (v, n)
unfolding intern
intern-known env key m n v x h =
    rw (x.grown, find_cached-append env key m.metadatacache x.added v h) refl

unfoldable pub all_cached : List (Values × Value) → Bool
all_cached [] = true
all_cached ((k, v) ∷ c) = is_comparable v && all_cached c

all_cached-append :
    (c : List (Values × Value)) (k : Values) (v : Value)
    → all_cached c ≡ true
    → is_comparable v ≡ true
    → all_cached (c ++ (k, v) ∷ []) ≡ true
unfolding all_cached
all_cached-append [] k v h e = rw e
all_cached-append ((j, w) ∷ c) k v h e = ground (arith, all_cached-append c k v)

cached_comparable :
    (env : Env) (key : Values) (c : List (Values × Value)) (v : Value)
    → all_cached c ≡ true
    → find_cached env key c ≡ some v
    → is_comparable v ≡ true
unfolding find_cached all_cached
cached_comparable env key [] v h e = cc
cached_comparable env key ((k, w) ∷ c) v h e = ground (arith, cached_comparable env key c v)

-- What one step of `_fix_metadata_operands` guarantees of its value and its new state.
pub record Fixed (v : Value) (m m' : Metadata) : Type 0 where
  pub comparable : is_comparable v ≡ true
  pub cached : all_cached m'.metadatacache ≡ true
  pub extends : Extends m m'

pub record FixedAll (vs : Values) (m m' : Metadata) : Type 0 where
  pub comparable : all_comparable vs ≡ true
  pub cached : all_cached m'.metadatacache ≡ true
  pub extends : Extends m m'

intern-Fixed :
    (env : Env) (key : Values) (m : Metadata)
    → all_comparable key ≡ true
    → all_cached m.metadatacache ≡ true
    → Fixed (intern env key m).0 m (intern env key m).1
unfolding intern
intern-Fixed env key m h c = go (find_cached env key m.metadatacache) refl
  where
    go :
        (o : Option Value)
        → find_cached env key m.metadatacache ≡ o
        → Fixed (cached_or_new o key m).0 m (cached_or_new o key m).1
    go (some v) e = record {
      comparable = cached_comparable env key m.metadatacache v c e;
      cached = c;
      extends = Extends-refl m;
    }
    go none e = record {
      comparable = unfold is_comparable in h;
      cached = all_cached-append m.metadatacache key _ c (unfold is_comparable in h);
      extends = record { added = _; grown = refl };
    }

mutual
  unfolding fix_operand operand_comparable is_comparable take_name

  pub fix-Fixed :
      (env : Env) (op : Operand) (m : Metadata)
      → operand_comparable op ≡ true
      → all_cached m.metadatacache ≡ true
      → Fixed (fix_operand env op m).0 m (fix_operand env op m).1
  fix-Fixed env absent m h c = record { comparable = refl; cached = c; extends = Extends-refl m }
  fix-Fixed env (string s) m h c = record {
    comparable = refl;
    cached = c;
    extends = record { added = []; grown = sym (append-nil m.metadatacache) };
  }
  fix-Fixed env (value v) m h c = record { comparable = h; cached = c; extends = Extends-refl m }
  fix-Fixed env (sequence ops) m h c =
      let inner = fixes-Fixed env ops m h c in
      let outer =
        intern-Fixed env (fix_operands env ops m).0 (fix_operands env ops m).1 inner.comparable
          inner.cached in
      record {
        comparable = outer.comparable;
        cached = outer.cached;
        extends = Extends-trans inner.extends outer.extends;
      }

  pub fixes-Fixed :
      (env : Env) (ops : Operands) (m : Metadata)
      → operands_comparable ops ≡ true
      → all_cached m.metadatacache ≡ true
      → FixedAll (fix_operands env ops m).0 m (fix_operands env ops m).1
  fixes-Fixed env end m h c = record { comparable = refl; cached = c; extends = Extends-refl m }
  fixes-Fixed env (more op ops) m h c =
      let (ho, hops) = &&-pair (operand_comparable op) (operands_comparable ops) h in
      let first = fix-Fixed env op m ho c in
      let rest = fixes-Fixed env ops (fix_operand env op m).1 hops first.cached in
      record {
        comparable =
            &&-intro (is_comparable (fix_operand env op m).0)
              (all_comparable (fix_operands env ops (fix_operand env op m).1).0) first.comparable
              rest.comparable;
        cached = rest.cached;
        extends = Extends-trans first.extends rest.extends;
      }
