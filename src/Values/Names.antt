-- ===== src/Values/Names.antt =====
-- The name of a `NamedValue` of llvmlite/ir/values.py and its reference, which
-- `_StringReferenceCaching` of llvmlite/ir/_utils.py keeps.
use llvmlite.Prelude.{◌≡◌, refl, sym, ◌∙◌, ap, Bool, Option, none, some}
use llvmlite.Prelude.Texts.{Text}
use llvmlite.Result.{Result, ok, err}
use llvmlite.Scope.{NameScope, register}
use llvmlite.Escape.{named_reference}

-- The prefix, whether its name is changed where it is taken, the name, and `__cached_refstr`.
pub record Named : Type 0 where
  pub name_prefix : Text
  pub deduplicate_name : Bool
  pub name : Text
  pub cached_refstr : Option Text

abbrev renamed : Named → Result Text × NameScope → Result Named × NameScope
renamed v (err raised, scope) = (err raised, scope)
renamed v (ok name, scope) = (ok (record v { name = name }), scope)

-- `_set_name` in the scope of the parent. The cached reference stays.
unfoldable pub set_name : Text → Named → NameScope → Result Named × NameScope
unfolding register
set_name name v scope = renamed v (register name v.deduplicate_name scope)

abbrev cached_or_new : Option Text → Named → Text × Named
cached_or_new (some reference) v = (reference, v)
cached_or_new none v =
    let reference = named_reference v.name_prefix v.name in
    (reference, record v { cached_refstr = some reference })

-- `get_reference`
unfoldable pub get_reference : Named → Text × Named
unfolding named_reference
get_reference v = cached_or_new v.cached_refstr v

-- A reference that was asked for before.
referred :
    (v : Named) (o : Option Text)
    → v.cached_refstr ≡ o
    → (get_reference v).1.cached_refstr ≡ some (get_reference v).0
unfolding get_reference
referred v none h = rw h refl
referred v (some reference) h = rw h refl

given_out :
    (w : Named) (reference : Text)
    → w.cached_refstr ≡ some reference
    → (get_reference w).0 ≡ reference
unfolding get_reference
given_out w reference h = ap (λ o. (cached_or_new o w).0) h

renamed_cache :
    (v w : Named) (r : Result Text × NameScope) (scope' : NameScope)
    → renamed v r ≡ (ok w, scope')
    → w.cached_refstr ≡ v.cached_refstr
renamed_cache v w (err raised, scope) scope' h = cc
renamed_cache v w (ok name, scope) scope' h = ap cache_of (ap (λ r. r.0) (sym h))
  where
    cache_of : Result Named → Option Text
    cache_of (err raised) = none
    cache_of (ok u) = u.cached_refstr

-- A value that is renamed after its reference was asked for keeps the reference to its old name, so
-- that what is printed later refers to a name that no value has.
pub get_reference-set_name :
    (v w : Named) (name : Text) (scope scope' : NameScope)
    → set_name name (get_reference v).1 scope ≡ (ok w, scope')
    → (get_reference w).0 ≡ (get_reference v).0
unfolding set_name
get_reference-set_name v w name scope scope' h =
    given_out w (get_reference v).0
      (renamed_cache (get_reference v).1 w _ scope' h ∙ referred v v.cached_refstr refl)
