-- ===== src/Scope.antt =====
-- `NameScope` of llvmlite/ir/_utils.py: the names in use and the counters for fresh ones. The
-- proofs are in the modules below.
pub mod Fresh
pub mod Unique
use llvmlite.Prelude.{
  ℕ, zero, suc, ◌+◌, Bool, true, false, List, [], ◌∷◌, ◌++◌, length, if◌then◌else◌,
}
use llvmlite.Prelude.Texts.{Text, text_eq, decimal}
use llvmlite.Result.{Result, ok, err, name_error, type_error}

-- `_useset`, a set, as the list of its members, and `_basenamemap`, a `defaultdict(int)`.
pub record NameScope : Type 0 where
  pub useset : List Text
  pub basenamemap : Text → ℕ

-- `NameScope.__init__`
abbrev pub empty : NameScope
empty = record { useset = [] ∷ []; basenamemap = λ _. 0 }

unfoldable pub contains : Text → List Text → Bool
contains name [] = false
contains name (x ∷ xs) = if text_eq x name then true else contains name xs

unfoldable pub is_used : NameScope → Text → Bool
unfolding contains
is_used s name = contains name s.useset

-- `_useset.add(name)`: a set keeps one copy.
unfoldable pub add : Text → NameScope → NameScope
add name s = if is_used s name then s else record s { useset = name ∷ s.useset }

-- `"{0}.{1}".format(basename, ident)`
unfoldable pub numbered : Text → ℕ → Text
numbered basename ident = basename ++ b'.' ∷ decimal ident

-- `_basenamemap[basename] = ident`
unfoldable pub count_up : Text → ℕ → NameScope → NameScope
count_up basename ident s = record s {
  basenamemap = λ key. if text_eq basename key then ident else s.basenamemap key;
}

-- The `while` loop of `deduplicate`, on fuel.
unfoldable pub dedup_loop : ℕ → Text → Text → NameScope → Text × NameScope
dedup_loop zero basename name s = (name, s)
dedup_loop (suc f) basename name s =
    let ident = suc (s.basenamemap basename) in
    let rest = dedup_loop f basename (numbered basename ident) (count_up basename ident s) in
    if is_used s name then rest else (name, s)

-- Each round but the first tries a name that no round before tried, so this fuel suffices.
abbrev pub enough_fuel : NameScope → ℕ
enough_fuel s = length s.useset + 2

unfoldable pub deduplicate : Text → NameScope → Text × NameScope
deduplicate name s = dedup_loop (enough_fuel s) name name s

-- The branches of `register`.
unfoldable pub register : Text → Bool → NameScope → Result Text × NameScope
register name true s = let (fresh, s') = deduplicate name s in (ok fresh, add fresh s')
register name false s = if is_used s name then (err name_error, s) else (ok name, add name s)

-- `get_child`, which passes an argument that the constructor does not take.
unfoldable pub get_child : NameScope → Result NameScope
get_child s = err type_error
