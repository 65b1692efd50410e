-- ===== src/Module/Metadata.antt =====
-- The metadata of llvmlite/ir/module.py: `add_metadata` with its cache, and named metadata. A node
-- is an `MDValue` of llvmlite/ir/values.py.
pub mod Cache
pub mod Again
use llvmlite.Prelude.{
  ℕ, zero, suc, ◌+◌, Bool, true, false, List, [], ◌∷◌, ◌++◌, Option, none, some, length,
  if◌then◌else◌,
}
use llvmlite.Prelude.Texts.{Text, text_eq, decimal}
use llvmlite.Result.{Result, ok, err, type_error}
use llvmlite.Scope
use llvmlite.Scope.{NameScope, register, deduplicate, add}
use llvmlite.Types.{metadata, is_metadata}
use llvmlite.Values.{
  Value, Values, Const, Env, constant, null, md_node, md_string, nil, cons, type_of, DiItems,
}
use llvmlite.Values.Identity.{values_eq}

-- A key of `add_debug_info` in the cache: the kind, the operands and whether the node is distinct.
pub record DiKey : Type 0 where
  pub kind : Text
  pub items : DiItems
  pub distinct : Bool

-- The fields of a `Module` that hold metadata; its names are registered in the module's scope. The
-- cache has one part for each kind of key, as a sequence of values never equals a key that begins
-- with a text.
pub record Metadata : Type 0 where
  pub scope : NameScope
  pub nodes : List Value
  pub namedmetadata : List (Text × List Value)
  pub metadatacache : List (Values × Value)
  pub dicache : List (DiKey × Value)

abbrev pub empty : Metadata
empty = record {
  scope = Scope.empty;
  nodes = [];
  namedmetadata = [];
  metadatacache = [];
  dicache = [];
}

-- What the caller puts into a sequence of operands: `None`, a `str`, a sequence, or a value.
mutual
  pub data Operand : Type 0 where
    absent : Operand
    string : Text → Operand
    sequence : Operands → Operand
    value : Value → Operand

  pub data Operands : Type 0 where
    end : Operands
    more : Operand → Operands → Operands

-- `NamedValue._set_name` with deduplication, in the module's scope.
unfoldable pub take_name : Text → Metadata → Text × Metadata
unfolding deduplicate add
take_name name m =
    let (fresh, scope') = deduplicate name m.scope in (fresh, record m { scope = add fresh scope' })

unfoldable pub find_cached : Env → Values → List (Values × Value) → Option Value
unfolding values_eq
find_cached env key [] = none
find_cached env key ((k, v) ∷ rest) =
    if values_eq env k key then some v else find_cached env key rest

-- The part of `add_metadata` behind `_fix_metadata_operands`.
unfoldable pub new_node : Values → Metadata → Value × Metadata
unfolding take_name decimal
new_node key m =
    let (name, m') = take_name (decimal (length m.nodes)) m in
    let md = md_node name key in
    (
      md,
      record m' { nodes = m'.nodes ++ md ∷ []; metadatacache = m'.metadatacache ++ (key, md) ∷ [] },
    )

unfoldable pub cached_or_new : Option Value → Values → Metadata → Value × Metadata
unfolding new_node
cached_or_new (some md) key m = (md, m)
cached_or_new none key m = new_node key m

unfoldable pub intern : Env → Values → Metadata → Value × Metadata
unfolding cached_or_new find_cached
intern env key m = cached_or_new (find_cached env key m.metadatacache) key m

-- `add_metadata`, with `_fix_metadata_operands` over its operands.
unfoldable mutual
  pub fix_operand : Env → Operand → Metadata → Value × Metadata
  fix_operand env absent m = (constant metadata null, m)
  fix_operand env (string s) m = (md_string s, (take_name [] m).1)
  fix_operand env (sequence ops) m = let (vs, m') = fix_operands env ops m in intern env vs m'
  fix_operand env (value v) m = (v, m)

  pub fix_operands : Env → Operands → Metadata → Values × Metadata
  fix_operands env end m = (nil, m)
  fix_operands env (more op ops) m =
      let (v, m') = fix_operand env op m in
      let (vs, m'') = fix_operands env ops m' in (cons v vs, m'')

unfoldable pub add_metadata : Env → Operands → Metadata → Value × Metadata
unfolding fix_operand intern
add_metadata env ops m = let (vs, m') = fix_operands env ops m in intern env vs m'

-- `namedmetadata` as a dictionary in the order of insertion.
unfoldable pub find_named : Text → List (Text × List Value) → Option (List Value)
find_named name [] = none
find_named name ((k, ops) ∷ rest) = if text_eq k name then some ops else find_named name rest

unfoldable pub ensure_named : Text → List (Text × List Value) → List (Text × List Value)
ensure_named name [] = (name, []) ∷ []
ensure_named name ((k, ops) ∷ rest) =
    if text_eq k name then (k, ops) ∷ rest else (k, ops) ∷ ensure_named name rest

unfoldable pub append_named : Text → Value → List (Text × List Value) → List (Text × List Value)
append_named name md [] = []
append_named name md ((k, ops) ∷ rest) =
    if text_eq k name then (k, ops ++ md ∷ []) ∷ rest else (k, ops) ∷ append_named name md rest

unfoldable pub add_element : Text → Value → Metadata → Result (Unit {0}) × Metadata
unfolding append_named
add_element name md m =
    if is_metadata (type_of md)
    then (ok tt, record m { namedmetadata = append_named name md m.namedmetadata })
    else (err type_error, m)

unfoldable pub create_named : Text → Metadata → Metadata
unfolding ensure_named
create_named name m = record m { namedmetadata = ensure_named name m.namedmetadata }

-- The argument `element` of `add_named_metadata`: none, a value, or a sequence.
pub data Element : Type 0 where
  no_element : Element
  value_element : Value → Element
  sequence_element : Operands → Element

-- `add_named_metadata`: the entry is made before the element is looked at.
unfoldable pub add_named_metadata : Env → Text → Element → Metadata → Result (Unit {0}) × Metadata
unfolding create_named add_element add_metadata
add_named_metadata env name no_element m = (ok tt, create_named name m)
add_named_metadata env name (value_element v) m = add_element name v (create_named name m)
add_named_metadata env name (sequence_element ops) m =
    let (md, m') = add_metadata env ops (create_named name m) in add_element name md m'
