-- ===== src/Module/Print/Whole.antt =====
-- `Module.__repr__` of llvmlite/ir/module.py, with the texts of metadata nodes in
-- llvmlite/ir/values.py.
use llvmlite.Prelude.{Bool, List, [], ◌∷◌, ◌++◌}
use llvmlite.Prelude.Texts.{Text, lit, join}
use llvmlite.Result.{Result, ok, ◌>>=◌}
use llvmlite.Types.{Ty, metadata}
use llvmlite.Values.{
  Value, Values, nil, cons, Const, Env, constant, md_node, di_value, get_reference, type_of,
}
use llvmlite.Context.{Structs, get_declaration}
use llvmlite.Module.Metadata.{Metadata}
use llvmlite.Module.DebugInfo.{di_descr}
use llvmlite.Instructions.Print.{cat, typed_reference, references, rstrip}
use llvmlite.Module.Print.{Function, function_str}
use llvmlite.Module.Print.Variables.{Variable, variable_str}

-- An operand of `MDValue.descr`, by its type.
unfoldable pub metadata_item : Env → Value → Ty → Text
unfolding lit get_reference typed_reference
metadata_item env (constant t Const.null) metadata = lit "null"
metadata_item env v metadata = get_reference env v
metadata_item env v t = typed_reference env v

unfoldable pub node_items : Env → Values → List Text
unfolding metadata_item type_of
node_items env nil = []
node_items env (cons v vs) = metadata_item env v (type_of v) ∷ node_items env vs

-- `str(md)` of a metadata node, of either class.
unfoldable pub node_text : Env → Value → Result Text
unfolding lit cat node_items get_reference rstrip di_descr
node_text env (md_node n ops) = ok (
    rstrip (
      cat (
        get_reference env (md_node n ops)
        ∷ lit " = !{ "
        ∷ join (lit ", ") (node_items env ops)
        ∷ lit " }\n"
        ∷ [])))
node_text env (di_value n d k ops) = di_descr env d k ops >>= λ described.
    ok (rstrip (cat (get_reference env (di_value n d k ops) ∷ lit " = " ∷ described ∷ [])))
node_text env v = ok (get_reference env v)

unfoldable pub node_texts : Env → List Value → Result (List Text)
unfolding node_text
node_texts env [] = ok []
node_texts env (v ∷ vs) = node_text env v >>= λ t. node_texts env vs >>= λ ts. ok (t ∷ ts)

-- The lines of the named metadata.
unfoldable pub named_texts : Env → List (Text × List Value) → List Text
unfolding lit cat references
named_texts env [] = []
named_texts env ((name, operands) ∷ rest) =
    cat (lit "!" ∷ name ∷ lit " = !{ " ∷ join (lit ", ") (references env operands) ∷ lit " }" ∷ [])
    ∷ named_texts env rest

-- `_get_metadata_lines`
unfoldable pub metadata_lines : Env → Metadata → Result (List Text)
unfolding named_texts node_texts
metadata_lines env md =
    node_texts env md.nodes >>= λ nodes. ok (named_texts env md.namedmetadata ++ nodes)

-- A value of `Module.globals`.
pub data Global : Type 0 where
  function : Function → Global
  variable : Variable → Global

unfoldable pub global_str : Env → Global → Result Text
unfolding function_str variable_str
global_str env (function f) = function_str env f
global_str env (variable v) = variable_str env v

unfoldable pub global_texts : Env → List Global → Result (List Text)
unfolding global_str
global_texts env [] = ok []
global_texts env (g ∷ gs) =
    global_str env g >>= λ first. global_texts env gs >>= λ rest. ok (first ∷ rest)

unfoldable pub declarations : Bool → Structs → List Text
unfolding get_declaration
declarations enabled [] = []
declarations enabled ((name, st) ∷ rest) =
    get_declaration enabled name st ∷ declarations enabled rest

-- A `Module` with what its text shows.
pub record Module : Type 0 where
  pub name : Text
  pub triple : Text
  pub data_layout : Text
  pub identified_types : Structs
  pub globals : List Global
  pub metadata : Metadata

-- `_get_body_lines`
unfoldable pub body_lines : Env → Module → Result (List Text)
unfolding declarations global_texts
body_lines env m = global_texts env m.globals >>= λ texts.
    ok (declarations env.typed_pointers m.identified_types ++ texts)

-- `__repr__`
unfoldable pub repr : Env → Module → Result Text
unfolding body_lines metadata_lines lit cat
repr env m = body_lines env m >>= λ body. metadata_lines env m.metadata >>= λ metadata_text. ok (
    join (lit "\n") (
      cat (lit "; ModuleID = \"" ∷ m.name ∷ lit "\"" ∷ [])
      ∷ cat (lit "target triple = \"" ∷ m.triple ∷ lit "\"" ∷ [])
      ∷ cat (lit "target datalayout = \"" ∷ m.data_layout ∷ lit "\"" ∷ [])
      ∷ []
      ∷ (body ++ metadata_text)))
