-- ===== src/Module/DebugInfo.antt =====
-- Debug information in llvmlite/ir/module.py and llvmlite/ir/values.py: `add_debug_info` with its
-- cache, and the text of a `DIValue`.
pub mod Kept
pub mod Again
use llvmlite.Prelude.{
  ℕ, Bool, true, false, List, [], ◌∷◌, ◌++◌, ◌&&◌, Option, none, some, length, if◌then◌else◌,
  bool_eq,
}
use llvmlite.Prelude.Texts.{Text, text_eq, lit, decimal, join}
use llvmlite.Prelude.Int.{int_text}
use llvmlite.Result.{Result, ok, err, type_error, ◌>>=◌}
use llvmlite.Escape.{escape_string}
use llvmlite.Attributes.{text_lt}
use llvmlite.Values.{
  Value, Env, DiOperand, DiItems, di_value, di_none, di_bool, di_token, di_str, di_int, di_of,
  no_items, item, constant, formatted, argument, instruction, alloca, block, global_variable, func,
  md_node, md_string, md_argument, block_address, inline_asm, get_reference, const_str,
}
use llvmlite.Values.Identity.{di_items_eq}
use llvmlite.Module.Metadata.{Metadata, DiKey, Operands, add_metadata, take_name}

-- What the caller gives for a name: a sequence of metadata, or an operand.
pub data Given : Type 0 where
  given_sequence : Operands → Given
  given : DiOperand → Given

unfoldable pub fix_given : Env → Given → Metadata → DiOperand × Metadata
unfolding add_metadata
fix_given env (given_sequence ops) m = let (md, m') = add_metadata env ops m in (di_of md, m')
fix_given env (given x) m = (x, m)

-- `_fix_di_operands` over the items of the dictionary.
unfoldable pub fix_di_operands : Env → List (Text × Given) → Metadata → DiItems × Metadata
unfolding fix_given
fix_di_operands env [] m = (no_items, m)
fix_di_operands env ((name, op) ∷ ops) m =
    let (x, m') = fix_given env op m in
    let (xs, m'') = fix_di_operands env ops m' in (item name x xs, m'')

-- `sorted` of pairs with different names, which never compares the operands.
unfoldable pub insert_item : Text → DiOperand → DiItems → DiItems
unfolding text_lt
insert_item name x no_items = item name x no_items
insert_item name x (item other y ys) =
    let later = item other y (insert_item name x ys) in
    if text_lt name other then item name x (item other y ys) else later

unfoldable pub sort_items : DiItems → DiItems
unfolding insert_item
sort_items no_items = no_items
sort_items (item name x xs) = insert_item name x (sort_items xs)

-- `str_ditok_operands`: the token under `encoding` counts by its value.
unfoldable pub str_token : Text → DiOperand → DiOperand
unfolding lit text_eq
str_token name (di_token i s) = if text_eq name (lit "encoding") then di_str s else di_token i s
str_token name x = x

unfoldable pub str_ditok_operands : DiItems → DiItems
unfolding str_token
str_ditok_operands no_items = no_items
str_ditok_operands (item name x xs) = item name (str_token name x) (str_ditok_operands xs)

unfoldable pub key_eq : Env → DiKey → DiKey → Bool
unfolding di_items_eq text_eq
key_eq env a b =
    text_eq a.kind b.kind && (di_items_eq env a.items b.items && bool_eq a.distinct b.distinct)

unfoldable pub find_di : Env → DiKey → List (DiKey × Value) → Option Value
unfolding key_eq
find_di env key [] = none
find_di env key ((k, v) ∷ rest) = if key_eq env k key then some v else find_di env key rest

-- `DIValue` with its number as its name, behind the other nodes, and under its key in the cache.
unfoldable pub new_di : DiItems → DiKey → Metadata → Value × Metadata
unfolding take_name decimal
new_di operands key m =
    let (name, m') = take_name (decimal (length m.nodes)) m in
    let di = di_value name key.distinct key.kind operands in
    (di, record m' { nodes = m'.nodes ++ di ∷ []; dicache = m'.dicache ++ (key, di) ∷ [] })

unfoldable pub cached_or_new : Option Value → DiItems → DiKey → Metadata → Value × Metadata
unfolding new_di
cached_or_new (some di) operands key m = (di, m)
cached_or_new none operands key m = new_di operands key m

abbrev pub key_of : Text → DiItems → Bool → DiKey
key_of kind operands is_distinct = record {
  kind = kind;
  items = sort_items (str_ditok_operands operands);
  distinct = is_distinct;
}

unfoldable pub intern_di : Env → DiItems → DiKey → Metadata → Value × Metadata
unfolding find_di cached_or_new
intern_di env operands key m = cached_or_new (find_di env key m.dicache) operands key m

-- `add_debug_info`, whose operands are a dictionary: the names are different.
unfoldable pub add_debug_info :
    Env → Text → List (Text × Given) → Bool → Metadata → Value × Metadata
unfolding fix_di_operands sort_items str_ditok_operands intern_di
add_debug_info env kind operands is_distinct m =
    let (xs, m') = fix_di_operands env operands m in
    intern_di env (sort_items xs) (key_of kind (sort_items xs) is_distinct) m'

-- The text of an operand. What is neither a constant nor a named value is refused.
unfoldable pub value_text : Env → Value → Result Text
unfolding const_str get_reference
value_text env (constant t c) = ok (const_str env (constant t c))
value_text env (formatted t c) = ok (const_str env (formatted t c))
value_text env (md_argument v) = err type_error
value_text env (block_address f b) = err type_error
value_text env (inline_asm t s a c) = err type_error
value_text env v = ok (get_reference env v)

unfoldable pub operand_text : Env → DiOperand → Result Text
unfolding value_text lit escape_string int_text
operand_text env di_none = ok (lit "null")
operand_text env (di_bool true) = ok (lit "true")
operand_text env (di_bool false) = ok (lit "false")
operand_text env (di_token i s) = ok s
operand_text env (di_str s) = ok (lit "\"" ++ (escape_string s ++ lit "\""))
operand_text env (di_int k) = ok (int_text k)
operand_text env (di_of v) = value_text env v

unfoldable pub item_texts : Env → DiItems → Result (List Text)
unfolding operand_text lit
item_texts env no_items = ok []
item_texts env (item name x xs) =
    operand_text env x >>= λ t. item_texts env xs >>= λ ts. ok ((name ++ (lit ": " ++ t)) ∷ ts)

-- `DIValue.descr`
unfoldable pub di_descr : Env → Bool → Text → DiItems → Result Text
unfolding item_texts lit join
di_descr env is_distinct kind operands = item_texts env operands >>= λ texts. ok (
    (if is_distinct then lit "distinct " else [])
    ++ (lit "!" ++ (kind ++ (lit "(" ++ (join (lit ", ") texts ++ lit ")\n")))))
