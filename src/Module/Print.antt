-- ===== src/Module/Print.antt =====
-- The text of a module: `descr` and `__str__` of functions, arguments, blocks and global variables in
-- llvmlite/ir/values.py, and `__repr__` of llvmlite/ir/module.py.
pub mod Variables
pub mod Lines
pub mod Whole
use llvmlite.Prelude.{
  ◌||◌, ℕ, Bool, true, false, List, [], ◌∷◌, ◌++◌, ◌==◌, not, if◌then◌else◌, Option, none, some,
}
use llvmlite.Prelude.Texts.{text_eq, Text, lit, decimal, join}
use llvmlite.Escape.{format_name, named_reference}
use llvmlite.Result.{Result, ok, err, type_error, assertion_error, ◌>>=◌}
use llvmlite.Types.{Ty, metadata, is_metadata, is_void, type_eq}
use llvmlite.Values.{
  Value, Values, Const, Env, constant, type_of, get_reference, const_text, value_list,
}
use llvmlite.Attributes.{AttrKind, ArgumentAttributes, to_list, argument_list}
use llvmlite.Instructions.{Instr}
use llvmlite.Instructions.Print.{
  cat, type_str, typed_reference, references, stringify_metadata, rstrip,
}
use llvmlite.Instructions.Print.Classes.{to_string}
use llvmlite.Builder.{Block}

-- `Argument`, and `ReturnValue`, which has no use for the name.
pub record Parameter : Type 0 where
  pub typ : Ty
  pub name : Text
  pub attributes : ArgumentAttributes

-- `FunctionAttributes`
pub record FunctionAttributes : Type 0 where
  pub names : List Text
  pub alignstack : ℕ
  pub personality : Option Value

-- A `Function` with what its text shows.
pub record Function : Type 0 where
  pub name : Text
  pub return_type : Ty
  pub var_arg : Bool
  pub args : List Parameter
  pub return_value : Parameter
  pub attributes : FunctionAttributes
  pub linkage : Text
  pub calling_convention : Text
  pub section : Text
  pub metadata : List (Text × Value)
  pub blocks : List Block

-- `Argument.__str__`
unfoldable pub argument_text : Env → Parameter → Result Text
unfolding lit argument_list cat named_reference
argument_text env arg = argument_list env.typed_pointers arg.typ arg.attributes >>= λ attrs.
    ok (join (lit " ") (type_str env arg.typ ∷ (attrs ++ named_reference (lit "%") arg.name ∷ [])))

unfoldable pub argument_texts : Env → List Parameter → Result (List Text)
unfolding argument_text
argument_texts env [] = ok []
argument_texts env (a ∷ args) =
    argument_text env a >>= λ first. argument_texts env args >>= λ rest. ok (first ∷ rest)

-- `ReturnValue.__str__`
unfoldable pub return_text : Env → Parameter → Result Text
unfolding lit argument_list
return_text env ret = argument_list env.typed_pointers ret.typ ret.attributes >>= λ attrs.
    ok (join (lit " ") (attrs ++ type_str env ret.typ ∷ []))

abbrev alignstack_item : ℕ → List Text
alignstack_item n = if n == 0 then [] else cat (lit "alignstack(" ∷ decimal n ∷ lit ")" ∷ []) ∷ []

abbrev personality_item : Env → Option Value → List Text
personality_item env none = []
personality_item env (some v) = (lit "personality " ++ typed_reference env v) ∷ []

-- `FunctionAttributes._to_list`
unfoldable pub function_attributes_list : Env → Ty → FunctionAttributes → Result (List Text)
unfolding to_list lit cat typed_reference
function_attributes_list env ret_type attrs =
    to_list env.typed_pointers AttrKind.function ret_type attrs.names >>= λ names.
    ok (names ++ (alignstack_item attrs.alignstack ++ personality_item env attrs.personality))

-- `' ' + ' '.join(...) if self.attributes else ''`, where the set counts as false if it is empty.
abbrev if_any : List Text → Result Text → Result Text
if_any [] text = ok []
if_any (name ∷ names) text = text

unfoldable pub attributes_text : Env → Ty → FunctionAttributes → Result Text
unfolding function_attributes_list lit
attributes_text env ret_type attrs =
    if_any attrs.names (
      function_attributes_list env ret_type attrs >>= λ items. ok (lit " " ++ join (lit " ") items))

abbrev vararg_text : Bool → List Parameter → Text
vararg_text false args = []
vararg_text true [] = lit "..."
vararg_text true (a ∷ args) = lit ", ..."

abbrev state_text : List Block → Text
state_text [] = lit "declare"
state_text (b ∷ bs) = lit "define"

-- A text in a list, if it is not empty.
abbrev if_text : Text → List Text
if_text [] = []
if_text (c ∷ cs) = (c ∷ cs) ∷ []

abbrev pub around : Text → Text → Text → Text
around before [] after = []
around before (c ∷ cs) after = before ++ ((c ∷ cs) ++ after)

-- `descr_prototype`
unfoldable pub descr_prototype : Env → Function → Result Text
unfolding argument_texts return_text attributes_text stringify_metadata cat lit named_reference
descr_prototype env f = argument_texts env f.args >>= λ args.
    attributes_text env f.return_type f.attributes >>= λ attrs.
    return_text env f.return_value >>= λ ret. ok (
      cat (
        join (lit " ")
          (state_text f.blocks ∷ (if_text f.linkage ++ (if_text f.calling_convention ++ ret ∷ [])))
        ∷ lit " "
        ∷ named_reference (lit "@") f.name
        ∷ lit "("
        ∷ join (lit ", ") args
        ∷ vararg_text f.var_arg f.args
        ∷ lit ")"
        ∷ attrs
        ∷ around (lit " section \"") f.section (lit "\"")
        ∷ around (lit " ") (stringify_metadata env false f.metadata) []
        ∷ (10 ∷ [])
        ∷ []))

unfoldable pub instruction_texts : Env → List Instr → Result (List Text)
unfolding to_string
instruction_texts env [] = ok []
instruction_texts env (i ∷ is) =
    to_string env i >>= λ first. instruction_texts env is >>= λ rest. ok (first ∷ rest)

-- `["  {0}\\n".format(instr) for instr in self.instructions]`, joined.
unfoldable pub indented : List Text → Text
unfolding lit
indented [] = []
indented (t ∷ ts) = lit "  " ++ (t ++ 10 ∷ indented ts)

-- `"{0}:\\n".format(self._format_name())` and the instructions.
unfoldable pub block_of : Text → List Text → Text
unfolding format_name indented
block_of name texts = format_name name ++ b':' ∷ 10 ∷ indented texts

-- `Block.descr`
unfoldable pub block_text : Env → Block → Result Text
unfolding instruction_texts block_of
block_text env b = instruction_texts env b.instructions >>= λ texts. ok (block_of b.name texts)

-- `Function.descr_body`
unfoldable pub descr_body : Env → List Block → Result Text
unfolding block_text
descr_body env [] = ok []
descr_body env (b ∷ bs) =
    block_text env b >>= λ first. descr_body env bs >>= λ rest. ok (first ++ rest)

abbrev braced : Env → List Block → Result Text
braced env [] = ok []
braced env (b ∷ bs) = descr_body env (b ∷ bs) >>= λ body. ok (lit "{\n" ++ (body ++ lit "}\n"))

-- `Function.__str__`
unfoldable pub function_str : Env → Function → Result Text
unfolding descr_prototype descr_body lit
function_str env f =
    descr_prototype env f >>= λ head. braced env f.blocks >>= λ body. ok (head ++ body)
