-- ===== src/Values.antt =====
-- llvmlite/ir/values.py: the values that instructions and constants refer to, with their types and
-- references. A named value is its identity, its type and its name: what else the program keeps in
-- the object stands in the tables of the module that owns it.
pub mod Names
pub mod Identity
pub mod Wrap
pub mod Elements
pub mod Gep
pub mod GepTypes
pub mod ConstOps
pub mod ConstLaws
use llvmlite.Prelude.{
  ℕ, zero, suc, ◌+◌, ◌-◌, ◌/◌, ◌%◌, ◌<◌, Bool, true, false, ◌&&◌, List, [], ◌∷◌, ◌++◌, map, ltb,
  ◌==◌, if◌then◌else◌, length, replicate, Option, none, some,
}
use llvmlite.Prelude.Texts.{Text, lit, decimal, join, text_eq}
use llvmlite.Prelude.Int.{ℤ, int_text}
use llvmlite.Escape.{escape_string, hex_digit, named_reference}
use llvmlite.Result.{Result, ok, err, type_error, attribute_error, ◌>>=◌}
use llvmlite.Types.{
  Ty, Tys, metadata, void, half, float, double, label, ptr, typed_ptr, function, int, vector, array,
  literal_struct, identified, is_pointer, pointee,
}
use llvmlite.Types.Print.{type_text, wrap_packed}

mutual
  -- One constructor for each class. `alloca` is an `AllocaInstr` with its allocated type before its
  -- own, `instruction` any other; a function has the pointer to its function type. A metadata node
  -- has its name and its operands, a `DIValue` its name, whether it is distinct, its kind and its operands.
  pub data Value : Type 0 where
    constant : Ty → Const → Value
    formatted : Ty → Const → Value
    argument : ℕ → Ty → Text → Value
    instruction : ℕ → Ty → Text → Value
    alloca : ℕ → Ty → Ty → Text → Value
    block : ℕ → Text → Value
    global_variable : ℕ → Ty → ℕ → Text → Value
    func : ℕ → Ty → Text → Value
    md_node : Text → Values → Value
    md_string : Text → Value
    md_argument : Value → Value
    block_address : Text → Text → Value
    inline_asm : Ty → Bool → Text → Text → Value
    di_value : Text → Bool → Text → DiItems → Value

  -- What a `Constant` holds after `wrap_constant_value`: `None`, `Undefined`, a `bytearray`, an
  -- integer, a `bool`, a float by the bits of its double, any other object by its identity, a `str`, a
  -- value, or a sequence of values. A `FormattedConstant` holds one too: its text, wrapped.
  pub data Const : Type 0 where
    null undefined : Const
    bytes : List ℕ → Const
    number : ℤ → Const
    boolean : Bool → Const
    real other : ℕ → Const
    text : Text → Const
    single : Value → Const
    items : Values → Const

  pub data Values : Type 0 where
    nil : Values
    cons : Value → Values → Values

  -- An operand of debug information: `None`, a `bool`, a `DIToken` by its identity with its value, a
  -- `str`, an `int`, or a value.
  pub data DiOperand : Type 0 where
    di_none : DiOperand
    di_bool : Bool → DiOperand
    di_token : ℕ → Text → DiOperand
    di_str : Text → DiOperand
    di_int : ℤ → DiOperand
    di_of : Value → DiOperand

  -- The pairs of names and operands.
  pub data DiItems : Type 0 where
    no_items : DiItems
    item : Text → DiOperand → DiItems → DiItems

-- What the text of a value depends on beside the value: the flag of llvmlite/__init__.py, and what
-- Python computes: the bits of `float(c)`, the roundings of `struct` to single and half precision,
-- and `str(c)` of what no branch of the code formats.
pub record Env : Type 0 where
  pub typed_pointers : Bool
  pub float_bits : Const → ℕ
  pub to_single : ℕ → ℕ
  pub to_half : ℕ → ℕ
  pub str_of : Const → Text

-- `v.type`. The label type of a block is compared by identity, which is the block's.
unfoldable pub type_of : Value → Ty
type_of (constant t c) = t
type_of (formatted t c) = t
type_of (argument i t n) = t
type_of (instruction i t n) = t
type_of (alloca i a t n) = t
type_of (block i n) = label i
type_of (global_variable i t a n) = t
type_of (func i t n) = t
type_of (md_node n ops) = metadata
type_of (md_string s) = metadata
type_of (di_value n d k ops) = metadata
type_of (md_argument v) = metadata
type_of (block_address f b) = typed_ptr (int 8) 0
type_of (inline_asm (function r xs v) s a c) = r
type_of (inline_asm t s a c) = t

-- `Type.null` of each class
unfoldable pub null_text : Ty → Text
unfolding lit
null_text (ptr a) = lit "null"
null_text (typed_ptr t a) = lit "null"
null_text (int n) = lit "0"
null_text half = lit "0.0"
null_text float = lit "0.0"
null_text double = lit "0.0"
null_text t = lit "zeroinitializer"

-- The digits of `x` formatting, on fuel, in front of `acc`.
hex_digits : ℕ → ℕ → Text → Text
hex_digits zero n acc = acc
hex_digits (suc f) n acc =
    let rest = hex_digits f (n / 16) (hex_digit (n % 16) ∷ acc) in
    if ltb n 16 then hex_digit n ∷ acc else rest

-- `'{:#16x}'.format(n)`, which pads with spaces; a double has 16 digits at most.
unfoldable pub format_hex : ℕ → Text
unfolding hex_digits hex_digit lit
format_hex n =
    let shown = hex_digits 16 n [] in replicate (14 - length shown) 32 ++ (lit "0x" ++ shown)

unfoldable pub bool_text : Bool → Text
unfolding lit
bool_text true = lit "true"
bool_text false = lit "false"

-- `format_constant` of the classes that write no sequence. An aggregate type never holds a scalar
-- here: formatting one raises in the code, and so do contents that `float` rejects.
unfoldable pub format_scalar : Env → Ty → Const → Text
unfolding format_hex bool_text int_text
format_scalar env (int n) (boolean b) = bool_text b
format_scalar env (int n) (number k) = int_text k
format_scalar env half c = format_hex (env.to_half (env.float_bits c))
format_scalar env float c = format_hex (env.to_single (env.float_bits c))
format_scalar env double c = format_hex (env.float_bits c)
format_scalar env t (number k) = int_text k
format_scalar env t c = env.str_of c

-- `format_constant` of vectors, arrays and structs around the joined items; other types write
-- `str` of the sequence.
unfoldable pub format_items : Env → Ty → Const → Text → Text
unfolding wrap_packed lit
format_items env (vector t n) c itemstring = lit "<" ++ (itemstring ++ lit ">")
format_items env (array t n) c itemstring = lit "[" ++ (itemstring ++ lit "]")
format_items env (literal_struct ts p) c itemstring =
    wrap_packed p (lit "{" ++ (itemstring ++ lit "}"))
format_items env (identified name p) c itemstring =
    wrap_packed p (lit "{" ++ (itemstring ++ lit "}"))
format_items env t c itemstring = env.str_of c

-- `"{0} {1}".format(v.type, v.get_reference())`
unfoldable pub typed_text : Env → Ty → Text → Text
unfolding lit
typed_text env t reference = type_text env.typed_pointers t ++ (lit " " ++ reference)

-- `InlineAsm.descr`
unfoldable pub asm_text : Bool → Text → Text → Text
unfolding lit
asm_text side_effect asm constraint =
    lit "asm "
    ++ ((if side_effect then lit "sideeffect" else [])
        ++ (lit " \"" ++ (asm ++ (lit "\", \"" ++ (constraint ++ lit "\"")))))

-- `FormattedConstant._get_reference`: what it holds, which is not a text if its type is a vector.
unfoldable pub formatted_text : Env → Const → Text
formatted_text env (text s) = s
formatted_text env c = env.str_of c

unfoldable mutual
  -- `v.get_reference()`
  pub get_reference : Env → Value → Text
  get_reference env (constant t c) = const_text env t c
  get_reference env (formatted t c) = formatted_text env c
  get_reference env (argument i t n) = named_reference (lit "%") n
  get_reference env (instruction i t n) = named_reference (lit "%") n
  get_reference env (alloca i a t n) = named_reference (lit "%") n
  get_reference env (block i n) = named_reference (lit "%") n
  get_reference env (global_variable i t a n) = named_reference (lit "@") n
  get_reference env (func i t n) = named_reference (lit "@") n
  get_reference env (md_node n ops) = b'!' ∷ n
  get_reference env (di_value n d k ops) = b'!' ∷ n
  get_reference env (md_string s) = lit "!\"" ++ (escape_string s ++ lit "\"")
  get_reference env (md_argument v) = typed_text env (type_of v) (get_reference env v)
  get_reference env (block_address f b) =
      lit "blockaddress("
      ++ (named_reference (lit "@") f ++ (lit ", " ++ (named_reference (lit "%") b ++ lit ")")))
  get_reference env (inline_asm t s a c) = asm_text s a c

  -- `Constant._get_reference`
  pub const_text : Env → Ty → Const → Text
  const_text env t null = null_text t
  const_text env t undefined = lit "undef"
  const_text env t (bytes bs) = lit "c\"" ++ (escape_string bs ++ lit "\"")
  const_text env t (number k) = format_scalar env t (number k)
  const_text env t (boolean b) = format_scalar env t (boolean b)
  const_text env t (real b) = format_scalar env t (real b)
  const_text env t (other i) = format_scalar env t (other i)
  const_text env t (text s) = format_scalar env t (text s)
  const_text env t (single v) = format_scalar env t (single v)
  const_text env t (items vs) = format_items env t (items vs) (join (lit ", ") (item_texts env vs))

  -- `["{0} {1}".format(x.type, x.get_reference()) for x in value]`
  pub item_texts : Env → Values → List Text
  item_texts env nil = []
  item_texts env (cons v vs) = typed_text env (type_of v) (get_reference env v) ∷ item_texts env vs

-- `str(v)` of a constant: a formatted constant is its text, without the type.
unfoldable pub const_str : Env → Value → Text
unfolding typed_text
const_str env (formatted t c) = formatted_text env c
const_str env v = typed_text env (type_of v) (get_reference env v)

unfoldable pub is_constant : Value → Bool
is_constant (constant t c) = true
is_constant (formatted t c) = true
is_constant _ = false

unfoldable pub as_function_type : Ty → Result Ty
as_function_type (function r xs v) = ok (function r xs v)
as_function_type _ = err type_error

-- `NamedValue.function_type`, and `InlineAsm.function_type`.
unfoldable pub function_type_of_named : Ty → Result Ty
unfolding as_function_type
function_type_of_named t =
    if is_pointer t then (pointee t >>= as_function_type) else as_function_type t

unfoldable pub function_type : Value → Result Ty
unfolding function_type_of_named
function_type (inline_asm t s a c) = ok t
function_type (constant t c) = err attribute_error
function_type (formatted t c) = err attribute_error
function_type (md_argument v) = err attribute_error
function_type (block_address f b) = err attribute_error
function_type v = function_type_of_named (type_of v)

unfoldable pub value_list : Values → List Value
value_list nil = []
value_list (cons v vs) = v ∷ value_list vs

unfoldable pub of_list : List Value → Values
of_list [] = nil
of_list (v ∷ vs) = cons v (of_list vs)
