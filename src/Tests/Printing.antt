-- ===== src/Tests/Printing.antt =====
-- The texts of instructions, blocks and functions of llvmlite/ir.
use llvmlite.Prelude.{◌≢◌, ℕ, ◌≡◌, refl, Bool, true, false, List, [], ◌∷◌, some, none, Option}
use llvmlite.Prelude.Texts.{Text, lit}
use llvmlite.Result.{ok}
use llvmlite.Types.{Ty, int, is_void}
use llvmlite.Values.{Value, argument, instruction, Env}
use llvmlite.Attributes.{no_attributes}
use llvmlite.Instructions.{Instr, Kind}
use llvmlite.Instructions.Usage.{replace_usage}
use llvmlite.Instructions.Print.{rstrip}
use llvmlite.Instructions.Print.Classes.{descr_of, to_string}
use llvmlite.Instructions.Print.Read.{read_assigned, read_assigned-to_string}
use llvmlite.Instructions.Print.Caches.{
  Printed, str, replace_usage_of, is_phi, IsFresh, str-replace_usage,
}
use llvmlite.Module.Print.{function_str, Function, block_of}
use llvmlite.Module.Print.Lines.{read_block, read_block-block_of}

abbrev env : Env
env = record {
  typed_pointers = false;
  float_bits = λ c. 0;
  to_single = λ n. n;
  to_half = λ n. n;
  str_of = λ c. [];
}

abbrev x : Value
x = argument 1 (int 32) (lit "x")

abbrev y : Value
y = instruction 2 (int 32) (lit "y")

abbrev z : Value
z = argument 3 (int 32) (lit "z")

abbrev add : Instr
add = record {
  ident = 4;
  parent = 0;
  typ = int 32;
  opname = lit "add";
  operands = x ∷ y ∷ [];
  operands_fixed = false;
  name = lit "sum";
  flags = [];
  metadata = [];
  kind = Kind.operation;
}

abbrev add_text : Text
add_text = lit "%\"sum\" = add i32 %\"x\", %\"y\""

added_text : to_string env add ≡ ok add_text
unfolding to_string lit llvmlite.Escape.named_reference llvmlite.Prelude.Texts.join
    llvmlite.Types.Print.type_text
added_text = refl

added_descr : descr_of env add add.kind ≡ ok (lit "add i32 %\"x\", %\"y\"\n")
unfolding descr_of lit llvmlite.Prelude.Texts.join llvmlite.Types.Print.type_text
    llvmlite.Escape.named_reference
added_descr = refl

not_blank : rstrip (lit "add i32 %\"x\", %\"y\"\n") ≢ []
unfolding rstrip lit
not_blank h = cc

not_void : is_void (int 32) ≡ false
unfolding is_void
not_void = refl

read_assigned-to_string_example :
    (text : Text) × (to_string env add ≡ ok text)
    × (read_assigned text ≡ some (lit "sum", rstrip (lit "add i32 %\"x\", %\"y\"\n")))
read_assigned-to_string_example = read_assigned-to_string env add added_descr not_void not_blank

abbrev printed : Printed
printed = record { instr = add; cached = some add_text }

printed-IsFresh : IsFresh env printed
printed-IsFresh text h = cc (added_text)

no_phi : is_phi Kind.operation ≡ false
unfolding is_phi
no_phi = refl

str-replace_usage_example :
    (str env (replace_usage_of 2 z printed)).0 ≡ to_string env (replace_usage 2 z add)
str-replace_usage_example = str-replace_usage env 2 z printed no_phi printed-IsFresh

read_block-block_of_example :
    read_block (block_of (lit "entry") (add_text ∷ lit "ret void" ∷ []))
    ≡ some (lit "entry", add_text ∷ lit "ret void" ∷ [])
unfolding lit
read_block-block_of_example =
    read_block-block_of (lit "entry") (add_text ∷ lit "ret void" ∷ []) refl refl

abbrev declared : Function
declared = record {
  name = lit "f";
  return_type = int 32;
  var_arg = false;
  args = [];
  return_value = record { typ = int 32; name = []; attributes = no_attributes };
  attributes = record { names = []; alignstack = 16; personality = none };
  linkage = [];
  calling_convention = [];
  section = [];
  metadata = [];
  blocks = [];
}

declared_text : function_str env declared ≡ ok (lit "declare i32 @\"f\"()\n")
unfolding function_str lit llvmlite.Prelude.Texts.join llvmlite.Types.Print.type_text
declared_text = refl
