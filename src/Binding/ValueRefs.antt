-- ===== src/Binding/ValueRefs.antt =====
-- `ValueRef` of llvmlite/binding/value.py: which value of a module has which parts, and the values
-- that a reference keeps alive as the places it was reached through; with `get_function` and
-- `get_global_variable` of llvmlite/binding/module.py.
pub mod Ancestors
use llvmlite.Prelude.{ℕ, ◌==◌, Bool, true, false, not, ◌||◌, List, [], ◌∷◌, Option, none, some}
use llvmlite.Prelude.Texts.{Text, lit, text_eq}
use llvmlite.Result.{Result, ok, err, value_error, name_error, guard, ◌>>=◌, ◌>>◌}

-- `_kind`
pub data ValueKind : Type 0 where
  global function block argument instruction operand : ValueKind

-- `_parents`: the module, and what stands under the other three keys, by their pointers.
pub record Parents : Type 0 where
  pub module_of : ℕ
  pub function_of : Option ℕ
  pub block_of : Option ℕ
  pub instruction_of : Option ℕ

pub record ValueRef : Type 0 where
  pub ptr : ℕ
  pub kind : ValueKind
  pub parents : Parents

-- What LLVM answers: the named functions and global variables of a module, the parts of a value, the
-- opcode of an instruction, and the kinds of attributes, where 0 is none.
pub record Native : Type 0 where
  pub named_function : ℕ → Text → Option ℕ
  pub named_global : ℕ → Text → Option ℕ
  pub blocks_of : ℕ → List ℕ
  pub arguments_of : ℕ → List ℕ
  pub instructions_of : ℕ → List ℕ
  pub operands_of : ℕ → List ℕ
  pub incoming_of : ℕ → List ℕ
  pub opcode_of : ℕ → Text
  pub attribute_kind : Text → ℕ
  pub declared : ℕ → Bool

unfoldable pub kind_is_global : ValueKind → Bool
kind_is_global global = true
kind_is_global k = false

unfoldable pub kind_is_function : ValueKind → Bool
kind_is_function function = true
kind_is_function k = false

unfoldable pub kind_is_block : ValueKind → Bool
kind_is_block block = true
kind_is_block k = false

unfoldable pub kind_is_instruction : ValueKind → Bool
kind_is_instruction instruction = true
kind_is_instruction k = false

abbrev pub in_module : ℕ → Parents
in_module m = record { module_of = m; function_of = none; block_of = none; instruction_of = none }

abbrev pub named : ValueKind → ℕ → Option ℕ → Result ValueRef
named kind m none = err name_error
named kind m (some p) = ok (record { ptr = p; kind = kind; parents = in_module m })

-- `get_function` and `get_global_variable` of a module.
unfoldable pub get_function : Native → ℕ → Text → Result ValueRef
get_function native m name = named function m (native.named_function m name)

unfoldable pub get_global_variable : Native → ℕ → Text → Result ValueRef
get_global_variable native m name = named global m (native.named_global m name)

-- The values that an iterator yields.
unfoldable pub values_at : ValueKind → Parents → List ℕ → List ValueRef
values_at kind parents [] = []
values_at kind parents (p ∷ ps) =
    record { ptr = p; kind = kind; parents = parents } ∷ values_at kind parents ps

abbrev pub within_function : ValueRef → Parents
within_function v = record v.parents { function_of = some v.ptr }

abbrev pub within_block : ValueRef → Parents
within_block v = record v.parents { block_of = some v.ptr }

abbrev pub within_instruction : ValueRef → Parents
within_instruction v = record v.parents { instruction_of = some v.ptr }

-- `blocks` and `arguments` of a function.
unfoldable pub blocks : Native → ValueRef → Result (List ValueRef)
unfolding kind_is_function values_at
blocks native v =
    guard (kind_is_function v.kind) value_error
    >> ok (values_at block (within_function v) (native.blocks_of v.ptr))

unfoldable pub arguments : Native → ValueRef → Result (List ValueRef)
unfolding kind_is_function values_at
arguments native v =
    guard (kind_is_function v.kind) value_error
    >> ok (values_at argument (within_function v) (native.arguments_of v.ptr))

-- `instructions` of a block.
unfoldable pub instructions : Native → ValueRef → Result (List ValueRef)
unfolding kind_is_block values_at
instructions native v =
    guard (kind_is_block v.kind) value_error
    >> ok (values_at instruction (within_block v) (native.instructions_of v.ptr))

-- `operands` and `opcode` of an instruction.
unfoldable pub operands : Native → ValueRef → Result (List ValueRef)
unfolding kind_is_instruction values_at
operands native v =
    guard (kind_is_instruction v.kind) value_error
    >> ok (values_at operand (within_instruction v) (native.operands_of v.ptr))

unfoldable pub opcode : Native → ValueRef → Result Text
unfolding kind_is_instruction
opcode native v = guard (kind_is_instruction v.kind) value_error >> ok (native.opcode_of v.ptr)

-- `incoming_blocks` of a `phi`.
unfoldable pub incoming_blocks : Native → ValueRef → Result (List ValueRef)
unfolding kind_is_instruction opcode values_at lit text_eq
incoming_blocks native v =
    guard (kind_is_instruction v.kind) value_error
    >> (opcode native v >>= λ op.
        guard (text_eq op (lit "phi")) value_error
        >> ok (values_at block (within_instruction v) (native.incoming_of v.ptr)))

-- `is_declaration` of a global value.
unfoldable pub is_declaration : Native → ValueRef → Result Bool
unfolding kind_is_global kind_is_function
is_declaration native v =
    guard (kind_is_global v.kind || kind_is_function v.kind) value_error
    >> ok (native.declared v.ptr)

-- `add_function_attribute`, with the kind of the attribute that is handed to LLVM.
unfoldable pub add_function_attribute : Native → Text → ValueRef → Result ℕ
unfolding kind_is_function
add_function_attribute native attr v =
    guard (kind_is_function v.kind) value_error
    >> (guard (not (native.attribute_kind attr == 0)) value_error
        >> ok (native.attribute_kind attr))
