-- ===== src/Tests/Reached.antt =====
-- Walking from a function of a module to an operand, and a linked library, in llvmlite/binding.
use llvmlite.Prelude.{◌≡◌, refl, inl, true, false, [], ◌∷◌, none, some}
use llvmlite.Prelude.Texts.{lit}
use llvmlite.Result.{ok, err, assertion_error}
use llvmlite.Binding.ValueRefs.{
  ValueRef, Native, operand, function, get_function, blocks, instructions, operands, Parents,
  in_module,
}
use llvmlite.Binding.ValueRefs.Ancestors.{
  Reached, by_function, by_blocks, by_instructions, by_operands, IsPlaced, reached_placed,
}
use llvmlite.Binding.Orc
use llvmlite.Binding.ValueRefs
use llvmlite.Binding.Orc.{
  JitLibraryBuilder, export_symbol, add_ir, import_symbol, link, get_address,
}

-- Each value has one part, with the number behind its own; every function is number 10.
abbrev native : Native
native = record {
  named_function = λ m name. some 10;
  named_global = λ m name. none;
  blocks_of = λ p. 11 ∷ [];
  arguments_of = λ p. [];
  instructions_of = λ p. 12 ∷ [];
  operands_of = λ p. 13 ∷ [];
  incoming_of = λ p. [];
  opcode_of = λ p. lit "ret";
  attribute_kind = λ t. 0;
  declared = λ p. false;
}

abbrev the_function : ValueRef
the_function = record { ptr = 10; kind = function; parents = in_module 5 }

abbrev the_block : ValueRef
the_block = record {
  ptr = 11;
  kind = ValueRefs.block;
  parents = record (in_module 5) { function_of = some 10 };
}

abbrev the_instruction : ValueRef
the_instruction = record {
  ptr = 12;
  kind = ValueRefs.instruction;
  parents = record (in_module 5) { function_of = some 10; block_of = some 11 };
}

abbrev the_operand : ValueRef
the_operand = record {
  ptr = 13;
  kind = operand;
  parents = record {
    module_of = 5;
    function_of = some 10;
    block_of = some 11;
    instruction_of = some 12;
  };
}

operand-Reached : Reached native 5 the_operand
unfolding get_function blocks instructions operands
operand-Reached =
    by_operands the_instruction the_operand (the_operand ∷ [])
      (by_instructions the_block the_instruction (the_instruction ∷ [])
        (by_blocks the_function the_block (the_block ∷ []) (by_function (lit "f") the_function refl)
          refl (inl refl))
        refl (inl refl))
      refl (inl refl)

reached_placed_example : IsPlaced native 5 the_operand
reached_placed_example = reached_placed native 5 the_operand operand-Reached

abbrev builder : JitLibraryBuilder
builder = export_symbol (lit "g") (export_symbol (lit "f") (export_symbol (lit "g") Orc.empty))

tracked :
    (link (λ t. t) (λ b. some (λ i. 100)) false (lit "lib") builder
      ≡ ok (record { name = lit "lib"; addresses = (lit "g", 100) ∷ (lit "f", 100) ∷ [] }))
unfolding link lit export_symbol
tracked = refl

closed_jit : link (λ t. t) (λ b. some (λ i. 100)) true (lit "lib") builder ≡ err assertion_error
unfolding link
closed_jit = refl
