-- ===== src/Tests/Build.antt =====
-- Examples of llvmlite/ir/builder.py and llvmlite/ir/instructions.py: a function with one block.
use llvmlite.Prelude.{
  ap, ℕ, ◌≡◌, ◌↔◌, refl, false, List, [], ◌∷◌, ◌==◌, none, some, arith, Bool-cases, inl, inr,
}
use llvmlite.Prelude.Texts.{lit}
use llvmlite.Prelude.Int.{pos}
use llvmlite.Result.{ok, err, assertion_error}
use llvmlite.Exec.{◌>>=◌}
use llvmlite.Scope
use llvmlite.Types.{void, int, metadata}
use llvmlite.Values.{Env, Value, constant, number, md_argument}
use llvmlite.Module.Metadata
use llvmlite.Instructions.{Instr, Draft, Kind}
use llvmlite.Instructions.Create.{draft, terminator}
use llvmlite.Instructions.Calls.{fix_arguments}
use llvmlite.Instructions.CallArgs.{Fits, fix_arguments_iff}
use llvmlite.Builder.{State, Block, current_block, find_block, remove, is_terminated}
use llvmlite.Builder.Ops.{emit, finish}
use llvmlite.Builder.Control.{if_then, goto_block}
use llvmlite.Builder.Blocks.{has_instr}
use llvmlite.Builder.Steps.{named}
use llvmlite.Builder.WellFormed.{IsWellFormed}
use llvmlite.Builder.Invariant.{Command, run, run-IsWellFormed}
use llvmlite.Builder.Goto.{stood, front, IsFront, goto_block_lem}
use llvmlite.Builder.Order.{emit_all, Emitted, emit_all_order}
use llvmlite.Builder.Finish.{Finished, finish_open, finish_ended}
use llvmlite.Builder.IfThen.{Conditional, if_then_flow}
use llvmlite.Builder.Undo.{remove-emit}
use llvmlite.Builder.Replace.{replace, IsReplaced, replace_complete}

abbrev env : Env
env = record {
  typed_pointers = false;
  float_bits = λ c. 0;
  to_single = λ n. n;
  to_half = λ n. n;
  str_of = λ c. [];
}

abbrev entry : Block
entry = record { ident = 0; name = lit "entry"; instructions = []; terminator = none }

-- A builder at the entry block of a function that has no other.
abbrev start_with : Block → ℕ → State
start_with b next = record {
  scope = Scope.empty;
  blocks = b ∷ [];
  metadata = Metadata.empty;
  next = next;
  current = some 0;
  anchor = 0;
  debug_metadata = none;
}

abbrev start : State
start = start_with entry 1

start-IsWellFormed : IsWellFormed start
unfolding find_block
start-IsWellFormed = record {
  anchored = λ i b c f. omega arith;
  ended = λ i b t f h. elim (Bool-cases (0 == i)) [
    | inl e ↦ let same : entry ≡ b = cc (rw e at f) in cc (ap (λ (x : Block). x.terminator) same, h)
    | inr e ↦ cc (rw e at f)
  ];
  fresh =
      λ i b f. elim (Bool-cases (0 == i)) [ inl e ↦ ground (arith, e) | inr e ↦ cc (rw e at f) ];
}

start_current : current_block start ≡ some entry
unfolding current_block find_block
start_current = refl

abbrev one : Value
one = constant (int 32) (number (pos 1))

abbrev flag : Value
flag = constant (int 1) (number (pos 1))

abbrev sum : Draft
sum = draft (int 32) (lit "add") (one ∷ one ∷ []) (lit "sum") [] Kind.operation

abbrev leave : Draft
leave = terminator (lit "ret") (one ∷ []) Kind.ret

run-IsWellFormed_example : IsWellFormed (
    run
      (Command.insert_draft sum
        ∷ Command.finish_draft leave
        ∷ Command.finish_draft leave
        ∷ Command.append (lit "next")
        ∷ Command.at_end 4
        ∷ [])
      start)
run-IsWellFormed_example =
    run-IsWellFormed
      (Command.insert_draft sum
        ∷ Command.finish_draft leave
        ∷ Command.finish_draft leave
        ∷ Command.append (lit "next")
        ∷ Command.at_end 4
        ∷ [])
      start start-IsWellFormed

emit_all_order_example :
    Emitted (sum ∷ sum ∷ []) start entry [] [] (emit_all (sum ∷ sum ∷ []) start)
emit_all_order_example = emit_all_order (sum ∷ sum ∷ []) start entry [] [] start_current refl refl

finish_open_example : Finished leave start entry (finish leave start)
finish_open_example = finish_open leave start entry start_current refl

-- An entry block that ends in a return, with a builder in a second block.
abbrev returned : Instr
returned = record {
  ident = 5;
  parent = 0;
  typ = void;
  opname = lit "ret";
  operands = one ∷ [];
  operands_fixed = false;
  name = [];
  flags = [];
  metadata = [];
  kind = Kind.ret;
}

abbrev closed_entry : Block
closed_entry = record entry { instructions = returned ∷ []; terminator = some 5 }

abbrev second : Block
second = record { ident = 1; name = lit "next"; instructions = []; terminator = none }

abbrev in_second : State
in_second = record (start_with closed_entry 6) {
  blocks = closed_entry ∷ second ∷ [];
  current = some 1;
}

in_second-IsWellFormed : IsWellFormed in_second
unfolding find_block llvmlite.Builder.Blocks.has_instr
in_second-IsWellFormed = record {
  anchored = λ i b c f. omega arith;
  ended = λ i b t f h. elim (Bool-cases (0 == i)) [
    | inl e ↦
        let same : closed_entry ≡ b = cc (rw e at f) in
        ground
          (arith, ap (λ (x : Block). x.terminator) same, ap (λ (x : Block). x.instructions) same)
    | inr e ↦ elim (Bool-cases (1 == i)) [
      | inl e' ↦
          let same : second ≡ b = cc (rw (e, e') at f) in
          cc (ap (λ (x : Block). x.terminator) same, h)
      | inr e' ↦ cc (rw (e, e') at f)
    ]
  ];
  fresh = λ i b f. elim (Bool-cases (0 == i)) [
    | inl e ↦ ground (arith, e)
    | inr e ↦ elim (Bool-cases (1 == i)) [
      | inl e' ↦ ground (arith, e')
      | inr e' ↦ cc (rw (e, e') at f)
    ]
  ];
}

goto_block_lem_example :
    IsFront closed_entry (front closed_entry)
    × (goto_block 0 (emit sum) in_second ≡ (
      (emit sum (stood 0 (front closed_entry) in_second)).0,
      stood 1 0 (emit sum (stood 0 (front closed_entry) in_second)).1,
    ))
unfolding find_block llvmlite.Builder.create llvmlite.Builder.insert
goto_block_lem_example =
    goto_block_lem 0 1 closed_entry second (emit sum) in_second in_second-IsWellFormed refl refl
      refl

abbrev ended_entry : Block
ended_entry = record entry { terminator = some 7 }

ended_current : current_block (start_with ended_entry 8) ≡ some ended_entry
unfolding current_block find_block
ended_current = refl

finish_ended_example :
    finish leave (start_with ended_entry 8)
    ≡ (err assertion_error, named [] (start_with ended_entry 8))
unfolding is_terminated
finish_ended_example = finish_ended leave (start_with ended_entry 8) ended_entry ended_current refl

if_then_flow_example :
    Conditional flag
      (sum ∷ [])
      start
      entry
      (if_then env flag none (λ bbend. emit_all (sum ∷ [])) start)
if_then_flow_example =
    if_then_flow env flag (sum ∷ []) entry start start-IsWellFormed start_current refl

remove-emit_example :
    (((emit sum >>= remove) start).0 ≡ ok tt)
    × (current_block ((emit sum >>= remove) start).1 ≡ some entry)
    × (((emit sum >>= remove) start).1.anchor ≡ start.anchor)
unfolding has_instr
remove-emit_example = remove-emit sum start entry start-IsWellFormed start_current refl

abbrev instr_with : ℕ → List Value → Kind → Instr
instr_with ident operands kind = record {
  ident = ident;
  parent = 0;
  typ = int 32;
  opname = lit "add";
  operands = operands;
  operands_fixed = false;
  name = lit "v";
  flags = [];
  metadata = [];
  kind = kind;
}

abbrev old : Instr
old = instr_with 1 (one ∷ one ∷ []) Kind.operation

abbrev new : Instr
new = instr_with 2 (one ∷ one ∷ []) Kind.operation

abbrev old_value : Value
old_value = Value.instruction 1 (int 32) (lit "v")

abbrev filled : Block
filled = record entry {
  instructions = old ∷ instr_with 3 (old_value ∷ one ∷ []) Kind.operation ∷ [];
}

replaced : (replace 0 old new (start_with filled 4)).0 ≡ ok tt
unfolding replace
replaced = refl

replace_complete_example :
    IsReplaced 1 new (filled ∷ []) (replace 0 old new (start_with filled 4)).1.blocks
replace_complete_example = replace_complete 0 old new (start_with filled 4) refl replaced

fix_arguments_iff_example :
    (fix_arguments (metadata ∷ int 32 ∷ []) (one ∷ one ∷ flag ∷ [])
      ≡ ok (md_argument one ∷ one ∷ flag ∷ []))
    ↔ Fits (metadata ∷ int 32 ∷ []) (one ∷ one ∷ flag ∷ []) (md_argument one ∷ one ∷ flag ∷ [])
fix_arguments_iff_example =
    fix_arguments_iff (metadata ∷ int 32 ∷ []) (one ∷ one ∷ flag ∷ [])
      (md_argument one ∷ one ∷ flag ∷ [])
