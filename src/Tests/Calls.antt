-- ===== src/Tests/Calls.antt =====
-- The replacement of calls in llvmlite/ir/transforms.py, and calls of intrinsics by
-- llvmlite/ir/builder.py.
use llvmlite.Prelude.{
  ℕ, ◌≡◌, refl, ap, ◌∙◌, arith, Bool, true, false, not, List, [], ◌∷◌, map, some, none,
}
use llvmlite.Prelude.Texts.{Text, lit}
use llvmlite.Result.{Result, ok, type_error}
use llvmlite.Scope
use llvmlite.Types.{typed_ptr, Ty, int, function, void, literal_struct, type_eq}
use llvmlite.Values.{Value, func, argument, Env}
use llvmlite.Values.Identity.{value_eq}
use llvmlite.Instructions.{Instr, Kind, CallOptions}
use llvmlite.Builder.{Block, State}
use llvmlite.Module.Metadata
use llvmlite.Module.Globals.{function_of}
use llvmlite.Builder.Intrinsics.{Linked, Setting, call_intrinsic}
use llvmlite.Builder.Intrinsics.Declared.{CallAlike, call_intrinsic_again}
use llvmlite.Transforms.{replace_all_calls, same_function_type, visit_instruction}
use llvmlite.Transforms.Refused.{replace_all_calls_refused}
use llvmlite.Transforms.Replaced.{
  verdict, in_some_block, fits, clashes, in_every_block, calls_of, on_block, redirected, gathered,
  block_calls, listed_call, replace_all_calls_lem, replace_all_calls_complete,
}

abbrev env : Env
env = record {
  typed_pointers = false;
  float_bits = λ c. 0;
  to_single = λ n. n;
  to_half = λ n. n;
  str_of = λ c. [];
}

abbrev unary : Ty
unary = function_of (int 32) (int 32 ∷ [])

-- Functions by their identities, the last one of another type.
abbrev orig : Value
orig = func 1 (typed_ptr unary 0) (lit "f")

abbrev repl : Value
repl = func 2 (typed_ptr unary 0) (lit "g")

abbrev other : Value
other = func 3 (typed_ptr (function_of void []) 0) (lit "h")

abbrev no_options : CallOptions
no_options = record { cconv = none; tail = []; fastmath = []; attributes = []; arg_attributes = [] }

abbrev call_of : ℕ → Value → Instr
call_of i fn = record {
  ident = i;
  parent = 0;
  typ = int 32;
  opname = lit "call";
  operands = fn ∷ argument 9 (int 32) (lit "x") ∷ [];
  operands_fixed = false;
  name = lit "y";
  flags = [];
  metadata = [];
  kind = Kind.call no_options;
}

abbrev body : List (List Block)
body =
    (record {
      ident = 0;
      name = lit "entry";
      instructions = call_of 10 orig ∷ call_of 11 repl ∷ call_of 12 orig ∷ [];
      terminator = none;
    }
      ∷ [])
    ∷ []

fitting : in_every_block (fits env orig repl) body ≡ true
unfolding value_eq same_function_type llvmlite.Transforms.is_call llvmlite.Types.is_pointer
    llvmlite.Values.type_of llvmlite.Types.pointee llvmlite.Values.Wrap.tys_of
fitting = refl

clashing : in_every_block (clashes env orig other) body ≡ true
unfolding value_eq same_function_type llvmlite.Transforms.is_call llvmlite.Types.is_pointer
    llvmlite.Values.type_of llvmlite.Types.pointee
clashing = refl

apart : value_eq env repl orig ≡ false
unfolding value_eq
apart = refl

replace_all_calls_lem_example : replace_all_calls env body orig repl ≡ (
  ok tt,
  map (map (on_block (redirected env orig repl))) body,
  gathered (gathered (block_calls (listed_call env orig repl))) body,
)
replace_all_calls_lem_example = replace_all_calls_lem env body orig repl fitting

replace_all_calls_complete_example :
    in_every_block (λ instr. not (calls_of env orig instr)) (replace_all_calls env body orig repl).1
    ≡ true
replace_all_calls_complete_example = replace_all_calls_complete env body orig repl fitting apart

-- A call whose operands `replace_usage` has made a tuple of.
abbrev fixed_body : List (List Block)
fixed_body =
    (record {
      ident = 0;
      name = lit "entry";
      instructions = record (call_of 10 orig) { operands_fixed = true } ∷ [];
      terminator = none;
    }
      ∷ [])
    ∷ []

fixed_clashing : in_every_block (clashes env orig repl) fixed_body ≡ true
unfolding value_eq same_function_type llvmlite.Transforms.is_call llvmlite.Types.is_pointer
    llvmlite.Values.type_of llvmlite.Types.pointee llvmlite.Values.Wrap.tys_of
fixed_clashing = refl

replace_all_calls_refused_example :
    replace_all_calls env fixed_body orig repl
    ≡ (verdict (in_some_block (calls_of env orig) fixed_body) type_error, fixed_body, [])
replace_all_calls_refused_example =
    replace_all_calls_refused env fixed_body orig repl fixed_clashing

abbrev builder : State
builder = record {
  scope = Scope.empty;
  blocks = record { ident = 0; name = lit "entry"; instructions = []; terminator = none } ∷ [];
  metadata = Metadata.empty;
  next = 10;
  current = some 0;
  anchor = 0;
  debug_metadata = none;
}

abbrev linked : Linked
linked = record {
  builder = builder;
  globals = record { scope = Scope.empty; table = []; next = 0 };
}

abbrev setting : Setting
setting = record { typed_pointers = false; convention = λ fn. [] }

abbrev word : Value
word = argument 9 (int 32) (lit "x")

abbrev counted_once : Result Instr × Linked
counted_once = call_intrinsic setting (lit "llvm.ctpop") (int 32 ∷ []) none (word ∷ []) [] linked

abbrev counted : Instr
counted = record {
  ident = 10;
  parent = 0;
  typ = int 32;
  opname = lit "call";
  operands = func 0 (typed_ptr unary 0) (lit "llvm.ctpop.i32") ∷ word ∷ [];
  operands_fixed = false;
  name = lit ".1";
  flags = [];
  metadata = [];
  kind = Kind.call (record no_options { cconv = some [] });
}

counted_returned :
    call_intrinsic setting (lit "llvm.ctpop") (int 32 ∷ []) none (word ∷ []) [] linked
    ≡ (ok counted, counted_once.1)
unfolding call_intrinsic lit Scope.is_used llvmlite.Prelude.Texts.join
    llvmlite.Instructions.Calls.call llvmlite.Attributes.add_all llvmlite.Values.function_type
    llvmlite.Types.is_pointer llvmlite.Values.type_of llvmlite.Types.pointee llvmlite.Types.ty_list
    llvmlite.Values.Wrap.tys_of llvmlite.Prelude.Texts.decimal Scope.deduplicate Scope.dedup_loop
    Scope.count_up Scope.numbered
counted_returned = refl

call_intrinsic_again_example :
    ((call_intrinsic setting
        (lit "llvm.ctpop")
        (int 32 ∷ [])
        none
        (word ∷ [])
        []
        counted_once.1).1.globals
      ≡ counted_once.1.globals)
    × CallAlike counted
        (call_intrinsic setting
          (lit "llvm.ctpop")
          (int 32 ∷ [])
          none
          (word ∷ [])
          []
          counted_once.1).0
call_intrinsic_again_example =
    call_intrinsic_again setting (lit "llvm.ctpop") (int 32 ∷ []) none (word ∷ []) (word ∷ []) [] []
      linked counted_returned
