-- ===== src/Instructions/Print/Descr.antt =====
-- `descr` of the classes of llvmlite/ir/instructions.py.
use llvmlite.Prelude.{
  zero, suc, suc, ℕ, Bool, true, false, List, [], ◌∷◌, ◌++◌, ◌==◌, if◌then◌else◌, Option, none,
  some,
}
use llvmlite.Prelude.Texts.{Text, lit, decimal, join}
use llvmlite.Result.{Result, ok, err, index_error, value_error, attribute_error, ◌>>=◌}
use llvmlite.Types.{Ty, function}
use llvmlite.Values.{Value, Env, get_reference, type_of, function_type}
use llvmlite.Attributes.{AttrKind, ArgumentAttributes, to_list, argument_list}
use llvmlite.Instructions.{Instr, CallOptions, Clause}
use llvmlite.Instructions.Print.{cat, type_str, typed_reference, stringify_metadata}

-- `self.operands[i]`
unfoldable pub operand : ℕ → List Value → Result Value
operand i [] = err index_error
operand zero (v ∷ vs) = ok v
operand (suc i) (v ∷ vs) = operand i vs

-- `[a] = self.operands`, and with two and three names.
abbrev pub unpack_one : List Value → Result Value
unpack_one (a ∷ []) = ok a
unpack_one _ = err value_error

abbrev pub unpack_two : List Value → Result (Value × Value)
unpack_two (a ∷ b ∷ []) = ok (a, b)
unpack_two _ = err value_error

abbrev pub unpack_three : List Value → Result (Value × Value × Value)
unpack_three (a ∷ b ∷ c ∷ []) = ok (a, b, c)
unpack_three _ = err value_error

unfoldable pub align_text : Option ℕ → Text
unfolding lit
align_text none = []
align_text (some n) = lit ", align " ++ decimal n

-- `' '.join([opname] + self.flags)`, which is `opname` without flags.
unfoldable pub with_flags : Text → List Text → Text
unfolding lit
with_flags opname flags = join (lit " ") (opname ∷ flags)

unfoldable pub spaced_flags : List Text → Text
unfolding lit
spaced_flags [] = []
spaced_flags (f ∷ fs) = (lit " " ++ f) ++ spaced_flags fs

-- `["label {0}".format(blk.get_reference()) ...]` of an indirect branch.
unfoldable pub destination_texts : Env → List Value → List Text
unfolding lit get_reference
destination_texts env [] = []
destination_texts env (b ∷ bs) = (lit "label " ++ get_reference env b) ∷ destination_texts env bs

-- The cases of a switch.
unfoldable pub case_texts : Env → List (Value × Value) → List Text
unfolding lit typed_reference get_reference
case_texts env [] = []
case_texts env ((v, b) ∷ cases) =
    cat (typed_reference env v ∷ lit ", label " ∷ get_reference env b ∷ []) ∷ case_texts env cases

-- The incoming pairs of a `phi`.
unfoldable pub incoming_texts : Env → List (Value × Value) → List Text
unfolding lit get_reference
incoming_texts env [] = []
incoming_texts env ((v, b) ∷ incs) =
    cat (lit "[" ∷ get_reference env v ∷ lit ", " ∷ get_reference env b ∷ lit "]" ∷ [])
    ∷ incoming_texts env incs

unfoldable pub clause_text : Env → Clause → Text
unfolding lit typed_reference
clause_text env (Clause.catch v) = lit "catch " ++ typed_reference env v
clause_text env (Clause.filter v) = lit "filter " ++ typed_reference env v

unfoldable pub clause_lines : Env → List Clause → Text
unfolding lit clause_text
clause_lines env [] = []
clause_lines env (c ∷ cs) = (10 ∷ (lit "      " ++ clause_text env c)) ++ clause_lines env cs

-- `self.arg_attributes` at a position.
unfoldable pub attributes_at : ℕ → List (ℕ × ArgumentAttributes) → Option ArgumentAttributes
attributes_at i [] = none
attributes_at i ((j, a) ∷ rest) = if j == i then some a else attributes_at i rest

-- `' '.join(...) + ' '` of the attributes of an argument, or nothing.
unfoldable pub arg_attr_text : Env → Value → Option ArgumentAttributes → Result Text
unfolding lit argument_list
arg_attr_text env a none = ok []
arg_attr_text env a (some attrs) = argument_list env.typed_pointers (type_of a) attrs >>= λ names.
    ok (join (lit " ") names ++ lit " ")

-- `descr_arg` over the arguments.
unfoldable pub arg_texts : Env → List (ℕ × ArgumentAttributes) → ℕ → List Value → Result (List Text)
unfolding lit arg_attr_text attributes_at get_reference
arg_texts env attrs i [] = ok []
arg_texts env attrs i (a ∷ args) = arg_attr_text env a (attributes_at i attrs) >>= λ given.
    arg_texts env attrs (suc i) args >>= λ rest.
    ok (cat (type_str env (type_of a) ∷ lit " " ∷ given ∷ get_reference env a ∷ []) ∷ rest)

-- `' ' + ' '.join(attributes._to_list(...)) if attributes else ''`
unfoldable pub attribute_text : Env → AttrKind → Ty → List Text → Result Text
unfolding lit to_list
attribute_text env kind typ [] = ok []
attribute_text env kind typ (a ∷ attrs) =
    to_list env.typed_pointers kind typ (a ∷ attrs) >>= λ names.
    ok (lit " " ++ join (lit " ") names)

-- The function type of a variadic callee, and the return type of another.
abbrev called_type : Ty → Result (Ty × Ty)
called_type (function r ts true) = ok (function r ts true, r)
called_type (function r ts false) = ok (r, r)
called_type t = err attribute_error

-- `"{0} "` of a text that is not empty.
unfoldable pub marker_text : Text → Text
unfolding lit
marker_text [] = []
marker_text (c ∷ cs) = (c ∷ cs) ++ lit " "

abbrev cconv_text : Option Text → Text
cconv_text none = []
cconv_text (some t) = marker_text t

-- `CallInstr._descr`
unfoldable pub call_descr : Env → Instr → CallOptions → Value → List Value → Bool → Result Text
unfolding lit function_type get_reference arg_texts attribute_text marker_text stringify_metadata
    cat
call_descr env instr options callee args add_metadata =
    arg_texts env options.arg_attributes 0 args >>= λ arguments. function_type callee >>= λ fnty.
    called_type fnty >>= λ (ty, return_type).
    attribute_text env AttrKind.call return_type options.attributes >>= λ fn_attrs.
    attribute_text env AttrKind.fastmath return_type options.fastmath >>= λ fm_attrs. ok (
      cat (
        marker_text options.tail
        ∷ instr.opname
        ∷ fm_attrs
        ∷ lit " "
        ∷ cconv_text options.cconv
        ∷ type_str env ty
        ∷ lit " "
        ∷ get_reference env callee
        ∷ lit "("
        ∷ join (lit ", ") arguments
        ∷ lit ")"
        ∷ fn_attrs
        ∷ (if add_metadata then stringify_metadata env true instr.metadata else [])
        ∷ (10 ∷ [])
        ∷ []))

abbrev pub with_call : Env → Instr → CallOptions → List Value → Bool → Result Text
with_call env instr options [] add_metadata = err index_error
with_call env instr options (callee ∷ args) add_metadata =
    call_descr env instr options callee args add_metadata
