-- ===== src/Tests/Data.antt =====
-- Examples of the types, values, constants, attributes and metadata in llvmlite/ir.
use llvmlite.Prelude.{ℕ, ◌≡◌, ◌↔◌, ◌⊎◌, refl, true, false, List, [], ◌∷◌, none, arith}
use llvmlite.Prelude.Texts.{Text, lit, text_eq}
use llvmlite.Prelude.Int.{pos}
use llvmlite.Result.{ok}
use llvmlite.Scope
use llvmlite.Scope.{is_used}
use llvmlite.Types
use llvmlite.Types.{
  Ty, Tys, type_eq, int, float, void, metadata, ptr, typed_ptr, vector, array, literal_struct,
  as_pointer,
}
use llvmlite.Types.Equality.{type_eq_structural, no_opaque}
use llvmlite.Types.Lookup.{Bodies}
use llvmlite.Context
use llvmlite.Context.{Context, Struct, get_identified_type, set_body, bodies, find}
use llvmlite.Context.Stable.{get_identified_type_again}
use llvmlite.Values
use llvmlite.Values.{
  Env, Value, Values, constant, formatted, number, items, text, md_node, type_of, value_list,
}
use llvmlite.Values.Wrap.{Raw, Raws, make_constant, types_of, element_types}
use llvmlite.Values.Elements.{make_constant_elements}
use llvmlite.Values.Gep.{gep_instr_type, gep_all}
use llvmlite.Values.GepTypes.{visited, last_of, spaces_of, gep_instr_type-as_pointer}
use llvmlite.Values.ConstOps
use llvmlite.Values.ConstOps.{binop_text, const_binop, const_cast}
use llvmlite.Attributes.{to_list, AttrKind, add_all, has, alwaysinline, noinline}
use llvmlite.Attributes.Sets.{add_all_order}
use llvmlite.Module.Metadata
use llvmlite.Module.Metadata.{Metadata, Operands, add_metadata, new_node}
use llvmlite.Module.Metadata.Cache.{all_cached, operands_comparable, Extends-refl}
use llvmlite.Module.Metadata.Again.{Unchanged, add_metadata_again}

abbrev i8 : Ty
i8 = int 8

abbrev i32 : Ty
i32 = int 32

abbrev env : Env
env = record {
  typed_pointers = false;
  float_bits = λ c. 0;
  to_single = λ n. n;
  to_half = λ n. n;
  str_of = λ c. [];
}

abbrev no_bodies : Bodies
no_bodies name = none

type_eq_structural_example : (type_eq (array i8 3) (array i8 4) ≡ true) ↔ (array i8 3 ≡ array i8 4)
unfolding no_opaque
type_eq_structural_example = type_eq_structural (array i8 3) (array i8 4) refl refl

abbrev pair_context : Context
pair_context = (get_identified_type (lit "pair") false Context.empty).1

pair_made :
    (get_identified_type (lit "pair") false Context.empty).0 ≡ ok (Ty.identified (lit "pair") false)
unfolding get_identified_type Scope.register lit is_used text_eq
pair_made = refl

get_identified_type_again_example :
    get_identified_type (lit "pair") true pair_context
    ≡ (ok (Ty.identified (lit "pair") false), pair_context)
get_identified_type_again_example =
    get_identified_type_again (lit "pair") false true Context.empty pair_made

abbrev one_two : Raws
one_two = Raws.more (Raw.atom (number (pos 1))) (Raws.more (Raw.atom (number (pos 2))) Raws.end)

abbrev wrapped : Values
wrapped =
    Values.cons (constant i8 (number (pos 1)))
      (Values.cons (constant i8 (number (pos 2))) Values.nil)

wrapped_lem :
    make_constant no_bodies (Raw.sequence 7 one_two) (array i8 2)
    ≡ ok (constant (array i8 2) (items wrapped))
unfolding make_constant llvmlite.Values.Wrap.assemble element_types llvmlite.Values.Wrap.count
    llvmlite.Values.Wrap.scalar_constant
wrapped_lem = refl

make_constant_elements_example : types_of (value_list wrapped) ≡ i8 ∷ i8 ∷ []
unfolding element_types
make_constant_elements_example =
    make_constant_elements no_bodies 7 one_two (array i8 2) (i8 ∷ i8 ∷ []) (array i8 2) wrapped refl
      tt wrapped_lem

abbrev index : ℕ → Value
index n = constant i32 (number (pos n))

gep_made :
    gep_instr_type no_bodies (typed_ptr (array i8 4) 3) (index 0 ∷ index 2 ∷ []) none
    ≡ ok (typed_ptr i8 3, array i8 4)
unfolding gep_instr_type type_of Types.is_int as_pointer
gep_made = refl

gep_instr_type-as_pointer_example :
    (ts : List Ty) × (visited no_bodies (typed_ptr (array i8 4) 3) (index 0 ∷ index 2 ∷ []) ≡ ok ts)
    × ((last : Ty) × (gep_all no_bodies (typed_ptr (array i8 4) 3) (index 0 ∷ index 2 ∷ [])
          ≡ ok last)
        × ((as_pointer last (last_of 0 (spaces_of ts)) ≡ ok (typed_ptr i8 3))
            ⊎ ((last ≡ void) ⊎ (last ≡ metadata))))
gep_instr_type-as_pointer_example =
    gep_instr_type-as_pointer no_bodies (typed_ptr (array i8 4) 3) (index 0 ∷ index 2 ∷ []) gep_made

cast_made :
    const_cast env ConstOps.bitcast (index 1) float
    ≡ ok (formatted float (text (ConstOps.cast_text env ConstOps.bitcast (index 1) float)))
unfolding const_cast type_eq type_of
cast_made = refl

abbrev given : List Text
given = lit "nounwind" ∷ lit "cold" ∷ []

abbrev given_otherwise : List Text
given_otherwise = lit "cold" ∷ lit "nounwind" ∷ lit "cold" ∷ []

given_added : add_all AttrKind.function given [] ≡ ok (lit "cold" ∷ lit "nounwind" ∷ [])
unfolding add_all text_eq lit llvmlite.Attributes.known
given_added = refl

given_otherwise_added :
    add_all AttrKind.function given_otherwise [] ≡ ok (lit "nounwind" ∷ lit "cold" ∷ [])
unfolding add_all text_eq lit llvmlite.Attributes.known
given_otherwise_added = refl

same_names : (name : Text) → has name given ≡ has name given_otherwise
unfolding has
same_names name = ground arith

add_all_order_example :
    to_list true AttrKind.function void (lit "cold" ∷ lit "nounwind" ∷ [])
    ≡ to_list true AttrKind.function void (lit "nounwind" ∷ lit "cold" ∷ [])
add_all_order_example =
    add_all_order true AttrKind.function void given given_otherwise given_added
      given_otherwise_added same_names

abbrev operands : Operands
operands =
    Metadata.more (Metadata.string (lit "a"))
      (Metadata.more (Metadata.sequence (Metadata.more Metadata.absent Metadata.end)) Metadata.end)

add_metadata_again_example :
    ((add_metadata env operands (add_metadata env operands Metadata.empty).1).0
      ≡ (add_metadata env operands Metadata.empty).0)
    × Unchanged
        (add_metadata env operands Metadata.empty).1
        (add_metadata env operands (add_metadata env operands Metadata.empty).1).1
unfolding operands_comparable all_cached
add_metadata_again_example =
    add_metadata_again env operands Metadata.empty (add_metadata env operands Metadata.empty).1 refl
      refl (Extends-refl (add_metadata env operands Metadata.empty).1)
