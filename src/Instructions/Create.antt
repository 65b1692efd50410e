-- ===== src/Instructions/Create.antt =====
-- The constructors of llvmlite/ir/instructions.py up to their call of `Instruction.__init__`: the
-- checks on the operands and the type of the result.
use llvmlite.Prelude.{ℕ, Bool, false, List, [], ◌∷◌, ◌&&◌, Option, none, some, if◌then◌else◌}
use llvmlite.Prelude.Texts.{Text, lit}
use llvmlite.Prelude.Int.{pos}
use llvmlite.Result.{Result, ok, err, ◌>>=◌, type_error, value_error, assertion_error}
use llvmlite.Types.{Ty, Tys, void, int, vector, is_int, type_eq, as_pointer, pointee}
use llvmlite.Types.Lookup.{Bodies, element_at}
use llvmlite.Values.{Value, type_of}
use llvmlite.Values.Gep.{gep_instr_type, is_opaque}
use llvmlite.Instructions.{Draft, Kind}

-- `Instruction`
abbrev pub draft : Ty → Text → List Value → Text → List Text → Kind → Draft
draft typ opname operands name flags kind = record {
  typ = typ;
  opname = opname;
  operands = operands;
  name = name;
  flags = flags;
  kind = kind;
}

-- `Terminator`, whose type is `void` and whose name is empty.
abbrev pub terminator : Text → List Value → Kind → Draft
terminator opname operands kind = draft void opname operands [] [] kind

-- `Ret`
unfoldable pub ret : Text → Option Value → Draft
ret opname none = terminator opname [] Kind.ret
ret opname (some v) = terminator opname (v ∷ []) Kind.ret

-- `SelectInstr`
unfoldable pub select : Value → Value → Value → Text → List Text → Result Draft
unfolding lit
select cond lhs rhs name flags =
    if type_eq (type_of lhs) (type_of rhs)
    then ok (draft (type_of lhs) (lit "select") (cond ∷ lhs ∷ rhs ∷ []) name flags Kind.select)
    else err assertion_error

-- The type of a comparison.
unfoldable pub compare_type : Ty → Ty
compare_type (vector t n) = vector (int 1) n
compare_type t = int 1

-- `CastInstr`
unfoldable pub cast : Text → Value → Ty → Text → Draft
cast op val typ name = draft typ op (val ∷ []) name [] Kind.cast

-- The type that `LoadInstr` and `LoadAtomicInstr` load: the given one, the allocated type of an
-- `alloca`, or the pointee.
unfoldable pub allocated_type : Value → Option Ty
allocated_type (Value.alloca i a t n) = some a
allocated_type v = none

unfoldable pub loaded_pointee : Bodies → Ty → Result Ty
unfolding is_opaque pointee
loaded_pointee bodies t =
    is_opaque bodies t >>= λ opaque. if opaque then err value_error else pointee t

unfoldable pub loaded_type : Bodies → Value → Option Ty → Result Ty
unfolding allocated_type loaded_pointee
loaded_type bodies ptr (some t) = ok t
loaded_type bodies ptr none = elim (allocated_type ptr) [
  | some a ↦ ok a
  | none ↦ loaded_pointee bodies (type_of ptr)
]

unfoldable pub load : Bodies → Value → Text → Option Ty → Option ℕ → Result Draft
unfolding lit loaded_type
load bodies ptr name typ align = loaded_type bodies ptr typ >>= λ t.
    ok (draft t (lit "load") (ptr ∷ []) name [] (Kind.load align))

unfoldable pub load_atomic : Bodies → Value → Text → ℕ → Text → Option Ty → Result Draft
unfolding lit loaded_type
load_atomic bodies ptr ordering align name typ = loaded_type bodies ptr typ >>= λ t.
    ok (draft t (lit "load atomic") (ptr ∷ []) name [] (Kind.load_atomic ordering align))

-- `StoreInstr` and `StoreAtomicInstr`
unfoldable pub store : Value → Value → Option ℕ → Draft
unfolding lit
store val ptr align = draft void (lit "store") (val ∷ ptr ∷ []) [] [] (Kind.store align)

unfoldable pub store_atomic : Value → Value → Text → ℕ → Draft
unfolding lit
store_atomic val ptr ordering align =
    draft void (lit "store atomic") (val ∷ ptr ∷ []) [] [] (Kind.store_atomic ordering align)

abbrev option_list : Option Value → List Value
option_list none = []
option_list (some v) = v ∷ []

-- `AllocaInstr`
unfoldable pub alloca : Ty → Option Value → Text → Result Draft
unfolding lit as_pointer
alloca typ count name = as_pointer typ 0 >>= λ t.
    ok (draft t (lit "alloca") (option_list count) name [] (Kind.alloca_of typ none))

-- `GEPInstr`
unfoldable pub gep : Bodies → Value → List Value → Bool → Text → Option Ty → Result Draft
unfolding lit gep_instr_type
gep bodies ptr indices inbounds name source_etype =
    gep_instr_type bodies (type_of ptr) indices source_etype >>= λ (typ, source). ok (
      draft typ (lit "getelementptr") (ptr ∷ indices) name []
        (Kind.gep_of ptr indices inbounds source))

-- `PhiInstr`
unfoldable pub phi : Ty → Text → List Text → Draft
unfolding lit
phi typ name flags = draft typ (lit "phi") [] name flags (Kind.phi [])

-- `vector.type.element`, behind the check of the class.
unfoldable pub element_of : Ty → Result Ty
element_of (vector t n) = ok t
element_of t = err type_error

unfoldable pub extract_element : Value → Value → Text → Result Draft
unfolding lit element_of is_int
extract_element v index name = element_of (type_of v) >>= λ t.
    if is_int (type_of index)
    then ok (draft t (lit "extractelement") (v ∷ index ∷ []) name [] Kind.extract_element)
    else err type_error

unfoldable pub insert_element : Value → Value → Value → Text → Result Draft
unfolding lit element_of is_int type_eq
insert_element v value index name = element_of (type_of v) >>= λ t.
    if type_eq (type_of value) t && is_int (type_of index)
    then ok (
        draft (type_of v) (lit "insertelement") (v ∷ value ∷ index ∷ []) name []
          Kind.insert_element)
    else err type_error

-- `for i in indices: typ = typ.elements[i]`, whose errors are type errors.
unfoldable pub element_path : Bodies → Ty → List ℕ → Result Ty
element_path bodies typ [] = ok typ
element_path bodies typ (i ∷ indices) = elim (element_at bodies typ (pos i)) [
  | ok t ↦ element_path bodies t indices
  | err e ↦ err type_error
]

unfoldable pub extract_value : Bodies → Value → List ℕ → Text → Result Draft
unfolding lit element_path
extract_value bodies agg indices name = element_path bodies (type_of agg) indices >>= λ t.
    ok (draft t (lit "extractvalue") (agg ∷ []) name [] (Kind.extract_value agg indices))

unfoldable pub insert_value : Bodies → Value → Value → List ℕ → Text → Result Draft
unfolding lit element_path type_eq
insert_value bodies agg elem indices name = element_path bodies (type_of agg) indices >>= λ t.
    if type_eq (type_of elem) t
    then ok (
        draft (type_of agg) (lit "insertvalue") (agg ∷ elem ∷ []) name []
          (Kind.insert_value agg elem indices))
    else err type_error

-- `AtomicRMW` and `CmpXchg`
unfoldable pub atomic_rmw : Text → Value → Value → Text → Text → Draft
unfolding lit
atomic_rmw op ptr val ordering name =
    draft (type_of val) (lit "atomicrmw") (ptr ∷ val ∷ []) name [] (Kind.atomic_rmw op ordering)

unfoldable pub cmpxchg : Value → Value → Value → Text → Text → Text → Draft
unfolding lit
cmpxchg ptr cmp val ordering failordering name =
    draft (Ty.literal_struct (Tys.cons (type_of val) (Tys.cons (int 1) Tys.nil)) false)
      (lit "cmpxchg") (ptr ∷ cmp ∷ val ∷ []) name [] (Kind.cmpxchg ordering failordering)
