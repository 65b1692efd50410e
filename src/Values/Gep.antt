-- ===== src/Values/Gep.antt =====
-- Element addresses: the `gep` methods of llvmlite/ir/types.py, and the type of a `GEPInstr` of
-- llvmlite/ir/instructions.py.
use llvmlite.Prelude.{ℕ, Bool, true, false, List, [], ◌∷◌, Option, none, some, if◌then◌else◌}
use llvmlite.Prelude.Int.{ℤ, pos}
use llvmlite.Result.{Result, ok, err, type_error, value_error, attribute_error, ◌>>=◌}
use llvmlite.Types.{
  Tys, Ty, ptr, typed_ptr, array, literal_struct, identified, is_int, is_pointer, as_pointer,
  pointee,
}
use llvmlite.Types.Lookup.{Bodies, element_at}
use llvmlite.Values.{Value, Const, constant, formatted, number, boolean, type_of}

-- A Python object as an index of a tuple: a `bool` is an integer.
unfoldable pub as_index : Const → Result ℤ
as_index (number k) = ok k
as_index (boolean true) = ok (pos 1)
as_index (boolean false) = ok (pos 0)
as_index _ = err type_error

-- `i.constant` as an index.
unfoldable pub constant_index : Value → Result ℤ
unfolding as_index
constant_index (constant t c) = as_index c
constant_index (formatted t c) = as_index c
constant_index v = err attribute_error

-- `typ.gep(i)` of each class; the others have no such method.
unfoldable pub gep : Bodies → Ty → Value → Result Ty
unfolding constant_index element_at
gep bodies (typed_ptr t a) i = if is_int (type_of i) then ok t else err type_error
gep bodies (array t n) i = if is_int (type_of i) then ok t else err type_error
gep bodies (literal_struct ts p) i =
    if is_int (type_of i)
    then (constant_index i >>= λ k. element_at bodies (literal_struct ts p) k)
    else err type_error
gep bodies (identified name p) i =
    if is_int (type_of i)
    then (constant_index i >>= λ k. element_at bodies (identified name p) k)
    else err type_error
gep bodies t i = err attribute_error

-- `for i in indices: outtype = outtype.gep(i)`
unfoldable pub gep_all : Bodies → Ty → List Value → Result Ty
unfolding gep
gep_all bodies t [] = ok t
gep_all bodies t (i ∷ indices) = gep bodies t i >>= λ next. gep_all bodies next indices

-- The variables of the loop in `GEPInstr.__init__`.
pub record Walk : Type 0 where
  pub typ : Ty
  pub lasttyp : Option Ty
  pub lastaddrspace : ℕ

unfoldable pub last_addrspace : Ty → ℕ → ℕ
last_addrspace (ptr a) old = a
last_addrspace (typed_ptr t a) old = a
last_addrspace t old = old

unfoldable pub walk : Bodies → Walk → List Value → Result Walk
unfolding gep last_addrspace
walk bodies w [] = ok w
walk bodies w (i ∷ indices) = gep bodies w.typ i >>= λ next.
    walk bodies
      (record {
        typ = next;
        lasttyp = some w.typ;
        lastaddrspace = last_addrspace w.typ w.lastaddrspace;
      })
      indices

unfoldable pub was_pointer : Option Ty → Bool
was_pointer none = false
was_pointer (some t) = is_pointer t

unfoldable pub last_type : Ty → Option Ty → Ty
last_type t none = t
last_type t (some l) = l

-- The result type behind the loop.
unfoldable pub walked_type : Walk → Result Ty
unfolding was_pointer last_type is_pointer
walked_type w =
    if is_pointer w.typ
    then as_pointer w.typ w.lastaddrspace
    else if was_pointer w.lasttyp
    then ok (last_type w.typ w.lasttyp)
    else as_pointer w.typ w.lastaddrspace

abbrev pub start_walk : Ty → Walk
start_walk t = record { typ = t; lasttyp = none; lastaddrspace = 0 }

-- `ptr.type.is_opaque`: pointers and structs have it.
unfoldable pub is_none : Option Tys → Bool
is_none none = true
is_none (some ts) = false

unfoldable pub is_opaque : Bodies → Ty → Result Bool
unfolding is_none
is_opaque bodies (ptr a) = ok true
is_opaque bodies (typed_ptr t a) = ok false
is_opaque bodies (literal_struct ts p) = ok false
is_opaque bodies (identified name p) = ok (is_none (bodies name))
is_opaque bodies t = err attribute_error

-- The type and the `source_etype` of a `GEPInstr`.
unfoldable pub gep_instr_type : Bodies → Ty → List Value → Option Ty → Result (Ty × Ty)
unfolding walk walked_type is_opaque pointee
gep_instr_type bodies t indices (some source_etype) = ok (t, source_etype)
gep_instr_type bodies t indices none = is_opaque bodies t >>= λ opaque.
    if opaque
    then err value_error
    else (walk bodies (start_walk t) indices >>= λ w.
        walked_type w >>= λ typ. pointee t >>= λ source_etype. ok (typ, source_etype))
