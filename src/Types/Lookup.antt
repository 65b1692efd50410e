-- ===== src/Types/Lookup.antt =====
-- `t.elements[i]` in llvmlite/ir/types.py: Python's tuples, and `_Repeat` of arrays and vectors.
use llvmlite.Prelude.{suc, ℕ, ◌-◌, List, Option, none, some, ltb, length, get_elem?, if◌then◌else◌}
use llvmlite.Prelude.Texts.{Text}
use llvmlite.Prelude.Int.{ℤ, pos, negsuc}
use llvmlite.Result.{Result, ok, err, index_error, attribute_error, type_error}
use llvmlite.Types.{Ty, Tys, vector, array, literal_struct, identified, ty_list}

-- The bodies of the identified structs, by name: `none` is one that `set_body` has not reached.
abbrev pub Bodies : Type 0
Bodies = Text → Option Tys

unfoldable pub or_index_error : Option Ty → Result Ty
or_index_error none = err index_error
or_index_error (some t) = ok t

-- A tuple's `[i]`: negative indices count from the end.
unfoldable pub tuple_index : List Ty → ℤ → Result Ty
unfolding or_index_error
tuple_index ts (pos n) = or_index_error (get_elem? ts n)
tuple_index ts (negsuc n) =
    if ltb n (length ts)
    then or_index_error (get_elem? ts (length ts - (suc n)))
    else err index_error

-- `_Repeat.__getitem__`, whose indices are not negative.
unfoldable pub repeat_index : Ty → ℕ → ℤ → Result Ty
repeat_index value size (pos n) = if ltb n size then ok value else err index_error
repeat_index value size (negsuc n) = err index_error

-- `None[i]` is a type error.
unfoldable pub body_index : Option Tys → ℤ → Result Ty
unfolding tuple_index ty_list
body_index none i = err type_error
body_index (some ts) i = tuple_index (ty_list ts) i

unfoldable pub element_at : Bodies → Ty → ℤ → Result Ty
unfolding body_index repeat_index
element_at bodies (vector t n) i = repeat_index t n i
element_at bodies (array t n) i = repeat_index t n i
element_at bodies (literal_struct ts p) i = tuple_index (ty_list ts) i
element_at bodies (identified name p) i = body_index (bodies name) i
element_at bodies t i = err attribute_error
