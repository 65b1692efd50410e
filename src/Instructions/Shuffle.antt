-- ===== src/Instructions/Shuffle.antt =====
-- `ShuffleVector` of llvmlite/ir/instructions.py. Its second vector is a value: the bare `Undefined`,
-- which has neither a type nor a reference, is none, and a constant with undefined content does not
-- equal it.
use llvmlite.Prelude.{
  ◌==◌, ℕ, Bool, true, false, [], ◌∷◌, ◌*◌, Option, none, some, if◌then◌else◌, ltb,
}
use llvmlite.Prelude.Texts.{Text, lit}
use llvmlite.Prelude.Int.{ℤ, pos, negsuc}
use llvmlite.Result.{Result, ok, err, type_error, index_error, attribute_error, guard, ◌>>=◌, ◌>>◌}
use llvmlite.Types.{Ty, vector, int, type_eq}
use llvmlite.Values.{
  Value, Values, Const, constant, formatted, nil, cons, items, bytes, number, boolean, real, other,
  type_of,
}
use llvmlite.Instructions.{Draft, Kind}
use llvmlite.Instructions.Create.{draft, element_of}

-- `i in range(n)`
unfoldable pub in_range : ℕ → ℤ → Bool
in_range n (pos i) = ltb i n
in_range n (negsuc i) = false

abbrev in_range_option : ℕ → Option ℤ → Bool
in_range_option n none = false
in_range_option n (some i) = in_range n i

-- The same of the content of a constant, where a parameter gives the integer that a float or another
-- object equals, if it equals one.
unfoldable pub is_lane : (ℕ → Option ℤ) → ℕ → Const → Bool
unfolding in_range
is_lane equals n (number i) = in_range n i
is_lane equals n (boolean true) = ltb 1 n
is_lane equals n (boolean false) = ltb 0 n
is_lane equals n (real x) = in_range_option n (equals x)
is_lane equals n (other x) = in_range_option n (equals x)
is_lane equals n _ = false

-- `ii.constant`
unfoldable pub content_of : Value → Result Const
content_of (constant t c) = ok c
content_of (formatted t c) = ok c
content_of _ = err attribute_error

-- `all(ii.constant in index_range for ii in ...)`, which ends at the first that is not.
unfoldable pub all_lanes : (ℕ → Option ℤ) → ℕ → Values → Result Bool
unfolding is_lane content_of
all_lanes equals n nil = ok true
all_lanes equals n (cons v vs) =
    content_of v >>= λ c. if is_lane equals n c then all_lanes equals n vs else ok false

-- The loop over `mask.constant`: an integer has no `constant`, and other contents are no sequences.
unfoldable pub mask_in_range : (ℕ → Option ℤ) → ℕ → Const → Result Bool
unfolding all_lanes
mask_in_range equals n (items vs) = all_lanes equals n vs
mask_in_range equals n (bytes []) = ok true
mask_in_range equals n (bytes (b ∷ bs)) = err attribute_error
mask_in_range equals n _ = err type_error

-- The count and the content of a mask that is a constant vector of `i32`.
unfoldable pub mask_with : Ty → Const → Result (ℕ × Const)
mask_with (vector (int w) n) c = if w == 32 then ok (n, c) else err type_error
mask_with _ c = err type_error

unfoldable pub mask_of : Value → Result (ℕ × Const)
unfolding mask_with
mask_of (constant t c) = mask_with t c
mask_of (formatted t c) = mask_with t c
mask_of _ = err type_error

unfoldable pub count_of : Ty → ℕ
count_of (vector t n) = n
count_of _ = 0

unfoldable pub shuffle_vector : (ℕ → Option ℤ) → Value → Value → Value → Text → Result Draft
unfolding lit element_of type_eq type_of mask_of mask_in_range count_of
shuffle_vector equals vector1 vector2 mask name = element_of (type_of vector1) >>= λ t.
    guard (type_eq (type_of vector2) (type_of vector1)) type_error
    >> (mask_of mask >>= λ (n, c).
        mask_in_range equals (2 * count_of (type_of vector1)) c >>= λ inside.
        guard inside index_error
        >> ok (
            draft (vector t n) (lit "shufflevector") (vector1 ∷ vector2 ∷ mask ∷ []) name []
              Kind.shuffle_vector))
