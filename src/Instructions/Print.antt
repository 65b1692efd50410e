-- ===== src/Instructions/Print.antt =====
-- The text of an instruction: `_stringify_metadata` of llvmlite/ir/_utils.py, `_to_string` of
-- `NamedValue` in llvmlite/ir/values.py, and `descr` of the classes in llvmlite/ir/instructions.py.
pub mod Descr
pub mod Memory
pub mod Flow
pub mod Data
pub mod Classes
pub mod Read
pub mod Caches
use llvmlite.Prelude.{
  ℕ, Bool, true, false, List, [], ◌∷◌, ◌++◌, map, any, ltb, ◌==◌, ◌&&◌, if◌then◌else◌, Option, none,
  some, leb,
}
use llvmlite.Prelude.Texts.{Text, lit, decimal, join}
use llvmlite.Result.{Result, ok, err, index_error, value_error, ◌>>=◌}
use llvmlite.Types.{Ty, void}
use llvmlite.Instructions.{Instr}
use llvmlite.Types.Print.{type_text}
use llvmlite.Values.{Value, Env, get_reference, type_of, typed_text}

-- The pieces of a format, one after the other.
unfoldable pub cat : List Text → Text
cat [] = []
cat (t ∷ ts) = t ++ cat ts

-- `str(v.type)`
abbrev pub type_str : Env → Ty → Text
type_str env t = type_text env.typed_pointers t

-- `"{0} {1}".format(op.type, op.get_reference())`
unfoldable pub typed_reference : Env → Value → Text
unfolding typed_text get_reference
typed_reference env v = typed_text env (type_of v) (get_reference env v)

unfoldable pub references : Env → List Value → List Text
unfolding get_reference
references env [] = []
references env (v ∷ vs) = get_reference env v ∷ references env vs

unfoldable pub typed_references : Env → List Value → List Text
unfolding typed_reference
typed_references env [] = []
typed_references env (v ∷ vs) = typed_reference env v ∷ typed_references env vs

-- `["!{0} {1}".format(k, v.get_reference()) for k, v in self.metadata.items()]`
unfoldable pub metadata_items : Env → List (Text × Value) → List Text
unfolding get_reference lit
metadata_items env [] = []
metadata_items env ((k, v) ∷ rest) =
    (b'!' ∷ (k ++ (lit " " ++ get_reference env v))) ∷ metadata_items env rest

-- `_stringify_metadata`, without and with the leading comma.
unfoldable pub stringify_metadata : Env → Bool → List (Text × Value) → Text
unfolding metadata_items lit
stringify_metadata env leading_comma [] = []
stringify_metadata env true (m ∷ ms) = join (lit ", ") ([] ∷ metadata_items env (m ∷ ms))
stringify_metadata env false (m ∷ ms) = join (lit ", ") (metadata_items env (m ∷ ms))

-- The characters that `str.rstrip` strips.
unfoldable pub is_space : ℕ → Bool
is_space c =
    any (λ ((lo, hi) : ℕ × ℕ). leb lo c && leb c hi)
      ((9, 13)
        ∷ (28, 32)
        ∷ (133, 133)
        ∷ (160, 160)
        ∷ (5760, 5760)
        ∷ (8192, 8202)
        ∷ (8232, 8233)
        ∷ (8239, 8239)
        ∷ (8287, 8287)
        ∷ (12288, 12288)
        ∷ [])

unfoldable pub strip_back : ℕ → Text → Text
unfolding is_space
strip_back c [] = if is_space c then [] else c ∷ []
strip_back c (d ∷ ds) = c ∷ d ∷ ds

-- `str.rstrip`
unfoldable pub rstrip : Text → Text
unfolding strip_back
rstrip [] = []
rstrip (c ∷ cs) = strip_back c (rstrip cs)

-- `, !k v` of every entry of the metadata.
abbrev pub meta : Env → Instr → Text
meta env instr = stringify_metadata env true instr.metadata

abbrev pub line : List Text → Result Text
line parts = ok (cat parts ++ 10 ∷ [])
