-- ===== src/Tests/Names.antt =====
-- Examples of llvmlite/ir/_utils.py and of the names and labels in llvmlite/ir/values.py.
use llvmlite.Prelude.{refl, arith, some, ◌+◌, ℕ, ◌≡◌, true, false, List, [], ◌∷◌, ◌++◌}
use llvmlite.Prelude.Texts.{Text, lit}
use llvmlite.Scope
use llvmlite.Scope.{NameScope, is_used, register, deduplicate, dedup_loop, enough_fuel}
use llvmlite.Scope.Fresh.{deduplicate_ends}
use llvmlite.Scope.Unique.{register_all, granted, AllDistinct, register_all_distinct}
use llvmlite.Escape.{escape_string, format_name, named_reference}
use llvmlite.Escape.Decode.{unescape, unescape-escape_string}
use llvmlite.Escape.Quoting.{
  ends_in_newline, read_checked_label, read_checked_label-format_name, read_name,
  read_name-named_reference,
}

abbrev taken : NameScope
taken = (register (lit "x") true Scope.empty).1

deduplicate_ends_example :
    (is_used taken (deduplicate (lit "x") taken).0 ≡ false)
    × ((extra : ℕ)
        → dedup_loop (extra + enough_fuel taken) (lit "x") (lit "x") taken
          ≡ deduplicate (lit "x") taken)
deduplicate_ends_example = deduplicate_ends (lit "x") taken

register_all_distinct_example : AllDistinct (
    granted
      (register_all
        ((lit "x", true) ∷ (lit "x", true) ∷ (lit "y", false) ∷ (lit "y", false) ∷ [])
        taken).0)
register_all_distinct_example =
    register_all_distinct
      ((lit "x", true) ∷ (lit "x", true) ∷ (lit "y", false) ∷ (lit "y", false) ∷ []) taken

abbrev bytes : List ℕ
bytes = 104 ∷ 34 ∷ 10 ∷ 255 ∷ 92 ∷ []

unescape-escape_string_example : unescape (escape_string bytes) ≡ bytes
unescape-escape_string_example = unescape-escape_string bytes (omega arith)

read_name-named_reference_example :
    (after : Text) × (named_reference (lit "%") (lit "a\"b\\") ++ lit ", %x" ≡ lit "%" ++ after)
    × (read_name after ≡ some (lit "a\"b\\", lit ", %x"))
read_name-named_reference_example = read_name-named_reference (lit "%") (lit "a\"b\\") (lit ", %x")

read_checked_label-format_name_example :
    read_checked_label (format_name (lit "1 a\"")) ≡ some (lit "1 a\"")
unfolding ends_in_newline lit
read_checked_label-format_name_example = read_checked_label-format_name (lit "1 a\"") refl
