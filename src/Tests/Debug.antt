-- ===== src/Tests/Debug.antt =====
-- Debug information that is added twice, and its text.
use llvmlite.Prelude.{true, false, ◌≡◌, refl, sym, List, [], ◌∷◌, append-nil}
use llvmlite.Prelude.Texts.{Text, lit, join}
use llvmlite.Prelude.Int.{pos}
use llvmlite.Result.{ok}
use llvmlite.Values.{Env, Value, di_value, di_str, di_token, di_int, di_bool, item, no_items}
use llvmlite.Module.Metadata
use llvmlite.Module.Metadata.{Metadata, Operands, more, end}
use llvmlite.Module.Metadata.Cache.{Extends-refl, all_cached}
use llvmlite.Module.Metadata.Again.{Unchanged}
use llvmlite.Module.DebugInfo.{Given, given, given_sequence, add_debug_info}
use llvmlite.Module.DebugInfo.Again.{add_debug_info_again}
use llvmlite.Module.DebugInfo.Kept.{given_comparable}
use llvmlite.Module.Print.Whole.{node_text}

abbrev python_env : Env
python_env = record {
  typed_pointers = true;
  float_bits = λ c. 0;
  to_single = λ n. n;
  to_half = λ n. n;
  str_of = λ c. [];
}

-- A type with its name, encoding, size and a nested sequence, not in the order of the names.
abbrev basic_type : List (Text × Given)
basic_type =
    (lit "name", given (di_str (lit "int")))
    ∷ (lit "encoding", given (di_token 7 (lit "DW_ATE_signed")))
    ∷ (lit "size", given (di_int (pos 32)))
    ∷ (lit "elements", given_sequence (more (Metadata.string (lit "a")) end))
    ∷ []

abbrev described : Value × Metadata
described = add_debug_info python_env (lit "DIBasicType") basic_type true Metadata.empty

add_debug_info_again_example :
    ((add_debug_info python_env (lit "DIBasicType") basic_type true described.1).0 ≡ described.0)
    × Unchanged described.1
        (add_debug_info python_env (lit "DIBasicType") basic_type true described.1).1
unfolding given_comparable all_cached
add_debug_info_again_example =
    add_debug_info_again python_env (lit "DIBasicType") basic_type true Metadata.empty described.1
      refl refl
      (record {
        extends = Extends-refl described.1;
        added = [];
        grown = sym (append-nil described.1.dicache);
      })

described_text :
    node_text python_env described.0
    ≡ ok (
        lit
          "!1 = distinct !DIBasicType(elements: !0, encoding: DW_ATE_signed, name: \"int\", size: 32)")
unfolding node_text lit join add_debug_info llvmlite.Scope.dedup_loop llvmlite.Scope.is_used
    llvmlite.Scope.count_up llvmlite.Scope.numbered
described_text = refl

-- A string under `encoding` is answered with the node of the token.
string_for_token :
    (add_debug_info python_env
      (lit "DIBasicType")
      ((lit "encoding", given (di_str (lit "DW_ATE_signed"))) ∷ [])
      false
      (add_debug_info python_env
        (lit "DIBasicType")
        ((lit "encoding", given (di_token 7 (lit "DW_ATE_signed"))) ∷ [])
        false
        Metadata.empty).1).0
    ≡ di_value
        (lit "0")
        false
        (lit "DIBasicType")
        (item (lit "encoding") (di_token 7 (lit "DW_ATE_signed")) no_items)
unfolding add_debug_info lit llvmlite.Scope.dedup_loop llvmlite.Scope.is_used
string_for_token = refl

-- `True` is answered with the node of 1.
true_for_one :
    (add_debug_info python_env
      (lit "DILocation")
      ((lit "line", given (di_bool true)) ∷ [])
      false
      (add_debug_info python_env
        (lit "DILocation")
        ((lit "line", given (di_int (pos 1))) ∷ [])
        false
        Metadata.empty).1).0
    ≡ di_value (lit "0") false (lit "DILocation") (item (lit "line") (di_int (pos 1)) no_items)
unfolding add_debug_info lit llvmlite.Scope.dedup_loop llvmlite.Scope.is_used
true_for_one = refl
