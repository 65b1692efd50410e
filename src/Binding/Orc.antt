-- ===== src/Binding/Orc.antt =====
-- `JITLibraryBuilder` and `ResourceTracker` of llvmlite/binding/orcjit.py: what a library is linked
-- from, and the addresses of its exported symbols.
use llvmlite.Prelude.{
  ℕ, suc, ◌+◌, ◌%◌, ◌^◌, ◌≡◌, refl, sym, ap, ◌∙◌, arith, Bool, true, false, ◌||◌, List, [], ◌∷◌,
  ◌++◌, Option, none, some, if◌then◌else◌, Bool-cases, inl, inr,
}
use llvmlite.Prelude.Texts.{Text, text_eq}
use llvmlite.Result.{Result, ok, err, assertion_error, runtime_error, key_error}

-- The entries with their kinds, the exported names in the order in which the set is iterated, and the
-- imported symbols in the order of insertion.
pub record JitLibraryBuilder : Type 0 where
  pub entries : List (ℕ × Text)
  pub exports : List Text
  pub imports : List (Text × ℕ)

abbrev pub empty : JitLibraryBuilder
empty = record { entries = []; exports = []; imports = [] }

abbrev add_entry : ℕ → Text → JitLibraryBuilder → JitLibraryBuilder
add_entry kind value b = record b { entries = b.entries ++ (kind, value) ∷ [] }

-- The methods that add an entry, where a parameter gives the bytes of a `str` in UTF-8.
unfoldable pub add_ir : (Text → Text) → Text → JitLibraryBuilder → JitLibraryBuilder
add_ir encode llvmir b = add_entry 0 (encode llvmir) b

unfoldable pub add_native_assembly : (Text → Text) → Text → JitLibraryBuilder → JitLibraryBuilder
add_native_assembly encode asm b = add_entry 1 (encode asm) b

unfoldable pub add_object_img : Text → JitLibraryBuilder → JitLibraryBuilder
add_object_img data_bytes b = add_entry 2 data_bytes b

unfoldable pub add_jit_library : (Text → Text) → Text → JitLibraryBuilder → JitLibraryBuilder
add_jit_library encode name b = add_entry 3 (encode name) b

unfoldable pub add_current_process : JitLibraryBuilder → JitLibraryBuilder
add_current_process b = add_entry 3 [] b

unfoldable pub put_import : Text → ℕ → List (Text × ℕ) → List (Text × ℕ)
unfolding text_eq
put_import name address [] = (name, address) ∷ []
put_import name address ((k, a) ∷ rest) =
    let later = (k, a) ∷ put_import name address rest in
    if text_eq k name then (k, address) ∷ rest else later

-- `import_symbol`, whose address is cut to 64 bits by `c_uint64`.
unfoldable pub import_symbol : Text → ℕ → JitLibraryBuilder → JitLibraryBuilder
unfolding put_import
import_symbol name address b = record b { imports = put_import name (address % 2 ^ 64) b.imports }

unfoldable pub is_exported : Text → List Text → Bool
unfolding text_eq
is_exported name [] = false
is_exported name (x ∷ xs) = text_eq x name || is_exported name xs

-- `export_symbol`: a set keeps one copy.
unfoldable pub export_symbol : Text → JitLibraryBuilder → JitLibraryBuilder
unfolding is_exported
export_symbol name b =
    if is_exported name b.exports then b else record b { exports = b.exports ++ name ∷ [] }

-- `ResourceTracker` with its name and the addresses by name.
pub record ResourceTracker : Type 0 where
  pub name : Text
  pub addresses : List (Text × ℕ)

-- `{name: exports[idx].address for idx, name in enumerate(self.__exports)}`, with the addresses that
-- LLVM has written, by their positions.
unfoldable pub exported_addresses : (ℕ → ℕ) → ℕ → List Text → List (Text × ℕ)
exported_addresses written idx [] = []
exported_addresses written idx (name ∷ names) =
    (name, written idx) ∷ exported_addresses written (suc idx) names

abbrev is_empty : Text → Bool
is_empty [] = true
is_empty (c ∷ cs) = false

abbrev tracker_of : Text → List Text → Option (ℕ → ℕ) → Result ResourceTracker
tracker_of name exports none = err runtime_error
tracker_of name exports (some written) =
    ok (record { name = name; addresses = exported_addresses written 0 exports })

-- `link`, with what LLVM answers to the entries, imports and exports: the addresses, or a failure.
unfoldable pub link :
    (Text → Text)
    → (JitLibraryBuilder → Option (ℕ → ℕ))
    → Bool
    → Text
    → JitLibraryBuilder
    → Result ResourceTracker
unfolding exported_addresses
link encode answer jit_closed library_name b =
    if jit_closed
    then err assertion_error
    else if is_empty (encode library_name)
    then err assertion_error
    else tracker_of library_name b.exports (answer b)

-- `tracker[item]`
unfoldable pub get_address : Text → List (Text × ℕ) → Result ℕ
unfolding text_eq
get_address item [] = err key_error
get_address item ((k, a) ∷ rest) =
    let later = get_address item rest in if text_eq k item then ok a else later

abbrev next_position : Option ℕ → Option ℕ
next_position none = none
next_position (some i) = some (suc i)

-- The position of a name among the exports.
unfoldable pub position_of : Text → List Text → Option ℕ
unfolding text_eq
position_of name [] = none
position_of name (x ∷ xs) =
    let later = next_position (position_of name xs) in if text_eq x name then some 0 else later

abbrev pub address_at : (ℕ → ℕ) → ℕ → Option ℕ → Result ℕ
address_at written n none = err key_error
address_at written n (some i) = ok (written (n + i))

address_at-next :
    (written : ℕ → ℕ) (n : ℕ) (o : Option ℕ)
    → address_at written (suc n) o ≡ address_at written n (next_position o)
address_at-next written n none = refl
address_at-next written n (some i) = ap (λ k. ok (written k)) (omega arith)

get_address-exported :
    (written : ℕ → ℕ) (item : Text) (n : ℕ) (names : List Text)
    → get_address item (exported_addresses written n names)
      ≡ address_at written n (position_of item names)
unfolding get_address exported_addresses position_of
get_address-exported written item n [] = refl
get_address-exported written item n (x ∷ xs) = elim (Bool-cases (text_eq x item)) [
  | inl e ↦ rw e (ap (λ k. ok (written k)) (omega arith))
  | inr e ↦ rw e (
      get_address-exported written item (suc n) xs
      ∙ address_at-next written n (position_of item xs))
]

passed :
    (b : Bool) (r : Result ResourceTracker) (tracker : ResourceTracker)
    → (if b then err assertion_error else r) ≡ ok tracker
    → r ≡ ok tracker
passed true r tracker h = cc
passed false r tracker h = h

answered :
    (name : Text) (exports : List Text) (written : ℕ → ℕ) (tracker : ResourceTracker)
    → tracker_of name exports (some written) ≡ ok tracker
    → tracker.addresses ≡ exported_addresses written 0 exports
answered name exports written tracker h = ap ResourceTracker.addresses (tracker_same h)
  where
    tracker_same : {a : ResourceTracker} → ok a ≡ ok tracker → tracker ≡ a
    tracker_same e = cc

-- A library that was linked has for each exported name the address that LLVM has written at the
-- position of that name, and no other name.
pub link_addresses :
    (encode : Text → Text) (answer : JitLibraryBuilder → Option (ℕ → ℕ)) (library_name item : Text)
    (b : JitLibraryBuilder) (written : ℕ → ℕ) (tracker : ResourceTracker)
    → answer b ≡ some written
    → link encode answer false library_name b ≡ ok tracker
    → get_address item tracker.addresses ≡ address_at written 0 (position_of item b.exports)
unfolding link
link_addresses encode answer library_name item b written tracker h k =
    let named : tracker_of library_name b.exports (answer b) ≡ ok tracker =
      passed (is_empty (encode library_name)) _ tracker k in
    ap (get_address item) (
      answered library_name b.exports written tracker
        (ap (tracker_of library_name b.exports) (sym h) ∙ named))
    ∙ get_address-exported written item 0 b.exports
