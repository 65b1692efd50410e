-- ===== src/Escape.antt =====
-- Escaping in llvmlite/ir: `_escape_string`, the quoting of names in references and block labels of
-- values.py, and `_wrapname` of types.py. Texts are lists of code points, byte strings of bytes.
pub mod Decode
pub mod Quoting
use llvmlite.Prelude.{
  ℕ, ◌+◌, ◌-◌, ◌/◌, ◌%◌, Bool, true, false, ◌&&◌, ◌||◌, List, [], ◌∷◌, ◌++◌, ltb, leb, ◌==◌, any,
  all, if◌then◌else◌,
}
use llvmlite.Prelude.Texts.{Text, lit}

-- A test for one of the characters of a text.
unfoldable pub one_of : Text → ℕ → Bool
one_of s c = any (λ d. d == c) s

unfoldable pub is_letter : ℕ → Bool
is_letter c = (leb b'a' c && leb c b'z') || (leb b'A' c && leb c b'Z')

unfoldable pub is_digit : ℕ → Bool
is_digit c = leb b'0' c && leb c b'9'

-- `_VALID_CHARS`: letters, digits and ` !#$%&'()*+,-./:;<=>?@[]^_`{|}~`, by their ranges.
unfoldable pub is_valid_char : ℕ → Bool
unfolding is_letter is_digit
is_valid_char c =
    is_letter c
    || is_digit c
    || (c == 32)
    || (c == 33)
    || (leb 35 c && leb c 47)
    || (leb 58 c && leb c 64)
    || (c == 91)
    || (leb 93 c && leb c 96)
    || (leb 123 c && leb c 126)

-- A digit of `%02x`.
unfoldable pub hex_digit : ℕ → ℕ
hex_digit d = if ltb d 10 then 48 + d else 87 + d

-- The entry of `_map` for a byte.
unfoldable pub escape_char : ℕ → Text
unfolding is_valid_char hex_digit
escape_char ch =
    if is_valid_char ch then ch ∷ [] else b'\\' ∷ hex_digit (ch / 16) ∷ hex_digit (ch % 16) ∷ []

-- `_escape_string`, for text that is already bytes.
unfoldable pub escape_string : List ℕ → Text
unfolding escape_char
escape_string [] = []
escape_string (ch ∷ rest) = escape_char ch ++ escape_string rest

-- `text.replace(old, new)` for an `old` of one character.
unfoldable pub replace_char : ℕ → Text → Text → Text
replace_char old new [] = []
replace_char old new (c ∷ cs) = (if c == old then new else c ∷ []) ++ replace_char old new cs

-- `name.replace('\\', '\\5c').replace('"', '\\22')`
unfoldable pub quote_escape : Text → Text
unfolding replace_char lit
quote_escape name = replace_char b'"' (lit "\\22") (replace_char b'\\' (lit "\\5c") name)

-- `_wrapname`
unfoldable pub wrapname : Text → Text
unfolding quote_escape
wrapname x = b'"' ∷ (quote_escape x ++ b'"' ∷ [])

-- `NamedValue._get_reference`: the escape is skipped where there is nothing to escape.
unfoldable pub named_reference : Text → Text → Text
unfolding quote_escape one_of
named_reference name_prefix name =
    let escaped = if any (λ c. (c == b'\\') || (c == b'"')) name then quote_escape name else name in
    name_prefix ++ b'"' ∷ (escaped ++ b'"' ∷ [])

-- The classes of `_SIMPLE_IDENTIFIER_RE`: `[-a-zA-Z$._]` and the same with digits.
unfoldable pub is_ident_start : ℕ → Bool
unfolding is_letter
is_ident_start c = is_letter c || (c == b'-') || (c == b'$') || (c == b'.') || (c == b'_')

unfoldable pub is_ident_char : ℕ → Bool
unfolding is_ident_start is_digit
is_ident_char c = is_ident_start c || is_digit c

-- `[-a-zA-Z$._0-9]*$`: Python's `$` matches at the end, and before a newline at the end.
unfoldable pub match_rest : Text → Bool
unfolding is_ident_char
match_rest [] = true
match_rest (c ∷ []) = is_ident_char c || (c == 10)
match_rest (c ∷ d ∷ cs) = is_ident_char c && match_rest (d ∷ cs)

unfoldable pub is_simple_identifier : Text → Bool
unfolding match_rest
is_simple_identifier [] = false
is_simple_identifier (c ∷ cs) = is_ident_start c && match_rest cs

-- `Block._format_name`
unfoldable pub format_name : Text → Text
unfolding is_simple_identifier quote_escape
format_name name =
    if is_simple_identifier name then name else b'"' ∷ (quote_escape name ++ b'"' ∷ [])
