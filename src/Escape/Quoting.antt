-- ===== src/Escape/Quoting.antt =====
-- References and labels: what stands between the quotes holds no quote, so a reader finds the end of
-- the name, and two names are never written alike.
use llvmlite.Prelude.{
  ℕ, ◌≡◌, refl, sym, ap, ◌∙◌, Bool, true, false, ◌&&◌, ◌||◌, List, [], ◌∷◌, ◌++◌, Option, none,
  some, arith, ◌==◌, leb, any, all, append_assoc, append-cancel_left, if◌then◌else◌, Bool-cases,
  inl, inr,
}
use llvmlite.Prelude.Texts.{Text, lit}
use llvmlite.Escape.{
  quote_escape, named_reference, is_letter, one_of, is_ident_start, is_ident_char, match_rest,
  is_simple_identifier, format_name, is_digit,
}
use llvmlite.Escape.Decode.{unescape, unescape-quote_escape, quote_char, quote_escape-cons}

abbrev push : ℕ → Option (Text × Text) → Option (Text × Text)
push c none = none
push c (some (s, r)) = some (c ∷ s, r)

-- The reader of a quoted text: what stands before the first quote, and what follows it.
read_quoted : Text → Option (Text × Text)
read_quoted [] = none
read_quoted (c ∷ cs) =
    let rest = push c (read_quoted cs) in if c == b'"' then some ([], cs) else rest

read_quoted-quote_char :
    (c : ℕ) (cs s r : Text)
    → read_quoted cs ≡ some (s, r)
    → read_quoted (quote_char c ++ cs) ≡ some (quote_char c ++ s, r)
unfolding read_quoted quote_char lit
read_quoted-quote_char c cs s r h = ground arith

-- The reader finds the end of a quoted name at the quote that closes it, whatever follows.
read_quoted-quote_escape :
    (name rest : Text)
    → read_quoted (quote_escape name ++ b'"' ∷ rest) ≡ some (quote_escape name, rest)
read_quoted-quote_escape [] rest = unfold quote_escape read_quoted in refl
read_quoted-quote_escape (c ∷ cs) rest =
    rw (quote_escape-cons, append_assoc)
      (read_quoted-quote_char c (quote_escape cs ++ b'"' ∷ rest) (quote_escape cs) rest
        (read_quoted-quote_escape cs rest))

quote_char_plain :
    (c : ℕ) (out cs : Text)
    → any (λ c. (c == b'\\') || (c == b'"')) (c ∷ cs) ≡ false
    → (any (λ c. (c == b'\\') || (c == b'"')) cs ≡ false → out ≡ cs)
    → quote_char c ++ out ≡ c ∷ cs
unfolding quote_char
quote_char_plain c out cs h k = ground arith

-- Where nothing has to be escaped, escaping changes nothing.
quote_escape_plain :
    (name : Text) → any (λ c. (c == b'\\') || (c == b'"')) name ≡ false → quote_escape name ≡ name
quote_escape_plain [] h = unfold quote_escape in refl
quote_escape_plain (c ∷ cs) h =
    rw quote_escape-cons (quote_char_plain c (quote_escape cs) cs h (quote_escape_plain cs))

-- The reader of a reference: its prefix, a name in quotes, and what follows.
abbrev unescape_name : Option (Text × Text) → Option (List ℕ × Text)
unescape_name none = none
unescape_name (some (s, r)) = some (unescape s, r)

pub read_name : Text → Option (List ℕ × Text)
unfolding read_quoted
read_name [] = none
read_name (c ∷ cs) = if c == b'"' then unescape_name (read_quoted cs) else none

read_name_quoted :
    (name rest : Text) → read_name (b'"' ∷ (quote_escape name ++ b'"' ∷ rest)) ≡ some (name, rest)
unfolding read_name
read_name_quoted name rest =
    rw read_quoted-quote_escape (ap (λ n. some (n, rest)) (unescape-quote_escape name))

named_reference_lem :
    (name_prefix name : Text)
    → named_reference name_prefix name ≡ name_prefix ++ b'"' ∷ (quote_escape name ++ b'"' ∷ [])
unfolding named_reference one_of
named_reference_lem name_prefix name =
    elim (Bool-cases (any (λ c. (c == b'\\') || (c == b'"')) name)) [
      | inl special ↦ rw special refl
      | inr plain ↦
          rw plain
            (ap (λ n. name_prefix ++ b'"' ∷ (n ++ b'"' ∷ [])) (sym (quote_escape_plain name plain)))
    ]

-- A reference to a named value is read back: behind its prefix stands the value's name in quotes,
-- whatever characters it holds, and the reading stops where the reference stops.
pub read_name-named_reference :
    (name_prefix name rest : Text)
    → (after : Text) × (named_reference name_prefix name ++ rest ≡ name_prefix ++ after)
      × (read_name after ≡ some (name, rest))
read_name-named_reference name_prefix name rest = (
  b'"' ∷ (quote_escape name ++ b'"' ∷ rest),
  rw (named_reference_lem name_prefix name, append_assoc, append_assoc) refl,
  read_name_quoted name rest,
)

-- Two values of one kind are referred to alike only if they have the same name.
pub named_reference-injective :
    (name_prefix m n : Text) → named_reference name_prefix m ≡ named_reference name_prefix n → m ≡ n
named_reference-injective p m n h =
    let a = read_name-named_reference p m [] in
    let b = read_name-named_reference p n [] in
    let same : a.0 ≡ b.0 = append-cancel_left p (sym a.1 ∙ ap (λ t. t ++ []) h ∙ b.1) in
    cc (same, a.2, b.2)

-- The reader of a label that ends the text: a quoted name, or the bare one.
label_name : Text → Option (List ℕ × Text) → List ℕ
label_name bare none = bare
label_name bare (some (name, _)) = name

pub read_label : Text → List ℕ
unfolding label_name
read_label label = label_name label (read_name label)

-- A bare label does not begin with a quote.
simple_not_quoted : (name : Text) → is_simple_identifier name ≡ true → read_name name ≡ none
unfolding is_simple_identifier is_ident_start is_letter read_name
simple_not_quoted [] h = refl
simple_not_quoted (c ∷ cs) h = ground arith

-- A block label, bare or quoted, is read back as the name of its block.
pub read_label-format_name : (name : Text) → read_label (format_name name) ≡ name
unfolding format_name read_label
read_label-format_name name = elim (Bool-cases (is_simple_identifier name)) [
  | inl simple ↦ rw simple (rw (simple_not_quoted name simple))
  | inr other ↦ rw other (rw (read_name_quoted name []))
]

-- Every character of a match of the rest of a simple identifier is one of its characters, but that
-- the last may be a newline.
unfoldable pub ends_in_newline : Text → Bool
ends_in_newline [] = false
ends_in_newline (c ∷ []) = c == 10
ends_in_newline (c ∷ d ∷ cs) = ends_in_newline (d ∷ cs)

match_rest-eq-all : (cs : Text) → ends_in_newline cs ≡ false → match_rest cs ≡ all is_ident_char cs
unfolding match_rest ends_in_newline
match_rest-eq-all [] k = refl
match_rest-eq-all (c ∷ []) k = ground arith
match_rest-eq-all (c ∷ d ∷ cs) k = ground (arith, match_rest-eq-all (d ∷ cs))

-- A label whose name does not end in a newline is bare exactly if the name begins with a letter or
-- one of `-$._` and all its other characters are of these or digits; the empty name is quoted.
pub is_simple_identifier_chars :
    (c : ℕ) (cs : Text)
    → ends_in_newline (c ∷ cs) ≡ false
    → is_simple_identifier (c ∷ cs) ≡ (is_ident_start c && all is_ident_char cs)
unfolding is_simple_identifier ends_in_newline
is_simple_identifier_chars c [] h = refl
is_simple_identifier_chars c (d ∷ cs) h =
    ap (λ b. is_ident_start c && b) (match_rest-eq-all (d ∷ cs) h)

match_rest_newline : (cs : Text) → all is_ident_char cs ≡ true → match_rest (cs ++ 10 ∷ []) ≡ true
unfolding match_rest
match_rest_newline [] h = ground arith
match_rest_newline (c ∷ []) h = ground arith
match_rest_newline (c ∷ d ∷ cs) h = ground (arith, match_rest_newline (d ∷ cs))

-- The regular expression of `_format_name` takes a name that ends in a newline for a simple one, so
-- such a label is emitted bare, its newline included, although the newline has to be quoted.
pub format_name_newline :
    (c : ℕ) (cs : Text)
    → is_ident_start c ≡ true
    → all is_ident_char cs ≡ true
    → format_name ((c ∷ cs) ++ 10 ∷ []) ≡ (c ∷ cs) ++ 10 ∷ []
unfolding format_name is_simple_identifier
format_name_newline c cs h k = rw (h, match_rest_newline cs k)

-- What a label may be written with outside quotes, by the grammar of LLVM assembly:
-- `[-a-zA-Z$._0-9]+`.
label_char : ℕ → Bool
label_char c =
    (leb 97 c && leb c 122)
    || (leb 65 c && leb c 90)
    || (leb 48 c && leb c 57)
    || (c == 45)
    || (c == 36)
    || (c == 46)
    || (c == 95)

bare_label : Text → Option (List ℕ)
bare_label [] = none
bare_label (c ∷ cs) = if all label_char (c ∷ cs) then some (c ∷ cs) else none

whole_label : Text → Option (List ℕ × Text) → Option (List ℕ)
whole_label label none = bare_label label
whole_label label (some (name, [])) = some name
whole_label label (some (name, c ∷ cs)) = none

-- The reader of a label by that grammar: a quoted name and nothing behind it, or a bare label, whose
-- characters are checked.
pub read_checked_label : Text → Option (List ℕ)
unfolding whole_label
read_checked_label label = whole_label label (read_name label)

ident_chars :
    (cs : Text) → match_rest cs ≡ true → ends_in_newline cs ≡ false → all label_char cs ≡ true
unfolding match_rest ends_in_newline is_ident_char is_ident_start is_letter is_digit label_char
ident_chars [] h k = refl
ident_chars (c ∷ []) h k = ground arith
ident_chars (c ∷ d ∷ cs) h k = ground (arith, ident_chars (d ∷ cs))

bare_label-simple :
    (name : Text)
    → is_simple_identifier name ≡ true
    → ends_in_newline name ≡ false
    → bare_label name ≡ some name
unfolding is_simple_identifier bare_label is_ident_start is_letter label_char ends_in_newline
    match_rest
bare_label-simple [] h k = cc
bare_label-simple (c ∷ []) h k = ground arith
bare_label-simple (c ∷ d ∷ cs) h k = ground (arith, ident_chars (d ∷ cs))

-- The label of a block whose name does not end in a newline is read back as that name, by a reader
-- that refuses a bare label with a character outside the grammar of LLVM assembly: what `_format_name`
-- leaves unquoted needs no quotes.
pub read_checked_label-format_name :
    (name : Text) → ends_in_newline name ≡ false → read_checked_label (format_name name) ≡ some name
unfolding format_name read_checked_label whole_label
read_checked_label-format_name name k = elim (Bool-cases (is_simple_identifier name)) [
  | inl simple ↦ rw simple (rw (simple_not_quoted name simple) (bare_label-simple name simple k))
  | inr other ↦ rw other (rw (read_name_quoted name []) refl)
]
