-- ===== src/Escape/Decode.antt =====
-- What LLVM reads back: a backslash and two hexadecimal digits stand for a byte. The two ways of
-- escaping are undone by it, so no two texts are written alike.
use llvmlite.Prelude.{
  ◌&&◌, leb, ℕ, ◌+◌, ◌-◌, ◌*◌, ◌/◌, ◌%◌, ◌<◌, ◌≡◌, refl, Bool, sym, ap, ◌∙◌, true, false, List, [],
  ◌∷◌, ◌++◌, append_assoc, not, all, arith, ltb, ◌==◌, ==_iff, if◌then◌else◌, Bool-cases, inl, inr,
}
use llvmlite.Prelude.Texts.{Text, lit}
use llvmlite.Escape.{
  is_letter, is_digit, is_valid_char, hex_digit, escape_char, escape_string, replace_char,
  quote_escape,
}

hex_value : ℕ → ℕ
hex_value c = if ltb c 58 then c - 48 else c - 87

-- Reading quoted text: the bytes that it stands for.
pub unescape : Text → List ℕ
unfolding hex_value
unescape [] = []
unescape (c ∷ []) = c ∷ []
unescape (c ∷ h ∷ []) = c ∷ h ∷ []
unescape (c ∷ h ∷ l ∷ cs) =
    let taken = (16 * hex_value h + hex_value l) ∷ unescape cs in
    let kept = c ∷ unescape (h ∷ l ∷ cs) in if c == b'\\' then taken else kept

unescape_plain : (c : ℕ) (cs : Text) → (c == b'\\') ≡ false → unescape (c ∷ cs) ≡ c ∷ unescape cs
unfolding unescape
unescape_plain c [] h = refl
unescape_plain c (d ∷ []) h = refl
unescape_plain c (d ∷ e ∷ cs) h = rw h

hex_value-hex_digit : (d : ℕ) → d < 16 → hex_value (hex_digit d) ≡ d
unfolding hex_value hex_digit
hex_value-hex_digit d h = ground arith

backslash_not_valid : is_valid_char b'\\' ≡ false
unfolding is_valid_char
backslash_not_valid = refl

valid_not_backslash : (c : ℕ) → is_valid_char c ≡ true → (c == b'\\') ≡ false
valid_not_backslash c h = elim (Bool-cases (c == b'\\')) [
  | inl same ↦ cc (ap is_valid_char ((==_iff c b'\\').0 same), backslash_not_valid)
  | inr differ ↦ differ
]

abbrev pub AllBytes : List ℕ → Type 0
AllBytes [] = Unit {0}
AllBytes (c ∷ cs) = (c < 256) × AllBytes cs

unescape_hex :
    (c : ℕ) (cs : Text)
    → c < 256
    → unescape (b'\\' ∷ hex_digit (c / 16) ∷ hex_digit (c % 16) ∷ cs) ≡ c ∷ unescape cs
unfolding unescape
unescape_hex c cs h =
    ap (λ b. b ∷ unescape cs)
      (rw (hex_value-hex_digit (c / 16) (omega arith), hex_value-hex_digit (c % 16) (omega arith))
        (omega arith))

-- `_escape_string` loses nothing: reading the escapes back gives the bytes, for every byte string.
pub unescape-escape_string : (bs : List ℕ) → AllBytes bs → unescape (escape_string bs) ≡ bs
unfolding escape_string
unescape-escape_string [] h = unfold unescape in refl
unescape-escape_string (c ∷ cs) h = elim (Bool-cases (is_valid_char c)) [
  | inl valid ↦
      rw (valid, escape_char)
        (unescape_plain c (escape_string cs) (valid_not_backslash c valid)
          ∙ ap (λ t. c ∷ t) (unescape-escape_string cs h.1))
  | inr other ↦
      rw (other, escape_char)
        (unescape_hex c (escape_string cs) h.0 ∙ ap (λ t. c ∷ t) (unescape-escape_string cs h.1))
]

replace_char-append :
    (old : ℕ) (new xs ys : Text)
    → replace_char old new (xs ++ ys) ≡ replace_char old new xs ++ replace_char old new ys
unfolding replace_char
replace_char-append old new [] ys = refl
replace_char-append old new (x ∷ xs) ys = rw (replace_char-append old new xs ys) (
    sym (
      append_assoc (if x == old then new else x ∷ []) (replace_char old new xs)
        (replace_char old new ys)))

-- The two replacements are one pass over the text.
unfoldable pub quote_char : ℕ → Text
unfolding lit
quote_char c = if c == b'\\' then lit "\\5c" else if c == b'"' then lit "\\22" else c ∷ []

quote_char_lem :
    (c : ℕ)
    → replace_char b'"' (lit "\\22") (if c == b'\\' then lit "\\5c" else c ∷ []) ≡ quote_char c
unfolding quote_char replace_char lit
quote_char_lem c = ground arith

pub quote_escape-cons :
    (c : ℕ) (cs : Text) → quote_escape (c ∷ cs) ≡ quote_char c ++ quote_escape cs
unfolding quote_escape
quote_escape-cons c cs =
    replace_char-append b'"' (lit "\\22") (if c == b'\\' then lit "\\5c" else c ∷ [])
      (replace_char b'\\' (lit "\\5c") cs)
    ∙ ap (λ t. t ++ replace_char b'"' (lit "\\22") (replace_char b'\\' (lit "\\5c") cs))
        (quote_char_lem c)

unescape-quote_char : (c : ℕ) (cs : Text) → unescape (quote_char c ++ cs) ≡ c ∷ unescape cs
unfolding quote_char
unescape-quote_char c cs = elim (Bool-cases (c == b'\\')) [
  | inl slash ↦
      rw slash (
        unfold unescape hex_value lit in ap (λ b. b ∷ unescape cs) (sym ((==_iff c b'\\').0 slash)))
  | inr other ↦ elim (Bool-cases (c == b'"')) [
    | inl quote ↦
        rw (other, quote)
          (unfold unescape hex_value lit in
            ap (λ b. b ∷ unescape cs) (sym ((==_iff c b'"').0 quote)))
    | inr plain ↦ rw (other, plain) (unescape_plain c cs other)
  ]
]

-- The name or type name inside the quotes is read back, for every text.
pub unescape-quote_escape : (name : Text) → unescape (quote_escape name) ≡ name
unescape-quote_escape [] = unfold unescape quote_escape in refl
unescape-quote_escape (c ∷ cs) =
    rw quote_escape-cons
      (unescape-quote_char c (quote_escape cs) ∙ ap (λ t. c ∷ t) (unescape-quote_escape cs))

-- A character that may stand inside the quotes of a string constant.
unfoldable pub is_plain : ℕ → Bool
is_plain c = leb 32 c && leb c 126 && not (c == b'"')

hex_digit_plain : (d : ℕ) → d < 16 → is_plain (hex_digit d) ≡ true
unfolding is_plain hex_digit
hex_digit_plain d h = ground arith

valid_plain : (c : ℕ) → is_valid_char c ≡ true → is_plain c ≡ true
unfolding is_valid_char is_plain is_letter is_digit
valid_plain c h = ground arith

all-append :
    (p : ℕ → Bool) (xs ys : Text) → all p xs ≡ true → all p ys ≡ true → all p (xs ++ ys) ≡ true
all-append p [] ys h k = k
all-append p (x ∷ xs) ys h k = ground (arith, all-append p xs ys)

escape_char_plain : (c : ℕ) → c < 256 → all is_plain (escape_char c) ≡ true
unfolding escape_char
escape_char_plain c h = elim (Bool-cases (is_valid_char c)) [
  | inl valid ↦ rw (valid, valid_plain c valid)
  | inr other ↦
      rw (other, hex_digit_plain (c / 16) (omega arith), hex_digit_plain (c % 16) (omega arith))
        (unfold is_plain in refl)
]

-- What `_escape_string` writes is printable ASCII with no quote, for every byte string.
pub escape_string_plain : (bs : List ℕ) → AllBytes bs → all is_plain (escape_string bs) ≡ true
unfolding escape_string
escape_string_plain [] h = refl
escape_string_plain (c ∷ cs) h =
    all-append is_plain (escape_char c) (escape_string cs) (escape_char_plain c h.0)
      (escape_string_plain cs h.1)
