-- ===== src/Module/Print/Lines.antt =====
-- Reading the text of a block back line by line, and what the text of a function leaves out:
-- `Block.descr` and `FunctionAttributes` of llvmlite/ir/values.py.
use llvmlite.Prelude.{
  ℕ, ◌≡◌, refl, ap, ap₂, sym, ◌∙◌, arith, Bool, true, not, List, [], ◌∷◌, ◌++◌, append_assoc, all,
  all-cons, ◌==◌, if◌then◌else◌, Option, none, some, Bool-cases, inl, inr,
}
use llvmlite.Prelude.Texts.{Text, lit, strip_prefix, strip_prefix-append}
use llvmlite.Prelude.Split.{split_on, lacks, lacks-append, split_on-append, split_on-cons}
use llvmlite.Escape.{format_name, quote_escape, replace_char, is_simple_identifier}
use llvmlite.Escape.Quoting.{read_label, read_label-format_name}
use llvmlite.Values.{Env}
use llvmlite.Module.Print.{
  indented, block_of, Function, FunctionAttributes, attributes_text, function_str, descr_prototype,
}

-- `text.split("\\n")`
abbrev lines : Text → List Text
lines t = split_on 10 t

-- A text without a newline.
abbrev pub is_line : Text → Bool
is_line t = lacks 10 t

is_line-replace_char :
    (old : ℕ) (new t : Text)
    → is_line new ≡ true
    → is_line t ≡ true
    → is_line (replace_char old new t) ≡ true
unfolding replace_char
is_line-replace_char old new [] n h = refl
is_line-replace_char old new (c ∷ cs) n h =
    let (here, later) = all-cons (λ d. not (d == 10)) c cs h in
    lacks-append 10 (if c == old then new else c ∷ []) (replace_char old new cs) (ground arith)
      (is_line-replace_char old new cs n later)

is_line-format_name : (name : Text) → is_line name ≡ true → is_line (format_name name) ≡ true
unfolding format_name quote_escape lit
is_line-format_name name h = elim (Bool-cases (is_simple_identifier name)) [
  | inl simple ↦ rw simple h
  | inr other ↦ rw other (
      lacks-append 10 (b'"' ∷ quote_escape name) (b'"' ∷ [])
        (is_line-replace_char b'"' (lit "\\22") (replace_char b'\\' (lit "\\5c") name) refl
          (is_line-replace_char b'\\' (lit "\\5c") name refl h))
        refl)
]

-- The texts behind the indentation, up to the empty line at the end.
abbrev indented_rest : Option Text → Option (List Text) → Option (List Text)
indented_rest none rest = none
indented_rest (some t) none = none
indented_rest (some t) (some ts) = some (t ∷ ts)

read_indented : List Text → Option (List Text)
unfolding lit
read_indented [] = none
read_indented (l ∷ []) = some []
read_indented (l ∷ m ∷ ls) = indented_rest (strip_prefix (lit "  ") l) (read_indented (m ∷ ls))

-- A text without its last character.
butlast : Text → Text
butlast [] = []
butlast (c ∷ []) = []
butlast (c ∷ d ∷ ds) = c ∷ butlast (d ∷ ds)

abbrev labelled : Text → Option (List Text) → Option (Text × List Text)
labelled label none = none
labelled label (some texts) = some (read_label (butlast label), texts)

abbrev from_lines : List Text → Option (Text × List Text)
from_lines [] = none
from_lines (label ∷ ls) = labelled label (read_indented ls)

-- The label and the instructions in the text of a block.
unfoldable pub read_block : Text → Option (Text × List Text)
unfolding split_on read_indented butlast
read_block text = from_lines (lines text)

butlast-append : (t : Text) (c : ℕ) → butlast (t ++ c ∷ []) ≡ t
unfolding butlast
butlast-append [] c = refl
butlast-append (d ∷ []) c = refl
butlast-append (d ∷ e ∷ es) c = ap (λ t. d ∷ t) (butlast-append (e ∷ es) c)

read_indented-line :
    (l t : Text)
    → read_indented (l ∷ lines t)
      ≡ indented_rest (strip_prefix (lit "  ") l) (read_indented (lines t))
unfolding read_indented
read_indented-line l t =
    let (m, ls, h) = split_on-cons 10 t in
    ap (λ rest. read_indented (l ∷ rest)) h
    ∙ ap (λ rest. indented_rest (strip_prefix (lit "  ") l) (read_indented rest)) (sym h)

lines-indented :
    (texts : List Text)
    → all is_line texts ≡ true
    → read_indented (lines (indented texts)) ≡ some texts
unfolding read_indented indented split_on lit
lines-indented [] h = refl
lines-indented (t ∷ ts) h =
    let (here, later) = all-cons is_line t ts h in
    ap read_indented
      (split_on-append 10 (lit "  " ++ t) (indented ts) (lacks-append 10 (lit "  ") t refl here))
    ∙ read_indented-line (lit "  " ++ t) (indented ts)
    ∙ ap₂ indented_rest (strip_prefix-append (lit "  ") t) (lines-indented ts later)

-- The text of a block is read back line by line: its label is the name of the block, and behind the
-- indentation stand the texts of its instructions in order, if neither the name nor one of the texts
-- holds a newline.
pub read_block-block_of :
    (name : Text) (texts : List Text)
    → is_line name ≡ true
    → all is_line texts ≡ true
    → read_block (block_of name texts) ≡ some (name, texts)
unfolding read_block block_of
read_block-block_of name texts n h =
    let label : Text = format_name name in
    ap from_lines (
      ap lines (sym (append_assoc label (b':' ∷ []) (10 ∷ indented texts)))
      ∙ split_on-append 10 (label ++ b':' ∷ []) (indented texts)
          (lacks-append 10 label (b':' ∷ []) (is_line-format_name name n) refl))
    ∙ ap (labelled (label ++ b':' ∷ [])) (lines-indented texts h)
    ∙ ap (λ l. some (read_label l, texts)) (butlast-append label b':')
    ∙ ap (λ m. some (m, texts)) (read_label-format_name name)

abbrev pub unnamed : FunctionAttributes
unnamed = record { names = []; alignstack = 0; personality = none }

-- A function that has no named attribute is printed as if it had neither a stack alignment nor a
-- personality.
pub function_str-unnamed :
    (env : Env) (f : Function)
    → f.attributes.names ≡ []
    → function_str env f ≡ function_str env (record f { attributes = unnamed })
unfolding function_str descr_prototype attributes_text
function_str-unnamed env f h = rw h refl
