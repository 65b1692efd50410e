-- ===== src/Instructions/Print/Read.antt =====
-- Reading the text of an instruction back: `_to_string` of llvmlite/ir/values.py.
use llvmlite.Prelude.{
  ℕ, ◌≡◌, ◌≢◌, refl, ap, ◌∙◌, false, List, [], ◌∷◌, ◌++◌, append_assoc, Option, none, some,
}
use llvmlite.Prelude.Texts.{Text, lit, strip_prefix, strip_prefix-append}
use llvmlite.Result
use llvmlite.Result.{Result, ok, err, >>=-eq-ok}
use llvmlite.Escape.{named_reference}
use llvmlite.Escape.Quoting.{read_name, read_name-named_reference}
use llvmlite.Types.{Ty, void, is_void}
use llvmlite.Values.{Env, get_reference}
use llvmlite.Instructions.{Instr, Kind, value_of, as_value}
use llvmlite.Instructions.Print.{rstrip, strip_back}
use llvmlite.Instructions.Print.Classes.{descr_of, result_text, to_string}

abbrev with_name : Text → Option Text → Option (Text × Text)
with_name name none = none
with_name name (some rest) = some (name, rest)

-- The name and the rest of `%"name" = rest`.
abbrev behind_name : Option (List ℕ × Text) → Option (Text × Text)
behind_name none = none
behind_name (some (name, rest)) = with_name name (strip_prefix (lit " = ") rest)

abbrev from_name : Option Text → Option (Text × Text)
from_name none = none
from_name (some after) = behind_name (read_name after)

unfoldable pub read_assigned : Text → Option (Text × Text)
unfolding strip_prefix lit
read_assigned text = from_name (strip_prefix (lit "%") text)

strip_back_kept : (c : ℕ) (cs t : Text) → t ≢ [] → strip_back c (cs ++ t) ≡ c ∷ (cs ++ t)
unfolding strip_back
strip_back_kept c [] [] h = absurd (h refl)
strip_back_kept c [] (d ∷ ds) h = refl
strip_back_kept c (b ∷ bs) t h = refl

-- Stripping stops at what it leaves of the end.
rstrip-append : (s t : Text) → rstrip t ≢ [] → rstrip (s ++ t) ≡ s ++ rstrip t
unfolding rstrip strip_back
rstrip-append [] t h = refl
rstrip-append (c ∷ cs) t h = rw (rstrip-append cs t h) (strip_back_kept c cs (rstrip t) h)

reference_lem :
    (env : Env) (i : ℕ) (t : Ty) (n : Text) (k : Kind)
    → get_reference env (as_value i t n k) ≡ named_reference (lit "%") n
unfolding get_reference as_value
reference_lem env i t n (Kind.alloca_of a align) = refl
reference_lem env i t n k = refl

result_text_lem :
    (env : Env) (instr : Instr) (t : Ty)
    → is_void t ≡ false
    → result_text env instr t ≡ named_reference (lit "%") instr.name ++ lit " = "
unfolding result_text is_void value_of
result_text_lem env instr void h = cc
result_text_lem env instr t h =
    ap (λ r. r ++ lit " = ") (reference_lem env instr.ident instr.typ instr.name instr.kind)

read_assigned-reference :
    (name rest : Text)
    → read_assigned (named_reference (lit "%") name ++ (lit " = " ++ rest)) ≡ some (name, rest)
unfolding read_assigned
read_assigned-reference name rest =
    let (after, text, read) = read_name-named_reference (lit "%") name (lit " = " ++ rest) in
    ap (λ t. from_name (strip_prefix (lit "%") t)) text
    ∙ ap from_name (strip_prefix-append (lit "%") after)
    ∙ ap behind_name read
    ∙ ap (with_name name) (strip_prefix-append (lit " = ") rest)

-- The text of an instruction that has a result and was not renamed after the first reference to it is
-- read back: it names the result, and behind the name stands what the class describes, stripped at
-- its end, if that is not blank.
pub read_assigned-to_string :
    (env : Env) (instr : Instr) {described : Text}
    → descr_of env instr instr.kind ≡ ok described
    → is_void instr.typ ≡ false
    → rstrip described ≢ []
    → (text : Text) × (to_string env instr ≡ ok text)
      × (read_assigned text ≡ some (instr.name, rstrip described))
unfolding to_string
read_assigned-to_string env instr {described} h t blank =
    let prefix : Text = named_reference (lit "%") instr.name in
    (
      prefix ++ (lit " = " ++ rstrip described),
      ap (λ d. Result.◌>>=◌ d (λ u. ok (rstrip (result_text env instr instr.typ ++ u)))) h
          ∙ ap (λ r. ok (rstrip (r ++ described))) (result_text_lem env instr instr.typ t)
          ∙ ap ok (
              rstrip-append (prefix ++ lit " = ") described blank
              ∙ append_assoc prefix (lit " = ") (rstrip described)),
      read_assigned-reference instr.name (rstrip described),
    )
