-- ===== src/Instructions/Print/Caches.antt =====
-- The cached text of an instruction: `_StrCaching` of llvmlite/ir/_utils.py with the methods of
-- llvmlite/ir/instructions.py that change a printed instruction.
use llvmlite.Prelude.{
  ℕ, ◌≡◌, refl, ap, ap₂, sym, ◌∙◌, arith, Bool, true, false, List, [], ◌∷◌, map, any, Option, none,
  some, if◌then◌else◌, Bool-cases, inl, inr,
}
use llvmlite.Prelude.Texts.{Text}
use llvmlite.Result.{Result, ok, err, type_error, index_error}
use llvmlite.Values.{Value, Env}
use llvmlite.Instructions.{Instr, Kind}
use llvmlite.Instructions.Usage.{
  usage_fixed, is_object, replace_usage, substitute, usage_kind, usage_operands,
}
use llvmlite.Instructions.Print.Classes.{to_string}

-- An instruction with its `__cached_str`, if it has one.
pub record Printed : Type 0 where
  pub instr : Instr
  pub cached : Option Text

abbrev stored : Result Text → Printed → Result Text × Printed
stored (err raised) p = (err raised, p)
stored (ok text) p = (ok text, record p { cached = some text })

abbrev cached_or_new : Env → Option Text → Printed → Result Text × Printed
cached_or_new env (some text) p = (ok text, p)
cached_or_new env none p = stored (to_string env p.instr) p

-- `_StrCaching.__str__`
unfoldable pub str : Env → Printed → Result Text × Printed
unfolding to_string
str env p = cached_or_new env p.cached p

-- `_clear_string_cache`
abbrev clear_string_cache : Printed → Printed
clear_string_cache p = record p { cached = none }

-- `Instruction.replace_usage`, which clears the cache if the old value was an operand, and
-- `PhiInstr.replace_usage`, which does not clear it.
unfoldable pub replaced_with : ℕ → Value → Kind → Printed → Printed
unfolding replace_usage is_object
replaced_with i new (Kind.phi incomings) p = record p { instr = replace_usage i new p.instr }
replaced_with i new kind p =
    if any (is_object i) p.instr.operands
    then clear_string_cache (record p { instr = replace_usage i new p.instr })
    else p

unfoldable pub replace_usage_of : ℕ → Value → Printed → Printed
unfolding replaced_with
replace_usage_of i new p = replaced_with i new p.instr.kind p

abbrev with_first : Value → List Value → Instr → Instr
with_first newcallee args instr = record instr { operands = newcallee ∷ args }

-- `self.operands[0] = newcallee`, which a tuple refuses, and a list without a first element.
abbrev first_set : Bool → Value → List Value → Printed → Result (Unit {0}) × Printed
first_set true newcallee ops p = (err type_error, p)
first_set false newcallee [] p = (err index_error, p)
first_set false newcallee (callee ∷ args) p =
    (ok tt, record p { instr = with_first newcallee args p.instr })

-- `CallInstr.callee = newcallee`, as `replace_callee` does behind its test.
unfoldable pub set_callee : Value → Printed → Result (Unit {0}) × Printed
set_callee newcallee p = first_set p.instr.operands_fixed newcallee p.instr.operands p

-- A cached text is the text of the instruction as it is.
abbrev pub IsFresh : Env → Printed → Type 0
IsFresh env p = (text : Text) → p.cached ≡ some text → to_string env p.instr ≡ ok text

unfoldable pub is_phi : Kind → Bool
is_phi (Kind.phi incomings) = true
is_phi _ = false

-- Substitution leaves operands alone that do not hold the old value.
unused :
    (i : ℕ) (new : Value) (ops : List Value)
    → any (is_object i) ops ≡ false
    → map (substitute i new) ops ≡ ops
unfolding substitute
unused i new [] h = refl
unused i new (v ∷ ops) h = elim (Bool-cases (is_object i v)) [
  | inl e ↦ ground (arith, e, h)
  | inr e ↦ rw e (ap (λ rest. v ∷ rest) (unused i new ops (ground (arith, e, h))))
]

stored-text : (r : Result Text) (p : Printed) → (stored r p).0 ≡ r
stored-text (err raised) p = refl
stored-text (ok text) p = refl

-- A fresh cache gives the text of the instruction as it is, and so does none.
cached_or_new-fresh :
    (env : Env) (o : Option Text) (p : Printed)
    → p.cached ≡ o
    → IsFresh env p
    → (cached_or_new env o p).0 ≡ to_string env p.instr
cached_or_new-fresh env none p e f = stored-text (to_string env p.instr) p
cached_or_new-fresh env (some text) p e f = sym (f text e)

str_fresh : (env : Env) (p : Printed) → IsFresh env p → (str env p).0 ≡ to_string env p.instr
unfolding str
str_fresh env p f = cached_or_new-fresh env p.cached p refl f

same_kind : (i : ℕ) (new : Value) (k : Kind) → is_phi k ≡ false → usage_kind i new k ≡ k
unfolding usage_kind is_phi
same_kind i new (Kind.phi incomings) h = cc
same_kind i new k h = refl

same_operands :
    (i : ℕ) (new : Value) (k : Kind) (ops : List Value)
    → is_phi k ≡ false
    → usage_operands i new k ops ≡ map (substitute i new) ops
unfolding usage_operands is_phi
same_operands i new (Kind.phi incomings) ops h = cc
same_operands i new k ops h = refl

same_fixed :
    (i : ℕ) (k : Kind) (ops : List Value) (fixed : Bool)
    → is_phi k ≡ false
    → any (is_object i) ops ≡ false
    → usage_fixed i k ops fixed ≡ fixed
unfolding usage_fixed is_phi
same_fixed i (Kind.phi incomings) ops fixed h u = refl
same_fixed i k ops fixed h u = rw u (ground arith)

same_usage :
    (i : ℕ) (new : Value) (instr : Instr)
    → is_phi instr.kind ≡ false
    → any (is_object i) instr.operands ≡ false
    → replace_usage i new instr ≡ instr
unfolding replace_usage
same_usage i new instr h u =
    ap₂
      (λ ops k. record instr {
        operands = ops;
        operands_fixed = usage_fixed i instr.kind instr.operands instr.operands_fixed;
        kind = k;
      })
      (same_operands i new instr.kind instr.operands h ∙ unused i new instr.operands u)
      (same_kind i new instr.kind h)
    ∙ ap (λ b. record instr { operands_fixed = b })
        (same_fixed i instr.kind instr.operands instr.operands_fixed h u)

branches :
    (i : ℕ) (new : Value) (k : Kind) (p : Printed)
    → is_phi k ≡ false
    → replaced_with i new k p ≡ (
        if any (is_object i) p.instr.operands
        then clear_string_cache (record p { instr = replace_usage i new p.instr })
        else p)
unfolding replaced_with is_phi
branches i new (Kind.phi incomings) p h = cc
branches i new k p h = refl

-- When a printed instruction that is no `phi` has no stale text, its text after `replace_usage` is
-- the text of the instruction with the new operands.
pub str-replace_usage :
    (env : Env) (i : ℕ) (new : Value) (p : Printed)
    → is_phi p.instr.kind ≡ false
    → IsFresh env p
    → (str env (replace_usage_of i new p)).0 ≡ to_string env (replace_usage i new p.instr)
unfolding replace_usage_of
str-replace_usage env i new p h f =
    ap (λ q. (str env q).0) (branches i new p.instr.kind p h)
    ∙ elim (Bool-cases (any (is_object i) p.instr.operands)) [
      | inl e ↦ rw e (
          str_fresh env (clear_string_cache (record p { instr = replace_usage i new p.instr }))
            (λ text c. cc))
      | inr e ↦ rw e (str_fresh env p f ∙ ap (to_string env) (sym (same_usage i new p.instr h e)))
    ]
