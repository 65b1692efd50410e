-- ===== src/Builder/Compare.antt =====
-- The predicates of comparisons: what `icmp_signed`, `icmp_unsigned`, `fcmp_ordered` and
-- `fcmp_unordered` of llvmlite/ir/builder.py ask for, against what the instructions of
-- llvmlite/ir/instructions.py accept, and the constants of llvmlite/ir/values.py.
use llvmlite.Prelude.{
  List, ◌≡◌, refl, Bool, true, false, if◌then◌else◌, Bool-cases, inl, inr, ◌⊎◌, Option, none, some,
}
use llvmlite.Prelude.Texts.{Text, lit, text_eq, text_eq→eq}
use llvmlite.Result.{Result, ok, err, value_error}
use llvmlite.Attributes.{has}
use llvmlite.Values.ConstOps.{cmp_map, is_equality, signed_op, const_cmp_op}
use llvmlite.Instructions.Calls.{icmp_ops, fcmp_ops}
use llvmlite.Builder.Ops.{signed_or_equal, prefixed, icmp_op, fcmp_op}

-- The operators of `_CMP_MAP`, and any other text.
data Operator (c : Text) : Type 0 where
  gt : c ≡ lit ">" → Operator c
  lt : c ≡ lit "<" → Operator c
  eq : c ≡ lit "==" → Operator c
  ne : c ≡ lit "!=" → Operator c
  ge : c ≡ lit ">=" → Operator c
  le : c ≡ lit "<=" → Operator c
  other : cmp_map c ≡ none → Operator c

operator : (c : Text) → Operator c
unfolding cmp_map
operator c = elim (Bool-cases (text_eq c (lit ">"))) [
  | inl e ↦ gt (text_eq→eq c _ e)
  | inr e1 ↦ elim (Bool-cases (text_eq c (lit "<"))) [
    | inl e ↦ lt (text_eq→eq c _ e)
    | inr e2 ↦ elim (Bool-cases (text_eq c (lit "=="))) [
      | inl e ↦ eq (text_eq→eq c _ e)
      | inr e3 ↦ elim (Bool-cases (text_eq c (lit "!="))) [
        | inl e ↦ ne (text_eq→eq c _ e)
        | inr e4 ↦ elim (Bool-cases (text_eq c (lit ">="))) [
          | inl e ↦ ge (text_eq→eq c _ e)
          | inr e5 ↦ elim (Bool-cases (text_eq c (lit "<="))) [
            | inl e ↦ le (text_eq→eq c _ e)
            | inr e6 ↦ other (rw (e1, e2, e3, e4, e5, e6) refl)
          ]
        ]
      ]
    ]
  ]
]

-- A text that the map has.
abbrev pub is_mapped : Option Text → Bool
is_mapped none = false
is_mapped (some op) = true

-- The operator is unknown and refused, or known and its predicate is one of the instruction's.
abbrev pub Accepted : List Text → Bool → Result Text → Type 0
Accepted ops known (ok op) = (known ≡ true) × (has op ops ≡ true)
Accepted ops known (err e) = (known ≡ false) × (e ≡ value_error)

data Sign (sign : Text) : Type 0 where
  signed : sign ≡ lit "s" → Sign sign
  unsigned : sign ≡ lit "u" → Sign sign

icmp_cases :
    (sign c : Text)
    → Sign sign
    → Operator c
    → Accepted icmp_ops (is_mapped (cmp_map c)) (icmp_op sign c)
unfolding icmp_op cmp_map is_equality has lit text_eq
icmp_cases sign c (signed p) (gt e) = rw (p, e) (refl, refl)
icmp_cases sign c (signed p) (lt e) = rw (p, e) (refl, refl)
icmp_cases sign c (signed p) (eq e) = rw (p, e) (refl, refl)
icmp_cases sign c (signed p) (ne e) = rw (p, e) (refl, refl)
icmp_cases sign c (signed p) (ge e) = rw (p, e) (refl, refl)
icmp_cases sign c (signed p) (le e) = rw (p, e) (refl, refl)
icmp_cases sign c (unsigned p) (gt e) = rw (p, e) (refl, refl)
icmp_cases sign c (unsigned p) (lt e) = rw (p, e) (refl, refl)
icmp_cases sign c (unsigned p) (eq e) = rw (p, e) (refl, refl)
icmp_cases sign c (unsigned p) (ne e) = rw (p, e) (refl, refl)
icmp_cases sign c (unsigned p) (ge e) = rw (p, e) (refl, refl)
icmp_cases sign c (unsigned p) (le e) = rw (p, e) (refl, refl)
icmp_cases sign c p (other e) = rw e (refl, refl)

-- `icmp_signed` and `icmp_unsigned` build a comparison for the six operators, of a predicate that
-- the instruction accepts, and raise a value error for any other text.
pub icmp_op-Accepted :
    (is_signed : Bool) (c : Text)
    → Accepted icmp_ops (is_mapped (cmp_map c)) (icmp_op (lit (if is_signed then "s" else "u")) c)
icmp_op-Accepted true c = icmp_cases (lit "s") c (signed refl) (operator c)
icmp_op-Accepted false c = icmp_cases (lit "u") c (unsigned refl) (operator c)

fcmp_cases :
    (sign c : Text)
    → (sign ≡ lit "o") ⊎ (sign ≡ lit "u")
    → Operator c
    → has (fcmp_op sign c) fcmp_ops ≡ (if is_mapped (cmp_map c) then true else has c fcmp_ops)
unfolding fcmp_op cmp_map has lit text_eq
fcmp_cases sign c (inl p) (gt e) = rw (p, e) refl
fcmp_cases sign c (inl p) (lt e) = rw (p, e) refl
fcmp_cases sign c (inl p) (eq e) = rw (p, e) refl
fcmp_cases sign c (inl p) (ne e) = rw (p, e) refl
fcmp_cases sign c (inl p) (ge e) = rw (p, e) refl
fcmp_cases sign c (inl p) (le e) = rw (p, e) refl
fcmp_cases sign c (inr p) (gt e) = rw (p, e) refl
fcmp_cases sign c (inr p) (lt e) = rw (p, e) refl
fcmp_cases sign c (inr p) (eq e) = rw (p, e) refl
fcmp_cases sign c (inr p) (ne e) = rw (p, e) refl
fcmp_cases sign c (inr p) (ge e) = rw (p, e) refl
fcmp_cases sign c (inr p) (le e) = rw (p, e) refl
fcmp_cases sign c p (other e) = rw e refl

-- `fcmp_ordered` and `fcmp_unordered` ask for a predicate that the instruction accepts at the six
-- operators; any other text is accepted exactly if it is a predicate itself.
pub fcmp_accepted :
    (is_ordered : Bool) (c : Text)
    → has (fcmp_op (lit (if is_ordered then "o" else "u")) c) fcmp_ops
      ≡ (if is_mapped (cmp_map c) then true else has c fcmp_ops)
fcmp_accepted true c = fcmp_cases (lit "o") c (inl refl) (operator c)
fcmp_accepted false c = fcmp_cases (lit "u") c (inr refl) (operator c)

const_icmp_cases :
    (sign c : Text) (o : Option Text) → signed_op (lit "i") sign c o ≡ signed_or_equal sign c o
unfolding signed_op lit text_eq
const_icmp_cases sign c none = refl
const_icmp_cases sign c (some op) = refl

const_fcmp_cases :
    (sign c : Text) (o : Option Text)
    → signed_op (lit "f") sign c o
      ≡ (if is_mapped o then ok (prefixed sign c o) else err value_error)
unfolding signed_op lit text_eq
const_fcmp_cases sign c none = refl
const_fcmp_cases sign c (some op) = refl

-- The integer comparisons of constants choose the predicate, or raise, as the builder's do. Those of
-- floating point agree with the builder's at the six operators alone, and raise a value error for
-- the predicates that the builder hands on, such as `ord` and `uno`.
pub const_cmp_op_lem :
    (sign c : Text)
    → (const_cmp_op (lit "i") sign c ≡ icmp_op sign c)
      × (const_cmp_op (lit "f") sign c
          ≡ (if is_mapped (cmp_map c) then ok (fcmp_op sign c) else err value_error))
unfolding const_cmp_op icmp_op fcmp_op
const_cmp_op_lem sign c = (const_icmp_cases sign c (cmp_map c), const_fcmp_cases sign c (cmp_map c))
