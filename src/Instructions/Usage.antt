-- ===== src/Instructions/Usage.antt =====
-- `replace_usage` of llvmlite/ir/instructions.py, which puts one instruction in the place of another
-- among the operands, and among the incoming values of a `phi`.
use llvmlite.Prelude.{
  any-map, ◌||◌, ℕ, ◌≡◌, refl, Bool, false, List, [], ◌∷◌, map, any, ◌==◌, if◌then◌else◌,
  Bool-cases, inl, inr,
}
use llvmlite.Values.{Value, instruction, alloca, md_argument}
use llvmlite.Instructions.{Instr, Kind}

-- `v is old` for an instruction with this identity.
unfoldable pub is_object : ℕ → Value → Bool
is_object i (instruction j t n) = j == i
is_object i (alloca j a t n) = j == i
is_object i v = false

unfoldable pub substitute : ℕ → Value → Value → Value
unfolding is_object
substitute i new v = if is_object i v then new else v

abbrev pub on_value : ℕ → Value → Value × Value → Value × Value
on_value i new (v, b) = (substitute i new v, b)

-- `Instruction.replace_usage`, and that of `PhiInstr`, which leaves the operands alone.
unfoldable pub usage_kind : ℕ → Value → Kind → Kind
unfolding substitute
usage_kind i new (Kind.phi incomings) = Kind.phi (map (on_value i new) incomings)
usage_kind i new kind = kind

unfoldable pub usage_operands : ℕ → Value → Kind → List Value → List Value
unfolding substitute
usage_operands i new (Kind.phi incomings) ops = ops
usage_operands i new kind ops = map (substitute i new) ops

-- Whether the operands are a tuple then: those of a `phi` are left alone.
unfoldable pub usage_fixed : ℕ → Kind → List Value → Bool → Bool
unfolding is_object
usage_fixed i (Kind.phi incomings) ops fixed = fixed
usage_fixed i kind ops fixed = fixed || any (is_object i) ops

unfoldable pub replace_usage : ℕ → Value → Instr → Instr
unfolding usage_kind usage_operands usage_fixed
replace_usage i new instr = record instr {
  operands = usage_operands i new instr.kind instr.operands;
  operands_fixed = usage_fixed i instr.kind instr.operands instr.operands_fixed;
  kind = usage_kind i new instr.kind;
}

-- Whether the old instruction is itself an operand, or an incoming value of a `phi`. A metadata
-- argument that wraps it is another object, which `replace_usage` does not look into.
unfoldable pub uses_with : ℕ → Kind → List Value → Bool
unfolding is_object
uses_with i (Kind.phi incomings) ops = any (λ ((v, b) : Value × Value). is_object i v) incomings
uses_with i kind ops = any (is_object i) ops

unfoldable pub uses : ℕ → Instr → Bool
unfolding uses_with
uses i instr = uses_with i instr.kind instr.operands

-- What a `GEPInstr` is printed with.
unfoldable pub printed_pointer : Kind → List Value
printed_pointer (Kind.gep_of ptr indices inbounds source) = ptr ∷ indices
printed_pointer kind = []

substituted :
    (i : ℕ) (new v : Value) → is_object i new ≡ false → is_object i (substitute i new v) ≡ false
unfolding substitute
substituted i new v h = elim (Bool-cases (is_object i v)) [ inl e ↦ rw e h | inr e ↦ rw e e ]

all_substituted :
    (i : ℕ) (new : Value) (ops : List Value)
    → is_object i new ≡ false
    → any (is_object i) (map (substitute i new) ops) ≡ false
all_substituted i new [] h = refl
all_substituted i new (v ∷ ops) h = rw (substituted i new v h) (all_substituted i new ops h)

all_incoming :
    (i : ℕ) (new : Value) (incomings : List (Value × Value))
    → is_object i new ≡ false
    → any (λ ((v, b) : Value × Value). is_object i v) (map (on_value i new) incomings) ≡ false
all_incoming i new [] h = refl
all_incoming i new ((v, b) ∷ rest) h = rw (substituted i new v h) (all_incoming i new rest h)

usage_gone :
    (i : ℕ) (new : Value) (kind : Kind) (ops : List Value)
    → is_object i new ≡ false
    → uses_with i (usage_kind i new kind) (usage_operands i new kind ops) ≡ false
unfolding uses_with usage_kind usage_operands
usage_gone i new (Kind.phi incomings) ops h = all_incoming i new incomings h
usage_gone i new _ ops h = all_substituted i new ops h

-- The old instruction is no operand any more, and no incoming value of a `phi`.
pub uses-replace_usage :
    (i : ℕ) (new : Value) (instr : Instr)
    → is_object i new ≡ false
    → uses i (replace_usage i new instr) ≡ false
unfolding uses replace_usage
uses-replace_usage i new instr h = usage_gone i new instr.kind instr.operands h

-- The old instruction inside a metadata argument.
unfoldable pub inside : ℕ → Value → Bool
unfolding is_object
inside i (md_argument v) = inside i v
inside i v = is_object i v

unfoldable pub wraps : ℕ → Value → Bool
unfolding inside
wraps i (md_argument v) = inside i v
wraps i v = false

-- Some operand, or incoming value of a `phi`, wraps the old instruction.
unfoldable pub wrapped_with : ℕ → Kind → List Value → Bool
unfolding wraps
wrapped_with i (Kind.phi incomings) ops = any (λ ((v, b) : Value × Value). wraps i v) incomings
wrapped_with i kind ops = any (wraps i) ops

abbrev pub wrapped : ℕ → Instr → Bool
wrapped i instr = wrapped_with i instr.kind instr.operands

wraps-substitute :
    (i : ℕ) (new v : Value)
    → wraps i new ≡ false
    → wraps i v ≡ false
    → wraps i (substitute i new v) ≡ false
unfolding substitute
wraps-substitute i new v h k = elim (Bool-cases (is_object i v)) [ inl e ↦ rw e h | inr e ↦ rw e k ]

usage_wrapped :
    (i : ℕ) (new : Value) (kind : Kind) (ops : List Value)
    → wraps i new ≡ false
    → wrapped_with i kind ops ≡ false
    → wrapped_with i (usage_kind i new kind) (usage_operands i new kind ops) ≡ false
unfolding wrapped_with usage_kind usage_operands
usage_wrapped i new (Kind.phi incomings) ops h k =
    any-map _ _ (λ (v, b) e. wraps-substitute i new v h e) incomings k
usage_wrapped i new _ ops h k = any-map _ _ (λ v e. wraps-substitute i new v h e) ops k

-- Where nothing wraps the old instruction, nothing wraps it after `replace_usage`.
pub wrapped-replace_usage :
    (i : ℕ) (new : Value) (instr : Instr)
    → wraps i new ≡ false
    → wrapped i instr ≡ false
    → wrapped i (replace_usage i new instr) ≡ false
unfolding replace_usage
wrapped-replace_usage i new instr h k = usage_wrapped i new instr.kind instr.operands h k
