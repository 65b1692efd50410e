-- ===== src/Transforms/Replaced.antt =====
-- What `replace_all_calls` of llvmlite/ir/transforms.py makes of a module.
use llvmlite.Prelude.{
  ap, all-cons, inl, inr, arith, ◌∙◌, Bool-cases, inl, inr, ◌||◌, any, all, true, not, ◌≡◌, refl,
  ap₂, Bool, false, List, [], ◌∷◌, ◌++◌, ◌&&◌, map, if◌then◌else◌,
}
use llvmlite.Result.{type_error, err, Result, Error, ok}
use llvmlite.Values.{Env, Value}
use llvmlite.Values.Identity.{value_eq}
use llvmlite.Instructions.{Instr}
use llvmlite.Transforms.{
  in_block, visit_basic_block, visit_function, replace_all_calls, same_function_type,
  visit_instruction, visit_call, Visited, go_on, visit_all, is_call,
}
use llvmlite.Builder.{Block}

abbrev pub verdict : Bool → Error → Result (Unit {0})
verdict bad e = if bad then err e else ok tt

module _ {ℓ} {A : Type ℓ} where
  abbrev pub gathered : (A → List Instr) → List A → List Instr
  gathered listed [] = []
  gathered listed (x ∷ xs) = listed x ++ gathered listed xs

  -- Visits that return make a map, and list the calls in order.
  visit_all-map :
      (visit : A → Visited A) (good : A → Bool) (change : A → A) (listed : A → List Instr)
      → ((x : A) → good x ≡ true → visit x ≡ (ok tt, change x, listed x))
      → (xs : List A) → all good xs ≡ true
      → visit_all visit xs ≡ (ok tt, map change xs, gathered listed xs)
  unfolding visit_all
  visit_all-map visit good change listed h [] g = refl
  visit_all-map visit good change listed h (x ∷ xs) g =
      let (here, rest) = all-cons good x xs g in
      ap₂ (λ (v : Visited A) (r : Visited (List A)). go_on v xs r) (h x here)
        (visit_all-map visit good change listed h xs rest)

  -- Visits that change nothing end at the first that raises.
  pub visit_all-same :
      (visit : A → Visited A) (good bad : A → Bool) (e : Error)
      → ((x : A) → good x ≡ true → visit x ≡ (verdict (bad x) e, x, []))
      → (xs : List A) → all good xs ≡ true
      → visit_all visit xs ≡ (verdict (any bad xs) e, xs, [])
  unfolding visit_all
  visit_all-same visit good bad e h [] g = refl
  visit_all-same visit good bad e h (x ∷ xs) g =
      let (here, rest) = all-cons good x xs g in
      ap₂ (λ (v : Visited A) (r : Visited (List A)). go_on v xs r) (h x here)
        (visit_all-same visit good bad e h xs rest)
      ∙ ground arith

abbrev pub first_is : Env → Value → List Value → Bool
first_is env orig [] = false
first_is env orig (callee ∷ args) = value_eq env callee orig

-- A call whose callee equals this value.
abbrev pub calls_of : Env → Value → Instr → Bool
calls_of env orig instr = is_call instr.kind && first_is env orig instr.operands

abbrev pub with_first : Value → List Value → List Value
with_first repl [] = []
with_first repl (callee ∷ args) = repl ∷ args

abbrev pub redirected : Env → Value → Value → Instr → Instr
redirected env orig repl instr =
    if calls_of env orig instr
    then record instr { operands = with_first repl instr.operands }
    else instr

abbrev pub accepts : Result (Unit {0}) → Bool
accepts (ok done) = true
accepts (err e) = false

abbrev pub refuses : Result (Unit {0}) → Bool
refuses (err type_error) = true
refuses _ = false

-- Operands that begin with a callee; if it equals `orig`, `repl` passes the test.
abbrev pub first_passes : (Result (Unit {0}) → Bool) → Env → Value → Value → List Value → Bool
first_passes test env orig repl [] = false
first_passes test env orig repl (callee ∷ args) =
    if value_eq env callee orig then test (same_function_type repl callee) else true

-- A call has a callee; if that equals `orig`, `repl` has its function type, and the operands of the
-- call are a list, not the tuple that `replace_usage` leaves.
abbrev pub fits : Env → Value → Value → Instr → Bool
fits env orig repl instr =
    not (is_call instr.kind)
    || first_passes (λ r. accepts r && not instr.operands_fixed) env orig repl instr.operands

-- A call has a callee; if that equals `orig`, the function type of `repl` is another, or the operands
-- of the call are a tuple.
abbrev pub refuses_call : Instr → Result (Unit {0}) → Bool
refuses_call instr r = refuses r || (accepts r && instr.operands_fixed)

abbrev pub clashes : Env → Value → Value → Instr → Bool
clashes env orig repl instr =
    not (is_call instr.kind) || first_passes (refuses_call instr) env orig repl instr.operands

abbrev pub in_every_block : (Instr → Bool) → List (List Block) → Bool
in_every_block test = all (all (λ (bb : Block). all test bb.instructions))

abbrev pub in_some_block : (Instr → Bool) → List (List Block) → Bool
in_some_block test = any (any (λ (bb : Block). any test bb.instructions))

abbrev pub listed_call : Env → Value → Value → Instr → List Instr
listed_call env orig repl instr =
    if calls_of env orig instr then redirected env orig repl instr ∷ [] else []

abbrev pub on_block : (Instr → Instr) → Block → Block
on_block change bb = record bb { instructions = map change bb.instructions }

abbrev pub block_calls : (Instr → List Instr) → Block → List Instr
block_calls listed bb = gathered listed bb.instructions

accepted : (r : Result (Unit {0})) → accepts r ≡ true → r ≡ ok tt
accepted (ok tt) h = refl
accepted (err e) h = cc

visit_call_lem :
    (env : Env) (orig repl : Value) (ops : List Value) (instr : Instr)
    → instr.operands ≡ ops
    → is_call instr.kind ≡ true
    → first_passes (λ r. accepts r && not instr.operands_fixed) env orig repl ops ≡ true
    → visit_call env orig repl ops instr
      ≡ (ok tt, redirected env orig repl instr, listed_call env orig repl instr)
unfolding visit_call
visit_call_lem env orig repl [] instr same call h = cc
visit_call_lem env orig repl (callee ∷ args) instr same call h =
    elim (Bool-cases (value_eq env callee orig)) [
      | inl e ↦
          let listed : instr.operands_fixed ≡ false = ground (arith, e, h) in
          rw
            (
              e,
              accepted (same_function_type repl callee) (ground (arith, e, h)),
              listed,
              call,
              same,
              e,
            )
            refl
      | inr e ↦ rw (e, call, same, e) refl
    ]

visit_instruction_lem :
    (env : Env) (orig repl : Value) (instr : Instr)
    → fits env orig repl instr ≡ true
    → visit_instruction env orig repl instr
      ≡ (ok tt, redirected env orig repl instr, listed_call env orig repl instr)
unfolding visit_instruction
visit_instruction_lem env orig repl instr h = elim (Bool-cases (is_call instr.kind)) [
  | inl e ↦
      ap (λ b. if b then visit_call env orig repl instr.operands instr else (ok tt, instr, [])) e
      ∙ visit_call_lem env orig repl instr.operands instr refl e (ground (arith, e, h))
  | inr e ↦ rw e refl
]

-- When every call has a callee, and each call whose callee equals `orig` has operands that are a list
-- (as they are until `replace_usage` makes a tuple of them) and a callee of the function type of
-- `repl`, `replace_all_calls` returns. It leaves every function and block as it is but for the calls whose
-- callee equals `orig`, which get `repl` in its place, and it lists just these calls, in order.
pub replace_all_calls_lem :
    (env : Env) (functions : List (List Block)) (orig repl : Value)
    → in_every_block (fits env orig repl) functions ≡ true
    → replace_all_calls env functions orig repl ≡ (
      ok tt,
      map (map (on_block (redirected env orig repl))) functions,
      gathered (gathered (block_calls (listed_call env orig repl))) functions,
    )
unfolding replace_all_calls visit_function visit_basic_block
replace_all_calls_lem env functions orig repl good_functions =
    visit_all-map (visit_function env orig repl)
      (all (λ bb. all (fits env orig repl) bb.instructions))
      (map (on_block (redirected env orig repl)))
      (gathered (block_calls (listed_call env orig repl)))
      (λ blocks good_blocks.
        visit_all-map (visit_basic_block env orig repl)
          (λ bb. all (fits env orig repl) bb.instructions) (on_block (redirected env orig repl))
          (block_calls (listed_call env orig repl))
          (λ bb good. ap (in_block bb) (
            visit_all-map (visit_instruction env orig repl) (fits env orig repl)
              (redirected env orig repl) (listed_call env orig repl)
              (visit_instruction_lem env orig repl) bb.instructions good))
          blocks good_blocks)
      functions good_functions

all-map {ℓ} :
    {A : Type ℓ} (test : A → Bool) (change : A → A)
    → ((x : A) → test (change x) ≡ true)
    → (xs : List A) → all test (map change xs) ≡ true
all-map test change h [] = refl
all-map test change h (x ∷ xs) = ground (arith, h x, all-map test change h xs)

replaced_away :
    (env : Env) (orig repl : Value) (call : Bool) (ops : List Value)
    → value_eq env repl orig ≡ false
    → not (call && first_is env orig (with_first repl ops)) ≡ true
replaced_away env orig repl call [] apart = ground arith
replaced_away env orig repl call (v ∷ vs) apart = ground arith

redirected_away :
    (env : Env) (orig repl : Value)
    → value_eq env repl orig ≡ false
    → (instr : Instr) → not (calls_of env orig (redirected env orig repl instr)) ≡ true
redirected_away env orig repl apart instr = elim (Bool-cases (calls_of env orig instr)) [
  | inl e ↦ rw e (replaced_away env orig repl (is_call instr.kind) instr.operands apart)
  | inr e ↦ rw (e, e) refl
]

-- After `replace_all_calls` no call in the module has a callee that equals `orig`, if `repl` does not
-- equal it, every call has a callee, and each call whose callee equals `orig` has a callee of the
-- function type of `repl` and operands that are a list, not the tuple that `replace_usage` leaves.
pub replace_all_calls_complete :
    (env : Env) (functions : List (List Block)) (orig repl : Value)
    → in_every_block (fits env orig repl) functions ≡ true
    → value_eq env repl orig ≡ false
    → in_every_block
        (λ instr. not (calls_of env orig instr))
        (replace_all_calls env functions orig repl).1
      ≡ true
replace_all_calls_complete env functions orig repl good apart =
    ap
      (λ (v : Visited (List (List Block))).
        in_every_block (λ instr. not (calls_of env orig instr)) v.1)
      (replace_all_calls_lem env functions orig repl good)
    ∙ all-map _ _
        (λ blocks.
          all-map _ _ (λ bb. all-map _ _ (redirected_away env orig repl apart) bb.instructions)
            blocks)
        functions
