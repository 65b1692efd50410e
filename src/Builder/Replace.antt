-- ===== src/Builder/Replace.antt =====
-- `Block.replace` of llvmlite/ir/values.py.
use llvmlite.Prelude.{
  ◌⊎◌, any-erase_at, any-insert_at, any-map, Bool-cases, inl, inr, Bool-cases, ℕ, ◌≡◌, refl, ◌∙◌,
  Bool, true, false, List, [], ◌∷◌, map, any, insert_at, erase_at, ◌==◌, if◌then◌else◌, Option,
  none, some, arith,
}
use llvmlite.Result.{Result, ok, err, type_error, value_error}
use llvmlite.Exec.{Exec, raise, ◌>>=◌}
use llvmlite.Types.{type_eq, Ty}
use llvmlite.Prelude.Texts.{Text}
use llvmlite.Values.{Value}
use llvmlite.Instructions.{Instr, value_of, as_value, Kind}
use llvmlite.Instructions.Usage.{
  replace_usage, uses, uses-replace_usage, is_object, wraps, wrapped, wrapped-replace_usage,
  printed_pointer, usage_kind,
}
use llvmlite.Builder.{State, Block, find_block, update_block, get_block, need, index_of}

abbrev exchanged : ℕ → Instr → Block → Block
exchanged pos new b = record b { instructions = insert_at pos new (erase_at pos b.instructions) }

abbrev rewritten : ℕ → Instr → Block → Block
rewritten old new b = record b {
  instructions = map (replace_usage old (value_of new)) b.instructions;
}

unfoldable pub exchange : ℕ → ℕ → Instr → Option ℕ → State → Result (Unit {0}) × State
unfolding update_block replace_usage value_of
exchange i old new none s = (err value_error, s)
exchange i old new (some pos) s = (
  ok tt,
  record s { blocks = map (rewritten old new) (update_block i (exchanged pos new) s.blocks) },
)

-- `replace` of the block with this identity.
unfoldable pub replace : ℕ → Instr → Instr → Exec State (Unit {0})
unfolding type_eq get_block index_of exchange
replace i old new =
    if type_eq old.typ new.typ
    then (get_block i >>= λ b. exchange i old.ident new (index_of old.ident b.instructions))
    else raise type_error

-- Some instruction of the function has the object as an operand or as an incoming value.
unfoldable pub used_in : ℕ → List Block → Bool
unfolding uses
used_in i bs = any (λ (b : Block). any (uses i) b.instructions) bs

none_use :
    (i : ℕ) (new : Instr) (xs : List Instr)
    → is_object i (value_of new) ≡ false
    → any (uses i) (map (replace_usage i (value_of new)) xs) ≡ false
none_use i new [] h = refl
none_use i new (x ∷ xs) h = rw (uses-replace_usage i (value_of new) x h) (none_use i new xs h)

none_used :
    (i : ℕ) (new : Instr) (bs : List Block)
    → is_object i (value_of new) ≡ false
    → used_in i (map (rewritten i new) bs) ≡ false
unfolding used_in
none_used i new [] h = refl
none_used i new (b ∷ bs) h = rw (none_use i new b.instructions h) (none_used i new bs h)

as_value-object :
    (i j : ℕ) (t : Ty) (n : Text) (kind : Kind) → is_object i (as_value j t n kind) ≡ (j == i)
unfolding is_object as_value
as_value-object i j t n (Kind.alloca_of a align) = refl
as_value-object i j t n _ = refl

other_object : (i : ℕ) (new : Instr) → (i == new.ident) ≡ false → is_object i (value_of new) ≡ false
unfolding value_of
other_object i new d = as_value-object i new.ident new.typ new.name new.kind ∙ ground (arith, d)

-- Some instruction of the function has a metadata argument around the object.
unfoldable pub wrapped_in : ℕ → List Block → Bool
wrapped_in i bs = any (λ (b : Block). any (wrapped i) b.instructions) bs

as_value-unwrapped :
    (i j : ℕ) (t : Ty) (n : Text) (kind : Kind) → wraps i (as_value j t n kind) ≡ false
unfolding wraps as_value
as_value-unwrapped i j t n (Kind.alloca_of a align) = refl
as_value-unwrapped i j t n _ = refl

unwrapped_value : (i : ℕ) (new : Instr) → wraps i (value_of new) ≡ false
unfolding value_of
unwrapped_value i new = as_value-unwrapped i new.ident new.typ new.name new.kind

wrapped-exchanged :
    (i old pos : ℕ) (new : Instr) (bs : List Block)
    → wrapped old new ≡ false
    → wrapped_in old bs ≡ false
    → wrapped_in old (update_block i (exchanged pos new) bs) ≡ false
unfolding wrapped_in update_block
wrapped-exchanged i old pos new [] h k = refl
wrapped-exchanged i old pos new (b ∷ bs) h k = ground (
  arith,
  any-insert_at (wrapped old) pos new (erase_at pos b.instructions),
  any-erase_at (wrapped old) pos b.instructions,
  wrapped-exchanged i old pos new bs h,
)

wrapped-rewritten :
    (old : ℕ) (new : Instr) (bs : List Block)
    → wrapped_in old bs ≡ false
    → wrapped_in old (map (rewritten old new) bs) ≡ false
unfolding wrapped_in
wrapped-rewritten old new bs k =
    any-map _ _
      (λ b e.
        any-map _ _
          (λ instr e'. wrapped-replace_usage old (value_of new) instr (unwrapped_value old new) e')
          b.instructions e)
      bs k

-- What a replacement of the old instruction by the new one leaves of it.
pub record IsReplaced (old : ℕ) (new : Instr) (bs bs' : List Block) : Type 0 where
  pub unused : used_in old bs' ≡ false
  pub no_new_wrapping :
      (wrapped_in old bs' ≡ false) ⊎ ((wrapped_in old bs ≡ true) ⊎ (wrapped old new ≡ true))

none_wrapped :
    (i old pos : ℕ) (new : Instr) (bs : List Block)
    → (wrapped_in old (map (rewritten old new) (update_block i (exchanged pos new) bs)) ≡ false)
      ⊎ ((wrapped_in old bs ≡ true) ⊎ (wrapped old new ≡ true))
none_wrapped i old pos new bs = elim (Bool-cases (wrapped_in old bs)) [
  | inl before ↦ inr (inl before)
  | inr k ↦ elim (Bool-cases (wrapped old new)) [
    | inl given ↦ inr (inr given)
    | inr l ↦ inl (
        wrapped-rewritten old new (update_block i (exchanged pos new) bs)
          (wrapped-exchanged i old pos new bs l k))
  ]
]

exchange_complete :
    (i : ℕ) (old new : Instr) (o : Option ℕ) (s : State)
    → (old.ident == new.ident) ≡ false
    → (exchange i old.ident new o s).0 ≡ ok tt
    → IsReplaced old.ident new s.blocks (exchange i old.ident new o s).1.blocks
unfolding exchange
exchange_complete i old new none s d h = cc
exchange_complete i old new (some pos) s d h = record {
  unused =
      none_used old.ident new (update_block i (exchanged pos new) s.blocks)
        (other_object old.ident new d);
  no_new_wrapping = none_wrapped i old.ident pos new s.blocks;
}

found_complete :
    (i : ℕ) (old new : Instr) (o : Option Block) (s : State)
    → (old.ident == new.ident) ≡ false
    → ((need o >>= λ b. exchange i old.ident new (index_of old.ident b.instructions)) s).0 ≡ ok tt
    → IsReplaced old.ident new s.blocks
        ((need o >>= λ b. exchange i old.ident new (index_of old.ident b.instructions)) s).1.blocks
unfolding need
found_complete i old new none s d h = cc
found_complete i old new (some b) s d h =
    exchange_complete i old new (index_of old.ident b.instructions) s d h

-- When a replacement by another instruction goes through, no operand and no incoming value in any
-- block of the function is the old instruction, those of the new one included. A metadata argument
-- that wraps the old instruction is not looked into; there is none afterwards if the function and the
-- new instruction had none.
pub replace_complete :
    (i : ℕ) (old new : Instr) (s : State)
    → (old.ident == new.ident) ≡ false
    → (replace i old new s).0 ≡ ok tt
    → IsReplaced old.ident new s.blocks (replace i old new s).1.blocks
unfolding replace get_block
replace_complete i old new s d h = elim (Bool-cases (type_eq old.typ new.typ)) [
  | inl same ↦ rw same (found_complete i old new (find_block i s.blocks) s d (rw same at h))
  | inr other ↦ cc (rw other at h)
]

object_substituted :
    (i : ℕ) (v : Value) (rest : List Value)
    → is_object i v ≡ true
    → any (is_object i) (v ∷ rest) ≡ true
object_substituted i v rest h = rw h refl

-- A `GEPInstr` on the old instruction is printed with the old instruction still, once its operands
-- refer to the new one.
pub replace_usage_stale :
    (i : ℕ) (new v : Value) (indices : List Value) (instr : Instr) {inbounds : Bool} {source : Ty}
    → instr.kind ≡ Kind.gep_of v indices inbounds source
    → is_object i v ≡ true
    → is_object i new ≡ false
    → (uses i (replace_usage i new instr) ≡ false)
      × (any (is_object i) (printed_pointer (replace_usage i new instr).kind) ≡ true)
unfolding printed_pointer replace_usage usage_kind
replace_usage_stale i new v indices instr e old fresh =
    (uses-replace_usage i new instr fresh, simp e (object_substituted i v indices old))
