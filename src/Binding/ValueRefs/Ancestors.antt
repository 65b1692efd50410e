-- ===== src/Binding/ValueRefs/Ancestors.antt =====
-- What a value reached from a module keeps: the `_parents` of llvmlite/binding/value.py.
use llvmlite.Prelude.{
  subst, ℕ, ◌≡◌, refl, sym, ap, ◌∙◌, Bool, true, false, ◌⊎◌, inl, inr, List, [], ◌∷◌, Option, none,
  some,
}
use llvmlite.Prelude.Texts.{Text, lit, text_eq}
use llvmlite.Result.{Result, Error, ok, guard, value_error, ◌>>=◌, ◌>>◌}
use llvmlite.Binding.ValueRefs.{
  ValueKind, global, function, block, argument, instruction, operand, Parents, ValueRef, Native,
  kind_is_function, kind_is_block, kind_is_instruction, get_function, get_global_variable,
  values_at, within_function, within_block, within_instruction, blocks, arguments, instructions,
  operands, opcode, incoming_blocks, named,
}

-- Membership in what an iterator yields.
abbrev pub IsAmong : ValueRef → List ValueRef → Type 0
IsAmong v [] = ⊥
IsAmong v (w ∷ vs) = (v ≡ w) ⊎ IsAmong v vs

-- What a program reaches from a module by these methods.
pub data Reached (native : Native) (m : ℕ) : ValueRef → Type 0 where
  by_function :
      (name : Text) (v : ValueRef) → get_function native m name ≡ ok v → Reached native m v
  by_global :
      (name : Text) (v : ValueRef) → get_global_variable native m name ≡ ok v → Reached native m v
  by_blocks :
      (u v : ValueRef) (vs : List ValueRef)
      → Reached native m u
      → blocks native u ≡ ok vs
      → IsAmong v vs
      → Reached native m v
  by_arguments :
      (u v : ValueRef) (vs : List ValueRef)
      → Reached native m u
      → arguments native u ≡ ok vs
      → IsAmong v vs
      → Reached native m v
  by_instructions :
      (u v : ValueRef) (vs : List ValueRef)
      → Reached native m u
      → instructions native u ≡ ok vs
      → IsAmong v vs
      → Reached native m v
  by_operands :
      (u v : ValueRef) (vs : List ValueRef)
      → Reached native m u
      → operands native u ≡ ok vs
      → IsAmong v vs
      → Reached native m v
  by_incoming :
      (u v : ValueRef) (vs : List ValueRef)
      → Reached native m u
      → incoming_blocks native u ≡ ok vs
      → IsAmong v vs
      → Reached native m v

abbrev pub IsListed : ℕ → List ℕ → Type 0
IsListed q [] = ⊥
IsListed q (p ∷ ps) = (q ≡ p) ⊎ IsListed q ps

-- The blocks of a function, and those from which a `phi` in one of its blocks takes a value.
pub data IsBlockOf (native : Native) (f : ℕ) : ℕ → Type 0 where
  own : (b : ℕ) → IsListed b (native.blocks_of f) → IsBlockOf native f b
  incoming :
      (b i c : ℕ)
      → IsBlockOf native f b
      → IsListed i (native.instructions_of b)
      → IsListed c (native.incoming_of i)
      → IsBlockOf native f c

abbrev pub IsFunctionOf : Native → ℕ → ℕ → Type 0
IsFunctionOf native m f = (name : Text) × (native.named_function m name ≡ some f)

-- Where a value of this kind stands, by what LLVM answers: its pointer and the pointers of its
-- parents.
abbrev pub IsPart : Native → ℕ → ValueKind → ℕ → Parents → Type 0
IsPart native m global q p = (name : Text) × (native.named_global m name ≡ some q)
IsPart native m function q p = IsFunctionOf native m q
IsPart native m block q p =
    (f : ℕ) × (p.function_of ≡ some f) × IsFunctionOf native m f × IsBlockOf native f q
IsPart native m argument q p =
    (f : ℕ) × (p.function_of ≡ some f)
    × IsFunctionOf native m f
    × IsListed q (native.arguments_of f)
IsPart native m instruction q p =
    (f b : ℕ) × (p.function_of ≡ some f)
    × (p.block_of ≡ some b)
    × IsFunctionOf native m f
    × IsBlockOf native f b
    × IsListed q (native.instructions_of b)
IsPart native m operand q p =
    (f b i : ℕ) × (p.function_of ≡ some f)
    × (p.block_of ≡ some b)
    × (p.instruction_of ≡ some i)
    × IsFunctionOf native m f
    × IsBlockOf native f b
    × IsListed i (native.instructions_of b)
    × IsListed q (native.operands_of i)

pub record IsPlaced (native : Native) (m : ℕ) (v : ValueRef) : Type 0 where
  pub in_same_module : v.parents.module_of ≡ m
  pub part : IsPart native m v.kind v.ptr v.parents

module _ {A : Type 0} where
  guarded :
      (b : Bool) (e : Error) (r : Result A) {a : A}
      → (guard b e >> r) ≡ ok a
      → (b ≡ true) × (r ≡ ok a)
  guarded true e r h = (refl, h)
  guarded false e r h = cc

  ok-injective : {a b : A} → ok a ≡ ok b → b ≡ a
  ok-injective e = cc

-- What an iterator yields has its kind, its parents and a pointer that LLVM lists.
among :
    (kind : ValueKind) (p : Parents) (ps : List ℕ) (v : ValueRef)
    → IsAmong v (values_at kind p ps)
    → (q : ℕ) × IsListed q ps × (record { ptr = q; kind = kind; parents = p } ≡ v)
unfolding values_at
among kind p [] v i = absurd i
among kind p (q ∷ ps) v (inl e) = (q, inl refl, sym e)
among kind p (q ∷ ps) v (inr i) = let (r, there, same) = among kind p ps v i in (r, inr there, same)

-- An operation on values of one kind, whose results stand in the value it is called on.
by_part :
    (native : Native) (m : ℕ) (kind : ValueKind) (p : Parents) (ps : List ℕ) (v : ValueRef)
    (vs : List ValueRef)
    → ok (values_at kind p ps) ≡ ok vs
    → IsAmong v vs
    → ((q : ℕ) → IsListed q ps → IsPlaced native m (record { ptr = q; kind = kind; parents = p }))
    → IsPlaced native m v
by_part native m kind p ps v vs h i placed =
    let (q, there, same) = among kind p ps v (subst (IsAmong v) (ok-injective h) i) in
    subst (IsPlaced native m) same (placed q there)

named_global :
    (native : Native) (m : ℕ) (name : Text) (o : Option ℕ) (v : ValueRef)
    → native.named_global m name ≡ o
    → named global m o ≡ ok v
    → IsPlaced native m v
named_global native m name none v e h = cc
named_global native m name (some q) v e h =
    subst (IsPlaced native m) (sym (ok-injective h))
      (record { in_same_module = refl; part = (name, e) })

named_function :
    (native : Native) (m : ℕ) (name : Text) (o : Option ℕ) (v : ValueRef)
    → native.named_function m name ≡ o
    → named function m o ≡ ok v
    → IsPlaced native m v
named_function native m name none v e h = cc
named_function native m name (some q) v e h =
    subst (IsPlaced native m) (sym (ok-injective h))
      (record { in_same_module = refl; part = (name, e) })

-- The part of a value whose kind has been tested.
as_function :
    (native : Native) (m q : ℕ) (k : ValueKind) (p : Parents)
    → kind_is_function k ≡ true
    → IsPart native m k q p
    → IsPart native m function q p
unfolding kind_is_function
as_function native m q function p h a = a
as_function native m q k p h a = cc

as_block :
    (native : Native) (m q : ℕ) (k : ValueKind) (p : Parents)
    → kind_is_block k ≡ true
    → IsPart native m k q p
    → IsPart native m block q p
unfolding kind_is_block
as_block native m q block p h a = a
as_block native m q k p h a = cc

as_instruction :
    (native : Native) (m q : ℕ) (k : ValueKind) (p : Parents)
    → kind_is_instruction k ≡ true
    → IsPart native m k q p
    → IsPart native m instruction q p
unfolding kind_is_instruction
as_instruction native m q instruction p h a = a
as_instruction native m q k p h a = cc

-- A value that was reached from a module keeps the module, and the very values it stands in, as LLVM
-- lists them: a block (of the function, or from which one of its `phi`s takes a value) and an
-- argument keep their function, an instruction the block that lists it and the function of that
-- block, and an operand the instruction that has it with the block and the function of that.
pub reached_placed :
    (native : Native) (m : ℕ) (v : ValueRef) → Reached native m v → IsPlaced native m v
unfolding get_function get_global_variable blocks arguments instructions operands incoming_blocks
    opcode
reached_placed native m _ (by_function name v h) =
    named_function native m name (native.named_function m name) v refl h
reached_placed native m _ (by_global name v h) =
    named_global native m name (native.named_global m name) v refl h
reached_placed native m _ (by_blocks u v vs r h i) =
    let a = reached_placed native m u r in
    let (k, same) = guarded (kind_is_function u.kind) value_error _ h in
    by_part native m block (within_function u) (native.blocks_of u.ptr) v vs same i (λ q there.
      record {
        in_same_module = a.in_same_module;
        part = (u.ptr, refl, as_function native m u.ptr u.kind u.parents k a.part, own q there);
      })
reached_placed native m _ (by_arguments u v vs r h i) =
    let a = reached_placed native m u r in
    let (k, same) = guarded (kind_is_function u.kind) value_error _ h in
    by_part native m argument (within_function u) (native.arguments_of u.ptr) v vs same i
      (λ q there. record {
        in_same_module = a.in_same_module;
        part = (u.ptr, refl, as_function native m u.ptr u.kind u.parents k a.part, there);
      })
reached_placed native m _ (by_instructions u v vs r h i) =
    let a = reached_placed native m u r in
    let (k, same) = guarded (kind_is_block u.kind) value_error _ h in
    let (f, of_f, named_f, in_f) = as_block native m u.ptr u.kind u.parents k a.part in
    by_part native m instruction (within_block u) (native.instructions_of u.ptr) v vs same i
      (λ q there. record {
        in_same_module = a.in_same_module;
        part = (f, u.ptr, of_f, refl, named_f, in_f, there);
      })
reached_placed native m _ (by_operands u v vs r h i) =
    let a = reached_placed native m u r in
    let (k, same) = guarded (kind_is_instruction u.kind) value_error _ h in
    let (f, b, of_f, of_b, named_f, in_f, in_b) =
      as_instruction native m u.ptr u.kind u.parents k a.part in
    by_part native m operand (within_instruction u) (native.operands_of u.ptr) v vs same i
      (λ q there. record {
        in_same_module = a.in_same_module;
        part = (f, b, u.ptr, of_f, of_b, refl, named_f, in_f, in_b, there);
      })
reached_placed native m _ (by_incoming u v vs r h i) =
    let a = reached_placed native m u r in
    let (k, rest) = guarded (kind_is_instruction u.kind) value_error _ h in
    let op : Text = native.opcode_of u.ptr in
    let yielded : Result (List ValueRef) =
      ok (values_at block (within_instruction u) (native.incoming_of u.ptr)) in
    let (is_phi, same) = guarded (text_eq op (lit "phi")) value_error yielded (
      sym (
        ap
          (λ b. (guard b value_error >> ok op) >>= λ o.
            guard (text_eq o (lit "phi")) value_error >> yielded)
          k)
      ∙ rest) in
    let (f, b, of_f, of_b, named_f, in_f, in_b) =
      as_instruction native m u.ptr u.kind u.parents k a.part in
    by_part native m block (within_instruction u) (native.incoming_of u.ptr) v vs same i (λ q there.
      record {
        in_same_module = a.in_same_module;
        part = (f, of_f, named_f, incoming b u.ptr q in_f in_b there);
      })
