-- ===== src/Builder.antt =====
-- `IRBuilder` of llvmlite/ir/builder.py on the blocks of one function, with `Block` and
-- `append_basic_block` of llvmlite/ir/values.py: the state and the operations that move the
-- builder, insert and remove. Instructions and blocks are objects with identities, and what the
-- code reads through a reference stands in the tables of the state.
pub mod Blocks
pub mod Ops
pub mod Control
pub mod Intrinsics
pub mod Steps
pub mod WellFormed
pub mod Moves
pub mod Kept
pub mod Invariant
pub mod Goto
pub mod Order
pub mod Finish
pub mod Branches
pub mod IfThen
pub mod Compare
pub mod Undo
pub mod Replace
use llvmlite.Prelude.{
  ℕ, zero, suc, ◌+◌, ◌-◌, Bool, true, false, List, [], ◌∷◌, ◌++◌, length, insert_at, erase_at, take,
  ltb, ◌==◌, if◌then◌else◌, Option, none, some,
}
use llvmlite.Prelude.Texts.{Text, lit, text_eq}
use llvmlite.Result.{Result, ok, err, assertion_error, attribute_error, value_error}
use llvmlite.Exec.{Exec, pure, raise, ◌>>=◌, ◌>>◌}
use llvmlite.Scope.{NameScope, register}
use llvmlite.Values.{Value, block}
use llvmlite.Module.Metadata.{Metadata}
use llvmlite.Instructions.{Instr, Draft}

-- `Block`. Its terminator is one of the instructions, by identity.
pub record Block : Type 0 where
  pub ident : ℕ
  pub name : Text
  pub instructions : List Instr
  pub terminator : Option ℕ

-- The builder with the function whose blocks it fills: the scope of the function, its blocks, the
-- metadata of its module, and the number for the next object. `current` is `_block`.
pub record State : Type 0 where
  pub scope : NameScope
  pub blocks : List Block
  pub metadata : Metadata
  pub next : ℕ
  pub current : Option ℕ
  pub anchor : ℕ
  pub debug_metadata : Option Value

-- An object of the function by its identity.
unfoldable pub find_block : ℕ → List Block → Option Block
find_block i [] = none
find_block i (b ∷ bs) = if b.ident == i then some b else find_block i bs

-- The change of an object in place.
unfoldable pub update_block : ℕ → (Block → Block) → List Block → List Block
update_block i f [] = []
update_block i f (b ∷ bs) = (if b.ident == i then f b else b) ∷ update_block i f bs

unfoldable pub option_block : Option ℕ → List Block → Option Block
unfolding find_block
option_block none bs = none
option_block (some i) bs = find_block i bs

-- `self._block`, if it is not `None`.
unfoldable pub current_block : State → Option Block
unfolding option_block
current_block s = option_block s.current s.blocks

-- `self._block.x`, with the attribute error of `None`.
unfoldable pub need : Option Block → Exec State Block
unfolding find_block
need none = raise attribute_error
need (some b) = pure b

unfoldable pub get_current : Exec State Block
unfolding need current_block
get_current s = need (current_block s) s

unfoldable pub get_block : ℕ → Exec State Block
unfolding need find_block
get_block i s = need (find_block i s.blocks) s

-- The label of a block, as an operand.
abbrev pub label_of : Block → Value
label_of b = block b.ident b.name

-- `instructions.index(instr)`
unfoldable pub index_of : ℕ → List Instr → Option ℕ
index_of i [] = none
index_of i (x ∷ xs) =
    if x.ident == i then some 0 else elim (index_of i xs) [ none ↦ none | some k ↦ some (suc k) ]

-- `position_at_start` and `position_at_end`
unfoldable pub position_at_start : ℕ → Exec State (Unit {0})
position_at_start i s = (ok tt, record s { current = some i; anchor = 0 })

unfoldable pub position_at_end : ℕ → Exec State (Unit {0})
unfolding get_block need
position_at_end i s =
    (get_block i >>= λ b s'. (ok tt, record s' { anchor = length b.instructions }))
      (record s { current = some i })

unfoldable pub anchor_at : ℕ → Option ℕ → Exec State (Unit {0})
anchor_at offset none = raise value_error
anchor_at offset (some k) = λ s. (ok tt, record s { anchor = k + offset })

-- `position_before` and `position_after` of an instruction with this parent, by the offset.
unfoldable pub position_at : ℕ → ℕ → ℕ → Exec State (Unit {0})
unfolding get_block anchor_at index_of
position_at offset parent i s =
    (get_block parent >>= λ b. anchor_at offset (index_of i b.instructions))
      (record s { current = some parent })

abbrev pub position_before : Instr → Exec State (Unit {0})
position_before instr = position_at 0 instr.parent instr.ident

abbrev pub position_after : Instr → Exec State (Unit {0})
position_after instr = position_at 1 instr.parent instr.ident

-- `NamedValue.__init__` in the scope of the function.
unfoldable pub take_name : Text → Exec State Text
unfolding register
take_name name s = let (r, scope') = register name true s.scope in (r, record s { scope = scope' })

-- `Instruction.__init__` for the current block.
abbrev pub built : ℕ → Draft → Text → Exec State Instr
built parent d name s = (
  ok (record {
    ident = s.next;
    parent = parent;
    typ = d.typ;
    opname = d.opname;
    operands = d.operands;
    operands_fixed = false;
    name = name;
    flags = d.flags;
    metadata = [];
    kind = d.kind;
  }),
  record s { next = suc s.next },
)

unfoldable pub create_in : Option ℕ → Draft → Exec State Instr
unfolding take_name
create_in none d = raise assertion_error
create_in (some parent) d = take_name d.name >>= λ name. built parent d name

unfoldable pub create : Draft → Exec State Instr
unfolding create_in
create d s = create_in s.current d s

unfoldable pub has_key : Text → List (Text × Value) → Bool
has_key key [] = false
has_key key ((k, v) ∷ rest) = if text_eq k key then true else has_key key rest

-- `instr.metadata['dbg'] = self.debug_metadata`
unfoldable pub with_debug : Option Value → Instr → Instr
unfolding has_key lit
with_debug none instr = instr
with_debug (some md) instr =
    if has_key (lit "dbg") instr.metadata
    then instr
    else record instr { metadata = instr.metadata ++ (lit "dbg", md) ∷ [] }

abbrev pub put_at : ℕ → Instr → Block → Block
put_at anchor instr b = record b { instructions = insert_at anchor instr b.instructions }

-- `_insert`
unfoldable pub insert : Instr → Exec State Instr
unfolding get_current with_debug update_block
insert instr = get_current >>= λ b s.
    let placed = with_debug s.debug_metadata instr in
    (
      ok placed,
      record s {
        blocks = update_block b.ident (put_at s.anchor placed) s.blocks;
        anchor = suc s.anchor;
      },
    )

abbrev pub is_set : Option ℕ → Bool
is_set none = false
is_set (some t) = true

unfoldable pub is_terminated : Block → Bool
is_terminated b = is_set b.terminator

abbrev pub ended_by : ℕ → Block → Block
ended_by t b = record b { terminator = some t }

abbrev pub mark : Instr → Block → Exec State Instr
mark term b s = (ok term, record s { blocks = update_block b.ident (ended_by term.ident) s.blocks })

-- `_set_terminator`
unfoldable pub set_terminator : Instr → Exec State Instr
unfolding get_current is_terminated insert
set_terminator term = get_current >>= λ b.
    if is_terminated b then raise assertion_error else (insert term >>= λ placed. mark placed b)

abbrev pub is_term : Option ℕ → ℕ → Bool
is_term none i = false
is_term (some t) i = t == i

abbrev pub dropped : ℕ → ℕ → Block → Block
dropped k i b = record b {
  instructions = erase_at k b.instructions;
  terminator = if is_term b.terminator i then none else b.terminator;
}

unfoldable pub remove_at : Block → ℕ → Option ℕ → Exec State (Unit {0})
unfolding update_block
remove_at b i none s = (err value_error, s)
remove_at b i (some k) s = (
  ok tt,
  record s {
    blocks = update_block b.ident (dropped k i) s.blocks;
    anchor = if ltb k s.anchor then s.anchor - 1 else s.anchor;
  },
)

-- `remove`
unfoldable pub remove : Instr → Exec State (Unit {0})
unfolding get_current index_of remove_at
remove instr = get_current >>= λ b. remove_at b instr.ident (index_of instr.ident b.instructions)

-- `Function.append_basic_block`, and the builder's, which needs a current block.
unfoldable pub append_block : Text → Exec State Block
unfolding take_name
append_block name = take_name name >>= λ fresh s.
    let b : Block = record { ident = s.next; name = fresh; instructions = []; terminator = none } in
    (ok b, record s { blocks = s.blocks ++ b ∷ []; next = suc s.next })

unfoldable pub append_basic_block : Text → Exec State Block
unfolding get_current append_block
append_basic_block name = get_current >>= λ b. append_block name
