-- ===== src/Builder/Control.antt =====
-- The terminators of llvmlite/ir/builder.py, and the context managers that build control flow: the
-- body of a `with` is a computation of the builder.
use llvmlite.Prelude.{
  ℕ, Bool, true, false, List, [], ◌∷◌, ◌++◌, length, take, ltb, if◌then◌else◌, Option, none, some,
  map, ◌==◌,
}
use llvmlite.Prelude.Texts.{Text, lit, text_eq}
use llvmlite.Prelude.Int.{ℤ, pos, negsuc}
use llvmlite.Result.{Result, ok, err, value_error, attribute_error, index_error}
use llvmlite.Exec.{Exec, pure, lift, ◌>>=◌, ◌>>◌}
use llvmlite.Types.{int, void}
use llvmlite.Values.{Env, Value, constant, number, md_string}
use llvmlite.Module.Metadata
use llvmlite.Module.Metadata.{Operands, value, more, end, add_metadata}
use llvmlite.Instructions.{Instr, Kind}
use llvmlite.Instructions.Create.{terminator, draft}
use llvmlite.Instructions.Create
use llvmlite.Instructions.Calls
use llvmlite.Builder.{
  State, Block, get_current, get_block, label_of, create, set_terminator, is_terminated,
  append_basic_block, position_at, position_at_end,
}
use llvmlite.Builder.Ops.{finish}

unfoldable pub branch : Block → Exec State Instr
unfolding lit create set_terminator
branch target = finish (terminator (lit "br") (label_of target ∷ []) Kind.branch)

unfoldable pub cbranch : Value → Block → Block → Exec State Instr
unfolding lit create set_terminator
cbranch cond truebr falsebr =
    finish (
      terminator (lit "br") (cond ∷ label_of truebr ∷ label_of falsebr ∷ [])
        Kind.conditional_branch)

unfoldable pub switch : Value → Block → Exec State Instr
unfolding lit create set_terminator
switch val default =
    finish (terminator (lit "switch") (val ∷ []) (Kind.switch (label_of default) []))

unfoldable pub branch_indirect : Value → Exec State Instr
unfolding lit create set_terminator
branch_indirect addr = finish (terminator (lit "indirectbr") (addr ∷ []) (Kind.indirect_branch []))

unfoldable pub ret_void : Exec State Instr
unfolding lit create set_terminator
ret_void = finish (Create.ret (lit "ret void") none)

unfoldable pub ret : Value → Exec State Instr
unfolding lit create set_terminator
ret val = finish (Create.ret (lit "ret") (some val))

-- `resume`, which is a `Branch`.
unfoldable pub resume_with : Value → Exec State Instr
unfolding lit create set_terminator
resume_with landingpad = finish (terminator (lit "resume") (landingpad ∷ []) Kind.branch)

unfoldable pub invoke :
    Value → List Value → Block → Block → Text → Calls.CallGiven → Exec State Instr
unfolding create set_terminator
invoke fn args normal_to unwind_to name given =
    lift (Calls.invoke fn args (label_of normal_to) (label_of unwind_to) name given) >>= finish

unfoldable pub unreachable : Exec State Instr
unfolding lit create set_terminator
unreachable = finish (draft void (lit "unreachable") [] [] [] Kind.unreachable)

-- `_label_suffix`
unfoldable pub label_suffix : Text → Text → Text
unfolding lit
label_suffix label suffix =
    if ltb 50 (length label) then take 25 label ++ (lit ".." ++ suffix) else label ++ suffix

-- `metadata[key] = node`
unfoldable pub set_key : Text → Value → List (Text × Value) → List (Text × Value)
set_key key node [] = (key, node) ∷ []
set_key key node ((k, v) ∷ rest) =
    if text_eq k key then (k, node) ∷ rest else (k, v) ∷ set_key key node rest

abbrev pub tag_instr : ℕ → Text → Value → Instr → Instr
tag_instr i key node instr =
    if instr.ident == i then record instr { metadata = set_key key node instr.metadata } else instr

abbrev pub tag_block : ℕ → Text → Value → Block → Block
tag_block i key node b = record b { instructions = map (tag_instr i key node) b.instructions }

-- `instr.set_metadata`
unfoldable pub set_metadata : Instr → Text → Value → Exec State (Unit {0})
unfolding set_key
set_metadata instr key node s =
    (ok tt, record s { blocks = map (tag_block instr.ident key node) s.blocks })

-- The operands of `set_weights`, which refuses a negative weight.
unfoldable pub weight_operands : List ℤ → Result Operands
weight_operands [] = ok end
weight_operands (negsuc n ∷ ws) = err value_error
weight_operands (pos n ∷ ws) = elim (weight_operands ws) [
  | err e ↦ err e
  | ok rest ↦ ok (more (value (constant (int 32) (number (pos n)))) rest)
]

-- `set_weights`: the string takes a name in the module first.
unfoldable pub intern_weights : Env → Operands → Exec State Value
unfolding lit add_metadata
intern_weights env ops s =
    let (md, m) =
      add_metadata env (more (value (md_string (lit "branch_weights"))) ops) s.metadata in
    (ok md, record s { metadata = m })

abbrev pub new_string : Exec State (Unit {0})
new_string s = (ok tt, record s { metadata = (Metadata.take_name [] s.metadata).1 })

abbrev pub note_weights : Env → Instr → Operands → Exec State (Unit {0})
note_weights env instr ops = intern_weights env ops >>= λ md. set_metadata instr (lit "prof") md

unfoldable pub set_weights : Env → List ℤ → Instr → Exec State (Unit {0})
unfolding lit set_metadata intern_weights weight_operands Metadata.take_name
set_weights env weights instr =
    new_string >> (lift (weight_operands weights) >>= note_weights env instr)

-- `if likely is not None: br.set_weights(...)`
unfoldable pub weigh : Env → Option Bool → Instr → Exec State (Unit {0})
unfolding set_weights
weigh env none br = pure tt
weigh env (some true) br = set_weights env (pos 99 ∷ pos 1 ∷ []) br
weigh env (some false) br = set_weights env (pos 1 ∷ pos 99 ∷ []) br

abbrev pub enter_at : ℕ → Option ℕ → Exec State (Unit {0})
enter_at i none = position_at_end i
enter_at i (some term) = position_at 0 i term

abbrev pub first_block : List Block → Result Block
first_block [] = err index_error
first_block (b ∷ bs) = ok b

module _ {A : Type 0} where
  -- The end of a branch: a jump to the exit, unless the body has ended the block itself.
  unfoldable pub close_branch : Block → A → Exec State A
  unfolding get_current branch is_terminated
  close_branch bbexit a =
      get_current >>= λ b. if is_terminated b then pure a else (branch bbexit >> pure a)

  -- `_branch_helper`
  unfoldable pub branch_helper : Block → Block → Exec State A → Exec State A
  unfolding position_at_end close_branch
  branch_helper bbenter bbexit body =
      position_at_end bbenter.ident >> (body >>= close_branch bbexit)

  unfoldable pub if_then : Env → Value → Option Bool → (Block → Exec State A) → Exec State A
  unfolding lit get_current append_basic_block label_suffix cbranch weigh branch_helper
      position_at_end
  if_then env pred likely body = get_current >>= λ bb.
      append_basic_block (label_suffix bb.name (lit ".if")) >>= λ bbif.
      append_basic_block (label_suffix bb.name (lit ".endif")) >>= λ bbend.
      cbranch pred bbif bbend >>= λ br.
      weigh env likely br
      >> (branch_helper bbif bbend (body bbend) >>= λ a. position_at_end bbend.ident >> pure a)

  -- `if_else`, whose body is given the two managers and enters them as it likes.
  unfoldable pub if_else :
      Env
      → Value
      → Option Bool
      → ((Exec State A → Exec State A) → (Exec State A → Exec State A) → Exec State A)
      → Exec State A
  unfolding lit get_current append_basic_block label_suffix cbranch weigh branch_helper
      position_at_end
  if_else env pred likely body = get_current >>= λ bb.
      append_basic_block (label_suffix bb.name (lit ".if")) >>= λ bbif.
      append_basic_block (label_suffix bb.name (lit ".else")) >>= λ bbelse.
      append_basic_block (label_suffix bb.name (lit ".endif")) >>= λ bbend.
      cbranch pred bbif bbelse >>= λ br.
      weigh env likely br
      >> (body (branch_helper bbif bbend) (branch_helper bbelse bbend) >>= λ a.
          position_at_end bbend.ident >> pure a)

  -- `finally: self.position_at_end(old_block)`: an error there replaces the outcome.
  abbrev pub keep : Result A → Result (Unit {0}) × State → Result A × State
  keep r (ok u, s) = (r, s)
  keep r (err e, s) = (err e, s)

  unfoldable pub return_to : Option ℕ → Result A × State → Result A × State
  unfolding position_at_end
  return_to none (r, s) = (err attribute_error, record s { current = none })
  return_to (some old) (r, s) = keep r (position_at_end old s)

  -- `goto_block`
  unfoldable pub goto_block : ℕ → Exec State A → Exec State A
  unfolding get_block position_at_end position_at return_to
  goto_block i body s =
      (get_block i >>= λ b.
      enter_at i b.terminator >> λ entered. return_to s.current (body entered))
        s

  -- `goto_entry_block`
  unfoldable pub goto_entry_block : Exec State A → Exec State A
  unfolding get_current goto_block
  goto_entry_block body s =
      (get_current >> λ s'. (lift (first_block s'.blocks) >>= λ b. goto_block b.ident body) s') s
