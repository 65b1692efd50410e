-- ===== src/Builder/Kept.antt =====
-- The builder's invariant under the composed methods of llvmlite/ir/builder.py: whatever a caller
-- emits, in whatever nesting of the context managers, the state stays well formed.
use llvmlite.Prelude.{
  ◌+◌, ◌∙◌, sym, subst, ℕ, ◌≤◌, ◌<◌, ◌≡◌, refl, Bool, true, false, List, [], ◌∷◌, length,
  if◌then◌else◌, Option, none, some, arith, Bool-cases, inl, inr, ap,
}
use llvmlite.Prelude.Texts.{Text, lit}
use llvmlite.Prelude.Int.{pos, ℤ}
use llvmlite.Result.{Result, ok, err}
use llvmlite.Exec.{Exec, pure, lift, ◌>>=◌, ◌>>◌}
use llvmlite.Module.Metadata.{Operands}
use llvmlite.Values.{Env, Value}
use llvmlite.Instructions.{Instr, Draft}
use llvmlite.Builder.{
  State, Block, find_block, get_current, get_block, need, create, insert, set_terminator,
  is_terminated, append_basic_block, position_at, position_at_end, anchor_at,
}
use llvmlite.Builder.Ops.{emit, finish}
use llvmlite.Builder.Control.{
  note_weights, tag_block, keep, tag_instr, new_string, branch, cbranch, weigh, set_weights,
  intern_weights, set_metadata, weight_operands, close_branch, branch_helper, if_then, if_else,
  goto_block, return_to, enter_at,
}
use llvmlite.Builder.Blocks.{has_instr, map-found, length-map, has_instr-map, has_instr-index_of}
use llvmlite.Builder.WellFormed.{
  pure-Keeps, get_current-Keeps, IsWellFormed, Keeps, bind-Keeps, need-Keeps, resume-Keeps,
  create-Keeps,
}
use llvmlite.Builder.Moves.{
  insert-Keeps, set_terminator-Keeps, append_basic_block-Keeps, position_at_end-Keeps,
}

lift-Keeps : {A : Type 0} (r : Result A) → Keeps (lift r)
lift-Keeps r s w = w

pub emit-Keeps : (d : Draft) → Keeps (emit d)
emit-Keeps d = bind-Keeps (create d) insert (create-Keeps d) insert-Keeps

pub finish-Keeps : (d : Draft) → Keeps (finish d)
finish-Keeps d = bind-Keeps (create d) set_terminator (create-Keeps d) set_terminator-Keeps

pub set_metadata-Keeps :
    (instr : Instr) (key : Text) (node : Value) → Keeps (set_metadata instr key node)
unfolding set_metadata
set_metadata-Keeps instr key node s w = record {
  anchored = λ i x c f.
      let (b, old, e) = map-found (tag_block instr.ident key node) i s.blocks (λ c. refl) f in
      subst (λ (y : Block). s.anchor ≤ length y.instructions) (sym e)
        (omega (
          arith,
          w.anchored i b c old,
          length-map (tag_instr instr.ident key node) b.instructions,
        ));
  ended = λ i x t f h.
      let (b, old, e) = map-found (tag_block instr.ident key node) i s.blocks (λ c. refl) f in
      let had : b.terminator ≡ some t = subst (λ (y : Block). y.terminator ≡ some t) e h in
      subst (λ (y : Block). has_instr t y.instructions ≡ true) (sym e)
        (has_instr-map (tag_instr instr.ident key node) t b.instructions
            (tag_instr-ident instr.ident key node)
          ∙ w.ended i b t old had);
  fresh = λ i x f.
      let (b, old, e) = map-found (tag_block instr.ident key node) i s.blocks (λ c. refl) f in
      w.fresh i b old;
}
  where
    tag_instr-ident :
        (i : ℕ) (key : Text) (node : Value) (x : Instr) → (tag_instr i key node x).ident ≡ x.ident
    tag_instr-ident i key node x = ground arith

new_string-Keeps : Keeps new_string
new_string-Keeps s w = record { anchored = w.anchored; ended = w.ended; fresh = w.fresh }

intern_weights-Keeps : (env : Env) (ops : Operands) → Keeps (intern_weights env ops)
unfolding intern_weights
intern_weights-Keeps env ops s w = record {
  anchored = w.anchored;
  ended = w.ended;
  fresh = w.fresh;
}

note_weights-Keeps : (env : Env) (br : Instr) (ops : Operands) → Keeps (note_weights env br ops)
note_weights-Keeps env br ops =
    bind-Keeps (intern_weights env ops) (λ md. set_metadata br (lit "prof") md)
      (intern_weights-Keeps env ops) (set_metadata-Keeps br (lit "prof"))

set_weights-Keeps : (env : Env) (ws : List ℤ) (br : Instr) → Keeps (set_weights env ws br)
unfolding set_weights
set_weights-Keeps env ws br =
    bind-Keeps new_string (λ u. lift (weight_operands ws) >>= note_weights env br) new_string-Keeps
      (λ u.
        bind-Keeps (lift (weight_operands ws)) (note_weights env br)
          (lift-Keeps (weight_operands ws)) (note_weights-Keeps env br))

weigh-Keeps : (env : Env) (likely : Option Bool) (br : Instr) → Keeps (weigh env likely br)
unfolding weigh
weigh-Keeps env none br s w = w
weigh-Keeps env (some true) br s w = set_weights-Keeps env (pos 99 ∷ pos 1 ∷ []) br s w
weigh-Keeps env (some false) br s w = set_weights-Keeps env (pos 1 ∷ pos 99 ∷ []) br s w

branch-Keeps : (target : Block) → Keeps (branch target)
unfolding branch
branch-Keeps target = finish-Keeps _

cbranch-Keeps : (cond : Value) (truebr falsebr : Block) → Keeps (cbranch cond truebr falsebr)
unfolding cbranch
cbranch-Keeps cond truebr falsebr = finish-Keeps _

-- A position in front of an instruction of the block.
position_at-Keeps :
    (i t : ℕ) (b : Block) (s : State)
    → IsWellFormed s
    → find_block i s.blocks ≡ some b
    → has_instr t b.instructions ≡ true
    → IsWellFormed (position_at 0 i t s).1
unfolding position_at get_block need anchor_at
position_at-Keeps i t b s w found there =
    let (k, at_k, low) = has_instr-index_of t b.instructions there in
    simp found (
      simp at_k
        (record { anchored = λ j x c f. within j x k low c f; ended = w.ended; fresh = w.fresh }))
  where
    within :
        (j : ℕ) (x : Block) (k : ℕ)
        → k < length b.instructions
        → some i ≡ some j
        → find_block j s.blocks ≡ some x
        → k + 0 ≤ length x.instructions
    within j x k low c f =
        let same : b ≡ x = cc in omega (arith, ap (λ (y : Block). length y.instructions) same)

enter_at-Keeps :
    (i : ℕ) (b : Block) (s : State) (o : Option ℕ)
    → IsWellFormed s
    → find_block i s.blocks ≡ some b
    → b.terminator ≡ o
    → IsWellFormed (enter_at i o s).1
enter_at-Keeps i b s none w found e = position_at_end-Keeps i s w
enter_at-Keeps i b s (some t) w found e = position_at-Keeps i t b s w found (w.ended i b t found e)

module _ {A : Type 0} where
  if_open-Keeps :
      (b bbexit : Block) (a : A)
      → Keeps (if is_terminated b then pure a else (branch bbexit >> pure a))
  if_open-Keeps b bbexit a s w = elim (Bool-cases (is_terminated b)) [
    | inl done ↦ rw done w
    | inr open_block ↦
        rw open_block
          (bind-Keeps (branch bbexit) (λ x. pure a) (branch-Keeps bbexit) (λ x. pure-Keeps a) s w)
  ]

  close_branch-Keeps : (bbexit : Block) (a : A) → Keeps (close_branch bbexit a)
  unfolding close_branch
  close_branch-Keeps bbexit a =
      bind-Keeps get_current _ get_current-Keeps (λ b. if_open-Keeps b bbexit a)

  pub branch_helper-Keeps :
      (bbenter bbexit : Block) (body : Exec State A)
      → Keeps body
      → Keeps (branch_helper bbenter bbexit body)
  unfolding branch_helper
  branch_helper-Keeps bbenter bbexit body k =
      bind-Keeps (position_at_end bbenter.ident) _ (position_at_end-Keeps bbenter.ident)
        (λ u. bind-Keeps body (close_branch bbexit) k (close_branch-Keeps bbexit))

  leave-Keeps : (bbend : Block) (a : A) → Keeps (position_at_end bbend.ident >> pure a)
  leave-Keeps bbend a =
      bind-Keeps (position_at_end bbend.ident) (λ x. pure a) (position_at_end-Keeps bbend.ident)
        (λ x. pure-Keeps a)

  pub if_then-Keeps :
      (env : Env) (pred : Value) (likely : Option Bool) (body : Block → Exec State A)
      → ((bbend : Block) → Keeps (body bbend))
      → Keeps (if_then env pred likely body)
  unfolding if_then
  if_then-Keeps env pred likely body k = bind-Keeps get_current _ get_current-Keeps λ bb.
      bind-Keeps (append_basic_block _) _ (append_basic_block-Keeps _) λ bbif.
        bind-Keeps (append_basic_block _) _ (append_basic_block-Keeps _) λ bbend.
          bind-Keeps (cbranch pred bbif bbend) _ (cbranch-Keeps pred bbif bbend) λ br.
            bind-Keeps (weigh env likely br) _ (weigh-Keeps env likely br) λ u.
              bind-Keeps (branch_helper bbif bbend (body bbend)) _
                (branch_helper-Keeps bbif bbend (body bbend) (k bbend)) (leave-Keeps bbend)

  pub if_else-Keeps :
      (env : Env) (pred : Value) (likely : Option Bool)
      (body : (Exec State A → Exec State A) → (Exec State A → Exec State A) → Exec State A)
      → ((then_ otherwise : Exec State A → Exec State A)
          → ((m : Exec State A) → Keeps m → Keeps (then_ m))
          → ((m : Exec State A) → Keeps m → Keeps (otherwise m))
          → Keeps (body then_ otherwise))
      → Keeps (if_else env pred likely body)
  unfolding if_else
  if_else-Keeps env pred likely body k = bind-Keeps get_current _ get_current-Keeps λ bb.
      bind-Keeps (append_basic_block _) _ (append_basic_block-Keeps _) λ bbif.
        bind-Keeps (append_basic_block _) _ (append_basic_block-Keeps _) λ bbelse.
          bind-Keeps (append_basic_block _) _ (append_basic_block-Keeps _) λ bbend.
            bind-Keeps (cbranch pred bbif bbelse) _ (cbranch-Keeps pred bbif bbelse) λ br.
              bind-Keeps (weigh env likely br) _ (weigh-Keeps env likely br) λ u.
                bind-Keeps (body (branch_helper bbif bbend) (branch_helper bbelse bbend)) _
                  (k (branch_helper bbif bbend) (branch_helper bbelse bbend)
                    (branch_helper-Keeps bbif bbend) (branch_helper-Keeps bbelse bbend))
                  (leave-Keeps bbend)

  keep-Keeps :
      (r : Result A) (x : Result (Unit {0}) × State) → IsWellFormed x.1 → IsWellFormed (keep r x).1
  keep-Keeps r (ok u, s) w = w
  keep-Keeps r (err e, s) w = w

  return_to-Keeps :
      (old : Option ℕ) (x : Result A × State) → IsWellFormed x.1 → IsWellFormed (return_to old x).1
  unfolding return_to
  return_to-Keeps none (r, s) w = record {
    anchored = λ i b c f. cc;
    ended = w.ended;
    fresh = w.fresh;
  }
  return_to-Keeps (some old) (r, s) w =
      keep-Keeps r (position_at_end old s) (position_at_end-Keeps old s w)

  pub goto_block-Keeps : (i : ℕ) (body : Exec State A) → Keeps body → Keeps (goto_block i body)
  unfolding goto_block get_block
  goto_block-Keeps i body k s w = need-Keeps (find_block i s.blocks) s _ w λ b found.
      resume-Keeps (enter_at i b.terminator s).0 (enter_at i b.terminator s).1
        (λ u entered. return_to s.current (body entered))
        (enter_at-Keeps i b s b.terminator w found refl)
        (λ u entered w'. return_to-Keeps s.current (body entered) (k entered w'))
