-- ===== src/Builder/WellFormed.antt =====
-- The invariant of the builder's state in llvmlite/ir/builder.py, and the computations that keep it.
use llvmlite.Prelude.{
  ap, subst, ◌⊎◌, ◌∙◌, ℕ, ◌≤◌, ◌<◌, ◌≡◌, refl, sym, true, false, length, ◌==◌, Option, none, some,
  arith, Option-cases, inl, inr,
}
use llvmlite.Prelude.Texts.{Text}
use llvmlite.Result.{Result, ok, err}
use llvmlite.Exec.{pure, Exec, resume, ◌>>=◌}
use llvmlite.Instructions.{Draft}
use llvmlite.Builder.{
  built, State, Block, find_block, update_block, current_block, get_current, need, create,
  create_in, take_name,
}
use llvmlite.Builder.Steps.{current_block-ident}
use llvmlite.Builder.Blocks.{update_block-found, has_instr}

-- The anchor lies within the current block, a terminator is one of the instructions of its block,
-- and the identities of the blocks are below the number for the next object.
pub record IsWellFormed (s : State) : Type 0 where
  pub anchored :
      (i : ℕ) (b : Block)
      → s.current ≡ some i
      → find_block i s.blocks ≡ some b
      → s.anchor ≤ length b.instructions
  pub ended :
      (i : ℕ) (b : Block) (t : ℕ)
      → find_block i s.blocks ≡ some b
      → b.terminator ≡ some t
      → has_instr t b.instructions ≡ true
  pub fresh : (i : ℕ) (b : Block) → find_block i s.blocks ≡ some b → i < s.next

-- A computation of the builder that keeps the invariant, whether it raises or not.
abbrev pub Keeps : {A : Type 0} → Exec State A → Type 0
Keeps m = (s : State) → IsWellFormed s → IsWellFormed (m s).1

pub resume-Keeps :
    {A B : Type 0} (r : Result A) (s : State) (f : A → Exec State B)
    → IsWellFormed s
    → ((a : A) → Keeps (f a))
    → IsWellFormed (resume (r, s) f).1
resume-Keeps (ok a) s f w k = k a s w
resume-Keeps (err e) s f w k = w

pub bind-Keeps :
    {A B : Type 0} (m : Exec State A) (f : A → Exec State B)
    → Keeps m
    → ((a : A) → Keeps (f a))
    → Keeps (m >>= f)
bind-Keeps m f k h s w = resume-Keeps (m s).0 (m s).1 f (k s w) h

-- What `get_current` and `get_block` give is the object of that identity.
pub need-Keeps :
    {A : Type 0} (o : Option Block) (s : State) (f : Block → Exec State A)
    → IsWellFormed s
    → ((b : Block) → o ≡ some b → IsWellFormed (f b s).1)
    → IsWellFormed ((need o >>= f) s).1
unfolding need
need-Keeps none s f w k = w
need-Keeps (some b) s f w k = k b refl

-- A change of the current block that keeps its identity, and the anchor moved within it.
pub update_wf :
    (s : State) (b : Block) (f : Block → Block) (anchor : ℕ)
    → IsWellFormed s
    → current_block s ≡ some b
    → ((c : Block) → (f c).ident ≡ c.ident)
    → anchor ≤ length (f b).instructions
    → ((t : ℕ) → (f b).terminator ≡ some t → has_instr t (f b).instructions ≡ true)
    → IsWellFormed (record s { blocks = update_block b.ident f s.blocks; anchor = anchor })
update_wf s b f anchor w cur same bound done =
    let (c, found) = current_block-ident s cur in
    record {
      anchored =
          λ i x e h. anchored_here i x e found (update_block-found b.ident f i s.blocks same h) c;
      ended = λ i x t h. ended_here i x t found (update_block-found b.ident f i s.blocks same h);
      fresh = λ i x h. fresh_here i x (update_block-found b.ident f i s.blocks same h);
    }
  where
    Found : ℕ → Block → Type 0
    Found i x =
        ((c : Block) × (b.ident ≡ i) × (find_block i s.blocks ≡ some c) × (x ≡ f c))
        ⊎ (((b.ident == i) ≡ false) × (find_block i s.blocks ≡ some x))

    changed_here :
        (i : ℕ) (c x : Block)
        → find_block b.ident s.blocks ≡ some b
        → b.ident ≡ i
        → find_block i s.blocks ≡ some c
        → x ≡ f c
        → x ≡ f b
    changed_here i c x found e h k =
        let there : find_block i s.blocks ≡ some b =
          subst (λ n. find_block n s.blocks ≡ some b) e found in
        let one : c ≡ b = cc in k ∙ ap f one

    anchored_here :
        (i : ℕ) (x : Block)
        → s.current ≡ some i
        → find_block b.ident s.blocks ≡ some b
        → Found i x
        → s.current ≡ some b.ident
        → anchor ≤ length x.instructions
    anchored_here i x e found (inl (c, k, h, l)) cur =
        subst (λ y. anchor ≤ length y.instructions) (sym (changed_here i c x found k h l)) bound
    anchored_here i x e found (inr (d, h)) cur = ground (arith, e, cur, d)

    ended_here :
        (i : ℕ) (x : Block) (t : ℕ)
        → find_block b.ident s.blocks ≡ some b
        → Found i x
        → x.terminator ≡ some t
        → has_instr t x.instructions ≡ true
    ended_here i x t found (inl (c, k, h, l)) e =
        let l' = changed_here i c x found k h l in
        subst (λ y. has_instr t y.instructions ≡ true) (sym l')
          (done t (subst (λ y. y.terminator ≡ some t) l' e))
    ended_here i x t found (inr (d, h)) e = w.ended i x t h e

    fresh_here : (i : ℕ) (x : Block) → Found i x → i < s.next
    fresh_here i x (inl (c, k, h, l)) = w.fresh i c h
    fresh_here i x (inr (d, h)) = w.fresh i x h

pub take_name-Keeps : (name : Text) → Keeps (take_name name)
unfolding take_name
take_name-Keeps name s w = record { anchored = w.anchored; ended = w.ended; fresh = w.fresh }

pub create_in-Keeps : (o : Option ℕ) (d : Draft) → Keeps (create_in o d)
unfolding create_in
create_in-Keeps none d s w = w
create_in-Keeps (some parent) d s w =
    bind-Keeps (take_name d.name) (built parent d) (take_name-Keeps d.name)
      (λ name s' w'. record {
        anchored = w'.anchored;
        ended = w'.ended;
        fresh = λ i b h. omega (arith, w'.fresh i b h);
      })
      s w

pub create-Keeps : (d : Draft) → Keeps (create d)
unfolding create
create-Keeps d s w = create_in-Keeps s.current d s w

-- The computation goes on with the current block.
pub current-Keeps :
    {A : Type 0} (f : Block → Exec State A)
    → ((b : Block) (s : State) → IsWellFormed s → current_block s ≡ some b → IsWellFormed (f b s).1)
    → Keeps (get_current >>= f)
unfolding get_current
current-Keeps f k s w = need-Keeps (current_block s) s f w (λ b e. k b s w e)

pub get_current-Keeps : Keeps get_current
unfolding get_current need
get_current-Keeps s w = elim (Option-cases (current_block s)) [
  | inl n ↦ simp n w
  | inr (b, e) ↦ simp e w
]

pub pure-Keeps : {A : Type 0} (a : A) → Keeps (pure a)
pure-Keeps a s w = w

pub in_bounds :
    (s : State) (b : Block)
    → IsWellFormed s
    → current_block s ≡ some b
    → s.anchor ≤ length b.instructions
in_bounds s b w cur = let (c, found) = current_block-ident s cur in w.anchored b.ident b c found

pub still_ended :
    (s : State) (b : Block) (t : ℕ)
    → IsWellFormed s
    → current_block s ≡ some b
    → b.terminator ≡ some t
    → has_instr t b.instructions ≡ true
still_ended s b t w cur e =
    let (c, found) = current_block-ident s cur in w.ended b.ident b t found e
