-- ===== src/Module/Shared.antt =====
-- A module of llvmlite/ir/module.py whole: its globals and its metadata take their names in one scope.
use llvmlite.Prelude.{arith, ℕ, ◌≡◌, ◌≢◌, sym, ap, ◌∙◌, true, none, length}
use llvmlite.Prelude.Texts.{text_eq_refl, Text, decimal}
use llvmlite.Result.{Result, ok}
use llvmlite.Exec.{Exec, resume-eq-ok}
use llvmlite.Scope.{NameScope, is_used, deduplicate, register, add}
use llvmlite.Scope.Fresh.{deduplicate_fresh}
use llvmlite.Types.{Ty, as_pointer}
use llvmlite.Values.{Env, Value, Values, md_node}
use llvmlite.Module.Globals.{Globals, new_global_variable, take_global_name, add_global}
use llvmlite.Module.Metadata.{Metadata, intern, find_cached, cached_or_new, new_node, take_name}

pub record Module : Type 0 where
  pub globals : Globals
  pub metadata : Metadata

-- `self.scope` is one object: what an operation on either part registers, the other part finds.
abbrev pub on_globals : {A : Type 0} → Exec Globals A → Exec Module A
on_globals method m =
    let (outcome, globals) = method m.globals in
    (
      outcome,
      record m { globals = globals; metadata = record m.metadata { scope = globals.scope } },
    )

abbrev pub on_metadata : {A : Type 0} → (Metadata → A × Metadata) → Module → A × Module
on_metadata method m =
    let (outcome, metadata) = method m.metadata in
    (
      outcome,
      record m { metadata = metadata; globals = record m.globals { scope = metadata.scope } },
    )

used-take_global_name :
    (name : Text) (g : Globals) {taken : Text} {g' : Globals}
    → take_global_name name g ≡ (ok taken, g')
    → is_used g'.scope name ≡ true
unfolding take_global_name register is_used add llvmlite.Scope.contains
used-take_global_name name g h = ground (arith, h, text_eq_refl name)

scope-add_global :
    (name : Text) (v : Value) (g : Globals) {w : Value} {g' : Globals}
    → add_global name v g ≡ (ok w, g')
    → g'.scope ≡ g.scope
unfolding add_global
scope-add_global name v g h = ground (arith, h)

used-new_global_variable :
    (typ : Ty) (name : Text) (space : ℕ) (g : Globals) {v : Value} {g' : Globals}
    → new_global_variable typ name space g ≡ (ok v, g')
    → is_used g'.scope name ≡ true
unfolding new_global_variable
used-new_global_variable typ name space g h =
    let (t, mid, e, rest) = resume-eq-ok (as_pointer typ space, g) _ h in
    let (taken, mid', e', made) = resume-eq-ok (take_global_name name mid) _ rest in
    ap (λ s. is_used s name) (scope-add_global taken _ mid' made)
    ∙ used-take_global_name name mid e'

-- A new node takes the next number as its name, unless that is used.
named_node :
    (env : Env) (key : Values) (m : Metadata)
    → find_cached env key m.metadatacache ≡ none
    → (intern env key m).0 ≡ md_node (deduplicate (decimal (length m.nodes)) m.scope).0 key
unfolding intern new_node take_name
named_node env key m h = ap (λ o. (cached_or_new o key m).0) h

-- When a global variable was made under the text of the number that the next metadata node is due, a
-- new node, one that the cache does not answer, gets another name than its number.
pub node_renamed :
    (env : Env) (key : Values) (typ : Ty) (space : ℕ) (m : Module) {v : Value} {m' : Module}
    → on_globals (new_global_variable typ (decimal (length m.metadata.nodes)) space) m ≡ (ok v, m')
    → find_cached env key m'.metadata.metadatacache ≡ none
    → (name : Text) × ((on_metadata (intern env key) m').0 ≡ md_node name key)
      × (name ≢ decimal (length m.metadata.nodes))
node_renamed env key typ space m {v} {m'} h k =
    let number = decimal (length m.metadata.nodes) in
    let made = new_global_variable typ number space m.globals in
    let done : made ≡ (ok v, made.1) = ap (λ (p : Result Value × Module). (p.0, made.1)) h in
    let shared : made.1.scope ≡ m'.metadata.scope =
      ap (λ (p : Result Value × Module). p.1.metadata.scope) h in
    let used : is_used m'.metadata.scope number ≡ true =
      ap (λ s. is_used s number) (sym shared)
      ∙ used-new_global_variable typ number space m.globals done in
    let fresh = deduplicate_fresh (decimal (length m'.metadata.nodes)) m'.metadata.scope in
    (
      (deduplicate (decimal (length m'.metadata.nodes)) m'.metadata.scope).0,
      named_node env key m'.metadata k,
      λ same. cc (fresh, used, ap (is_used m'.metadata.scope) same),
    )
