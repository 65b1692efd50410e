-- ===== src/Module/Metadata/Again.antt =====
-- `Module.add_metadata` a second time.
use llvmlite.Prelude.{◌≡◌, ◌≢◌, refl, ap, ap₂, ◌∙◌, true, length, &&-pair}
use llvmlite.Prelude.Texts.{Text, decimal}
use llvmlite.Scope.{is_used, deduplicate}
use llvmlite.Scope.Fresh.{deduplicate_fresh}
use llvmlite.Values.{Values, Env, md_node, cons}
use llvmlite.Values.Identity.{values_eq_refl}
use llvmlite.Module.Metadata.{
  Metadata, Operand, Operands, absent, string, sequence, value, end, more, take_name, new_node,
  intern, fix_operand, fix_operands, add_metadata,
}
use llvmlite.Module.Metadata.Cache.{
  Extends, Extends-trans, operand_comparable, operands_comparable, all_cached, fix-Fixed,
  fixes-Fixed, intern-Extends, intern-cached, intern-known,
}

-- A run that made no node: its state has the nodes and the cache that it began with.
pub record Unchanged (n n' : Metadata) : Type 0 where
  pub nodes : n'.nodes ≡ n.nodes
  pub cache : n'.metadatacache ≡ n.metadatacache

Unchanged-refl : (n : Metadata) → Unchanged n n
Unchanged-refl n = record { nodes = refl; cache = refl }

pub Extends-Unchanged : {m n n' : Metadata} → Extends m n → Unchanged n n' → Extends m n'
Extends-Unchanged x u = record { added = x.added; grown = u.cache ∙ x.grown }

mutual
  unfolding fix_operand operand_comparable take_name

  fix_again :
      (env : Env) (op : Operand) (m n : Metadata)
      → operand_comparable op ≡ true
      → all_cached m.metadatacache ≡ true
      → Extends (fix_operand env op m).1 n
      → ((fix_operand env op n).0 ≡ (fix_operand env op m).0) × Unchanged n (fix_operand env op n).1
  fix_again env absent m n h c x = (refl, Unchanged-refl n)
  fix_again env (string s) m n h c x = (refl, record { nodes = refl; cache = refl })
  fix_again env (value v) m n h c x = (refl, Unchanged-refl n)
  fix_again env (sequence ops) m n h c x =
      let vs = (fix_operands env ops m).0 in
      let m₁ = (fix_operands env ops m).1 in
      let inner = fixes-Fixed env ops m h c in
      let (same, kept) = fixes_again env ops m n h c (Extends-trans (intern-Extends env vs m₁) x) in
      let known =
        intern-known env vs (intern env vs m₁).1 (fix_operands env ops n).1 (intern env vs m₁).0
          (Extends-Unchanged x kept)
          (intern-cached env vs m₁ (values_eq_refl env vs inner.comparable)) in
      rw (same, known) (refl, kept)

  fixes_again :
      (env : Env) (ops : Operands) (m n : Metadata)
      → operands_comparable ops ≡ true
      → all_cached m.metadatacache ≡ true
      → Extends (fix_operands env ops m).1 n
      → ((fix_operands env ops n).0 ≡ (fix_operands env ops m).0)
        × Unchanged n (fix_operands env ops n).1
  fixes_again env end m n h c x = (refl, Unchanged-refl n)
  fixes_again env (more op ops) m n h c x =
      let (ho, hops) = &&-pair (operand_comparable op) (operands_comparable ops) h in
      let first = fix-Fixed env op m ho c in
      let rest = fixes-Fixed env ops (fix_operand env op m).1 hops first.cached in
      let (same, kept) = fix_again env op m n ho c (Extends-trans rest.extends x) in
      let (sames, kepts) =
        fixes_again env ops (fix_operand env op m).1 (fix_operand env op n).1 hops first.cached
          (Extends-Unchanged x kept) in
      (
        ap₂ cons same sames,
        record { nodes = kepts.nodes ∙ kept.nodes; cache = kepts.cache ∙ kept.cache },
      )

-- Adding the same operands to a module once more returns the node that the first call returned, and
-- makes no node, for the nested sequences neither; other metadata may have been added to the
-- cache between the two calls. The values of the operands and of the cache are such that Python
-- compares them by content or by an identity that the value carries.
pub add_metadata_again :
    (env : Env) (ops : Operands) (m n : Metadata)
    → operands_comparable ops ≡ true
    → all_cached m.metadatacache ≡ true
    → Extends (add_metadata env ops m).1 n
    → ((add_metadata env ops n).0 ≡ (add_metadata env ops m).0)
      × Unchanged n (add_metadata env ops n).1
unfolding add_metadata operand_comparable operands_comparable
add_metadata_again env ops m n h c x = fix_again env (sequence ops) m n h c x

-- The name of a new node is its number unless the module's scope has that name in use, as the name
-- of a global value; then the reference to the node is not a number.
pub new_node_renamed :
    (key : Values) (m : Metadata)
    → is_used m.scope (decimal (length m.nodes)) ≡ true
    → (name : Text) × ((new_node key m).0 ≡ md_node name key) × (name ≢ decimal (length m.nodes))
unfolding new_node take_name
new_node_renamed key m used =
    let hint = decimal (length m.nodes) in
    (
      (deduplicate hint m.scope).0,
      refl,
      λ same. cc (used, deduplicate_fresh hint m.scope, ap (is_used m.scope) same),
    )
