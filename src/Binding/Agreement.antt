-- ===== src/Binding/Agreement.antt =====
-- The agreement of the objects of llvmlite/binding with the resources of LLVM, kept by the steps
-- that make an object, pass a module on or take it back.
use llvmlite.Prelude.{
  ℕ, ◌≤◌, ◌<◌, ◌≡◌, refl, arith, Bool, true, false, List, [], ◌∷◌, Option, none, some, ◌==◌, ◌||◌,
}
use llvmlite.Binding.{
  call, Call, World, Resource, module_of, target_machine, target_data, engine, wrap, is_module,
  is_machine, is_engine, modules_of, td_of, contains,
}
use llvmlite.Binding.Engine.{update, set_owned, set_resource, with_modules}
use llvmlite.Binding.Contract.{Native, unborn, alone, held, put, is_live}

abbrev pub is_td : ℕ → Option ℕ → Bool
is_td i none = false
is_td i (some d) = i == d

-- What an engine lists, its target data included.
abbrev pub keeps : Resource → ℕ → Bool
keeps r i = contains i (modules_of r) || is_td i (td_of r)

-- Which objects exist, that what nobody owns stands alone and only that, that the target data of an
-- engine is no module, that an open object other than a target
-- machine wraps a live resource, and that an engine and LLVM agree on the modules that it holds.
pub record Agrees (w : World) (n : Native) : Type 0 where
  pub unborn_ahead : (i : ℕ) → w.next ≤ i → n i ≡ unborn
  pub absent : (i : ℕ) → w.next ≤ i → ((w.refs i).closed ≡ true) × ((w.refs i).resource ≡ module_of)
  pub standing : (i : ℕ) → (w.refs i).closed ≡ false → (w.refs i).owned ≡ false → n i ≡ alone
  pub free : (i : ℕ) → (w.refs i).closed ≡ false → n i ≡ alone → (w.refs i).owned ≡ false
  pub td_known :
      (e d : ℕ)
      → is_td d (td_of (w.refs e).resource) ≡ true
      → (d < w.next) × (is_module (w.refs d).resource ≡ false)
  pub live :
      (i : ℕ)
      → (w.refs i).closed ≡ false
      → is_machine (w.refs i).resource ≡ false
      → is_live (n i) ≡ true
  pub kept :
      (i e : ℕ)
      → n i ≡ held e
      → (w.refs i).closed ≡ false
      → is_machine (w.refs i).resource ≡ false
      → keeps (w.refs e).resource i ≡ true
  pub listed :
      (i e : ℕ)
      → contains i (modules_of (w.refs e).resource) ≡ true
      → (w.refs i).closed ≡ false
      → n i ≡ held e
  pub made : (i e : ℕ) → contains i (modules_of (w.refs e).resource) ≡ true → i < w.next
  pub free_engine : (e : ℕ) → is_engine (w.refs e).resource ≡ true → (w.refs e).owned ≡ false

plain_modules : (res : Resource) → is_engine res ≡ false → modules_of res ≡ []
unfolding is_engine modules_of
plain_modules module_of h = refl
plain_modules target_machine h = refl
plain_modules target_data h = refl
plain_modules (engine ms td) h = cc

td_plain : (res : Resource) → is_engine res ≡ false → td_of res ≡ none
unfolding is_engine td_of
td_plain module_of h = refl
td_plain target_machine h = refl
td_plain target_data h = refl
td_plain (engine ms td) h = cc

pub engine_parts :
    (res : Resource) → is_engine res ≡ true → (ms : List ℕ) × (td : Option ℕ) × (res ≡ engine ms td)
unfolding is_engine
engine_parts module_of h = cc
engine_parts target_machine h = cc
engine_parts target_data h = cc
engine_parts (engine ms td) h = (ms, td, refl)

engine_not_module : (res : Resource) → is_module res ≡ true → is_engine res ≡ false
unfolding is_engine is_module
engine_not_module module_of h = refl
engine_not_module target_machine h = refl
engine_not_module target_data h = refl
engine_not_module (engine ms td) h = cc

engine_not_machine : (res : Resource) → is_machine res ≡ true → is_engine res ≡ false
unfolding is_engine is_machine
engine_not_machine module_of h = refl
engine_not_machine target_machine h = refl
engine_not_machine target_data h = refl
engine_not_machine (engine ms td) h = cc

-- A fresh object that stands alone and lists nothing.
pub wrap-Agrees :
    (res : Resource) (w : World) (n : Native)
    → is_engine res ≡ false
    → Agrees w n
    → Agrees (wrap res false w) (put w.next alone n)
unfolding modules_of td_of contains is_live is_machine is_engine is_module
wrap-Agrees res w n plain a =
    let bare : modules_of res ≡ [] = plain_modules res plain in
    record {
      unborn_ahead = λ i h. ground (arith, a.unborn_ahead i);
      absent = λ i h. ground (arith, a.absent i);
      standing = λ i c o. ground (arith, a.standing i);
      free = λ i c o. ground (arith, a.free i);
      td_known = λ e d h. ground (arith, a.td_known e d, td_plain res plain);
      live = λ i c m. ground (arith, a.live i);
      kept = λ i e h c m. ground (arith, a.kept i e, a.absent e, a.unborn_ahead i);
      listed = λ i e h c. ground (arith, a.listed i e, a.made i e, bare);
      made = λ i e h. ground (arith, a.made i e, bare);
      free_engine = λ e h. ground (arith, a.free_engine e);
    }

-- An engine is made of a module and a target machine that stand alone.
pub engine-Agrees :
    (m tm : ℕ) (w : World) (n : Native)
    → (w.refs m).closed ≡ false
    → (w.refs tm).closed ≡ false
    → is_machine (w.refs tm).resource ≡ true
    → is_module (w.refs m).resource ≡ true
    → n m ≡ alone
    → n tm ≡ alone
    → Agrees w n
    → Agrees
        (wrap
          (engine (m ∷ []) none)
          false
          (update m (set_owned true) (update tm (set_owned true) w)))
        (put w.next alone (put m (held w.next) (put tm (held w.next) n)))
unfolding modules_of td_of contains is_live is_machine is_engine is_module
engine-Agrees m tm w n cm ct kt km fm ft a = record {
  unborn_ahead = λ i h. ground (arith, a.unborn_ahead i, a.absent m, a.absent tm);
  absent = λ i h. ground (arith, a.absent i, a.absent m, a.absent tm);
  standing = λ i c o. ground (arith, a.standing i, a.absent m, a.absent tm);
  free = λ i c o. ground (arith, a.free i, a.absent m, a.absent tm);
  td_known = λ e d h. ground (arith, a.td_known e d, a.absent m, a.absent tm);
  live = λ i c k. ground (arith, a.live i);
  kept = λ i e h c k.
      ground (arith, a.kept i e, a.unborn_ahead i, a.absent m, a.absent tm, a.absent e);
  listed = λ i e h c. ground (arith, a.listed i e, a.made i e, a.absent m);
  made = λ i e h. ground (arith, a.made i e, a.absent m);
  free_engine = λ e h. ground (
    arith,
    a.free_engine e,
    engine_not_module (w.refs e).resource,
    engine_not_machine (w.refs e).resource,
  );
}

-- A module that stands alone goes to an engine.
pub add-Agrees :
    (e m : ℕ) (w : World) (n : Native)
    → (w.refs e).closed ≡ false
    → is_engine (w.refs e).resource ≡ true
    → (w.refs m).closed ≡ false
    → is_module (w.refs m).resource ≡ true
    → n m ≡ alone
    → Agrees w n
    → Agrees
        (update e
          (λ r. set_resource (with_modules (m ∷ modules_of r.resource) r.resource) r)
          (update m (set_owned true) w))
        (put m (held e) n)
unfolding is_live with_modules contains modules_of td_of is_engine is_machine is_module
add-Agrees e m w n ce ke cm km free a =
    let (ms, td, parts) = engine_parts (w.refs e).resource ke in
    record {
      unborn_ahead = λ i h. ground (arith, a.unborn_ahead i, a.absent m);
      absent = λ i h. ground (arith, a.absent i, a.absent m, a.absent e);
      standing = λ i c o. ground (arith, a.standing i, parts);
      free = λ i c o. ground (arith, a.free i, parts);
      td_known = λ f d h. ground (arith, a.td_known f d, parts);
      live = λ i c k. ground (arith, a.live i, parts);
      kept = λ i f h c k. ground (arith, a.kept i f, parts);
      listed = λ i f h c. ground (arith, a.listed i f, parts);
      made = λ i f h. ground (arith, a.made i f, a.absent m, parts);
      free_engine = λ f h. ground (arith, a.free_engine f, parts);
    }

pub call-Agrees : (c : Call) (w : World) (n : Native) → Agrees w n → Agrees (call c w) n
call-Agrees c w n a = record {
  unborn_ahead = a.unborn_ahead;
  absent = a.absent;
  standing = a.standing;
  free = a.free;
  td_known = a.td_known;
  live = a.live;
  kept = a.kept;
  listed = a.listed;
  made = a.made;
  free_engine = a.free_engine;
}
