-- ===== src/Binding/Disposal.antt =====
-- The disposal of an object of llvmlite/binding, which closes what it lists.
use llvmlite.Prelude.{
  ap, ◌∙◌, ℕ, ◌≡◌, refl, arith, true, false, List, [], ◌∷◌, Option, none, some, ◌==◌, ◌||◌,
  if◌then◌else◌,
}
use llvmlite.Binding.{
  is_module, World, Resource, module_of, target_machine, target_data, engine, Call, call,
  is_machine, is_engine, modules_of, td_of, contains, detach, detach_all, detach_option, dispose_of,
}
use llvmlite.Binding.Contract.{Native, alone, gone, put, is_live, is_held_by}
use llvmlite.Binding.Agreement.{Agrees, keeps, is_td}

detached :
    (k : ℕ) (w : World) (j : ℕ)
    → (((detach k w).refs j).closed ≡ (k == j || (w.refs j).closed))
      × (((detach k w).refs j).owned ≡ (w.refs j).owned)
      × (((detach k w).refs j).resource ≡ (w.refs j).resource)
unfolding detach
detached k w j = ground arith

detached_all :
    (ks : List ℕ) (w : World) (j : ℕ)
    → (((detach_all ks w).refs j).closed ≡ (contains j ks || (w.refs j).closed))
      × (((detach_all ks w).refs j).owned ≡ (w.refs j).owned)
      × (((detach_all ks w).refs j).resource ≡ (w.refs j).resource)
unfolding detach_all contains
detached_all [] w j = (refl, refl, refl)
detached_all (k ∷ ks) w j = ground (arith, detached k w j, detached_all ks (detach k w) j)

detached_option :
    (o : Option ℕ) (w : World) (j : ℕ)
    → (((detach_option o w).refs j).closed ≡ (is_td j o || (w.refs j).closed))
      × (((detach_option o w).refs j).owned ≡ (w.refs j).owned)
      × (((detach_option o w).refs j).resource ≡ (w.refs j).resource)
unfolding detach_option
detached_option none w j = (refl, refl, refl)
detached_option (some k) w j = ground (arith, detached k w j)

all-next :
    (ks : List ℕ) (w : World)
    → ((detach_all ks w).next ≡ w.next) × ((detach_all ks w).calls ≡ w.calls)
unfolding detach_all detach
all-next [] w = (refl, refl)
all-next (k ∷ ks) w = all-next ks (detach k w)

option-next :
    (o : Option ℕ) (w : World)
    → ((detach_option o w).next ≡ w.next) × ((detach_option o w).calls ≡ w.calls)
unfolding detach_option detach
option-next none w = (refl, refl)
option-next (some k) w = (refl, refl)

-- The objects behind the disposal of an open one: it is closed, and so is all that it lists.
pub record Disposed (i : ℕ) (w w' : World) : Type 0 where
  pub same_next : w'.next ≡ w.next
  pub stays_closed : (j : ℕ) → (w'.refs j).closed ≡ false → (w.refs j).closed ≡ false
  pub same_owned : (j : ℕ) → (w'.refs j).owned ≡ (w.refs j).owned
  pub same_resource : (j : ℕ) → (j == i) ≡ false → (w'.refs j).resource ≡ (w.refs j).resource
  pub same_machine : (j : ℕ) → is_machine (w'.refs j).resource ≡ is_machine (w.refs j).resource
  pub same_engine : (j : ℕ) → is_engine (w'.refs j).resource ≡ is_engine (w.refs j).resource
  pub same_module : (j : ℕ) → is_module (w'.refs j).resource ≡ is_module (w.refs j).resource
  pub same_td : (j : ℕ) → td_of (w'.refs j).resource ≡ td_of (w.refs j).resource
  pub nothing_listed : (j : ℕ) → contains j (modules_of (w'.refs i).resource) ≡ false
  pub closes : (j : ℕ) → keeps (w.refs i).resource j ≡ true → (w'.refs j).closed ≡ true
  pub spares :
      (j : ℕ)
      → keeps (w.refs i).resource j ≡ false
      → (j == i) ≡ false
      → (w'.refs j).closed ≡ (w.refs j).closed
  pub closed_itself : (w'.refs i).closed ≡ true

pub Disposed-Agrees :
    (i : ℕ) (w w' : World) (n : Native)
    → Disposed i w w'
    → n i ≡ alone
    → Agrees w n
    → Agrees w' (put i gone (λ j. if is_held_by i (n j) then gone else n j))
unfolding is_live is_held_by
Disposed-Agrees i w w' n d lone a = record {
  unborn_ahead = λ j h. ground (arith, a.unborn_ahead j, d.same_next, a.unborn_ahead i);
  absent = λ j h.
      ground
        (arith, a.absent j, d.same_next, d.stays_closed j, d.same_resource j, a.unborn_ahead i);
  standing =
      λ j c o. ground (arith, a.standing j, d.stays_closed j, d.same_owned j, d.closed_itself);
  free = λ j c o. ground (arith, a.free j, d.stays_closed j, d.same_owned j);
  td_known = λ f k h. ground (arith, a.td_known f k, d.same_next, d.same_module k, d.same_td f);
  live = λ j c m. ground (
    arith,
    a.live j,
    a.kept j i,
    d.stays_closed j,
    d.same_machine j,
    d.closes j,
    d.closed_itself,
  );
  kept = λ j f h c m.
      ground (arith, a.kept j f, d.stays_closed j, d.same_machine j, d.same_resource f);
  listed = λ j f h c.
      ground (arith, a.listed j f, d.stays_closed j, d.same_resource f, d.nothing_listed j);
  made = λ j f h. ground (arith, a.made j f, d.same_next, d.same_resource f, d.nothing_listed j);
  free_engine = λ f h. ground (arith, a.free_engine f, d.same_engine f, d.same_owned f);
}

-- Everything but an engine lists nothing, and stays as it is.
plain_Disposed :
    (i : ℕ) (w : World) (res : Resource)
    → (w.refs i).resource ≡ res
    → modules_of res ≡ []
    → td_of res ≡ none
    → Disposed i w (detach i (call (Call.dispose i) w))
unfolding contains detach
plain_Disposed i w res e bare no_td = record {
  same_next = refl;
  stays_closed = λ j c. ground arith;
  same_owned = λ j. ground arith;
  same_resource = λ j h. ground arith;
  same_machine = λ j. ground arith;
  same_engine = λ j. ground arith;
  same_module = λ j. ground arith;
  same_td = λ j. ground arith;
  nothing_listed = λ j. ground (arith, e, bare);
  closes = λ j h. ground (arith, e, bare, no_td);
  spares = λ j h k. ground arith;
  closed_itself = ground arith;
}

-- An engine closes its modules and its target data.
engine_Disposed :
    (i : ℕ) (w : World) (ms : List ℕ) (td : Option ℕ)
    → (w.refs i).resource ≡ engine ms td
    → Disposed i w (detach i (dispose_of i (engine ms td) w))
unfolding contains detach dispose_of is_machine is_engine is_module modules_of td_of
engine_Disposed i w ms td e =
    let all : World = detach_all ms w in
    let last : World = detach_option td all in
    record {
      same_next = (option-next td all).0 ∙ (all-next ms w).0;
      stays_closed = λ j c.
          ground (arith, detached_option td all j, detached_all ms w j, detached_option td all i);
      same_owned = λ j. ground (
        arith,
        detached_option td all j,
        detached_all ms w j,
        detached_option td all i,
        detached_all ms w i,
      );
      same_resource = λ j h. ground (arith, detached_option td all j, detached_all ms w j);
      same_machine = λ j. ground (arith, detached_option td all j, detached_all ms w j, e);
      same_engine = λ j. ground (arith, detached_option td all j, detached_all ms w j, e);
      same_module = λ j. ground (arith, detached_option td all j, detached_all ms w j, e);
      same_td = λ j. ground (arith, detached_option td all j, detached_all ms w j, e);
      nothing_listed = λ j. ground arith;
      closes = λ j h. ground (arith, detached_option td all j, detached_all ms w j, e);
      spares = λ j h k. ground (arith, detached_option td all j, detached_all ms w j, e);
      closed_itself = ground arith;
    }

pub dispose-Disposed :
    (i : ℕ) (w : World) (res : Resource)
    → (w.refs i).resource ≡ res
    → Disposed i w (detach i (dispose_of i res w))
      × ((detach i (dispose_of i res w)).calls ≡ Call.dispose i ∷ w.calls)
unfolding dispose_of detach modules_of td_of
dispose-Disposed i w module_of e = (plain_Disposed i w module_of e refl refl, refl)
dispose-Disposed i w target_machine e = (plain_Disposed i w target_machine e refl refl, refl)
dispose-Disposed i w target_data e = (plain_Disposed i w target_data e refl refl, refl)
dispose-Disposed i w (engine ms td) e = (
  engine_Disposed i w ms td e,
  ap (λ cs. Call.dispose i ∷ cs) ((option-next td (detach_all ms w)).1 ∙ (all-next ms w).1),
)
