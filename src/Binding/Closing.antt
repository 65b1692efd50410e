-- ===== src/Binding/Closing.antt =====
-- The agreement of the objects of llvmlite/binding with the resources of LLVM, kept by the steps
-- that give a module back, detach an object or dispose of its resource.
use llvmlite.Prelude.{ℕ, ◌<◌, ◌≡◌, arith, true, false, List, [], ◌∷◌, none, ◌==◌, if◌then◌else◌}
use llvmlite.Binding.{
  World, target_data, wrap, is_module, is_machine, is_engine, modules_of, td_of, contains, without,
  detach,
}
use llvmlite.Binding.Engine.{update, set_owned, set_resource, with_modules, with_td}
use llvmlite.Binding.Contract.{Native, alone, gone, held, put, is_live}
use llvmlite.Binding.Agreement.{Agrees, engine_parts}

contains-without :
    (i m : ℕ) (ms : List ℕ) → contains i (without m ms) ≡ (if m == i then false else contains i ms)
unfolding contains without
contains-without i m [] = ground arith
contains-without i m (j ∷ js) = ground (arith, contains-without i m js)

-- An engine gives a module back.
pub remove-Agrees :
    (e m : ℕ) (w : World) (n : Native)
    → (w.refs e).closed ≡ false
    → is_engine (w.refs e).resource ≡ true
    → (w.refs m).closed ≡ false
    → is_module (w.refs m).resource ≡ true
    → n m ≡ held e
    → Agrees w n
    → Agrees
        (update m (set_owned false) (
          update e
            (λ r. set_resource (with_modules (without m (modules_of r.resource)) r.resource) r)
            w))
        (put m alone n)
unfolding is_live with_modules modules_of td_of is_engine is_machine is_module
remove-Agrees e m w n ce ke cm km holds a =
    let (ms, td, parts) = engine_parts (w.refs e).resource ke in
    record {
      unborn_ahead = λ i h. ground (arith, a.unborn_ahead i, a.absent m);
      absent = λ i h. ground (arith, a.absent i, a.absent m, a.absent e);
      standing = λ i c o. ground (arith, a.standing i, parts);
      free = λ i c o. ground (arith, a.free i, parts);
      td_known = λ f d h. ground (arith, a.td_known f d, parts);
      live = λ i c k. ground (arith, a.live i, parts);
      kept = λ i f h c k. ground (arith, a.kept i f, parts, contains-without i m ms);
      listed = λ i f h c. ground (arith, a.listed i f, parts, contains-without i m ms);
      made = λ i f h. ground (arith, a.made i f, parts, contains-without i m ms);
      free_engine = λ f h. ground (arith, a.free_engine f, parts);
    }

-- An engine hands out its target data for the first time.
pub td-Agrees :
    (e : ℕ) (w : World) (n : Native)
    → (w.refs e).closed ≡ false
    → is_engine (w.refs e).resource ≡ true
    → td_of (w.refs e).resource ≡ none
    → Agrees w n
    → Agrees
        (update e (λ r. set_resource (with_td w.next r.resource) r) (wrap target_data true w))
        (put w.next (held e) n)
unfolding is_live with_td contains modules_of td_of is_engine is_machine is_module
td-Agrees e w n ce ke new a =
    let (ms, td, parts) = engine_parts (w.refs e).resource ke in
    record {
      unborn_ahead = λ i h. ground (arith, a.unborn_ahead i);
      absent = λ i h. ground (arith, a.absent i, a.absent e);
      standing = λ i c o. ground (arith, a.standing i, parts, a.absent e);
      free = λ i c o. ground (arith, a.free i, parts, a.absent e);
      td_known = λ f d h. ground (arith, a.td_known f d, parts, a.absent e);
      live = λ i c k. ground (arith, a.live i, parts);
      kept =
          λ i f h c k. ground (arith, a.kept i f, parts, a.unborn_ahead i, a.absent f, a.absent e);
      listed = λ i f h c. ground (arith, a.listed i f, a.made i f, parts, a.absent e);
      made = λ i f h. ground (arith, a.made i f, parts, a.absent e);
      free_engine = λ f h. ground (arith, a.free_engine f, parts, a.absent e);
    }

pub detach-Agrees : (i : ℕ) (w : World) (n : Native) → Agrees w n → Agrees (detach i w) n
unfolding detach
detach-Agrees k w n a = record {
  unborn_ahead = λ i h. ground (arith, a.unborn_ahead i);
  absent = λ i h. ground (arith, a.absent i);
  standing = λ i c o. ground (arith, a.standing i);
  free = λ i c o. ground (arith, a.free i);
  td_known = λ f d h. ground (arith, a.td_known f d);
  live = λ i c m. ground (arith, a.live i);
  kept = λ i f h c m. ground (arith, a.kept i f);
  listed = λ i f h c. ground (arith, a.listed i f);
  made = λ i f h. ground (arith, a.made i f);
  free_engine = λ f h. ground (arith, a.free_engine f);
}

-- The resource of a closed object may go.
pub gone-Agrees :
    (k : ℕ) (w : World) (n : Native)
    → (w.refs k).closed ≡ true
    → k < w.next
    → Agrees w n
    → Agrees w (put k gone n)
gone-Agrees k w n c ahead a = record {
  unborn_ahead = λ i h. ground (arith, a.unborn_ahead i);
  absent = λ i h. a.absent i h;
  standing = λ i d o. ground (arith, a.standing i);
  free = λ i d o. ground (arith, a.free i);
  td_known = λ f d h. a.td_known f d h;
  live = λ i d m. ground (arith, a.live i);
  kept = λ i f h d m. ground (arith, a.kept i f);
  listed = λ i f h d. ground (arith, a.listed i f);
  made = λ i f h. a.made i f h;
  free_engine = λ f h. a.free_engine f h;
}

-- What LLVM takes from an engine that does not list it stands alone.
pub given-Agrees :
    (e m : ℕ) (w : World) (n : Native)
    → (w.refs m).closed ≡ false
    → is_module (w.refs m).resource ≡ true
    → is_machine (w.refs m).resource ≡ false
    → n m ≡ held e
    → contains m (modules_of (w.refs e).resource) ≡ false
    → Agrees w n
    → Agrees w (put m alone n)
unfolding is_live
given-Agrees e m w n open_m km other holds unlisted a = record {
  unborn_ahead = λ i h. ground (arith, a.unborn_ahead i);
  absent = λ i h. a.absent i h;
  standing = λ i c o. ground (arith, a.standing i);
  free = λ i c o. ground (arith, a.free i, a.kept m e, a.td_known e m);
  td_known = λ f d h. a.td_known f d h;
  live = λ i c k. ground (arith, a.live i);
  kept = λ i f h c k. ground (arith, a.kept i f);
  listed = λ i f h c. ground (arith, a.listed i f);
  made = λ i f h. a.made i f h;
  free_engine = λ f h. a.free_engine f h;
}
