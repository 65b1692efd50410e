-- ===== src/Binding/Contract.antt =====
-- What LLVM's C interface documents of its resources, as a machine over the calls: which resource
-- stands alone, which one an engine holds, and which one is gone. A call that disposes of a resource
-- a second time, or that uses one that is gone, has no result.
use llvmlite.Prelude.{
  ℕ, Bool, true, false, List, [], ◌∷◌, Option, none, some, ◌==◌, ◌&&◌, not, if◌then◌else◌,
}
use llvmlite.Binding.{Call}

pub data Status : Type 0 where
  unborn alone gone : Status
  held : ℕ → Status

abbrev pub Native : Type 0
Native = ℕ → Status

unfoldable pub is_unborn : Status → Bool
is_unborn unborn = true
is_unborn _ = false

unfoldable pub is_alone : Status → Bool
is_alone alone = true
is_alone _ = false

unfoldable pub is_held_by : ℕ → Status → Bool
is_held_by e (held f) = f == e
is_held_by e _ = false

unfoldable pub is_live : Status → Bool
is_live alone = true
is_live (held e) = true
is_live _ = false

abbrev pub put : ℕ → Status → Native → Native
put i s n j = if j == i then s else n j

abbrev pub allowed : Bool → Native → Option Native
allowed test n = if test then some n else none

-- An engine takes its module and its target machine, also when it is not made, and then they are
-- gone. Disposing of an engine disposes of what it holds. Linking consumes the source.
unfoldable pub perform : Call → Native → Option Native
unfolding is_unborn is_alone is_held_by is_live
perform (Call.create i) n = allowed (is_unborn (n i)) (put i alone n)
perform (Call.use_of i) n = allowed (is_live (n i)) n
perform (Call.create_engine e m tm made) n =
    allowed (is_unborn (n e) && (is_alone (n m) && is_alone (n tm))) (
      if made then put e alone (put m (held e) (put tm (held e) n)) else put m gone (put tm gone n))
perform (Call.add_module e m) n = allowed (is_alone (n e) && is_alone (n m)) (put m (held e) n)
perform (Call.remove_module e m failed) n =
    allowed (is_alone (n e) && is_live (n m))
      (if failed then n else if is_held_by e (n m) then put m alone n else n)
perform (Call.get_target_data e d) n =
    allowed (is_alone (n e) && is_unborn (n d)) (put d (held e) n)
perform (Call.link dst src) n =
    allowed (not (dst == src) && (is_live (n dst) && is_alone (n src))) (put src gone n)
perform (Call.clone m c) n = allowed (is_live (n m) && is_unborn (n c)) (put c alone n)
perform (Call.dispose i) n =
    allowed (is_alone (n i)) (put i gone (λ j. if is_held_by i (n j) then gone else n j))

abbrev pub then_perform : Call → Option Native → Option Native
then_perform c none = none
then_perform c (some n) = perform c n

-- The state behind a list of calls, the last one first.
unfoldable pub replay : List Call → Option Native
unfolding perform
replay [] = some (λ i. unborn)
replay (c ∷ cs) = then_perform c (replay cs)
