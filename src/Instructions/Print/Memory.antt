-- ===== src/Instructions/Print/Memory.antt =====
-- `descr` of the classes of llvmlite/ir/instructions.py that read, write and address memory, and of
-- its allocation.
use llvmlite.Prelude.{ℕ, Bool, true, false, List, [], ◌∷◌, ◌++◌, Option, none, some}
use llvmlite.Prelude.Texts.{Text, lit, decimal, join}
use llvmlite.Result.{Result, ok, ◌>>=◌}
use llvmlite.Types.{Ty}
use llvmlite.Values.{Value, Env, get_reference, type_of}
use llvmlite.Instructions.{Instr}
use llvmlite.Instructions.Print.{
  cat, meta, line, type_str, typed_reference, typed_references, stringify_metadata,
}
use llvmlite.Instructions.Print.Descr.{unpack_one, unpack_two, unpack_three, align_text}

-- `LoadInstr.descr` and `LoadAtomicInstr.descr`
unfoldable pub load_descr : Env → Instr → Option ℕ → Result Text
unfolding lit cat typed_reference stringify_metadata align_text
load_descr env instr align = unpack_one instr.operands >>= λ val. line (
    lit "load "
    ∷ type_str env instr.typ
    ∷ lit ", "
    ∷ typed_reference env val
    ∷ align_text align
    ∷ meta env instr
    ∷ [])

unfoldable pub load_atomic_descr : Env → Instr → Text → ℕ → Result Text
unfolding lit cat typed_reference stringify_metadata
load_atomic_descr env instr ordering align = unpack_one instr.operands >>= λ val. line (
    lit "load atomic "
    ∷ type_str env instr.typ
    ∷ lit ", "
    ∷ typed_reference env val
    ∷ lit " "
    ∷ ordering
    ∷ lit ", align "
    ∷ decimal align
    ∷ meta env instr
    ∷ [])

-- `StoreInstr.descr` and `StoreAtomicInstr.descr`
unfoldable pub store_descr : Env → Instr → Option ℕ → Result Text
unfolding lit cat typed_reference stringify_metadata align_text
store_descr env instr align = unpack_two instr.operands >>= λ (val, ptr). line (
    lit "store "
    ∷ typed_reference env val
    ∷ lit ", "
    ∷ typed_reference env ptr
    ∷ align_text align
    ∷ meta env instr
    ∷ [])

unfoldable pub store_atomic_descr : Env → Instr → Text → ℕ → Result Text
unfolding lit cat typed_reference stringify_metadata
store_atomic_descr env instr ordering align = unpack_two instr.operands >>= λ (val, ptr). line (
    lit "store atomic "
    ∷ typed_reference env val
    ∷ lit ", "
    ∷ typed_reference env ptr
    ∷ lit " "
    ∷ ordering
    ∷ lit ", align "
    ∷ decimal align
    ∷ meta env instr
    ∷ [])

-- The count of an `alloca`.
unfoldable pub count_text : Env → List Value → Result Text
unfolding lit typed_reference
count_text env [] = ok []
count_text env (v ∷ vs) = unpack_one (v ∷ vs) >>= λ op. ok (lit ", " ++ typed_reference env op)

-- `AllocaInstr.descr`, which ends no line.
unfoldable pub alloca_descr : Env → Instr → Ty → Option ℕ → Result Text
unfolding lit cat count_text stringify_metadata align_text
alloca_descr env instr allocated align = count_text env instr.operands >>= λ count. ok (
    cat (
      instr.opname
      ∷ lit " "
      ∷ type_str env allocated
      ∷ count
      ∷ align_text align
      ∷ meta env instr
      ∷ []))

abbrev inbounds_text : Bool → Text
inbounds_text true = lit "getelementptr inbounds"
inbounds_text false = lit "getelementptr"

-- `GEPInstr.descr`
unfoldable pub gep_descr : Env → Instr → Value → List Value → Bool → Ty → Result Text
unfolding lit cat typed_reference typed_references stringify_metadata
gep_descr env instr pointer indices inbounds source_etype = line (
    inbounds_text inbounds
    ∷ lit " "
    ∷ type_str env source_etype
    ∷ lit ", "
    ∷ typed_reference env pointer
    ∷ lit ", "
    ∷ join (lit ", ") (typed_references env indices)
    ∷ lit " "
    ∷ meta env instr
    ∷ [])

-- `AtomicRMW.descr` and `CmpXchg.descr`
unfoldable pub atomic_rmw_descr : Env → Instr → Text → Text → Result Text
unfolding lit cat typed_reference stringify_metadata
atomic_rmw_descr env instr operation ordering = unpack_two instr.operands >>= λ (ptr, val). line (
    lit "atomicrmw "
    ∷ operation
    ∷ lit " "
    ∷ typed_reference env ptr
    ∷ lit ", "
    ∷ typed_reference env val
    ∷ lit " "
    ∷ ordering
    ∷ lit " "
    ∷ meta env instr
    ∷ [])

unfoldable pub cmpxchg_descr : Env → Instr → Text → Text → Result Text
unfolding lit cat typed_reference get_reference stringify_metadata
cmpxchg_descr env instr ordering failordering =
    unpack_three instr.operands >>= λ (ptr, cmpval, val). line (
      lit "cmpxchg "
      ∷ typed_reference env ptr
      ∷ lit ", "
      ∷ typed_reference env cmpval
      ∷ lit ", "
      ∷ type_str env (type_of cmpval)
      ∷ lit " "
      ∷ get_reference env val
      ∷ lit " "
      ∷ ordering
      ∷ lit " "
      ∷ failordering
      ∷ lit " "
      ∷ meta env instr
      ∷ [])

abbrev pub syncscope : Option Text → Text
syncscope none = []
syncscope (some scope) = cat (lit "syncscope(\"" ∷ scope ∷ lit "\") " ∷ [])
