-- ===== src/Instructions/Print/Classes.antt =====
-- `descr` by the class of the instruction, and the text of an instruction in
-- llvmlite/ir/instructions.py.
use llvmlite.Prelude.{Bool, true, false, [], ◌∷◌, ◌++◌}
use llvmlite.Prelude.Texts.{Text, lit, join}
use llvmlite.Result.{Result, ok, ◌>>=◌}
use llvmlite.Types.{Ty, void}
use llvmlite.Values.{Env, get_reference}
use llvmlite.Instructions.{Instr, Kind, value_of}
use llvmlite.Instructions.Print.{cat, meta, line, type_str, references, stringify_metadata, rstrip}
use llvmlite.Instructions.Print.Descr.{with_flags, clause_lines, with_call}
use llvmlite.Instructions.Print.Memory.{
  load_descr, load_atomic_descr, store_descr, store_atomic_descr, alloca_descr, gep_descr,
  atomic_rmw_descr, cmpxchg_descr, syncscope,
}
use llvmlite.Instructions.Print.Flow.{
  terminator_descr, ret_descr, indirect_descr, switch_descr, invoke_descr,
}
use llvmlite.Instructions.Print.Data.{
  select_descr, compare_descr, cast_descr, phi_descr, element_descr, extract_value_descr,
  insert_value_descr, shuffle_descr,
}

-- `Instruction.descr`
unfoldable pub plain_descr : Env → Instr → Result Text
unfolding lit cat references with_flags stringify_metadata
plain_descr env instr = line (
    with_flags instr.opname instr.flags
    ∷ lit " "
    ∷ type_str env instr.typ
    ∷ lit " "
    ∷ join (lit ", ") (references env instr.operands)
    ∷ meta env instr
    ∷ [])

abbrev cleanup_text : Bool → Text
cleanup_text true = lit " cleanup"
cleanup_text false = []

-- `descr` of each class.
unfoldable pub descr_of : Env → Instr → Kind → Result Text
unfolding plain_descr terminator_descr ret_descr select_descr compare_descr cast_descr load_descr
    load_atomic_descr store_descr store_atomic_descr alloca_descr gep_descr phi_descr element_descr
    extract_value_descr insert_value_descr indirect_descr switch_descr atomic_rmw_descr
    cmpxchg_descr invoke_descr shuffle_descr clause_lines lit cat
descr_of env instr Kind.operation = plain_descr env instr
descr_of env instr Kind.branch = terminator_descr env instr
descr_of env instr Kind.conditional_branch = terminator_descr env instr
descr_of env instr Kind.ret = ret_descr env instr instr.operands
descr_of env instr Kind.select = select_descr env instr
descr_of env instr Kind.cast = cast_descr env instr
descr_of env instr Kind.extract_element = element_descr env instr
descr_of env instr Kind.insert_element = element_descr env instr
descr_of env instr Kind.shuffle_vector = shuffle_descr env instr
descr_of env instr Kind.unreachable = line (instr.opname ∷ [])
descr_of env instr (Kind.indirect_branch destinations) = indirect_descr env instr destinations
descr_of env instr (Kind.switch default cases) = switch_descr env instr default cases
descr_of env instr (Kind.compare op) = compare_descr env instr op
descr_of env instr (Kind.load align) = load_descr env instr align
descr_of env instr (Kind.store align) = store_descr env instr align
descr_of env instr (Kind.load_atomic ordering align) = load_atomic_descr env instr ordering align
descr_of env instr (Kind.store_atomic ordering align) = store_atomic_descr env instr ordering align
descr_of env instr (Kind.alloca_of t align) = alloca_descr env instr t align
descr_of env instr (Kind.gep_of ptr indices inbounds t) = gep_descr env instr ptr indices inbounds t
descr_of env instr (Kind.phi incomings) = phi_descr env instr incomings
descr_of env instr (Kind.extract_value agg indices) = extract_value_descr env instr agg indices
descr_of env instr (Kind.insert_value agg v indices) = insert_value_descr env instr agg v indices
descr_of env instr (Kind.atomic_rmw op ordering) = atomic_rmw_descr env instr op ordering
descr_of env instr (Kind.cmpxchg ordering failing) = cmpxchg_descr env instr ordering failing
descr_of env instr (Kind.fence ordering scope) =
    line (lit "fence " ∷ syncscope scope ∷ ordering ∷ [])
descr_of env instr (Kind.comment text) = ok (lit "; " ++ text)
descr_of env instr (Kind.call options) = with_call env instr options instr.operands true
descr_of env instr (Kind.invoke options normal unwind) =
    invoke_descr env instr options normal unwind
descr_of env instr (Kind.landing_pad cleanup clauses) = line (
    lit "landingpad "
    ∷ type_str env instr.typ
    ∷ cleanup_text cleanup
    ∷ clause_lines env clauses
    ∷ [])

-- `"{0} = "` of an instruction that has a result. The name is the one that the instruction had when
-- it was first referred to, as its reference is cached.
unfoldable pub result_text : Env → Instr → Ty → Text
unfolding lit get_reference value_of
result_text env instr void = []
result_text env instr t = get_reference env (value_of instr) ++ lit " = "

-- `_to_string`
unfoldable pub to_string : Env → Instr → Result Text
unfolding descr_of result_text rstrip
to_string env instr = descr_of env instr instr.kind >>= λ described.
    ok (rstrip (result_text env instr instr.typ ++ described))
