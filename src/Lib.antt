-- ===== src/Lib.antt =====
-- A verification of the intermediate representation layer of llvmlite, llvmlite/ir: the types,
-- values, constants, instructions and metadata of LLVM modules as Python objects, and the builder
-- that puts instructions into the blocks of functions; and of the lifetimes of the objects of
-- llvmlite/binding and of its lock.
--
-- How the parts interact: a function has a name scope, from which its blocks and instructions take
-- names; the builder makes an instruction for its block, inserts it at its position, and refers to
-- other values by their references. A module has a scope of its own for globals and metadata, and a
-- context has one for the identified structs. A module prints as the text that the binding parses into
-- a module of LLVM, which an execution engine may then own.
--
-- The files:
--   Prelude, Result, Exec: shared numbers, lists, texts and tests; Python's exceptions as values; the
--     methods that change an object and may raise, where what was written before a raise stays.
--   Scope: NameScope of llvmlite/ir/_utils.py. A set is the list of its members.
--   Escape: _escape_string, the quoting of references and _format_name of llvmlite/ir/values.py, and
--     _wrapname of llvmlite/ir/types.py. A text is the list of its characters' codes.
--   Types: llvmlite/ir/types.py; equality, texts and element lookup.
--   Context: llvmlite/ir/context.py and IdentifiedStructType; the bodies stand in the context.
--   Values: llvmlite/ir/values.py; values and constants, their references, the wrapping of contents
--     (Wrap), names and their cached references (Names), constant operations (ConstOps), element
--     addresses (Gep, with those of types.py).
--   Attributes: the attribute sets of llvmlite/ir/values.py and llvmlite/ir/instructions.py.
--   Module.Metadata: add_metadata and add_named_metadata of llvmlite/ir/module.py.
--   Module.DebugInfo: add_debug_info of llvmlite/ir/module.py and DIValue of llvmlite/ir/values.py.
--   Module.Globals: the table of globals, the constructors Function and GlobalVariable, and
--     declare_intrinsic, whose tys is a list. A Function's blocks, arguments and attributes are not
--     part of the table: its value here is its number, type and name.
--   Module.Shared: the two parts of a module with the one scope that both register names in. Each
--     part keeps a copy, so that its operations need not know of the other.
--   Instructions: llvmlite/ir/instructions.py; the constructors with their checks (Create, Calls) as
--     drafts, to which creation adds the name and the identity, and replace_usage (Usage), which
--     makes a tuple of the operands, so that a callee can no longer be set.
--     Shuffle is the class ShuffleVector, and Grow the methods that add a case, a destination, an
--     incoming value or a clause.
--   Instructions.Print: descr of each class (Classes, over Memory, Flow and Data, with what they share
--     in Descr), the texts of metadata, str() and its cache (Caches) of llvmlite/ir/_utils.py.
--   Module.Print: functions, arguments, attributes and global variables as text, and Module.__repr__
--     with the metadata (Whole).
--   Transforms: llvmlite/ir/transforms.py, the visitors and replace_all_calls.
--   Builder: llvmlite/ir/builder.py on the blocks of one function; the moves of the builder and what
--     inserts and removes, the methods that add one instruction (Ops), terminators and context
--     managers (Control), the methods that declare an intrinsic, inline assembler and constants in not_
--     and neg (Intrinsics), Block.replace (Replace). The body of a `with` is a computation on the
--     state. The other files below Builder hold the invariant and the proofs.
--   Binding: ObjectRef of llvmlite/binding/ffi.py with close and detach, and what executionengine.py,
--     module.py, linker.py and targets.py do with owned objects (Engine). An object has the number of
--     the resource it wraps, each of which is wrapped once. The model keeps the calls of LLVM as a log.
--     A method that only passes its object to LLVM is a use of it, for modules, target machines,
--     engines and target data alike.
--     Contract is no code of the repository: it is the ownership that LLVM documents for these calls,
--     as a step function that refuses the use or the disposal of what is gone or owned by another.
--   Binding.Lock: the lock of llvmlite/binding/ffi.py and its callbacks, as a step relation over the
--     threads that call LLVM; a state lists the calls each thread is in, as callbacks may call again.
--   Binding.ValueRefs: the iterators and guards of llvmlite/binding/value.py, over what LLVM answers.
--   Binding.Orc: JITLibraryBuilder of llvmlite/binding/orcjit.py and the addresses of a tracker.
--   Binding.Features: FeatureMap and get_host_cpu_features of llvmlite/binding/targets.py.
--   Tests: the theorems at concrete inputs.
--
-- Objects are numbers where the code compares by identity, and the tables of the builder's state are
-- what a reference leads to; a block that is asked for by a number that none has counts as None.
--
-- Fuel: the loop of NameScope.deduplicate has two rounds more than there are names in use, which is
-- proved to suffice; the digits of a double in base 16 have a fuel of 16. All else recurs on its data.
--
-- Parameters: the environment flag for typed pointers, the answers of LLVM, str.encode, and the
-- floating point that Python computes (the bits of a double, its rounding to half and single
-- precision, str of other objects, the integer that an object equals).
--
-- Not modelled: the hashes of types and values, the conversions from the binding, and the layout
-- queries, which ask LLVM; a shufflevector whose second vector is the bare Undefined, which has no
-- type; a change of a value's name after the first reference to it, which keeps the old name in
-- the reference (Values.Names has the cache); of the binding the object cache, pass managers, the
-- lifetimes of LLJIT, targets' queries, what the methods that use an object return, the loading of
-- the library, and all else that is one call of C++.
pub mod Prelude
pub mod Result
pub mod Scope
pub mod Escape
pub mod Types
pub mod Exec
pub mod Context
pub mod Values
pub mod Attributes
pub mod Module
pub mod Instructions
pub mod Binding
pub mod Builder
pub mod Transforms
pub mod Tests
