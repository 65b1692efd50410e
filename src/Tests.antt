-- ===== src/Tests.antt =====
-- The theorems at concrete inputs of the code in llvmlite/ir: names and texts, types and values, the
-- builder, the globals of a module, printing and the replacement of calls, the lock, and the objects of
-- llvmlite/binding.
mod Names
mod Data
mod Build
mod Globals
mod Binding
mod Printing
mod Calls
mod Debug
mod Lock
mod Reached
