-- ===== src/Module.antt =====
-- llvmlite/ir/module.py: the metadata of a module, its globals with the declaration of intrinsics,
-- and the scope that they share.
pub mod DebugInfo
pub mod Metadata
pub mod Globals
pub mod Shared
pub mod Print
