-- ===== src/Bpf/Header.antt =====
-- The kernel's header bpf.h and bpf_helpers.h, as the example programs include them.
pub mod Instruction
pub mod Layout
pub mod Helpers
pub mod ReturnCodes
pub mod Opcodes
pub mod Cgroup
pub mod Descriptions
pub mod Numbers
pub mod Registers
pub mod Flags
pub mod Contexts
pub mod Attr
