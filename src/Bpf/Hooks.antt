-- ===== src/Bpf/Hooks.antt =====
-- The example programs that print a line and accept: examples/programs/*/ebpf/main.c and
-- examples/activated_probes/ebpf/main.c.
pub mod Kprobe
pub mod Activated
pub mod Network
pub mod Tracing
pub mod Sequence
