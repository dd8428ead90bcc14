-- ===== src/Bpf/Hooks/Tracing.antt =====
-- examples/programs/{rawtracepoint, tracepoint, uprobe}/ebpf/main.c
use ebpfmanager.Common.{[]}
use ebpfmanager.Common.Int.{ℤ, pos}
use ebpfmanager.Bpf.{Kernel, Program, bpf_printk, return, ◌>>◌}

module _ (k : Kernel) where
  unfoldable pub raw_tracepoint_sys_enter : Program k ℤ
  raw_tracepoint_sys_enter = do bpf_printk k "sys_enter enter (tracepoint)\n" []; return (pos 0)

  unfoldable pub tracepoint_sys_enter_mkdirat : Program k ℤ
  tracepoint_sys_enter_mkdirat = do bpf_printk k "mkdirat enter (tracepoint)\n" []; return (pos 0)

  unfoldable pub uprobe_readline : Program k ℤ
  uprobe_readline = do bpf_printk k "new bash command detected\n" []; return (pos 0)
