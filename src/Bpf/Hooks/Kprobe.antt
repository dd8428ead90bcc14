-- ===== src/Bpf/Hooks/Kprobe.antt =====
-- examples/programs/kprobe/ebpf/main.c
use ebpfmanager.Common.{[]}
use ebpfmanager.Common.Int.{ℤ, pos}
use ebpfmanager.Bpf.{Kernel, Program, bpf_printk, return, ◌>>◌}

module _ (k : Kernel) where
  unfoldable pub kprobe_vfs_mkdir : Program k ℤ
  kprobe_vfs_mkdir = do bpf_printk k "mkdir (vfs hook point)\n" []; return (pos 0)

  unfoldable pub kprobe_utimes_common : Program k ℤ
  kprobe_utimes_common = do bpf_printk k "utimes_common\n" []; return (pos 0)

  unfoldable pub kretpobe_unlinkat : Program k ℤ
  kretpobe_unlinkat = do bpf_printk k "mkdirat return (syscall hook point)\n" []; return (pos 0)
