-- ===== src/Bpf/Constants.antt =====
-- examples/clone_vs_add_hook/ebpf/main.c: hooks that send a constant, which user space writes into
-- their instructions before they are loaded.
use ebpfmanager.Common.{ℕ, ◌≡◌, refl, [], ◌∷◌, String, ◌∙◌}
use ebpfmanager.Common.Int.{ℤ, pos}
use ebpfmanager.Bpf.{Kernel, KernelLaws, Program, bpf_printk, return, ◌>>◌}

-- `load` is what the `LOAD_CONSTANT` instruction of the loaded program reads, a 64-bit word.
module _ (k : Kernel) (load : String → ℕ) (my_constants : ℕ) where
  unfoldable pub load_my_constant : ℕ
  load_my_constant = load "my_constant"

  send : ℕ → Program k (Unit {0})
  send my_constant w = (tt, (k.output w my_constants (k.cpu w) my_constant).0)

  unfoldable pub kprobe_vfs_mkdir : Program k ℤ
  unfolding load_my_constant send
  kprobe_vfs_mkdir = do
    bpf_printk k "mkdir (vfs hook point) | my_constant = %d\n" (load_my_constant ∷ [])
    send load_my_constant
    return (pos 0)

  unfoldable pub kprobe_vfs_rmdir : Program k ℤ
  unfolding load_my_constant send
  kprobe_vfs_rmdir = do
    bpf_printk k "rmdir (vfs hook point) | my_constant = %d\n" (load_my_constant ∷ [])
    send load_my_constant
    return (pos 0)

  unfoldable pub kretpobe_mkdir : Program k ℤ
  kretpobe_mkdir = do bpf_printk k "mkdir return (syscall hook point)\n" []; return (pos 0)

module _ (k : Kernel) (laws : KernelLaws k) (load : String → ℕ) (m : ℕ) where
  open laws use {samples-printk, cpu-printk, samples-output}

  -- The hook on mkdir sends the constant that its instructions load, with the number of its CPU.
  pub kprobe_vfs_mkdir-samples :
      (value : ℕ) (w : k.World)
      → load "my_constant" ≡ value
      → ((v : k.World) (c : ℕ) → (k.output v m c value).1 ≡ pos 0)
      → k.samples (kprobe_vfs_mkdir k load m w).1 ≡ (m, k.cpu w, value) ∷ k.samples w
  unfolding kprobe_vfs_mkdir
  kprobe_vfs_mkdir-samples value w e sends =
      rw e (samples-output _ m _ value (sends _ _) ∙ rw (samples-printk, cpu-printk) refl)
