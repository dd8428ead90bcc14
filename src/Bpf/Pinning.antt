-- ===== src/Bpf/Pinning.antt =====
-- examples/object_pinning/ebpf/main.c: the four hooks on mkdir, over the pinned map `map1`.
pub mod Persistence
pub mod Interleaving
use ebpfmanager.Common.{ℕ, List, [], ◌∷◌, Option, none, some, if◌then◌else◌}
use ebpfmanager.Common.Int.{ℤ, pos}
use ebpfmanager.Bpf.{
  Kernel, Program, bpf_printk, bpf_map_lookup_elem, bpf_map_update_elem, return, ◌>>=◌, ◌>>◌,
}

-- Every program of the file works at key 1 and writes 42.
abbrev pub key : ℕ
key = 1

abbrev pub value : ℕ
value = 42

pub data Hook : Type 0 where
  kprobe_mkdir kprobe_mkdirat kretprobe_mkdir kretprobe_mkdirat : Hook

module _ (k : Kernel) (map1 : ℕ) where
  -- the two branches on the pointer that the lookup returned
  report : ℕ → Option ℕ → Program k ℤ
  report t none = do bpf_printk k "(mkdir %d) map1 is empty\n" (t ∷ []); return (pos 0)
  report t (some d) = do
    bpf_printk k "(mkdir %d) map1 contains %d at %d\n" (t ∷ d ∷ key ∷ [])
    return (pos 0)

  pub mkdir : ℕ → Program k ℤ
  unfolding report
  mkdir t = do d ← bpf_map_lookup_elem k map1 key; report t d

  insert_missing : ℕ → Option ℕ → Program k ℤ
  insert_missing t none = do
    bpf_printk k "(mkdirat ret %d) inserting %d at %d in map1\n" (t ∷ value ∷ key ∷ [])
    bpf_map_update_elem k map1 key value
    return (pos 0)
  insert_missing t (some d) = do
    bpf_printk k "(mkdirat ret %d) data already there, nothing to do\n" (t ∷ [])
    return (pos 0)

  pub mkdir_ret : ℕ → Program k ℤ
  unfolding insert_missing
  mkdir_ret t = do d ← bpf_map_lookup_elem k map1 key; insert_missing t d

  pub run_hook : Hook → Program k ℤ
  unfolding mkdir mkdir_ret
  run_hook kprobe_mkdir = mkdir 1
  run_hook kprobe_mkdirat = mkdir 2
  run_hook kretprobe_mkdir = mkdir_ret 1
  run_hook kretprobe_mkdirat = mkdir_ret 2

  -- The hooks of a sequence of system calls, one after the other.
  unfoldable pub run_hooks : List Hook → k.World → k.World
  unfolding run_hook
  run_hooks [] w = w
  run_hooks (h ∷ hs) w = run_hooks hs (run_hook h w).1
