-- ===== src/Examples/SymbolsExamples.antt =====
-- Symbols of a file with a loaded segment of code, and lookups with and without a cache.
use ebpfmanager.Common.{
  ℕ, get_elem?, some, ◌+◌, ◌≤◌, ◌<◌, ◌≡◌, refl, true, false, [], ◌∷◌, none, arith,
}
use ebpfmanager.Symbols.{
  Segment, exec, other, sanitize_uprobe_addresses, find_filter, Cache, SymFile, get_syscall_fn_name,
}
use ebpfmanager.Symbols.Addresses.{IsInside, sanitize_uprobe_addresses-bounds}

abbrev code : Segment
code = record { is_load = true; vaddr = 0x401000; memsz = 0x2000; off = 0x1000 }

abbrev notes : Segment
notes = record { is_load = false; vaddr = 0x400000; memsz = 0x4000; off = 0 }

sanitize_test :
    sanitize_uprobe_addresses exec (notes ∷ code ∷ notes ∷ []) (0x401234 ∷ 0x7 ∷ [])
    ≡ 0x1234 ∷ 0x7 ∷ []
unfolding sanitize_uprobe_addresses
sanitize_test = refl

object_test : sanitize_uprobe_addresses other (code ∷ []) (0x401234 ∷ []) ≡ 0x401234 ∷ []
unfolding sanitize_uprobe_addresses
object_test = refl

not_notes : (v : ℕ) → ¬ IsInside v notes
not_notes v h = absurd (false_true h.0)
  where
    false_true : false ≡ true → ⊥
    false_true e = cc

below_code : ¬ IsInside 0x7 code
below_code h = absurd (omega (arith, h.1))

sanitize_uprobe_addresses-bounds_example :
    let after = sanitize_uprobe_addresses exec (notes ∷ code ∷ notes ∷ []) (0x401234 ∷ 0x7 ∷ []) in
    ((found : ℕ) × (get_elem? after 0 ≡ some found)
      × (0x1000 ≤ found)
      × (found < 0x3000)
      × (found + 0x401000 ≡ 0x401234 + 0x1000))
    × (get_elem? after 1 ≡ some 0x7)
sanitize_uprobe_addresses-bounds_example =
    sanitize_uprobe_addresses-bounds exec (notes ∷ []) code (notes ∷ []) (0x401234 ∷ 0x7 ∷ []) 0 1
      0x401234 0x7 (λ e. cc) (omega arith, (omega arith, (omega arith, tt))) (omega arith) refl
      (refl, omega arith, omega arith) (not_notes 0x401234, tt) refl
      (not_notes 0x7, (below_code, (not_notes 0x7, tt)))

-- "vfs_mk" matches both, the exact name wins.
exact_test : find_filter (λ s. true) "vfs_mkdir" [] ("do_mkdir" ∷ "vfs_mkdir" ∷ []) ≡ "vfs_mkdir"
unfolding find_filter
exact_test = refl

abbrev host : SymFile
host = record { symbols = (none, "vfs_mkdir" ∷ []); open_prefix = (none, "__x64_sys_") }

abbrev guest : SymFile
guest = record { symbols = (none, "vfs_open" ∷ []); open_prefix = (none, "sys_") }

abbrev no_cache : Cache
no_cache = record { kallsyms = []; syscall_prefix = "" }

-- The symbol file of the second call is not read: its symbol is taken for a system call of the first.
second_file_test :
    (get_syscall_fn_name guest "vfs_open" (get_syscall_fn_name host "mkdir" no_cache).1).0
    ≡ (none, "__x64_sys_vfs_open")
unfolding get_syscall_fn_name
second_file_test = refl
