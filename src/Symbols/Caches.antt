-- ===== src/Symbols/Caches.antt =====
-- FindFilterFunction, and the caches of GetSyscallFnNameWithSymFile, of utils.go.
use ebpfmanager.Common.{
  ◌≡◌, ◌≢◌, Bool, true, false, String, str_eq, str_eq→eq, List, [], ◌∷◌, ◌++◌, any, arith,
  Bool-cases, inl, inr, if◌then◌else◌,
}
use ebpfmanager.Symbols.{
  find_filter, Cache, SymFile, is_empty, get_syscall_fn_name, lookup_name, with_prefix,
}

-- An exact name wins over every match.
find_filter_exact :
    (is_match : String → Bool) (name : String) (potential names : List String)
    → any (λ f. str_eq f name) names ≡ true
    → find_filter is_match name potential names ≡ name
unfolding find_filter
find_filter_exact is_match name potential [] h = absurd (cc)
find_filter_exact is_match name potential (f ∷ fs) h = elim (Bool-cases (str_eq f name)) [
  | inl e ↦ rw e (str_eq→eq f name e)
  | inr e ↦ rw e (
      find_filter_exact is_match name (if is_match f then potential ++ f ∷ [] else potential) fs
        (rw e at h))
]

-- Once the cache has symbols and a prefix, the symbol file that is asked for makes no difference.
pub get_syscall_fn_name-cached :
    (file other : SymFile) (name : String) (c : Cache)
    → is_empty c.kallsyms ≡ false
    → c.syscall_prefix ≢ ""
    → get_syscall_fn_name file name c ≡ get_syscall_fn_name other name c
unfolding get_syscall_fn_name lookup_name with_prefix
get_syscall_fn_name-cached file other name c h p = elim (Bool-cases (str_eq c.syscall_prefix "")) [
  | inl e ↦ absurd (p (str_eq→eq c.syscall_prefix "" e))
  | inr e ↦ ground arith
]
