-- ===== src/Symbols.antt =====
-- The lookups of symbols in utils.go: FindFilterFunction and GetSyscallFnNameWithSymFile over lists that
-- are read already, and SanitizeUprobeAddresses.
pub mod Addresses
pub mod Caches
use Prim.Native.String.{◌++◌ as text_append}
use ebpfmanager.Common.{
  ℕ, ◌+◌, ◌-◌, ◌%◌, ◌^◌, Bool, true, false, ◌&&◌, ◌||◌, not, String, str_eq, List, [], ◌∷◌, ◌++◌,
  map, any, Option, none, some, leb, ltb, if◌then◌else◌,
}
use ebpfmanager.Errors.{Error, Fault}

-- A segment of an ELF file; `is_load` says that its type is PT_LOAD.
pub record Segment : Type 0 where
  pub is_load : Bool
  pub vaddr : ℕ
  pub memsz : ℕ
  pub off : ℕ

pub data FileType : Type 0 where
  exec dyn other : FileType

abbrev pub u64 : ℕ → ℕ
u64 n = n % 2 ^ 64

-- The test of a symbol's value against a segment to load, in 64 bits.
abbrev pub holds : ℕ → Segment → Bool
holds v s = s.is_load && (leb s.vaddr v && ltb v (u64 (s.vaddr + s.memsz)))

-- The value that a segment gives: its offset in the file.
abbrev pub translate : ℕ → Segment → ℕ
translate v s = u64 (v - s.vaddr + s.off)

-- The loop over the segments, from the current value of the symbol; the tests read its old value.
unfoldable pub sanitize_value : List Segment → ℕ → ℕ → ℕ
sanitize_value [] v current = current
sanitize_value (s ∷ ss) v current =
    sanitize_value ss v (if holds v s then translate v s else current)

-- `SanitizeUprobeAddresses`, on the values of the symbols
unfoldable pub sanitize_uprobe_addresses : FileType → List Segment → List ℕ → List ℕ
unfolding sanitize_value
sanitize_uprobe_addresses exec ss syms = map (λ v. sanitize_value ss v v) syms
sanitize_uprobe_addresses dyn ss syms = map (λ v. sanitize_value ss v v) syms
sanitize_uprobe_addresses other ss syms = syms

abbrev first_match : List String → String
first_match [] = ""
first_match (f ∷ fs) = f

-- The loop of `FindFilterFunction` over the names, sorted, with the matches so far; `is_match` is the
-- pattern that `name` compiles to.
unfoldable pub find_filter : (String → Bool) → String → List String → List String → String
find_filter is_match name potential [] = first_match potential
find_filter is_match name potential (f ∷ fs) =
    let rest =
      find_filter is_match name (if is_match f then potential ++ f ∷ [] else potential) fs in
    if str_eq f name then f else rest

-- `kallsymsCache` and `syscallPrefix`.
pub record Cache : Type 0 where
  pub kallsyms : List String
  pub syscall_prefix : String

-- What a symbol file holds: the symbols of its code and its weak ones, or the error of opening it, and
-- what `getSyscallName` finds for "open", less that suffix.
pub record SymFile : Type 0 where
  pub symbols : Fault × List String
  pub open_prefix : Fault × String

abbrev pub is_empty : List String → Bool
is_empty [] = true
is_empty (s ∷ ss) = false

unfoldable pub with_prefix : SymFile → String → Cache → (Fault × String) × Cache
with_prefix file name c =
    let (e, p) = file.open_prefix in
    if not (str_eq c.syscall_prefix "")
    then ((none, text_append c.syscall_prefix name), c)
    else elim e [
      | some err ↦ ((some err, ""), c)
      | none ↦ ((none, text_append p name), record c { syscall_prefix = p })
    ]

unfoldable pub lookup_name : SymFile → String → Cache → (Fault × String) × Cache
unfolding with_prefix
lookup_name file name c =
    if any (λ s. str_eq s name) c.kallsyms then ((none, name), c) else with_prefix file name c

-- `GetSyscallFnNameWithSymFile`: the file is read where the cache is empty.
unfoldable pub get_syscall_fn_name : SymFile → String → Cache → (Fault × String) × Cache
unfolding lookup_name
get_syscall_fn_name file name c =
    let (e, symbols) = file.symbols in
    if not (is_empty c.kallsyms) then lookup_name file name c else elim e [
      | some err ↦ ((some err, ""), c)
      | none ↦ lookup_name file name (record c { kallsyms = symbols })
    ]
