-- ===== src/Manager.antt =====
-- manager.go: the manager, its checks before it is initialised, and the activation of its probes.
pub mod Sanity
pub mod Activation
pub mod Init
pub mod EditMaps
pub mod Run
pub mod Routes
pub mod Hooks
pub mod Updating
pub mod Specs
pub mod NewMaps
pub mod Loading
use Prim.Native.String.{◌++◌ as text_append}
use text.Mathlib.Text.{find?}
use ebpfmanager.Common.{
  ℕ, Bool, true, false, ◌&&◌, ◌||◌, not, String, str_eq, List, [], ◌∷◌, ◌++◌, map, Option, none,
  some, any, if◌then◌else◌,
}
use ebpfmanager.State.{State, reset, initialized, running, before, reached}
use ebpfmanager.Errors.{
  Error, Fault, quoting, message, map_name_in_use, clone_probe_required, unknown_match_func_name,
  unknown_map, manager_running, external,
}
use ebpfmanager.Probe.{
  Probe, ProbeIdentificationPair, get_identification_pair, identification_pair_matches,
}
use ebpfmanager.Map.{ManagedMap}
use ebpfmanager.Selectors.{Selector, probe_selector, get_probes_identification_pair_list}

pub record Manager : Type 0 where
  pub state : State
  -- `stateLock` is held
  pub locked : Bool
  pub probes : List Probe
  pub maps : List ManagedMap
  -- the names and maps of `PerfMaps`
  pub perf_maps : List ManagedMap
  -- of the options: the selectors, and `ExcludedEbpfFuncs`
  pub activated_probes : List Selector
  pub excluded_ebpf_funcs : List String
  -- of the collection spec: its programs and maps by name, where a program can be nil
  pub programs : List (String × Option ℕ)
  pub map_specs : List (String × ℕ)

abbrev pub contains : List String → String → Bool
contains names s = any (λ n. str_eq n s) names

-- One loop of `sanityCheck`: the first name that the cache already has.
unfoldable pub check_unique : Error → List String → List String → Fault
check_unique e cache [] = none
check_unique e cache (n ∷ ns) =
    if contains cache n then some (quoting e) else check_unique e (n ∷ cache) ns

abbrev pub pair_string : ProbeIdentificationPair → String
pair_string id =
    text_append "{UID:"
      (text_append id.uid (text_append ", EbpfFuncName:" (text_append id.ebpf_func_name "}")))

abbrev pub map_names : Manager → List String
map_names m =
    map (λ (x : ManagedMap). x.name) m.maps ++ map (λ (x : ManagedMap). x.name) m.perf_maps

abbrev pub pair_strings : Manager → List String
pair_strings m = map (λ p. pair_string (get_identification_pair p)) m.probes

abbrev or_else : Fault → Fault → Fault
or_else none e = e
or_else (some e) f = some e

-- `sanityCheck`
unfoldable pub sanity_check : Manager → Fault
unfolding check_unique
sanity_check m =
    or_else (check_unique map_name_in_use [] (map_names m))
      (check_unique clone_probe_required [] (pair_strings m))

-- The inner loops of `activateProbes`, from the value of `shouldActivate` on: over the pairs of a selector, over the
-- selectors, and over the excluded functions.
unfoldable pub mark_pairs : Probe → List ProbeIdentificationPair → Bool → Bool
mark_pairs p [] should_activate = should_activate
mark_pairs p (id ∷ ids) should_activate =
    mark_pairs p ids (if identification_pair_matches p id then true else should_activate)

unfoldable pub mark_selectors : Probe → List Selector → Bool → Bool
unfolding mark_pairs
mark_selectors p [] should_activate = should_activate
mark_selectors p (s ∷ ss) should_activate =
    mark_selectors p ss (mark_pairs p (get_probes_identification_pair_list s) should_activate)

unfoldable pub unmark_excluded : Probe → List String → Bool → Bool
unmark_excluded p [] should_activate = should_activate
unmark_excluded p (n ∷ ns) should_activate =
    unmark_excluded p ns (if str_eq p.ebpf_func_name n then false else should_activate)

-- The loop of `activateProbes`, where `populate` says that there were no selectors.
unfoldable pub activate_loop :
    Bool → List String → List Selector → List Probe → List Probe × List Selector
unfolding mark_selectors unmark_excluded
activate_loop populate excluded selectors [] = ([], selectors)
activate_loop populate excluded selectors (p ∷ ps) =
    let should_activate = unmark_excluded p excluded (mark_selectors p selectors populate) in
    let more =
      if populate
      then selectors ++ probe_selector (get_identification_pair p) ∷ []
      else selectors in
    let (ps', selectors') = activate_loop populate excluded more ps in
    (record p { enabled = should_activate } ∷ ps', selectors')

abbrev pub is_nil {ℓ} : {A : Type ℓ} → List A → Bool
is_nil [] = true
is_nil (x ∷ xs) = false

unfoldable pub activate_probes : Manager → Manager
unfolding activate_loop
activate_probes m =
    let (ps, ss) =
      activate_loop (is_nil m.activated_probes) m.excluded_ebpf_funcs m.activated_probes m.probes in
    record m { probes = ps; activated_probes = ss }

abbrev is_some : Option ℕ → Bool
is_some none = false
is_some (some n) = true

-- The section names a kprobe or a uprobe: it matches `[ku](ret)?probe/`.
abbrev hooks_function : String → Bool
hooks_function s =
    is_some (find? s "kprobe/")
    || is_some (find? s "kretprobe/")
    || is_some (find? s "uprobe/")
    || is_some (find? s "uretprobe/")

-- `checkField` of probe.go
unfoldable pub check_field : Probe → Fault
check_field p =
    if str_eq p.ebpf_func_name "" || str_eq p.section ""
    then some (message "EbpfFuncName, Section cant be null")
    else if not (hooks_function p.section)
    then none
    else if str_eq p.attach_to_func_name ""
    then some (message "AttachToFuncName cant be null")
    else none

-- The loop over the probes: the first error.
unfoldable pub check_fields : List Probe → Fault
check_fields [] = none
check_fields (p ∷ ps) = elim (check_field p) [ none ↦ check_fields ps | some e ↦ some e ]

unfoldable pub lookup_spec {ℓ} : {A : Type ℓ} → String → List (String × A) → Option A
lookup_spec name [] = none
lookup_spec name ((n, v) ∷ rest) = if str_eq n name then some v else lookup_spec name rest

-- `delete(m.collectionSpec.Programs, name)`
unfoldable pub delete_program : String → List (String × Option ℕ) → List (String × Option ℕ)
delete_program name [] = []
delete_program name ((n, v) ∷ rest) =
    let kept = delete_program name rest in if str_eq n name then kept else (n, v) ∷ kept

unfoldable pub delete_all : List String → List (String × Option ℕ) → List (String × Option ℕ)
unfolding delete_program
delete_all [] progs = progs
delete_all (n ∷ ns) progs = delete_all ns (delete_program n progs)

-- `found` in `editMaps` is true from the first name on that a map or perf map has.
unfoldable pub record_edit : String → ℕ → ManagedMap → ManagedMap
record_edit name array m =
    if str_eq m.name name
    then record m { array = some array; external_map = true; edited_map = true }
    else m

abbrev pub named : String → List ManagedMap → Bool
named name ms = any (λ m. str_eq m.name name) ms

abbrev pub edited_entry : String → ℕ → ManagedMap
edited_entry name array = record {
  array = some array;
  array_spec = none;
  has_manager = true;
  state = reset;
  external_map = true;
  edited_map = true;
  name = name;
  pin_path = "";
  always_cleanup = false;
}

-- The loop of `editMaps` over the editors, in the order in which they come.
unfoldable pub edit_maps_loop : Bool → List (String × ℕ) → Manager → Manager
unfolding record_edit
edit_maps_loop found [] m = m
edit_maps_loop found ((name, array) ∷ rest) m =
    let found' = found || named name m.maps || named name m.perf_maps in
    let maps = map (record_edit name array) m.maps in
    edit_maps_loop found' rest (record m {
      maps = if found' then maps else maps ++ edited_entry name array ∷ [];
      perf_maps = map (record_edit name array) m.perf_maps;
    })

-- `editMaps`; `rewrite` is the error of the library's `RewriteMaps`.
unfoldable pub edit_maps : Fault → List (String × ℕ) → Manager → Fault × Manager
unfolding edit_maps_loop
edit_maps (some e) editors m = (some e, m)
edit_maps none editors m = (none, edit_maps_loop false editors m)

-- `getProbeProgramSpec`: a program that is missing is an error unless it was excluded.
unfoldable pub get_probe_program_spec : Manager → String → Fault × Option ℕ
unfolding lookup_spec
get_probe_program_spec m name = elim (lookup_spec name m.programs) [
  | some spec ↦ (none, spec)
  | none ↦
      if contains m.excluded_ebpf_funcs name
      then (none, none)
      else (some (quoting unknown_match_func_name), none)
]
