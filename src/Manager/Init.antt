-- ===== src/Manager/Init.antt =====
-- `matchSpecs` of manager.go, and `InitWithOptions` up to where it releases the lock, less the wait
-- group, the netlink cache and the default size of ring buffers.
pub mod Lock
pub mod Ready
use ebpfmanager.Common.{
  ℕ, ◌≡◌, ◌≢◌, ◌⊎◌, inl, inr, refl, Bool, true, false, ◌&&◌, ◌||◌, not, String, str_eq, List, [],
  ◌∷◌, ◌++◌, map, Option, none, some, any, if◌then◌else◌, arith,
}
use Prim.Native.String.{◌++◌ as text_append}
use ebpfmanager.State.{State, reset, initialized, running, before}
use ebpfmanager.Errors.{Error, Fault, quoting, message, unknown_map, manager_running}
use ebpfmanager.Probe.{Probe}
use ebpfmanager.Map.{ManagedMap}
use ebpfmanager.Selectors.{Selector}
use ebpfmanager.Manager.{
  Manager, contains, sanity_check, activate_probes, check_fields, lookup_spec, delete_all,
  get_probe_program_spec,
}

-- What `InitWithOptions` is given, with the results of the calls it makes: `rlimit` is the result of
-- `Setrlimit` where a limit was asked for, `loaded` that of `LoadCollectionSpecFromReader`.
pub record Options : Type 0 where
  pub activated : List Selector
  pub excluded : List String
  pub rlimit : Option Fault
  pub loaded : Error ⊎ (List (String × Option ℕ) × List (String × ℕ))

-- The `(programs, probe)` that one turn of the loop leaves; `copy` is `ProgramSpec.Copy`.
unfoldable pub match_program :
    (Option ℕ → Option ℕ)
    → List (String × Option ℕ)
    → Probe
    → Option ℕ
    → List (String × Option ℕ) × Probe
match_program copy programs p spec =
    if p.copy_program
    then (
      (text_append p.ebpf_func_name p.uid, copy spec) ∷ programs,
      record p { program_spec = copy spec },
    )
    else (programs, record p { program_spec = spec })

unfoldable pub match_programs :
    (Option ℕ → Option ℕ) → Manager → List Probe → Fault × List Probe × List (String × Option ℕ)
unfolding match_program
match_programs copy m [] = (none, [], m.programs)
match_programs copy m (p ∷ ps) =
    let (err, spec) = get_probe_program_spec m p.ebpf_func_name in
    let (programs, p') = match_program copy m.programs p spec in
    let (err', ps', programs') = match_programs copy (record m { programs = programs }) ps in
    elim err [ none ↦ (err', p' ∷ ps', programs') | some e ↦ (some e, p ∷ ps, m.programs) ]

-- The loops over the maps and the perf maps; the contents that a spec is given are not modelled.
unfoldable pub match_maps : List (String × ℕ) → List ManagedMap → Fault × List ManagedMap
match_maps specs [] = (none, [])
match_maps specs (m ∷ ms) =
    let (err, ms') = match_maps specs ms in
    elim (lookup_spec m.name specs) [
      | none ↦ (some (quoting unknown_map), m ∷ ms)
      | some spec ↦ (err, record m { array_spec = some spec } ∷ ms')
    ]

-- `matchSpecs`
unfoldable pub match_specs : (Option ℕ → Option ℕ) → Manager → Fault × Manager
unfolding match_programs match_maps
match_specs copy m =
    let (err, ps, programs) = match_programs copy m m.probes in
    let (err_maps, maps) = match_maps m.map_specs m.maps in
    let (err_perf, perf_maps) = match_maps m.map_specs m.perf_maps in
    let m1 = record m { probes = ps; programs = programs } in
    let m2 = record m1 { maps = maps } in
    elim err [
      | some e ↦ (some e, m1)
      | none ↦ elim err_maps [
        | some e ↦ (some e, m2)
        | none ↦ (err_perf, record m2 { perf_maps = perf_maps })
      ]
    ]

-- From the removal of the excluded programs on.
unfoldable pub init_specs : (Option ℕ → Option ℕ) → Manager → Fault × Manager
unfolding match_specs delete_all
init_specs copy m =
    let (err, m') =
      match_specs copy (record m { programs = delete_all m.excluded_ebpf_funcs m.programs }) in
    elim err [
      | some e ↦ (some e, record m' { locked = false })
      | none ↦ (none, record (activate_probes m') { state = initialized; locked = false })
    ]

-- From the parsing of the ELF file on.
unfoldable pub init_collection : (Option ℕ → Option ℕ) → Options → Manager → Fault × Manager
unfolding init_specs check_fields
init_collection copy o m = elim o.loaded [
  | inl e ↦ (some e, record m { locked = false })
  | inr (programs, specs) ↦
      let m' = record m { programs = programs; map_specs = specs } in
      elim (check_fields m.probes) [ some e ↦ (some e, m') | none ↦ init_specs copy m' ]
]

abbrev pub failure : Option Fault → Fault
failure none = none
failure (some e) = e

-- `InitWithOptions` from its `Lock` to its last `Unlock`.
unfoldable pub init_held : (Option ℕ → Option ℕ) → Options → Manager → Fault × Manager
unfolding init_collection sanity_check
init_held copy o m =
    let m0 = record m {
      locked = true;
      activated_probes = o.activated;
      excluded_ebpf_funcs = o.excluded;
    } in
    if before initialized m.state
    then (some manager_running, record m { locked = false })
    else elim (sanity_check m) [
      | some e ↦ (some e, record m0 { locked = false })
      | none ↦ elim (failure o.rlimit) [
        | some e ↦ (some (quoting e), m0)
        | none ↦ init_collection copy o m0
      ]
    ]

-- A call waits (none) while the lock is held.
unfoldable pub init_locked : (Option ℕ → Option ℕ) → Options → Manager → Option (Fault × Manager)
init_locked copy o m = if m.locked then none else some (init_held copy o m)
