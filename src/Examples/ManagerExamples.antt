-- ===== src/Examples/ManagerExamples.antt =====
-- A manager of one probe and two maps.
use ebpfmanager.Common.{◌≡◌, ◌≢◌, ◌↔◌, inr, refl, true, false, [], ◌∷◌, none, some}
use ebpfmanager.Errors.{external}
use ebpfmanager.Selectors.{run_validator}
use ebpfmanager.Manager.{
  Manager, activate_probes, sanity_check, map_names, pair_strings, named, edit_maps, check_fields,
  check_field, get_probe_program_spec,
}
use ebpfmanager.Manager.Activation.{selector_of, default_excluded_fails}
use ebpfmanager.Manager.Activation.Chosen.{AreActivated, activate_probes-AreActivated}
use ebpfmanager.Manager.Sanity.{Distinct, sanity_check_iff}
use ebpfmanager.Manager.EditMaps.{edit_maps_drops}
use ebpfmanager.Manager.Init.{Options, init_held, init_locked, failure}
use ebpfmanager.Manager.Init.Lock.{init_locked-stays_locked}
use ebpfmanager.Manager.Init.Ready.{IsMatched, init_held-IsMatched}
use ebpfmanager.Examples.Data.{mkdir_probe, pinned_map, cache, new_manager}

abbrev excluding : Manager
excluding = record new_manager { excluded_ebpf_funcs = "kprobe_vfs_mkdir" ∷ [] }

activate_probes-AreActivated_example :
    let m' = activate_probes excluding in
    AreActivated [] ("kprobe_vfs_mkdir" ∷ []) (mkdir_probe ∷ []) m'.probes
    × (m'
        ≡ record excluding { probes = m'.probes; activated_probes = selector_of mkdir_probe ∷ [] })
activate_probes-AreActivated_example = activate_probes-AreActivated excluding

default_excluded_fails_example :
    run_validator (activate_probes excluding).probes (selector_of mkdir_probe) ≢ none
default_excluded_fails_example = default_excluded_fails excluding mkdir_probe refl refl

sanity_check_iff_example :
    (sanity_check new_manager ≡ none)
    ↔ (Distinct (map_names new_manager) × Distinct (pair_strings new_manager))
sanity_check_iff_example = sanity_check_iff new_manager

edit_maps_drops_example :
    (named "shared" (edit_maps none (("cache", 11) ∷ ("shared", 12) ∷ []) new_manager).1.maps
      ≡ false)
    × (named "shared" (edit_maps none (("shared", 12) ∷ ("cache", 11) ∷ []) new_manager).1.maps
        ≡ true)
edit_maps_drops_example = edit_maps_drops new_manager "cache" "shared" 11 12 refl refl refl

-- The limit cannot be set.
abbrev limited : Options
limited = record {
  activated = [];
  excluded = [];
  rlimit = some (some (external 1));
  loaded = inr ([], []);
}

abbrev loading : Options
loading = record {
  activated = [];
  excluded = [];
  rlimit = none;
  loaded = inr (("kprobe_vfs_mkdir", some 4) ∷ [], ("cache", 6) ∷ ("map1", 7) ∷ []);
}

sane : sanity_check new_manager ≡ none
unfolding sanity_check
sane = refl

init_locked-stays_locked_example :
    (init_locked (λ s. s) limited new_manager ≡ some (init_held (λ s. s) limited new_manager))
    × ((init_held (λ s. s) limited new_manager).1.locked ≡ true)
    × (init_locked (λ s. s) loading (init_held (λ s. s) limited new_manager).1 ≡ none)
unfolding sanity_check
init_locked-stays_locked_example =
    init_locked-stays_locked (λ s. s) limited loading new_manager refl

passes : (init_held (λ s. s) loading new_manager).0 ≡ none
unfolding init_held check_field get_probe_program_spec
passes = refl

init_held-IsMatched_example :
    (sanity_check new_manager ≡ none)
    × (failure loading.rlimit ≡ none)
    × (check_fields new_manager.probes ≡ none)
    × IsMatched
        (("cache", 6) ∷ ("map1", 7) ∷ [])
        (pinned_map ∷ cache ∷ [])
        []
        (init_held (λ s. s) loading new_manager).1
init_held-IsMatched_example =
    init_held-IsMatched (λ s. s) loading new_manager (("kprobe_vfs_mkdir", some 4) ∷ [])
      (("cache", 6) ∷ ("map1", 7) ∷ []) refl passes
