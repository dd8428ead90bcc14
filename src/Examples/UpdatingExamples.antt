-- ===== src/Examples/UpdatingExamples.antt =====
-- `UpdateActivatedProbes` on a manager with a probe that runs and one that is disabled.
use ebpfmanager.Common.{ℕ, ◌≡◌, refl, Bool, true, false, List, [], ◌∷◌, none, All}
use ebpfmanager.State.{running}
use ebpfmanager.Errors.{concat_errors}
use ebpfmanager.Selectors.{
  Selector, probe_selector, run_validator, get_probe, get_probes_identification_pair_list,
}
use ebpfmanager.Selectors.Validation.{Satisfied}
use ebpfmanager.Manager.{check_field, lookup_spec}
use ebpfmanager.Manager.Routes.{Outcome, returned, panicked}
use ebpfmanager.Manager.Run.{Fleet}
use ebpfmanager.Manager.Updating.{update_activated_probes, next_probes}
use ebpfmanager.Manager.Updating.Entries.{enabled_at}
use ebpfmanager.Manager.Updating.Effect.{update_activated_probes-Satisfied}
use ebpfmanager.Probe.{Probe, ProbeIdentificationPair, matches, identification_pair_matches}
use ebpfmanager.Probe.Attach.{attach, attempt, attach_once, settle}
use ebpfmanager.Probe.Kinds.{attach_by_type, keep_link}
use ebpfmanager.Probe.Detach.{detach, detach_once, detach_retry}
use ebpfmanager.Probe.Init.{init}
use ebpfmanager.Examples.Data.{running_probe, retry, is_permanent}
use ebpfmanager.Examples.RetryExamples.{hesitant}
use ebpfmanager.Examples.InitExamples.{loader, options, fresh}

abbrev disabled : Probe
disabled = record fresh { uid = "b"; enabled = false }

abbrev fleet : Fleet
fleet = record {
  state = running;
  probes = running_probe ∷ disabled ∷ [];
  maps = [];
  rings = [];
  activated_probes = [];
}

abbrev only : ProbeIdentificationPair → List Selector
only id = probe_selector id ∷ []

abbrev pair_b : ProbeIdentificationPair
pair_b = record { uid = "b"; ebpf_func_name = "kprobe_vfs_mkdir" }

abbrev pair_c : ProbeIdentificationPair
pair_c = record { uid = "c"; ebpf_func_name = "kprobe_vfs_mkdir" }

abbrev call : ProbeIdentificationPair → Outcome (Fleet × ℕ)
call id =
    update_activated_probes hesitant loader options retry is_permanent (λ ids. ids) (λ es. es)
      (λ w. (none, w)) (λ w. (none, w)) (only id) fleet 1

abbrev states_of : Outcome (Fleet × ℕ) → List Bool
states_of panicked = []
states_of (returned e (f, w)) = enabled_at 0 f.probes ∷ enabled_at 1 f.probes ∷ []

update_test : states_of (call pair_b) ≡ false ∷ true ∷ []
unfolding update_activated_probes next_probes get_probes_identification_pair_list matches
    identification_pair_matches init check_field lookup_spec attach attempt attach_once settle
    attach_by_type keep_link detach detach_once detach_retry run_validator get_probe concat_errors
    enabled_at
update_test = refl

-- A selector of a pair that no probe has is a nil pointer.
absent_test : call pair_c ≡ panicked
unfolding update_activated_probes next_probes get_probes_identification_pair_list matches
    identification_pair_matches
absent_test = refl

-- The fleet and the world that the call with the second pair leaves.
abbrev updated : Fleet × ℕ
updated = result_of (call pair_b)
  where
    result_of : Outcome (Fleet × ℕ) → Fleet × ℕ
    result_of panicked = (fleet, 0)
    result_of (returned e r) = r

updated_test : call pair_b ≡ returned none updated
unfolding update_activated_probes next_probes get_probes_identification_pair_list matches
    identification_pair_matches init check_field lookup_spec attach attempt attach_once settle
    attach_by_type keep_link detach detach_once detach_retry run_validator get_probe concat_errors
updated_test = refl

update_activated_probes-Satisfied_example :
    All (Satisfied (updated.0.probes)) (only pair_b)
    × (updated.0.activated_probes ≡ only pair_b)
    × (enabled_at 0 updated.0.probes ≡ false)
unfolding matches next_probes get_probes_identification_pair_list identification_pair_matches
update_activated_probes-Satisfied_example =
    update_activated_probes-Satisfied hesitant loader options retry is_permanent (λ ids. ids)
      (λ es. es) (λ w. (none, w)) (λ w. (none, w)) (only pair_b) fleet updated.0 1 updated.1 []
      running_probe (disabled ∷ []) (λ id i es h. h) refl refl refl refl updated_test
