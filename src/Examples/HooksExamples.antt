-- ===== src/Examples/HooksExamples.antt =====
-- `DetachHook` on three probes of one function.
use ebpfmanager.Common.{◌≡◌, refl, [], ◌∷◌, none, some}
use ebpfmanager.State.{running}
use ebpfmanager.Errors.{concat_errors}
use ebpfmanager.Probe.{Probe, identification_pair_matches}
use ebpfmanager.Probe.Detach
use ebpfmanager.Manager.Routes.{Loaded, programs_of}
use ebpfmanager.Manager.Hooks.{detach_hook}
use ebpfmanager.Manager.Hooks.Removal.{detach_hook-Unmatched}
use ebpfmanager.Examples.Data.{counting, retry, running_probe}

abbrev first : Probe
first = record running_probe { uid = "first" }

abbrev last : Probe
last = record running_probe { uid = "last" }

abbrev three_probes : Loaded
three_probes = record {
  state = running;
  collection = some (record { maps = []; programs = [] });
  maps = [];
  perf_maps = [];
  probes = first ∷ running_probe ∷ last ∷ [];
}

detaches : (detach_hook counting retry "kprobe_vfs_mkdir" "a" three_probes 0).0 ≡ none
unfolding detach_hook identification_pair_matches programs_of Detach.stop concat_errors
detaches = refl

detach_hook-Unmatched_example :
    (detach_hook counting retry "kprobe_vfs_mkdir" "a" three_probes 0).1.probes ≡ first ∷ last ∷ []
unfolding identification_pair_matches
detach_hook-Unmatched_example =
    detach_hook-Unmatched counting retry "kprobe_vfs_mkdir" "a" three_probes 0 (first ∷ [])
      (last ∷ []) running_probe refl (refl, tt) refl (refl, tt) detaches
