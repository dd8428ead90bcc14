-- ===== src/Examples/RunExamples.antt =====
-- A manager of one probe, one map and one ring buffer, started and stopped.
use ebpfmanager.Common.{ℕ, suc, ◌≡◌, refl, false, [], ◌∷◌, none, All}
use ebpfmanager.State.{initialized, running}
use ebpfmanager.Errors.{Fault, concat_errors}
use ebpfmanager.Selectors.{probe_selector, run_validator}
use ebpfmanager.Selectors.Validation.{Satisfied}
use ebpfmanager.Probe.{get_identification_pair, identification_pair_matches}
use ebpfmanager.Probe.Detach
use ebpfmanager.Probe.Attach
use ebpfmanager.Map.{close, close_checked}
use ebpfmanager.Map.Clean
use ebpfmanager.Perf
use ebpfmanager.Perf.{with_state}
use ebpfmanager.Manager.Run.{Fleet, start_manager, stop_manager}
use ebpfmanager.Manager.Run.Starting.{start_manager-Satisfied}
use ebpfmanager.Manager.Run.Stopping.{IsStopped, stop_manager-IsStopped}
use ebpfmanager.Examples.Data.{counting, retry, mkdir_probe, running_probe, cache, events}

abbrev ready : Fleet
ready = record {
  state = initialized;
  probes = mkdir_probe ∷ [];
  maps = cache ∷ [];
  rings = record (with_state events initialized) { readers = 0 } ∷ [];
  activated_probes = probe_selector (get_identification_pair mkdir_probe) ∷ [];
}

abbrev started : Fleet
started = record ready { state = running; probes = running_probe ∷ []; rings = events ∷ [] }

abbrev succeed : ℕ → Fault × ℕ
succeed w = (none, suc w)

starts : (start_manager counting retry succeed succeed (λ e. false) ready 0).0 ≡ none
unfolding start_manager Perf.start concat_errors run_validator identification_pair_matches
    Attach.attach
starts = refl

start_manager-Satisfied_example :
    let (err, f', w') = start_manager counting retry succeed succeed (λ e. false) ready 0 in
    (f'.state ≡ running) × All (Satisfied f'.probes) ready.activated_probes
start_manager-Satisfied_example =
    start_manager-Satisfied counting retry succeed succeed (λ e. false) ready 0 refl starts

stops : (stop_manager counting retry succeed Clean.internal started 0).0 ≡ none
unfolding stop_manager concat_errors Perf.stop close Detach.stop close_checked
stops = refl

stop_manager-IsStopped_example :
    IsStopped counting retry Clean.internal started
      (stop_manager counting retry succeed Clean.internal started 0).1
stop_manager-IsStopped_example =
    stop_manager-IsStopped counting retry succeed Clean.internal started 0 (λ r. refl, tt) stops
