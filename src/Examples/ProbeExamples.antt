-- ===== src/Examples/ProbeExamples.antt =====
-- Probes and selectors on the system of `Data`, and the names that are made for them.
use ebpfmanager.Common.{ℕ, ◌≡◌, ◌↔◌, refl, true, false, List, [], ◌∷◌, none, some}
use ebpfmanager.State.{reset}
use ebpfmanager.Errors.{concat_errors}
use ebpfmanager.Probe.{ProbeIdentificationPair}
use ebpfmanager.Probe.Kinds.{codes, raw_tracepoint_name}
use ebpfmanager.Probe.Kinds.RawTracepoint.{raw_tracepoint_name_iff}
use ebpfmanager.Probe.Detach.{detach_once, stop}
use ebpfmanager.Probe.Lifecycle.{stop_resets}
use ebpfmanager.Selectors.{Selector, probe_selector, one_of, nil, cons, run_validator}
use ebpfmanager.Selectors.Validation.{Satisfied, run_validator_iff}
use ebpfmanager.Names.{byte_len, generate_event_name, generate_tc_filter_name}
use ebpfmanager.Names.Bounds.{event_text, generate_event_name_lem}
use ebpfmanager.Examples.Data.{counting, retry, running_probe}

stops : (stop counting retry (running_probe, 0)).0 ≡ none
unfolding stop detach_once concat_errors
stops = refl

stop_resets_example :
    let (err, (p', w')) = stop counting retry (running_probe, 0) in
    (p'.state ≡ reset)
    × (p'.program ≡ none)
    × (p'.link ≡ none)
    × (p'.uid ≡ "a")
    × (p'.enabled ≡ true)
stop_resets_example = stop_resets counting retry running_probe 0 (λ r. refl) stops

raw_tracepoint_name_iff_example :
    (raw_tracepoint_name "raw_tracepoint/task_rename" ≡ codes "task_rename") ↔ (true ≡ false)
raw_tracepoint_name_iff_example =
    raw_tracepoint_name_iff "raw_tracepoint/task_rename" (codes "task_rename") refl

abbrev mkdir_pair : ProbeIdentificationPair
mkdir_pair = record { uid = "a"; ebpf_func_name = "kprobe_vfs_mkdir" }

abbrev absent_pair : ProbeIdentificationPair
absent_pair = record { uid = "b"; ebpf_func_name = "kprobe_vfs_mkdir" }

abbrev either : Selector
either = one_of (cons (probe_selector absent_pair) (cons (probe_selector mkdir_pair) nil))

run_validator_iff_example :
    (run_validator (running_probe ∷ []) either ≡ none) ↔ Satisfied (running_probe ∷ []) either
run_validator_iff_example = run_validator_iff (running_probe ∷ []) either

abbrev long_name : List ℕ
long_name = codes "some_function_with_a_name_that_is_longer_than_an_event_can_be"

generate_event_name_lem_example :
    generate_event_name (codes "p") long_name (codes "uid") (codes "1234")
    ≡ some (event_text (codes "p") long_name (codes "uid") (codes "1234"))
unfolding byte_len
generate_event_name_lem_example =
    generate_event_name_lem (codes "p") long_name (codes "uid") (codes "1234")

makes_event :
    generate_event_name (codes "p") long_name (codes "u") (codes "1")
    ≡ some (codes "p_some_function_with_a_name_that_is_longer_than_an_event_can_u_1")
unfolding generate_event_name
makes_event = refl

makes_filter :
    generate_tc_filter_name (codes "u") (codes "classifier/one") (codes "1")
    ≡ some (codes "classifier_one_u_1")
unfolding generate_tc_filter_name
makes_filter = refl
