-- ===== src/Examples/InitExamples.antt =====
-- A probe that is initialised with the specs of a small program, copied and attached.
use ebpfmanager.Common.{
  ◌≡◌, refl, true, false, List, str_eq, [], ◌∷◌, none, some, arith, if◌then◌else◌,
}
use ebpfmanager.State.{reset, initialized, running}
use ebpfmanager.Errors.{external, concat_errors}
use ebpfmanager.Manager.{check_field, lookup_spec}
use ebpfmanager.Probe.{Probe, kprobe}
use ebpfmanager.Probe.Attach.{attach, attempt, attach_once, settle}
use ebpfmanager.Probe.Kinds.{attach_by_type, keep_link}
use ebpfmanager.Probe.Detach.{
  detach, stop, stop_probe, detach_retry, detach_once, close_link, close_spent,
}
use ebpfmanager.Probe.Phases.{Call, attach_call, detach_call, stop_call, Run, call_all}
use ebpfmanager.Probe.Phases.Refinement.{IsSound, call_all-Run}
use ebpfmanager.Probe.Init.{Loader, ProbeOptions, copy_probe, init, init_with_options}
use ebpfmanager.Probe.Init.Attaching.{init-attach}
use ebpfmanager.Examples.Data.{mkdir_probe, retry, is_permanent}
use ebpfmanager.Examples.RetryExamples.{hesitant, retry-IsRetry, hesitation}

-- Loading and pinning always succeed, "eth0" is no loopback, and the only symbol is `vfs_mkdir`.
abbrev pub loader : Loader hesitant
loader = record {
  load_program = λ s w. (none, 8, w);
  pin_program = λ p path w. (none, w);
  spec_type = λ s. kprobe;
  spec_section = λ s. "kprobe/vfs_mkdir";
  spec_attach_type = λ s. 0;
  syscall_fn_name =
      λ name w. if str_eq name "vfs_mkdir" then (none, name) else (some (external 2), "");
  find_filter_function = λ name w. (none, "");
  interface_by_name = λ name w. (none, 2, false);
}

abbrev pub options : ProbeOptions
options = record {
  loaded = ("kprobe_vfs_mkdir", 3) ∷ [];
  specs = ("kprobe_vfs_mkdir", 4) ∷ [];
  excluded_ebpf_funcs = [];
  default_kprobe_max_active = 0;
  default_probe_retry = 1;
  default_probe_retry_delay = 0;
}

-- As a manager is given it.
abbrev pub fresh : Probe
fresh = record mkdir_probe {
  state = reset;
  program = none;
  program_spec = none;
  has_manager = false;
  check_pin = false;
  func_name = "";
  probe_retry = 0;
}

init_test :
    let (err, (p, w)) = init_with_options hesitant loader options false false (fresh, 1) in
    (err ≡ none) × (p.program ≡ some 3) × (p.func_name ≡ "vfs_mkdir") × (p.probe_retry ≡ 2)
unfolding init_with_options check_field lookup_spec
init_test = (refl, refl, refl, refl)

-- Each call of `Init` adds one to the number of attempts.
init_twice_test :
    let (err, (p, w)) = init hesitant loader options (fresh, 1) in
    (init hesitant loader options (p, w)).1.0.probe_retry ≡ 3
unfolding init check_field lookup_spec
init_twice_test = refl

unknown_program_test :
    (init hesitant loader (record options { loaded = [] }) (fresh, 1)).1.0.state ≡ reset
unfolding init check_field lookup_spec
unknown_program_test = refl

-- A function without a symbol and no match leaves the probe without a function name, and no error.
no_symbol_test :
    let (err, (p, w)) =
      init hesitant loader options (record fresh { attach_to_func_name = "vfs_absent" }, 1) in
    (err ≡ none) × (p.func_name ≡ "")
unfolding init check_field lookup_spec
no_symbol_test = (refl, refl)

-- A copy loses the flag that makes it load a copy of the program.
copy_test : (copy_probe (record fresh { copy_program = true })).copy_program ≡ false
unfolding copy_probe
copy_test = refl

initialized_probe :
    init_with_options hesitant loader options false false (fresh, 1) ≡ (none, (mkdir_probe, 1))
unfolding init_with_options check_field lookup_spec
initialized_probe = refl

init-attach_example :
    let (err', (q, v)) = attach hesitant retry is_permanent (mkdir_probe, 1) in
    (err' ≡ none) × (q.state ≡ running)
unfolding init_with_options check_field lookup_spec
init-attach_example =
    init-attach hesitant loader options retry retry-IsRetry is_permanent fresh 1 false false refl
      refl (λ e. refl) refl (λ e. cc) hesitation (omega arith)

mkdir_probe-IsSound : IsSound 1 4 mkdir_probe
mkdir_probe-IsSound = record {
  enabled = refl;
  retries = λ z. cc;
  not_paused = λ z. cc;
  spent = λ z. absurd (cc);
  fits = omega arith;
  default_fits = omega arith;
}

-- Attached after one refusal, detached, attached again and stopped.
abbrev calls : List Call
calls = attach_call ∷ detach_call ∷ attach_call ∷ stop_call ∷ []

calls_test :
    (call_all hesitant loader options retry is_permanent calls (mkdir_probe, 1)).0
    ≡ (attach_call, false) ∷ (detach_call, false) ∷ (attach_call, false) ∷ (stop_call, false) ∷ []
unfolding call_all attach detach stop attempt attach_once settle attach_by_type keep_link stop_probe
    detach_retry detach_once close_link close_spent concat_errors
calls_test = refl

call_all-Run_example :
    let (trace, (q, v)) =
      call_all hesitant loader options retry is_permanent calls (mkdir_probe, 1) in
    Run trace initialized q.state
call_all-Run_example =
    call_all-Run hesitant loader options retry is_permanent retry-IsRetry (λ e. refl) refl calls
      mkdir_probe 1 mkdir_probe-IsSound
