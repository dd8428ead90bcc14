-- ===== src/Examples/AddingExamples.antt =====
-- `AddHook` on a manager with one probe.
use ebpfmanager.Common.{ℕ, ◌≡◌, refl, [], ◌∷◌, none, some, Option, length}
use ebpfmanager.State.{running}
use ebpfmanager.Errors.{Fault, concat_errors}
use ebpfmanager.Manager.{check_field, lookup_spec}
use ebpfmanager.Manager.Routes.{Loaded, get_program, program_of}
use ebpfmanager.Manager.Hooks.Adding.{add_hook, get_program_spec, spec_of}
use ebpfmanager.Probe.{Probe, identification_pair_matches}
use ebpfmanager.Probe.Attach.{attach, attempt, attach_once, settle}
use ebpfmanager.Probe.Kinds.{attach_by_type, keep_link}
use ebpfmanager.Probe.Init.{init}
use ebpfmanager.Examples.Data.{running_probe, retry, is_permanent}
use ebpfmanager.Examples.RetryExamples.{hesitant}
use ebpfmanager.Examples.InitExamples.{loader, options, fresh}

abbrev pub one_probe : Loaded
one_probe = record {
  state = running;
  collection = some (record { maps = []; programs = ("kprobe_vfs_mkdir", 3) ∷ [] });
  maps = [];
  perf_maps = [];
  probes = running_probe ∷ [];
}

-- Each clone is program 7.
abbrev clone : Option ℕ → ℕ → Fault × Option ℕ × ℕ
clone p w = (none, some 7, w)

abbrev pub hook : Probe
hook = record fresh { uid = "b" }

add_hook_test :
    let (e, m, w) =
      add_hook hesitant loader options retry is_permanent clone "a" hook one_probe 1 in
    (e ≡ none) × (length m.probes ≡ 2)
unfolding add_hook get_program get_program_spec identification_pair_matches program_of spec_of init
    check_field lookup_spec attach attempt attach_once settle attach_by_type keep_link concat_errors
add_hook_test = (refl, refl)

-- A second hook with the pair of the first is refused.
in_use_test :
    (add_hook hesitant loader options retry is_permanent clone "a" running_probe one_probe 1).1
    ≡ one_probe
unfolding add_hook get_program get_program_spec identification_pair_matches program_of spec_of
in_use_test = refl
