-- ===== src/Examples/CloningExamples.antt =====
-- `CloneProgram` on a manager with one probe and one map.
use ebpfmanager.Common.{ℕ, ◌≡◌, refl, true, [], ◌∷◌, none, some, Option, length}
use ebpfmanager.Errors.{concat_errors}
use ebpfmanager.Editor.{ConstantEditor, uint64}
use ebpfmanager.Manager.{check_field, lookup_spec}
use ebpfmanager.Manager.Routes.{Loaded, Collection, Outcome, returned, get_program, program_of}
use ebpfmanager.Manager.Hooks.Adding.{get_program_spec, spec_of}
use ebpfmanager.Manager.Hooks.Cloning.{ProgramSpecs, clone_program}
use ebpfmanager.Probe.{identification_pair_matches}
use ebpfmanager.Probe.Attach.{attach, attempt, attach_once, settle}
use ebpfmanager.Probe.Kinds.{attach_by_type, keep_link}
use ebpfmanager.Probe.Init.{init_with_options}
use ebpfmanager.Examples.Data.{retry, is_permanent}
use ebpfmanager.Examples.RetryExamples.{hesitant}
use ebpfmanager.Examples.InitExamples.{loader, options}
use ebpfmanager.Examples.AddingExamples.{one_probe, hook}
use ebpfmanager.Examples.EditorExamples.{loads, ld_dw_imm}
use ebpfmanager.Examples.Offsets.{offsets}

abbrev collection : Collection
collection = record { maps = ("cache", 4) ∷ []; programs = ("kprobe_vfs_mkdir", 3) ∷ [] }

abbrev with_map : Loaded
with_map = record one_probe { collection = some collection }

-- Every spec has the same program, and only the map "cache" is known.
abbrev specs : ProgramSpecs hesitant
specs = record {
  copy = λ s w. (s, w);
  instructions = λ s w. loads "constant";
  set_instructions = λ s insns w. w;
  associate_map = λ symbol array insns. (none, insns);
  ld_dw_imm = ld_dw_imm;
  reference_offsets = offsets;
}

abbrev editor : ConstantEditor
editor = record { name = "constant"; value = uint64 7; fail_on_missing = true }

abbrev call : Loaded → Outcome (Loaded × ℕ)
call m =
    clone_program hesitant loader options retry is_permanent specs "a" hook (editor ∷ []) [] m 1

abbrev probes_of : Outcome (Loaded × ℕ) → Option ℕ
probes_of (returned none (m, w)) = some (length m.probes)
probes_of _ = none

clone_test : probes_of (call with_map) ≡ some 2
unfolding clone_program get_program get_program_spec identification_pair_matches program_of spec_of
    init_with_options check_field lookup_spec attach attempt attach_once settle attach_by_type
    keep_link concat_errors
clone_test = refl
