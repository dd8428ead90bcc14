-- ===== src/Manager/Hooks/Adding.antt =====
-- `AddHook` of manager.go, and `GetProgramSpec`, which it calls.
pub mod Attached
use ebpfmanager.Common.{
  ℕ, Bool, true, false, String, str_eq, List, [], ◌∷◌, ◌++◌, Option, none, some, if◌then◌else◌,
}
use ebpfmanager.State.{initialized, before}
use ebpfmanager.Errors.{
  Error, Fault, quoting, manager_not_initialized, unknown_match_func_name, unknown_match_func_spec,
  identification_pair_in_use,
}
use ebpfmanager.System.{System}
use ebpfmanager.Probe.{
  Probe, ProbeIdentificationPair, get_identification_pair, identification_pair_matches,
}
use ebpfmanager.Probe.Kinds.{Step}
use ebpfmanager.Probe.Detach.{Retry, stop}
use ebpfmanager.Probe.Attach.{attach}
use ebpfmanager.Probe.Init.{Loader, ProbeOptions, init, and_then}
use ebpfmanager.Manager.{lookup_spec}
use ebpfmanager.Manager.Routes.{Loaded, get_program}

-- The specs of the probes with a function.
unfoldable pub specs_of : String → List Probe → List (Option ℕ)
specs_of name [] = []
specs_of name (p ∷ ps) =
    let rest = specs_of name ps in
    if str_eq p.ebpf_func_name name then p.program_spec ∷ rest else rest

unfoldable pub spec_of : ProbeIdentificationPair → List Probe → Option (Option ℕ)
spec_of id [] = none
spec_of id (p ∷ ps) =
    if identification_pair_matches p id then some p.program_spec else spec_of id ps

abbrev first_or : List (Option ℕ) → Option ℕ → Option (Option ℕ)
first_or (s ∷ ss) o = some s
first_or [] none = none
first_or [] (some s) = some (some s)

-- `GetProgramSpec`, of whose list `AddHook` takes the first.
unfoldable pub get_program_spec :
    ProbeOptions → Loaded → ProbeIdentificationPair → Fault × Option (Option ℕ)
unfolding specs_of spec_of
get_program_spec o m id =
    if before m.state initialized then (some manager_not_initialized, none) else (
      none,
      if str_eq id.uid ""
          then first_or (specs_of id.ebpf_func_name m.probes)
              (lookup_spec id.ebpf_func_name o.specs)
          else spec_of id m.probes,
    )

module _ (sys : System) (loader : Loader sys) (o : ProbeOptions) (retry : Retry)
    (permanent : Error → Bool) where
  -- A step whose error stops the probe; what `Stop` returns is dropped.
  unfoldable pub or_stop : Step sys → Step sys
  unfolding stop
  or_stop f s =
      let (e, s') = f s in
      elim e [ none ↦ (none, s') | some err ↦ (some (quoting err), (stop sys retry s').1) ]

  unfoldable pub pin_hook : Step sys
  pin_hook (p, w) =
      let (e, w') = loader.pin_program p.program p.pin_path w in
      if str_eq p.pin_path "" then (none, (p, w)) else (e, (p, w'))

  -- `AddHook` from where the new probe has its program and its spec
  unfoldable pub start_hook : Step sys
  unfolding or_stop pin_hook init attach
  start_hook =
      and_then sys loader o (or_stop (init sys loader o))
        (and_then sys loader o (or_stop pin_hook) (or_stop (attach sys retry permanent)))

  unfoldable pub add_probe : Loaded → Fault × (Probe × sys.World) → Fault × Loaded × sys.World
  add_probe m (none, (p, w)) = (none, record m { probes = m.probes ++ p ∷ [] }, w)
  add_probe m (some e, (p, w)) = (some e, m, w)

  module _ (clone : Option ℕ → sys.World → Fault × Option ℕ × sys.World) where
    -- The same once the program and the spec of the hook are found.
    unfoldable pub hook_program :
        Option ℕ → Option ℕ → Probe → Loaded → sys.World → Fault × Loaded × sys.World
    unfolding start_hook add_probe get_program_spec
    hook_program prog spec new m w =
        let (e, cloned, w') = clone prog w in
        elim (get_program_spec o m (get_identification_pair new)).1 [
          | some s ↦ (some (quoting identification_pair_in_use), m, w)
          | none ↦ elim e [
            | some err ↦ (some (quoting err), m, w')
            | none ↦ add_probe m (
                start_hook
                  (record new { enabled = true; program = cloned; program_spec = spec }, w'))
          ]
        ]

    -- `AddHook`
    unfoldable pub add_hook : String → Probe → Loaded → sys.World → Fault × Loaded × sys.World
    unfolding hook_program get_program get_program_spec
    add_hook uid new m w =
        let old : ProbeIdentificationPair = record {
          uid = uid;
          ebpf_func_name = new.ebpf_func_name;
        } in
        let (e, found) = get_program m old in
        elim e [
          | some err ↦ (some err, m, w)
          | none ↦ elim found [
            | none ↦ (some (quoting unknown_match_func_name), m, w)
            | some prog ↦ elim (get_program_spec o m old).1 [
              | none ↦ (some (quoting unknown_match_func_spec), m, w)
              | some spec ↦ hook_program prog spec new m w
            ]
          ]
        ]
