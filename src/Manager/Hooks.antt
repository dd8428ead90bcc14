-- ===== src/Manager/Hooks.antt =====
-- `DetachHook` of manager.go.
pub mod Removal
pub mod Adding
pub mod Cloning
use ebpfmanager.Common.{
  ℕ, zero, suc, Bool, String, List, [], ◌∷◌, Option, none, some, if◌then◌else◌, length, ltb,
}
use ebpfmanager.Errors.{Error, Fault, quoting, manager_not_initialized}
use ebpfmanager.System.{System}
use ebpfmanager.Probe.{Probe, ProbeIdentificationPair, identification_pair_matches}
use ebpfmanager.Probe.Detach.{Retry}
use ebpfmanager.Probe.Detach
use ebpfmanager.Manager.Routes.{Loaded, ready, programs_of}

-- The slice without the element at an index; -1 is none.
unfoldable pub remove_at : Option ℕ → List Probe → List Probe
remove_at none ps = ps
remove_at (some n) [] = []
remove_at (some zero) (p ∷ ps) = ps
remove_at (some (suc n)) (p ∷ ps) = p ∷ remove_at (some n) ps

-- The index of a later match, counted from one element further on, or 0.
abbrev pub later_or_here : Option ℕ → Option ℕ
later_or_here none = some zero
later_or_here (some n) = some (suc n)

abbrev pub later : Option ℕ → Option ℕ
later none = none
later (some n) = some (suc n)

module _ (sys : System) (retry : Retry) where
  unfoldable pub release : Bool → Probe → sys.World → Fault × (Probe × sys.World)
  release should_stop p w =
      if should_stop then Detach.stop sys retry (p, w) else Detach.detach sys retry (p, w)

  -- The loop over the probes: each match is released, and the last one is to be deleted.
  unfoldable pub detach_matching :
      Bool
      → ProbeIdentificationPair
      → List Probe
      → sys.World
      → Fault × List Probe × Option ℕ × sys.World
  unfolding release
  detach_matching should_stop id [] w = (none, [], none, w)
  detach_matching should_stop id (p ∷ ps) w =
      let (e, (p', w1)) = release should_stop p w in
      let (e2, ps2, d2, w2) = detach_matching should_stop id ps w1 in
      let (e3, ps3, d3, w3) = detach_matching should_stop id ps w in
      if identification_pair_matches p id
      then elim e [
        | some err ↦ (some (quoting err), p' ∷ ps, none, w1)
        | none ↦ (e2, p' ∷ ps2, later_or_here d2, w2)
      ]
      else (e3, p ∷ ps3, later d3, w3)

  -- `DetachHook`; `GetProgram` gives one program for each probe of the function, or the one of the
  -- collection.
  unfoldable pub detach_hook : String → String → Loaded → sys.World → Fault × Loaded × sys.World
  unfolding detach_matching remove_at
  detach_hook section uid m w =
      let should_stop = ltb 1 (length (programs_of section m.probes)) in
      let (e, ps, d, w') =
        detach_matching should_stop (record { uid = uid; ebpf_func_name = section }) m.probes w in
      elim (ready m) [
        | none ↦ (some manager_not_initialized, m, w)
        | some c ↦ elim e [
          | some err ↦ (some err, record m { probes = ps }, w')
          | none ↦ (none, record m { probes = remove_at d ps }, w')
        ]
      ]
