-- ===== src/Manager/Hooks/Cloning/Attached.antt =====
-- What `CloneProgram` of manager.go leaves of the manager, where it has what it works on.
use ebpfmanager.Common.{ℕ, ◌≡◌, ◌≢◌, Bool, false, none, some}
use ebpfmanager.Errors.{Error, Fault, quoting, probe_not_initialized}
use ebpfmanager.System.{System}
use ebpfmanager.Editor.Rewrite.{OffsetLaw}
use ebpfmanager.Probe.{Probe}
use ebpfmanager.Probe.Detach.{Retry}
use ebpfmanager.Probe.Init.{Loader, ProbeOptions}
use ebpfmanager.Probe.Retrying.{IsRetry}
use ebpfmanager.Manager.Routes.{Loaded, Outcome, returned}
use ebpfmanager.Manager.Hooks.Adding.Attached.{Ends}
use ebpfmanager.Manager.Hooks.Cloning.{ProgramSpecs}

-- The call returns, with an error or without one.
abbrev pub Returns : {W : Type 0} → Outcome W → Type 0
Returns {W} r = (e : Fault) × (w : W) × (r ≡ returned e w)

-- `ReferenceOffsets` gives the instructions that refer to a symbol, and the copy of a spec is a spec.
pub record IsLawful (sys : System) (specs : ProgramSpecs sys) : Type 0 where
  pub offsets_law : OffsetLaw specs.reference_offsets
  pub copies : (s : ℕ) (w : sys.World) → (specs.copy (some s) w).0 ≢ none

module _ (sys : System) (loader : Loader sys) (o : ProbeOptions) (retry : Retry)
    (permanent : Error → Bool) (law : IsRetry retry)
    (t : (e : Error) → permanent (quoting e) ≡ false)
    (u : permanent probe_not_initialized ≡ false) where
  -- The call returns, and its result is as that of `AddHook`.
  abbrev pub ReturnsEnds : Loaded → Outcome (Loaded × sys.World) → Type 0
  ReturnsEnds m r =
      (e : Fault) × (m' : Loaded) × (w : sys.World) × (r ≡ returned e (m', w))
      × Ends sys loader o retry permanent law t u m (e, m', w)
