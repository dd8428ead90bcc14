-- ===== src/Probe/Retrying/Refused.antt =====
-- `Attach` of probe.go where every attempt fails.
use ebpfmanager.Common.{◌≡◌, none, some}
use ebpfmanager.Errors.{Error}
use ebpfmanager.System.{System}
use ebpfmanager.Probe.{Probe}
use ebpfmanager.Probe.Kinds.{attach_by_type}
use ebpfmanager.Probe.Detach.{Retry, detach_retry}
use ebpfmanager.Probe.Retrying.{SameSetup}

-- A kernel that never takes the probe, and lets go of what an attempt left.
pub record Refuses (sys : System) (retry : Retry) (p : Probe) : Type 0 where
  pub refuses :
      (q : Probe) (v : sys.World)
      → SameSetup p q
      → (e : Error) × ((attach_by_type sys q.program_type (q, v)).0 ≡ some e)
  pub detaches : (q : Probe) (v : sys.World) → SameSetup p q → (detach_retry sys retry q v).0 ≡ none
  pub closes : (v : sys.World) → (sys.close_program p.program v).0 ≡ none
