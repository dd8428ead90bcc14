-- ===== src/Probe/Phases.antt =====
-- The life of a probe as an automaton over the states of utils.go, and a sequence of calls of `Init`,
-- `Attach`, `Detach` and `Stop` of probe.go.
pub mod Attempts
pub mod Refinement
use ebpfmanager.Common.{Bool, true, false, List, [], ◌∷◌, none, some}
use ebpfmanager.State.{State, reset, initialized, running}
use ebpfmanager.Errors.{Error, Fault}
use ebpfmanager.System.{System}
use ebpfmanager.Probe.{Probe}
use ebpfmanager.Probe.Kinds.{Step}
use ebpfmanager.Probe.Detach.{Retry, detach, stop}
use ebpfmanager.Probe.Attach.{attach}
use ebpfmanager.Probe.Init.{Loader, ProbeOptions, init}

pub data Call : Type 0 where
  init_call attach_call detach_call stop_call : Call

-- What a call, which returns an error or does not, may do to the state of an enabled probe.
pub data Move : Call → Bool → State → State → Type 0 where
  initializes : {s : State} → Move init_call false s initialized
  init_fails : {s : State} → Move init_call true s reset
  attaches : Move attach_call false initialized running
  runs_already : Move attach_call false running running
  is_not_ready : Move attach_call true reset reset
  is_refused : Move attach_call true initialized initialized
  gives_up : Move attach_call true initialized reset
  detaches : Move detach_call false running initialized
  detach_fails : Move detach_call true running running
  was_reset : Move detach_call false reset reset
  was_detached : Move detach_call false initialized initialized
  stops : {s : State} → Move stop_call false s reset
  stop_fails : Move stop_call true running running

-- The calls that a run of the automaton makes from one state to another, each with whether it failed.
pub data Run : List (Call × Bool) → State → State → Type 0 where
  done : {s : State} → Run [] s s
  then_call :
      {c : Call} {b : Bool} {cs : List (Call × Bool)} {s t u : State}
      → Move c b s t
      → Run cs t u
      → Run ((c, b) ∷ cs) s u

abbrev pub failed : Fault → Bool
failed none = false
failed (some e) = true

module _ (sys : System) (loader : Loader sys) (o : ProbeOptions) (retry : Retry)
    (permanent : Error → Bool) where
  unfoldable pub call_probe : Call → Step sys
  unfolding init attach detach stop
  call_probe init_call = init sys loader o
  call_probe attach_call = attach sys retry permanent
  call_probe detach_call = detach sys retry
  call_probe stop_call = stop sys retry

  -- The calls in their order, each with whether it failed, and what they leave behind.
  unfoldable pub call_all : List Call → Probe × sys.World → List (Call × Bool) × (Probe × sys.World)
  unfolding call_probe
  call_all [] s = ([], s)
  call_all (c ∷ cs) s =
      let (e, s') = call_probe c s in
      let (trace, s'') = call_all cs s' in ((c, failed e) ∷ trace, s'')
