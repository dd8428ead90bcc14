-- ===== src/Manager/Run.antt =====
-- `Start` and `Stop` of manager.go, over the probes, maps and perf maps.
pub mod Stopping
pub mod Starting
use ebpfmanager.Common.{ℕ, Bool, true, false, not, List, [], ◌∷◌, Option, none, some, if◌then◌else◌}
use ebpfmanager.State.{State, reset, initialized, running, before, reached}
use ebpfmanager.Errors.{
  Error, Fault, concat_errors, quoting, joined, message, manager_not_initialized,
}
use ebpfmanager.System.{System}
use ebpfmanager.Probe.{Probe}
use ebpfmanager.Probe.Detach.{Retry}
use ebpfmanager.Probe.Detach
use ebpfmanager.Probe.Attach
use ebpfmanager.Map.{ManagedMap, close_checked}
use ebpfmanager.Map.Clean
use ebpfmanager.Perf.{PerfMap}
use ebpfmanager.Perf
use ebpfmanager.Selectors.{Selector, run_validator}

-- What `Start` and `Stop` change of a manager.
pub record Fleet : Type 0 where
  pub state : State
  pub probes : List Probe
  pub maps : List ManagedMap
  pub rings : List PerfMap
  -- `ActivatedProbes` of the options
  pub activated_probes : List Selector

abbrev pub requote : Fault → Fault
requote none = none
requote (some e) = some (quoting e)

-- The error of a second stop, or the text of a nil error.
abbrev pub shut_down_error : Fault → Error
shut_down_error none = message "error:<nil> , perf ring reader couldn't gracefully shut down"
shut_down_error (some e) = quoting e

module _ (sys : System) where
  -- A perf map that gave an error is stopped again, for the text of the error.
  unfoldable pub stop_ring : ℕ → PerfMap → sys.World → Fault × PerfMap × sys.World
  stop_ring cleanup r w =
      let (e, r1, w1) = Perf.stop sys r cleanup w in
      let (e2, r2, w2) = Perf.stop sys r1 cleanup w1 in
      elim e [ none ↦ (none, r1, w1) | some err ↦ (some (shut_down_error e2), r2, w2) ]

  unfoldable pub stop_rings : ℕ → List PerfMap → sys.World → Fault × List PerfMap × sys.World
  unfolding stop_ring
  stop_rings cleanup [] w = (none, [], w)
  stop_rings cleanup (r ∷ rs) w =
      let (e, r', w1) = stop_ring cleanup r w in
      let (e2, rs', w2) = stop_rings cleanup rs w1 in (concat_errors e e2, r' ∷ rs', w2)

  unfoldable pub close_maps : ℕ → List ManagedMap → sys.World → Fault × List ManagedMap × sys.World
  close_maps cleanup [] w = (none, [], w)
  close_maps cleanup (m ∷ ms) w =
      let (e, m', w1) = close_checked sys m cleanup w in
      let (e2, ms', w2) = close_maps cleanup ms w1 in (concat_errors (requote e) e2, m' ∷ ms', w2)

  unfoldable pub start_rings : List PerfMap → sys.World → Fault × List PerfMap × sys.World
  start_rings [] w = (none, [], w)
  start_rings (r ∷ rs) w =
      let (e, r', w1) = Perf.start sys r w in
      let (e2, rs', w2) = start_rings rs w1 in
      elim e [ none ↦ (e2, r' ∷ rs', w2) | some err ↦ (some err, r' ∷ rs, w1) ]

  module _ (retry : Retry) where
    unfoldable pub stop_probes : List Probe → sys.World → Fault × List Probe × sys.World
    stop_probes [] w = (none, [], w)
    stop_probes (p ∷ ps) w =
        let (e, (p', w1)) = Detach.stop sys retry (p, w) in
        let (e2, ps', w2) = stop_probes ps w1 in (concat_errors (requote e) e2, p' ∷ ps', w2)

    -- `permanent` is the test of an error against ENOENT and EINVAL.
    unfoldable pub attach_probes : (Error → Bool) → List Probe → sys.World → List Probe × sys.World
    attach_probes permanent [] w = ([], w)
    attach_probes permanent (p ∷ ps) w =
        let (e, (p', w1)) = Attach.attach sys retry permanent (p, w) in
        let (ps', w2) = attach_probes permanent ps w1 in (p' ∷ ps', w2)

    -- `stop`; `close_rest` closes the netlink sockets and the collection.
    unfoldable pub stop_fleet :
        (sys.World → Fault × sys.World) → ℕ → Fleet → sys.World → Fault × Fleet × sys.World
    unfolding stop_rings stop_probes close_maps
    stop_fleet close_rest cleanup f w =
        let (e1, rings, w1) = stop_rings cleanup f.rings w in
        let (e2, probes, w2) = stop_probes f.probes w1 in
        let (e3, maps, w3) = close_maps cleanup f.maps w2 in
        let (e4, w4) = close_rest w3 in
        (
          concat_errors (concat_errors (concat_errors e1 e2) e3) e4,
          record f { state = reset; probes = probes; maps = maps; rings = rings },
          w4,
        )

    -- `Stop`
    unfoldable pub stop_manager :
        (sys.World → Fault × sys.World) → ℕ → Fleet → sys.World → Fault × Fleet × sys.World
    unfolding stop_fleet
    stop_manager close_rest cleanup f w =
        if before f.state initialized
        then (some manager_not_initialized, f, w)
        else stop_fleet close_rest cleanup f w

-- The errors of the selectors, put together.
unfoldable pub validate_all : List Probe → List Selector → Fault
validate_all ps [] = none
validate_all ps (s ∷ ss) = concat_errors (run_validator ps s) (validate_all ps ss)

module _ (sys : System) (retry : Retry) (close_rest route : sys.World → Fault × sys.World) where
  -- The clean up after an error.
  unfoldable pub undo : Error → Fleet → sys.World → Fault × Fleet × sys.World
  undo e f w =
      let (ignored, f', w') = stop_manager sys retry close_rest Clean.internal f w in
      (some e, f', w')

  -- From the check of the selectors on; `route` is the update of map and tail call routes.
  unfoldable pub start_checks : Fleet → sys.World → Fault × Fleet × sys.World
  unfolding undo validate_all
  start_checks f w =
      let (e, w') = route w in
      elim (validate_all f.probes f.activated_probes) [
        | some err ↦ undo (quoting err) f w
        | none ↦ elim e [ some err ↦ undo err f w' | none ↦ (none, f, w') ]
      ]

  -- `Start`
  unfoldable pub start_manager : (Error → Bool) → Fleet → sys.World → Fault × Fleet × sys.World
  unfolding start_checks start_rings attach_probes
  start_manager permanent f w =
      let (e, rings, w1) = start_rings sys f.rings w in
      let (probes, w2) = attach_probes sys retry permanent f.probes w1 in
      let f1 = record f { rings = rings } in
      if before f.state initialized
      then (some manager_not_initialized, f, w)
      else if reached f.state running
      then (none, f, w)
      else elim e [
        | some err ↦
            (let (ignored, f', w') = stop_fleet sys retry close_rest Clean.internal f1 w1 in
              (some err, f', w'))
        | none ↦ start_checks (record f1 { state = running; probes = probes }) w2
      ]
