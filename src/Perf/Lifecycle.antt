-- ===== src/Perf/Lifecycle.antt =====
-- The states of a perf ring buffer under `Start`, `Stop`, `Pause` and `Resume` of perf.go.
use ebpfmanager.Common.{ℕ, ◌-◌, ◌≡◌, false, none, if◌then◌else◌, arith}
use ebpfmanager.State.{running}
use ebpfmanager.System.{System}
use ebpfmanager.Map.{ManagedMap, should_close, reset_map, close}
use ebpfmanager.Perf.{PerfMap, start, stop, pause, resume}

module _ (sys : System) where
  close_result :
      (m : ManagedMap) (cleanup : ℕ) (w : sys.World)
      → (close sys m cleanup w).0 ≡ none
      → (close sys m cleanup w).1 ≡ (if should_close m cleanup then reset_map m else m)
  unfolding close
  close_result m cleanup w h = ground arith

  -- A running ring buffer that is paused and resumed with no error is as it was.
  pub resume-pause :
      (m : PerfMap) (w : sys.World)
      → m.state ≡ running
      → (pause sys m w).0 ≡ none
      → (resume sys (pause sys m w).1 (pause sys m w).2).0 ≡ none
      → (resume sys (pause sys m w).1 (pause sys m w).2).1 ≡ m
  unfolding pause resume
  resume-pause m w h e1 e2 = ground arith

  -- Stopped with no error, a running ring buffer has closed one reader, and its map is reset exactly
  -- if the clean up covers it.
  pub stop_lem :
      (m : PerfMap) (cleanup : ℕ) (w : sys.World)
      → m.state ≡ running
      → (stop sys m cleanup w).0 ≡ none
      → let (err, m', w') = stop sys m cleanup w in
        (m'.readers ≡ m.readers - 1)
        × (m'.map ≡ (if should_close m.map cleanup then reset_map m.map else m.map))
  unfolding stop
  stop_lem m cleanup w h e = ground (arith, close_result m.map cleanup (sys.close_reader w).1)

  -- A stop whose clean up does not cover the map leaves it running with its reader closed, so that
  -- a later start answers that all is well and opens no reader.
  pub start-stop_kept :
      (m : PerfMap) (cleanup : ℕ) (w v : sys.World)
      → m.state ≡ running
      → should_close m.map cleanup ≡ false
      → (stop sys m cleanup w).0 ≡ none
      → let (err, m', w') = stop sys m cleanup w in
        (m'.readers ≡ m.readers - 1) × (start sys m' v ≡ (none, m', v))
  unfolding stop start
  start-stop_kept m cleanup w v h k e =
      ground (arith, close_result m.map cleanup (sys.close_reader w).1)
