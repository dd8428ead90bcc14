-- ===== src/Perf.antt =====
-- perf.go: a perf ring buffer and its reader.
pub mod Stats
pub mod Lifecycle
use ebpfmanager.Common.{
  ℕ, ◌+◌, ◌-◌, Bool, true, false, ◌==◌, if◌then◌else◌, Option, none, some, String,
}
use ebpfmanager.State.{State, initialized, paused, running, before, is_running}
use ebpfmanager.Errors.{
  Error, Fault, message, quoting, joined, map_not_initialized, map_not_running,
}
use ebpfmanager.System.{System}
use ebpfmanager.Map.{ManagedMap, close, init}

pub record PerfMap : Type 0 where
  pub map : ManagedMap
  pub open map use *
  pub has_data_handler : Bool
  pub perf_ring_buffer_size : ℕ
  pub watermark : ℕ
  -- readers that were opened and not closed, each with its own goroutine
  pub readers : ℕ

abbrev pub with_state : PerfMap → State → PerfMap
with_state m s = record m { map = record m.map { state = s } }

module _ (sys : System) where
  abbrev default : ℕ → ℕ → ℕ
  default n d = if n == 0 then d else n

  -- `Init`, with the manager's defaults for the ring buffer
  unfoldable pub perf_init : PerfMap → Option ℕ → ℕ → ℕ → sys.World → Fault × PerfMap × sys.World
  perf_init m found default_size default_watermark w =
      if m.has_data_handler
      then (let sized = record m {
        perf_ring_buffer_size = default m.perf_ring_buffer_size default_size;
        watermark = default m.watermark default_watermark;
      } in
          let (err, inner, w') = init sys m.map found w in (err, record sized { map = inner }, w'))
      else (some (message "no DataHandler set"), m, w)

  -- `Start`
  unfoldable pub start : PerfMap → sys.World → Fault × PerfMap × sys.World
  start m w =
      let (err, w') = sys.open_reader m.array m.perf_ring_buffer_size m.watermark w in
      if is_running m.state
      then (none, m, w)
      else if before m.state initialized
      then (some map_not_initialized, m, w)
      else elim err [
        | some e ↦ (some e, m, w')
        | none ↦ (none, with_state (record m { readers = m.readers + 1 }) running, w')
      ]

  abbrev merge : Fault → Fault → Fault
  merge none e = e
  merge (some e) none = some e
  merge (some e) (some f) = some (joined f e)

  -- `Stop`
  unfoldable pub stop : PerfMap → ℕ → sys.World → Fault × PerfMap × sys.World
  stop m cleanup w =
      let (err, w1) = sys.close_reader w in
      let (err_tmp, inner, w2) = close sys m.map cleanup w1 in
      if before m.state running then (none, m, w) else (
        merge err err_tmp,
        record m { map = inner; readers = elim err [ none ↦ m.readers - 1 | some e ↦ m.readers ] },
        w2,
      )

  -- `Pause`
  unfoldable pub pause : PerfMap → sys.World → Fault × PerfMap × sys.World
  pause m w =
      let (err, w') = sys.pause_reader w in
      if before m.state running
      then (some map_not_running, m, w)
      else elim err [ some e ↦ (some e, m, w') | none ↦ (none, with_state m paused, w') ]

  -- `Resume`
  unfoldable pub resume : PerfMap → sys.World → Fault × PerfMap × sys.World
  resume m w =
      let (err, w') = sys.resume_reader w in
      if before m.state paused
      then (some map_not_running, m, w)
      else elim err [ some e ↦ (some e, m, w') | none ↦ (none, with_state m running, w') ]
