-- ===== src/Manager/Loading/Collected.antt =====
-- What `loadCollection` of manager.go leaves of the maps, the rings and the probes.
use ebpfmanager.Common.{◌≡◌, ◌≢◌, ◌⊎◌, true, false, none}
use ebpfmanager.State.{initialized}
use ebpfmanager.System.{System}
use ebpfmanager.Map.{ManagedMap}
use ebpfmanager.Map
use ebpfmanager.Perf.{PerfMap}
use ebpfmanager.Perf
use ebpfmanager.Probe.{Probe}

abbrev pub HasMap : ManagedMap → Type 0
HasMap m = (m.state ≡ initialized) × (m.array ≢ none)

abbrev pub HasRing : PerfMap → Type 0
HasRing r = HasMap r.map × (r.has_data_handler ≡ true)

-- The probe is disabled, or it is initialised and has its program.
abbrev pub HasProgram : Probe → Type 0
HasProgram p = (p.enabled ≡ false) ⊎ ((p.state ≡ initialized) × (p.program ≢ none))
