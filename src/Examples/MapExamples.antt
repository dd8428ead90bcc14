-- ===== src/Examples/MapExamples.antt =====
-- Maps and ring buffers on the system of `Data`.
use ebpfmanager.Common.{◌≡◌, ◌≢◌, ◌⊎◌, inl, refl, false, List, [], ◌∷◌, none, some, arith}
use ebpfmanager.State.{reset}
use ebpfmanager.Map.{should_close, init}
use ebpfmanager.Map.Clean
use ebpfmanager.Map.Category.{should_close_lem}
use ebpfmanager.Map.Lifecycle.{
  IsDone, IsRefused, IsSound, inits, closes, run, init_lem, run-IsSound,
}
use ebpfmanager.Perf.Stats.{
  PerfMapStats, count_of, record_read, read_error, reader_closed, ReadResult, read_loop, diff,
  diff-read_loop,
}
use ebpfmanager.Examples.Data.{counting, cache, pinned_map}

should_close_lem_example : should_close cache Clean.internal_pinned ≡ false
should_close_lem_example = should_close_lem cache Clean.internal_pinned

run-IsSound_example :
    IsSound (run counting (inits (some 4) ∷ closes Clean.all ∷ inits none ∷ []) pinned_map 0)
run-IsSound_example =
    run-IsSound counting (inits (some 4) ∷ closes Clean.all ∷ inits none ∷ []) pinned_map 0
      (inl refl)

init_lem_example :
    let (err, m', w') = init counting pinned_map (some 4) 0 in
    ((pinned_map.state ≢ reset) × (err ≢ none) × (m' ≡ pinned_map) × (w' ≡ 0))
    ⊎ ((pinned_map.state ≡ reset)
        × (err ≡ none)
        × IsDone counting pinned_map pinned_map.array (some 4) 0 m' w')
    ⊎ ((pinned_map.state ≡ reset)
        × (err ≢ none)
        × (m'.state ≡ reset)
        × IsRefused counting pinned_map pinned_map.array (some 4) 0 w')
init_lem_example = init_lem counting pinned_map (some 4) 0

-- A counter just below its end: three bytes on CPU 1, and two lost samples on CPU 2.
abbrev no_stats : PerfMapStats
no_stats = record {
  read_errors = 0;
  raw_samples = λ c. some 18446744073709551615;
  lost_samples = λ c. none;
}

abbrev results : List ReadResult
results =
    record_read (record { cpu = 1; raw_sample = 10 ∷ 20 ∷ 30 ∷ []; lost_samples = 0 })
    ∷ read_error
    ∷ record_read (record { cpu = 2; raw_sample = []; lost_samples = 2 })
    ∷ reader_closed
    ∷ record_read (record { cpu = 1; raw_sample = 40 ∷ []; lost_samples = 0 })
    ∷ []

diff-read_loop_example :
    let d = diff (read_loop results no_stats).0 no_stats in
    (count_of (d.raw_samples 1) ≡ 3) × (count_of (d.lost_samples 1) ≡ 0)
diff-read_loop_example =
    diff-read_loop results no_stats 1 (omega arith) (omega arith) (omega arith) (omega arith)
