-- ===== src/Perf/Stats.antt =====
-- The reader loop of `Start` in perf.go, and `PerfMapStats`.
use ebpfmanager.Common.{
  ℕ, ◌+◌, ◌-◌, ◌%◌, ◌^◌, ◌<◌, ◌≡◌, refl, ◌==◌, if◌then◌else◌, Option, none, some, List, [], ◌∷◌,
  length, arith, ltb,
}

-- The counters are `uint64`, by CPU; `none` is a CPU that the map has no key for.
abbrev pub Counters : Type 0
Counters = ℕ → Option ℕ

pub record PerfMapStats : Type 0 where
  pub read_errors : ℕ
  pub raw_samples : Counters
  pub lost_samples : Counters

abbrev pub count_of : Option ℕ → ℕ
count_of none = 0
count_of (some n) = n

-- `counters[cpu] += n` wraps around, and adds the key.
abbrev pub bump : Counters → ℕ → ℕ → Counters
bump c cpu n i = if cpu == i then some ((count_of (c cpu) + n) % 2 ^ 64) else c i

pub record Record : Type 0 where
  pub cpu : ℕ
  pub raw_sample : List ℕ
  pub lost_samples : ℕ

-- What `perfReader.Read` gives: a record, an error, or the error that the reader was closed.
pub data ReadResult : Type 0 where
  record_read : Record → ReadResult
  read_error reader_closed : ReadResult

-- The calls of the handlers, with the CPU and the sample or the number of lost ones.
pub data Handled : Type 0 where
  data_handler : ℕ → List ℕ → Handled
  lost_handler : ℕ → ℕ → Handled

count_record : Record → PerfMapStats → PerfMapStats
count_record r s =
    if ltb 0 r.lost_samples
    then record s { lost_samples = bump s.lost_samples r.cpu r.lost_samples }
    else record s { raw_samples = bump s.raw_samples r.cpu (length r.raw_sample) }

call_of : Record → Handled
call_of r =
    if ltb 0 r.lost_samples
    then lost_handler r.cpu r.lost_samples
    else data_handler r.cpu r.raw_sample

-- The loop of the reader's goroutine, with the statistics set and both handlers given.
unfoldable pub read_loop : List ReadResult → PerfMapStats → PerfMapStats × List Handled
unfolding count_record call_of
read_loop [] s = (s, [])
read_loop (reader_closed ∷ rs) s = (s, [])
read_loop (read_error ∷ rs) s =
    read_loop rs (record s { read_errors = (s.read_errors + 1) % 2 ^ 64 })
read_loop (record_read r ∷ rs) s =
    let (s', calls) = read_loop rs (count_record r s) in (s', call_of r ∷ calls)

abbrev pub diff_counters : Counters → Counters → Counters
diff_counters new old cpu = elim (new cpu) [
  | none ↦ none
  | some n ↦ some ((n + 2 ^ 64 - count_of (old cpu)) % 2 ^ 64)
]

-- `Diff`
unfoldable pub diff : PerfMapStats → PerfMapStats → PerfMapStats
diff new old = record {
  read_errors = (new.read_errors + 2 ^ 64 - old.read_errors) % 2 ^ 64;
  raw_samples = diff_counters new.raw_samples old.raw_samples;
  lost_samples = diff_counters new.lost_samples old.lost_samples;
}

-- The specification: what the results up to the closing of the reader amount to on one CPU.
abbrev pub bytes_of : ℕ → List ReadResult → ℕ
bytes_of cpu [] = 0
bytes_of cpu (reader_closed ∷ rs) = 0
bytes_of cpu (read_error ∷ rs) = bytes_of cpu rs
bytes_of cpu (record_read r ∷ rs) =
    (if ltb 0 r.lost_samples then 0 else if r.cpu == cpu then length r.raw_sample else 0)
    + bytes_of cpu rs

abbrev pub lost_of : ℕ → List ReadResult → ℕ
lost_of cpu [] = 0
lost_of cpu (reader_closed ∷ rs) = 0
lost_of cpu (read_error ∷ rs) = lost_of cpu rs
lost_of cpu (record_read r ∷ rs) = (if r.cpu == cpu then r.lost_samples else 0) + lost_of cpu rs

-- The counters of a CPU after the loop.
read_loop-raw_samples :
    (rs : List ReadResult) (s : PerfMapStats) (cpu : ℕ)
    → count_of (s.raw_samples cpu) < 2 ^ 64
    → count_of ((read_loop rs s).0.raw_samples cpu)
      ≡ (count_of (s.raw_samples cpu) + bytes_of cpu rs) % 2 ^ 64
unfolding read_loop
read_loop-raw_samples [] s cpu h = omega arith
read_loop-raw_samples (reader_closed ∷ rs) s cpu h = omega arith
read_loop-raw_samples (read_error ∷ rs) s cpu h = read_loop-raw_samples rs _ cpu h
read_loop-raw_samples (record_read r ∷ rs) s cpu h =
    ground (arith, read_loop-raw_samples rs (count_record r s) cpu)

read_loop-lost_samples :
    (rs : List ReadResult) (s : PerfMapStats) (cpu : ℕ)
    → count_of (s.lost_samples cpu) < 2 ^ 64
    → count_of ((read_loop rs s).0.lost_samples cpu)
      ≡ (count_of (s.lost_samples cpu) + lost_of cpu rs) % 2 ^ 64
unfolding read_loop
read_loop-lost_samples [] s cpu h = omega arith
read_loop-lost_samples (reader_closed ∷ rs) s cpu h = omega arith
read_loop-lost_samples (read_error ∷ rs) s cpu h = read_loop-lost_samples rs _ cpu h
read_loop-lost_samples (record_read r ∷ rs) s cpu h =
    ground (arith, read_loop-lost_samples rs (count_record r s) cpu)

-- A key of the counters stays.
read_loop-keys :
    (rs : List ReadResult) (s : PerfMapStats) (cpu : ℕ)
    → ((read_loop rs s).0.raw_samples cpu ≡ none → s.raw_samples cpu ≡ none)
      × ((read_loop rs s).0.lost_samples cpu ≡ none → s.lost_samples cpu ≡ none)
unfolding read_loop
read_loop-keys [] s cpu = (λ h. h, λ h. h)
read_loop-keys (reader_closed ∷ rs) s cpu = (λ h. h, λ h. h)
read_loop-keys (read_error ∷ rs) s cpu = read_loop-keys rs _ cpu
read_loop-keys (record_read r ∷ rs) s cpu =
    let (raw, lost) = read_loop-keys rs (count_record r s) cpu in
    (λ h. ground (arith, raw h), λ h. ground (arith, lost h))

diff_of_option :
    (new old : Option ℕ) (n : ℕ)
    → count_of old < 2 ^ 64
    → count_of new ≡ (count_of old + n) % 2 ^ 64
    → (new ≡ none → old ≡ none)
    → n < 2 ^ 64
    → count_of (elim new [ none ↦ none | some c ↦ some ((c + 2 ^ 64 - count_of old) % 2 ^ 64) ]) ≡ n
diff_of_option none none n h e k b = omega arith
diff_of_option none (some c) n h e k b = absurd (cc (k refl))
diff_of_option (some c) old n h e k b = omega arith

-- The difference of the statistics before and after the reader loop is, for each CPU, what was read
-- in between up to the closing of the reader: the bytes of the samples and the lost samples, where
-- both fit in 64 bits; also when a counter wrapped around.
pub diff-read_loop :
    (rs : List ReadResult) (s : PerfMapStats) (cpu : ℕ)
    → count_of (s.raw_samples cpu) < 2 ^ 64
    → count_of (s.lost_samples cpu) < 2 ^ 64
    → bytes_of cpu rs < 2 ^ 64
    → lost_of cpu rs < 2 ^ 64
    → let d = diff (read_loop rs s).0 s in
      (count_of (d.raw_samples cpu) ≡ bytes_of cpu rs)
      × (count_of (d.lost_samples cpu) ≡ lost_of cpu rs)
unfolding diff
diff-read_loop rs s cpu h g b l = (
  diff_of_option ((read_loop rs s).0.raw_samples cpu) (s.raw_samples cpu) _ h
      (read_loop-raw_samples rs s cpu h) (read_loop-keys rs s cpu).0 b,
  diff_of_option ((read_loop rs s).0.lost_samples cpu) (s.lost_samples cpu) _ g
      (read_loop-lost_samples rs s cpu g) (read_loop-keys rs s cpu).1 l,
)

-- What the handlers are called for, in order, up to the closing of the reader.
abbrev pub calls_of : List ReadResult → List Handled
calls_of [] = []
calls_of (reader_closed ∷ rs) = []
calls_of (read_error ∷ rs) = calls_of rs
calls_of (record_read r ∷ rs) =
    (if r.lost_samples == 0
      then data_handler r.cpu r.raw_sample
      else lost_handler r.cpu r.lost_samples)
    ∷ calls_of rs

-- Each record is handed on once and in order, to the handler of lost samples exactly if it lost
-- some, whatever the statistics; an error hands on nothing.
pub read_loop-calls : (rs : List ReadResult) (s : PerfMapStats) → (read_loop rs s).1 ≡ calls_of rs
unfolding read_loop
read_loop-calls [] s = refl
read_loop-calls (reader_closed ∷ rs) s = refl
read_loop-calls (read_error ∷ rs) s = read_loop-calls rs _
read_loop-calls (record_read r ∷ rs) s = ground (arith, read_loop-calls rs (count_record r s))
