-- ===== src/State.antt =====
-- `state` of utils.go: the life of a manager, a probe and a map, in the order of its constants.
use ebpfmanager.Common.{ℕ, Bool, ltb, leb}

pub data State : Type 0 where
  reset initialized paused running : State

abbrev pub rank : State → ℕ
rank reset = 0
rank initialized = 1
rank paused = 2
rank running = 3

-- `s < t` and `s >= t`
abbrev pub before : State → State → Bool
before s t = ltb (rank s) (rank t)

abbrev pub reached : State → State → Bool
reached s t = leb (rank t) (rank s)

abbrev pub is_running : State → Bool
is_running s = leb 3 (rank s)
