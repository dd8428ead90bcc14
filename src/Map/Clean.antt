-- ===== src/Map/Clean.antt =====
-- `MapCleanupType` of map.go.
use Prim.Native.Nat.{bit_or}
use ebpfmanager.Common.{ℕ, ◌^◌}

abbrev pub internal_pinned : ℕ
internal_pinned = 2 ^ 1

abbrev pub internal_not_pinned : ℕ
internal_not_pinned = 2 ^ 2

abbrev pub external_pinned : ℕ
external_pinned = 2 ^ 3

abbrev pub external_pinned_and_edited : ℕ
external_pinned_and_edited = 2 ^ 4

abbrev pub external_edited : ℕ
external_edited = 2 ^ 5

abbrev pub internal : ℕ
internal = bit_or internal_pinned internal_not_pinned

abbrev pub external : ℕ
external = bit_or (bit_or external_pinned external_pinned_and_edited) external_edited

abbrev pub all : ℕ
all = bit_or internal external
