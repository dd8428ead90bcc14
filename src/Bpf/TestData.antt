-- ===== src/Bpf/TestData.antt =====
-- testdata/common.h and the map of testdata/rewrite.c, against the numbers of bpf.h.
use ebpfmanager.Common.{ℕ, ◌≡◌, refl}
use ebpfmanager.Bpf.MapDefs.{map_type_number, hash, perf_event_array, array_of_maps, hash_of_maps}
use ebpfmanager.Bpf.Header.Helpers.{
  func_id, map_lookup_elem, perf_event_output, get_smp_processor_id,
}

-- `struct map`
pub record Map : Type 0 where
  pub type : ℕ
  pub key_size : ℕ
  pub value_size : ℕ
  pub max_entries : ℕ
  pub flags : ℕ
  pub inner_map_idx : ℕ
  pub dummy : ℕ

abbrev pub sizeof_unsigned_int : ℕ
sizeof_unsigned_int = 4

unfoldable pub map_val : Map
map_val = record {
  type = 1;
  key_size = sizeof_unsigned_int;
  value_size = sizeof_unsigned_int;
  max_entries = 1;
  flags = 0;
  inner_map_idx = 0;
  dummy = 0;
}

-- The map types that common.h names by number.
unfoldable pub type_array : ℕ
type_array = 1

unfoldable pub type_perf_event_array : ℕ
type_perf_event_array = 4

unfoldable pub type_array_of_maps : ℕ
type_array_of_maps = 12

unfoldable pub type_hash_of_maps : ℕ
type_hash_of_maps = 13

-- The helpers that common.h calls by number.
unfoldable pub map_lookup_elem_id : ℕ
map_lookup_elem_id = 1

unfoldable pub perf_event_output_id : ℕ
perf_event_output_id = 25

unfoldable pub get_smp_processor_id_id : ℕ
get_smp_processor_id_id = 8

-- The numbers of common.h are those of bpf.h, but for the one that it calls an array, which is a hash;
-- so is `map_val`.
pub common-numbers :
    (map_type_number hash ≡ type_array)
    × (map_type_number hash ≡ map_val.type)
    × (map_type_number perf_event_array ≡ type_perf_event_array)
    × (map_type_number array_of_maps ≡ type_array_of_maps)
    × (map_type_number hash_of_maps ≡ type_hash_of_maps)
    × (func_id map_lookup_elem ≡ map_lookup_elem_id)
    × (func_id perf_event_output ≡ perf_event_output_id)
    × (func_id get_smp_processor_id ≡ get_smp_processor_id_id)
unfolding map_type_number func_id map_val type_array type_perf_event_array type_array_of_maps
    type_hash_of_maps map_lookup_elem_id perf_event_output_id get_smp_processor_id_id
common-numbers = (refl, refl, refl, refl, refl, refl, refl, refl)
