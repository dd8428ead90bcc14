-- ===== src/Bpf/MapDefs.antt =====
-- The map definitions of the example programs (`struct bpf_map_def` of bpf_map.h).
use ebpfmanager.Common.{ℕ, String, ◌*◌}

-- `enum bpf_map_type` of bpf.h
pub data MapType : Type 0 where
  unspec hash array prog_array perf_event_array percpu_hash percpu_array stack_trace : MapType
  cgroup_array lru_hash lru_percpu_hash lpm_trie array_of_maps hash_of_maps devmap sockmap : MapType
  cpumap : MapType

unfoldable pub map_type_number : MapType → ℕ
map_type_number unspec = 0
map_type_number hash = 1
map_type_number array = 2
map_type_number prog_array = 3
map_type_number perf_event_array = 4
map_type_number percpu_hash = 5
map_type_number percpu_array = 6
map_type_number stack_trace = 7
map_type_number cgroup_array = 8
map_type_number lru_hash = 9
map_type_number lru_percpu_hash = 10
map_type_number lpm_trie = 11
map_type_number array_of_maps = 12
map_type_number hash_of_maps = 13
map_type_number devmap = 14
map_type_number sockmap = 15
map_type_number cpumap = 16

-- `enum bpf_pin_type`
pub data PinType : Type 0 where
  pin_none pin_object_ns pin_global_ns pin_custom_ns : PinType

pub record BpfMapDef : Type 0 where
  pub type : MapType
  pub key_size : ℕ
  pub value_size : ℕ
  pub max_entries : ℕ
  pub map_flags : ℕ
  pub inner_map_idx : ℕ
  pub pinning : PinType
  pub namespace : String

abbrev pub sizeof_u32 : ℕ
sizeof_u32 = 4

-- Fields that an initialiser leaves out are 0.
abbrev pub map_def : MapType → ℕ → ℕ → ℕ → BpfMapDef
map_def t key_size value_size max_entries = record {
  type = t;
  key_size = key_size;
  value_size = value_size;
  max_entries = max_entries;
  map_flags = 0;
  inner_map_idx = 0;
  pinning = pin_none;
  namespace = "";
}

abbrev pub u32_hash : BpfMapDef
u32_hash = map_def hash sizeof_u32 sizeof_u32 10

pub my_constants : BpfMapDef
my_constants = map_def perf_event_array 0 0 0

pub cache : BpfMapDef
cache = u32_hash

pub map1 : BpfMapDef
map1 = u32_hash

pub map2 : BpfMapDef
map2 = u32_hash

pub shared_cache1 : BpfMapDef
shared_cache1 = u32_hash

pub shared_cache2 : BpfMapDef
shared_cache2 = u32_hash

pub routed_cache : BpfMapDef
routed_cache = u32_hash

unfoldable pub maps_router : BpfMapDef
maps_router = map_def hash_of_maps sizeof_u32 0 10

unfoldable pub tc_prog_array : BpfMapDef
tc_prog_array = map_def prog_array 4 4 3

-- the value is a `struct my_func_test_data_t` of two words
unfoldable pub my_func_test_data : BpfMapDef
my_func_test_data = map_def array sizeof_u32 (2 * sizeof_u32) 2
