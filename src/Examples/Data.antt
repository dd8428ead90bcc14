-- ===== src/Examples/Data.antt =====
-- A system whose calls all succeed, and a probe, maps and managers for the tests.
use ebpfmanager.Common.{ℕ, zero, suc, Bool, true, false, leb, [], ◌∷◌, none, some}
use ebpfmanager.State.{reset, initialized, running}
use ebpfmanager.Errors.{Error, external}
use ebpfmanager.System.{System}
use ebpfmanager.Probe.{Probe, kprobe}
use ebpfmanager.Probe.Detach.{Retry}
use ebpfmanager.Map.{ManagedMap}
use ebpfmanager.Perf.{PerfMap}
use ebpfmanager.Manager.{Manager}

-- The world is the number of calls that were made.
abbrev pub counting : System
counting = record {
  World = ℕ;
  remove = λ s w. (none, suc w);
  pin_map = λ a s w. (none, suc w);
  close_map = λ a w. (none, suc w);
  open_reader = λ a n m w. (none, suc w);
  close_reader = λ w. (none, suc w);
  pause_reader = λ w. (none, suc w);
  resume_reader = λ w. (none, suc w);
  close_program = λ p w. (none, suc w);
  close_link = λ l w. (none, suc w);
  attach = λ r w. (none, 9, suc w);
  detach_socket = λ s p w. (none, suc w);
  detach_xdp = λ i w. (none, suc w);
  detach_tc = λ i n w. (none, suc w);
}

-- Tried as often as the number says, and once for 0.
abbrev pub retry : Retry
retry S zero f s = f s
retry S (suc zero) f s = f s
retry S (suc (suc n)) f s =
    let (e, s') = f s in elim e [ none ↦ (none, s') | some err ↦ retry S (suc n) f s' ]

abbrev pub mkdir_probe : Probe
mkdir_probe = record {
  uid = "a";
  section = "kprobe/vfs_mkdir";
  ebpf_func_name = "kprobe_vfs_mkdir";
  attach_to_func_name = "vfs_mkdir";
  copy_program = false;
  enabled = true;
  pin_path = "/sys/fs/bpf/mkdir";
  state = initialized;
  program = some 3;
  program_spec = some 4;
  program_type = kprobe;
  link = none;
  has_manager = true;
  manual_load_needed = false;
  check_pin = false;
  func_name = "vfs_mkdir";
  attach_pid = 0;
  attach_retry_attempt = 0;
  probe_retry = 2;
  last_error = none;
  binary_path = "";
  uprobe_offset = 0;
  non_elf_offset = 0;
  real_file_path = "";
  u_address = 0;
  cgroup_path = "";
  socket_fd = 0;
  ifindex = 0;
  ifname = "";
  ifindex_netns = 0;
  kprobe_max_active = 0;
  probe_retry_delay = 0;
  skip_loopback = false;
  xdp_attach_mode = 0;
  network_direction = 0;
  spec_section = "kprobe/vfs_mkdir";
  attach_type = 0;
}

abbrev pub running_probe : Probe
running_probe = record mkdir_probe { state = running; link = some 9; attach_retry_attempt = 2 }

abbrev pub cache : ManagedMap
cache = record {
  array = some 5;
  array_spec = some 6;
  has_manager = true;
  state = initialized;
  external_map = false;
  edited_map = false;
  name = "cache";
  pin_path = "";
  always_cleanup = false;
}

abbrev pub pinned_map : ManagedMap
pinned_map = record cache {
  array = none;
  state = reset;
  name = "map1";
  pin_path = "/sys/fs/bpf/map1";
}

abbrev pub events : PerfMap
events = record {
  map = record cache { name = "my_constants"; state = running };
  has_data_handler = true;
  perf_ring_buffer_size = 4096;
  watermark = 0;
  readers = 1;
}

abbrev pub new_manager : Manager
new_manager = record {
  state = reset;
  locked = false;
  probes = mkdir_probe ∷ [];
  maps = pinned_map ∷ cache ∷ [];
  perf_maps = [];
  activated_probes = [];
  excluded_ebpf_funcs = [];
  programs = [];
  map_specs = [];
}

-- ENOENT and EINVAL
abbrev pub is_permanent : Error → Bool
is_permanent (external n) = leb n 2
is_permanent _ = false
