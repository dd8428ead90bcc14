-- ===== src/Probe.antt =====
-- probe.go: a probe, its identification pair and the tests on its state.
pub mod Kinds
pub mod Detach
pub mod Attach
pub mod Init
pub mod Lifecycle
pub mod Retrying
pub mod Phases
pub mod Traffic
use ebpfmanager.Common.{ℕ, Bool, true, false, ◌&&◌, String, str_eq, Option, List}
use ebpfmanager.State.{State, is_running, reached, initialized}
use ebpfmanager.Errors.{Fault}

pub record ProbeIdentificationPair : Type 0 where
  pub uid : String
  pub ebpf_func_name : String

unfoldable pub matches : ProbeIdentificationPair → ProbeIdentificationPair → Bool
matches pip id = str_eq pip.uid id.uid && str_eq pip.ebpf_func_name id.ebpf_func_name

-- `ebpf.ProgramType`, as far as `attach` and `detach` tell it apart.
pub data ProgramType : Type 0 where
  unspecified kprobe perf_event tracepoint cgroup sock_ops socket_filter sched_cls xdp : ProgramType
  raw_tracepoint other : ProgramType

-- Programs, links and program specs of the library are named by numbers. The type, section and attach type
-- of the spec stand beside it, so that reading them of a nil spec, which panics in Go, is not an error here.
pub record Probe : Type 0 where
  pub uid : String
  pub section : String
  pub ebpf_func_name : String
  pub attach_to_func_name : String
  pub copy_program : Bool
  pub enabled : Bool
  pub pin_path : String
  pub state : State
  pub program : Option ℕ
  pub program_spec : Option ℕ
  pub program_type : ProgramType
  pub link : Option ℕ
  pub has_manager : Bool
  pub manual_load_needed : Bool
  pub check_pin : Bool
  pub func_name : String
  pub attach_pid : ℕ
  pub attach_retry_attempt : ℕ
  pub probe_retry : ℕ
  pub last_error : Fault
  pub binary_path : String
  pub uprobe_offset : ℕ
  pub non_elf_offset : ℕ
  pub real_file_path : String
  pub u_address : ℕ
  pub cgroup_path : String
  pub socket_fd : ℕ
  pub ifindex : ℕ
  pub ifname : String
  pub ifindex_netns : ℕ
  pub kprobe_max_active : ℕ
  pub probe_retry_delay : ℕ
  pub skip_loopback : Bool
  pub xdp_attach_mode : ℕ
  pub network_direction : ℕ
  -- `SectionName` and `AttachType` of the program spec
  pub spec_section : String
  pub attach_type : ℕ

abbrev pub get_identification_pair : Probe → ProbeIdentificationPair
get_identification_pair p = record { uid = p.uid; ebpf_func_name = p.ebpf_func_name }

unfoldable pub identification_pair_matches : Probe → ProbeIdentificationPair → Bool
unfolding matches
identification_pair_matches p id = matches (get_identification_pair p) id

abbrev pub probe_is_running : Probe → Bool
probe_is_running p = is_running p.state

abbrev pub probe_is_initialized : Probe → Bool
probe_is_initialized p = reached p.state initialized
