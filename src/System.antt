-- ===== src/System.antt =====
-- What the manager asks of the kernel, the file system and the eBPF library. A map, a program or a
-- link is named by a number, and `none` is a nil pointer; each call returns an error and the world
-- that it leaves behind.
use ebpfmanager.Common.{ℕ, String, Option, List}
use ebpfmanager.Errors.{Fault}

-- `link.UprobeOptions`, as far as a probe sets it.
pub record UprobeOptions : Type 0 where
  pub real_file_path : String
  pub offset : ℕ
  pub address : ℕ
  pub pid : ℕ

-- A call that attaches a program, with the arguments that the probe gives it.
pub data Request : Type 0 where
  link_kprobe link_kretprobe : String → Option ℕ → Request
  link_perf_event : Option ℕ → Request
  link_tracepoint : String → Option ℕ → Request
  link_uprobe link_uretprobe : String → String → Option ℕ → UprobeOptions → Request
  -- the path, the attach type and the program
  link_cgroup : String → ℕ → Option ℕ → Request
  link_raw_tracepoint : List ℕ → Option ℕ → Request
  sock_attach : ℕ → Option ℕ → Request
  tc_attach : ℕ → ℕ → Option ℕ → Request
  -- the interface, the program and the mode
  xdp_attach : ℕ → Option ℕ → ℕ → Request

pub record System : Type 1 where
  pub World : Type 0
  -- `os.Remove`
  pub remove : String → World → Fault × World
  -- `(*ebpf.Map).Pin` and `Close`
  pub pin_map : ℕ → String → World → Fault × World
  pub close_map : Option ℕ → World → Fault × World
  -- `perf.NewReaderWithOptions`, `(*perf.Reader).Close`, `Pause` and `Resume`
  pub open_reader : Option ℕ → ℕ → ℕ → World → Fault × World
  pub close_reader : World → Fault × World
  pub pause_reader : World → Fault × World
  pub resume_reader : World → Fault × World
  -- `(*ebpf.Program).Close` and `link.Link.Close`
  pub close_program : Option ℕ → World → Fault × World
  pub close_link : ℕ → World → Fault × World
  -- the library and kernel calls that attach a program: the error, and the link if they give one
  pub attach : Request → World → Fault × ℕ × World
  -- those that detach a program from a socket or an interface
  pub detach_socket : ℕ → Option ℕ → World → Fault × World
  pub detach_xdp : ℕ → World → Fault × World
  pub detach_tc : ℕ → ℕ → World → Fault × World
