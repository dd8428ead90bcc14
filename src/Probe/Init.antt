-- ===== src/Probe/Init.antt =====
-- `Init`, `InitWithOptions`, `init` and `Copy` of probe.go.
pub mod Ready
pub mod Attaching
use Prim.Native.String.{◌++◌ as text_append}
use text.Mathlib.Text.{starts_with}
use ebpfmanager.Common.{
  ℕ, ◌+◌, ◌%◌, ◌^◌, Bool, true, false, ◌&&◌, ◌||◌, not, String, str_eq, List, Option, none, some,
  ◌==◌, if◌then◌else◌,
}
use ebpfmanager.State.{reset, initialized}
use ebpfmanager.Errors.{
  Fault, quoting, unknown_match_func_name, unknown_match_func_spec, loopback_disabled,
}
use ebpfmanager.System.{System}
use ebpfmanager.Probe.{Probe, ProgramType, unspecified}
use ebpfmanager.Probe.Kinds.{Step}
use ebpfmanager.Manager.{check_field, lookup_spec, contains}

-- Of the manager: the loaded programs, the program specs, the excluded functions and the defaults.
pub record ProbeOptions : Type 0 where
  pub loaded : List (String × ℕ)
  pub specs : List (String × ℕ)
  pub excluded_ebpf_funcs : List String
  pub default_kprobe_max_active : ℕ
  pub default_probe_retry : ℕ
  pub default_probe_retry_delay : ℕ

-- The calls of `init`: loading and pinning a program, the type, section and attach type of a spec, the lookups of a
-- function's name, and of an interface with its index and whether it is a loopback.
pub record Loader (sys : System) : Type 0 where
  pub load_program : Option ℕ → sys.World → Fault × ℕ × sys.World
  pub pin_program : Option ℕ → String → sys.World → Fault × sys.World
  pub spec_type : ℕ → ProgramType
  pub spec_section : ℕ → String
  pub spec_attach_type : ℕ → ℕ
  pub syscall_fn_name : String → sys.World → Fault × String
  pub find_filter_function : String → sys.World → Fault × String
  pub interface_by_name : String → sys.World → Fault × ℕ × Bool

-- `Copy`; the fields that it leaves out have the zero value of their type.
unfoldable pub copy_probe : Probe → Probe
copy_probe p = record {
  uid = p.uid;
  section = p.section;
  ebpf_func_name = p.ebpf_func_name;
  attach_to_func_name = p.attach_to_func_name;
  copy_program = false;
  enabled = p.enabled;
  pin_path = p.pin_path;
  state = reset;
  program = none;
  program_spec = none;
  program_type = unspecified;
  link = none;
  has_manager = false;
  manual_load_needed = false;
  check_pin = false;
  func_name = "";
  attach_pid = 0;
  attach_retry_attempt = 0;
  probe_retry = p.probe_retry;
  last_error = none;
  binary_path = p.binary_path;
  uprobe_offset = 0;
  non_elf_offset = 0;
  real_file_path = "";
  u_address = 0;
  cgroup_path = p.cgroup_path;
  socket_fd = p.socket_fd;
  ifindex = p.ifindex;
  ifname = p.ifname;
  ifindex_netns = p.ifindex_netns;
  kprobe_max_active = p.kprobe_max_active;
  probe_retry_delay = p.probe_retry_delay;
  skip_loopback = false;
  xdp_attach_mode = p.xdp_attach_mode;
  network_direction = p.network_direction;
  spec_section = "";
  attach_type = 0;
}

unfoldable pub match_func_name : Probe → String
match_func_name p = if p.copy_program then text_append p.ebpf_func_name p.uid else p.ebpf_func_name

-- `getProbeProgramSpec` of manager.go: an excluded function has no spec, and no error.
unfoldable pub get_probe_program_spec : ProbeOptions → String → Fault × Option ℕ
unfolding lookup_spec
get_probe_program_spec o name = elim (lookup_spec name o.specs) [
  | some s ↦ (none, some s)
  | none ↦
      if contains o.excluded_ebpf_funcs name
      then (none, none)
      else (some (quoting unknown_match_func_name), none)
]

module _ (sys : System) (loader : Loader sys) (o : ProbeOptions) where
  -- One step after another, unless it returns an error.
  abbrev pub and_then : Step sys → Step sys → Step sys
  and_then f g s = let (e, s') = f s in elim e [ none ↦ g s' | some err ↦ (some err, s') ]

  unfoldable pub check_probe : Step sys
  unfolding check_field
  check_probe (p, w) = (check_field p, (p, w))

  unfoldable pub load_if_needed : Step sys
  load_if_needed (p, w) =
      let (e, prog, w') = loader.load_program p.program_spec w in
      if not p.manual_load_needed then (none, (p, w)) else elim e [
        | some err ↦ (some (quoting err), (record p { last_error = some err }, w'))
        | none ↦ (none, (record p { program = some prog }, w'))
      ]

  unfoldable pub find_program : Step sys
  unfolding match_func_name lookup_spec
  find_program (p, w) = elim p.program [
    | some prog ↦ (none, (p, w))
    | none ↦ elim (lookup_spec (match_func_name p) o.loaded) [
      | none ↦ (
        some (quoting unknown_match_func_name),
        (record p { last_error = some unknown_match_func_name }, w),
      )
      | some prog ↦ (none, (record p { program = some prog; check_pin = true }, w))
    ]
  ]

  -- With the spec the probe has its type and its section.
  unfoldable pub with_spec : Option ℕ → Probe → Probe
  with_spec none p = p
  with_spec (some s) p = record p {
    program_spec = some s;
    program_type = loader.spec_type s;
    spec_section = loader.spec_section s;
    attach_type = loader.spec_attach_type s;
  }

  unfoldable pub find_spec : Step sys
  unfolding with_spec get_probe_program_spec
  find_spec (p, w) = elim p.program_spec [
    | some s ↦ (none, (with_spec (some s) p, w))
    | none ↦
        let (e, s) = get_probe_program_spec o (match_func_name p) in
        let p' = record p { last_error = e } in
        elim e [
          | none ↦ (none, (with_spec s p', w))
          | some err ↦ (some (quoting unknown_match_func_spec), (p', w))
        ]
  ]

  unfoldable pub pin_if_needed : Step sys
  pin_if_needed (p, w) =
      let (e, w') = loader.pin_program p.program p.pin_path w in
      if not p.check_pin
      then (none, (p, w))
      else if str_eq p.pin_path ""
      then (none, (record p { check_pin = false }, w))
      else elim e [
        | some err ↦ (some (quoting err), (record p { last_error = some err }, w'))
        | none ↦ (none, (record p { check_pin = false }, w'))
      ]

  -- The second lookup is tried where the first one fails.
  unfoldable pub find_function : Step sys
  find_function (p, w) =
      let (e1, name1) = loader.syscall_fn_name p.attach_to_func_name w in
      let (e2, name2) = loader.find_filter_function p.section w in
      if not (starts_with p.section "kretprobe/" || starts_with p.section "kprobe/")
      then (none, (p, w))
      else elim e1 [
        | none ↦ (none, (record p { func_name = name1 }, w))
        | some err1 ↦ elim e2 [
          | none ↦ (none, (record p { last_error = some err1; func_name = name2 }, w))
          | some err2 ↦ (some err2, (record p { last_error = some err2; func_name = name2 }, w))
        ]
      ]

  unfoldable pub find_interface : Step sys
  find_interface (p, w) =
      let (e, index, is_loopback) = loader.interface_by_name p.ifname w in
      if not (p.ifindex == 0 && not (str_eq p.ifname "")) then (none, (p, w)) else elim e [
        | some err ↦ (some (quoting err), (record p { last_error = some err }, w))
        | none ↦
            if is_loopback && p.skip_loopback
            then (some (quoting loopback_disabled), (p, w))
            else (none, (record p { ifindex = index }, w))
      ]

  -- `a` where it is set, and otherwise the default.
  abbrev pub or_default : ℕ → ℕ → ℕ
  or_default a d = if a == 0 then d else a

  -- The retries with the first attempt, as a 64-bit number.
  abbrev pub attempts_of : ℕ → ℕ
  attempts_of n = (or_default n o.default_probe_retry + 1) % 2 ^ 64

  unfoldable pub set_defaults : Step sys
  set_defaults (p, w) = (
    none,
    (
      record p {
        kprobe_max_active = or_default p.kprobe_max_active o.default_kprobe_max_active;
        probe_retry = attempts_of p.probe_retry;
        probe_retry_delay = or_default p.probe_retry_delay o.default_probe_retry_delay;
        state = initialized;
      },
      w,
    ),
  )

  -- `init` up to the defaults
  unfoldable pub prepare : Step sys
  unfolding check_probe load_if_needed find_program find_spec pin_if_needed find_function
      find_interface
  prepare = and_then check_probe (
      and_then load_if_needed (
        and_then find_program
          (and_then find_spec (and_then pin_if_needed (and_then find_function find_interface)))))

  -- `init`
  unfoldable pub init_once : Step sys
  unfolding prepare set_defaults
  init_once = and_then prepare set_defaults

  -- `InitWithOptions`
  unfoldable pub init_with_options : Bool → Bool → Step sys
  unfolding init_once
  init_with_options manual pin (p, w) =
      if not p.enabled
      then (none, (p, w))
      else init_once (
        record p {
          has_manager = true;
          state = reset;
          manual_load_needed = manual;
          check_pin = pin;
        },
        w,
      )

  -- `Init`
  unfoldable pub init : Step sys
  unfolding init_once
  init (p, w) =
      if not p.enabled
      then (none, (p, w))
      else init_once (record p { has_manager = true; state = reset }, w)
