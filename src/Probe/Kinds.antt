-- ===== src/Probe/Kinds.antt =====
-- The `switch` of `attach` in probe.go: one way to attach for each type of program.
pub mod RawTracepoint
use Prim.Native.Char.{code}
use text.Mathlib.Text.{starts_with}
use ebpfmanager.Common.{
  ℕ, suc, ◌+◌, ◌%◌, ◌^◌, ◌≡◌, Bool, true, false, ◌||◌, ◌&&◌, not, String, str_eq, List, [], ◌∷◌,
  any, Option, none, some, ◌==◌, leb, if◌then◌else◌,
}
use ebpfmanager.State.{State, reset, initialized, running, before, is_running}
use ebpfmanager.Errors.{
  Error, Fault, concat_errors, quoting, message, section_format, interface_not_set,
  probe_not_initialized, external,
}
use ebpfmanager.System.{
  System, Request, UprobeOptions, link_kprobe, link_kretprobe, link_perf_event, link_tracepoint,
  link_uprobe, link_uretprobe, link_cgroup, link_raw_tracepoint, sock_attach, tc_attach, xdp_attach,
}
use ebpfmanager.Probe.{
  Probe, ProgramType, unspecified, kprobe, perf_event, tracepoint, cgroup, sock_ops, socket_filter,
  sched_cls, xdp, raw_tracepoint, other,
}

-- The code points of a text.
abbrev pub codes : String → List ℕ
codes String.[] = []
codes (String.◌∷◌ c s) = code c ∷ codes s

-- `strings.TrimLeft`: leading characters of the set go.
unfoldable pub trim_left : List ℕ → List ℕ → List ℕ
trim_left cutset [] = []
trim_left cutset (c ∷ s) = if any (λ x. x == c) cutset then trim_left cutset s else c ∷ s

-- The name of a raw tracepoint: `strings.TrimLeft(p.Section, "raw_tracepoint/")`.
unfoldable pub raw_tracepoint_name : String → List ℕ
unfolding trim_left
raw_tracepoint_name section = trim_left (codes "raw_tracepoint/") (codes section)

abbrev slashes : String → ℕ
slashes String.[] = 0
slashes (String.◌∷◌ c s) = if code c == b'/' then suc (slashes s) else slashes s

module _ (sys : System) where
  abbrev pub Step : Type 0
  Step = Probe × sys.World → Fault × (Probe × sys.World)

  -- A request that gives a link, and one that gives none.
  unfoldable pub keep_link : Request → Step
  keep_link r (p, w) =
      let (e, l, w') = sys.attach r w in
      elim e [
        | none ↦ (none, (record p { link = some l }, w'))
        | some err ↦ (some (quoting err), (p, w'))
      ]

  unfoldable pub without_link : Request → (Error → Error) → Step
  without_link r f (p, w) =
      let (e, l, w') = sys.attach r w in
      elim e [ none ↦ (none, (p, w')) | some err ↦ (some (f err), (p, w')) ]

  -- `opts` of `attachUprobe`
  abbrev pub uprobe_options : Probe → UprobeOptions
  uprobe_options p = record {
    real_file_path = p.real_file_path;
    offset = (p.uprobe_offset + p.non_elf_offset) % 2 ^ 64;
    address = p.u_address;
    pid = p.attach_pid;
  }

  unfoldable pub attach_uprobe : Step
  unfolding keep_link
  attach_uprobe (p, w) =
      let named = record p { func_name = p.attach_to_func_name } in
      let options = uprobe_options p in
      if starts_with p.section "uretprobe/"
      then keep_link (link_uretprobe p.binary_path p.attach_to_func_name p.program options)
          (named, w)
      else if starts_with p.section "uprobe/"
      then keep_link (link_uprobe p.binary_path p.attach_to_func_name p.program options) (named, w)
      else (some (quoting section_format), (p, w))

  unfoldable pub attach_kprobe : Step
  unfolding attach_uprobe
  attach_kprobe (p, w) =
      if starts_with p.section "kretprobe/"
      then keep_link (link_kretprobe p.func_name p.program) (p, w)
      else if starts_with p.section "kprobe/"
      then keep_link (link_kprobe p.func_name p.program) (p, w)
      else attach_uprobe (p, w)

  unfoldable pub attach_tracepoint : Step
  unfolding keep_link
  attach_tracepoint (p, w) =
      if leb 2 (slashes p.spec_section)
      then keep_link (link_tracepoint p.spec_section p.program) (p, w)
      else (some (quoting section_format), (p, w))

  unfoldable pub attach_cgroup : Step
  unfolding keep_link
  attach_cgroup (p, w) =
      if str_eq p.cgroup_path ""
      then (some (message "CGroupPath cant be empty."), (p, w))
      else keep_link (link_cgroup p.cgroup_path p.attach_type p.program) (p, w)

  unfoldable pub attach_tccls : Step
  unfolding without_link
  attach_tccls (p, w) =
      if p.ifindex == 0 && str_eq p.ifname ""
      then (some interface_not_set, (p, w))
      else without_link (tc_attach p.ifindex p.ifindex_netns p.program) quoting (p, w)

  -- the `switch` of `attach`
  unfoldable pub attach_by_type : ProgramType → Step
  unfolding attach_kprobe attach_tracepoint attach_cgroup attach_tccls raw_tracepoint_name
  attach_by_type unspecified (p, w) = (some (quoting section_format), (p, w))
  attach_by_type kprobe (p, w) = attach_kprobe (p, w)
  attach_by_type perf_event (p, w) = keep_link (link_perf_event p.program) (p, w)
  attach_by_type tracepoint (p, w) = attach_tracepoint (p, w)
  attach_by_type cgroup (p, w) = attach_cgroup (p, w)
  attach_by_type sock_ops (p, w) = attach_cgroup (p, w)
  attach_by_type socket_filter (p, w) =
      without_link (sock_attach p.socket_fd p.program) (λ e. e) (p, w)
  attach_by_type sched_cls (p, w) = attach_tccls (p, w)
  attach_by_type xdp (p, w) =
      without_link (xdp_attach p.ifindex p.program p.xdp_attach_mode) quoting (p, w)
  attach_by_type raw_tracepoint (p, w) =
      keep_link (link_raw_tracepoint (raw_tracepoint_name p.section) p.program) (p, w)
  attach_by_type other (p, w) = (some (message "program type not implemented yet"), (p, w))
