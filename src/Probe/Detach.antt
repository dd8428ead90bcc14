-- ===== src/Probe/Detach.antt =====
-- `detach`, `Detach`, `stop` and `Stop` of probe.go.
use ebpfmanager.Common.{
  ℕ, Bool, true, false, ◌||◌, not, str_eq, Option, none, some, leb, if◌then◌else◌,
}
use ebpfmanager.State.{reset, initialized, running, before}
use ebpfmanager.Errors.{Fault, concat_errors, quoting}
use ebpfmanager.System.{System}
use ebpfmanager.Probe.{Probe, ProgramType, socket_filter, sched_cls, xdp}
use ebpfmanager.Probe.Kinds.{Step}

-- `retry.Do`: how often to try, what, and from which state.
abbrev pub Retry : Type 1
Retry = (S : Type 0) → ℕ → (S → Fault × S) → S → Fault × S

-- A new record with the internal fields cleaned up: `reset`.
unfoldable pub reset_probe : Probe → Probe
reset_probe p = record p {
  has_manager = false;
  program = none;
  program_spec = none;
  link = none;
  state = reset;
  manual_load_needed = false;
  check_pin = false;
  func_name = "";
  attach_pid = 0;
  attach_retry_attempt = 0;
}

module _ (sys : System) where
  unfoldable pub remove_pin : Probe → sys.World → Fault × sys.World
  remove_pin p w = if str_eq p.pin_path "" then (none, w) else sys.remove p.pin_path w

  -- The error of closing the link takes the place of the one before.
  unfoldable pub close_link : Option ℕ → Fault → sys.World → Fault × sys.World
  close_link none e w = (e, w)
  close_link (some l) e w = sys.close_link l w

  unfoldable pub detach_by_type : ProgramType → Probe → sys.World → Fault × sys.World
  detach_by_type socket_filter p w = sys.detach_socket p.socket_fd p.program w
  detach_by_type xdp p w = sys.detach_xdp p.ifindex w
  detach_by_type sched_cls p w = sys.detach_tc p.ifindex p.ifindex_netns w
  detach_by_type _ p w = (none, w)

  -- `detach`; of a probe with a spec, whose type is `program_type`
  unfoldable pub detach_once : Probe → sys.World → Fault × sys.World
  unfolding remove_pin close_link detach_by_type
  detach_once p w =
      let (e1, w1) = remove_pin p w in
      let (e2, w2) = close_link p.link e1 w1 in
      let (e3, w3) = detach_by_type p.program_type p w2 in (concat_errors e2 e3, w3)

  module _ (retry : Retry) where
    unfoldable pub detach_retry : Probe → sys.World → Fault × sys.World
    unfolding detach_once
    detach_retry p w = retry sys.World p.probe_retry (detach_once p) w

    -- `Detach`
    unfoldable pub detach : Step sys
    unfolding detach_retry
    detach (p, w) =
        let (e, w') = detach_retry p w in
        if before p.state running || not p.enabled then (none, (p, w)) else elim e [
          | none ↦ (none, (record p { state = initialized }, w'))
          | some err ↦ (some err, (record p { last_error = some err }, w'))
        ]

    unfoldable pub close_spent : Bool → Probe → sys.World → Fault × sys.World
    close_spent true p w = sys.close_program p.program w
    close_spent false p w = (none, w)

    -- `stop`, with `saveStopError`
    unfoldable pub stop_probe : Bool → Step sys
    unfolding detach_retry close_spent reset_probe
    stop_probe save (p, w) =
        let spent = leb p.probe_retry p.attach_retry_attempt in
        let (e1, w1) = detach_retry p w in
        let (e2, w2) = close_spent spent p w1 in
        let err = concat_errors e1 e2 in
        let saved = record p {
          last_error = if save then concat_errors p.last_error err else p.last_error;
        } in
        elim err [
          | none ↦ (none, (if spent then reset_probe saved else saved, w2))
          | some e ↦ (some (quoting e), (saved, w2))
        ]

    -- `Stop`
    unfoldable pub stop : Step sys
    unfolding stop_probe
    stop (p, w) =
        if before p.state running || not p.enabled
        then (none, (reset_probe p, w))
        else stop_probe true (p, w)
