-- ===== src/Probe/Attach.antt =====
-- `attach` and `Attach` of probe.go.
use ebpfmanager.Probe.Kinds.{Step, attach_by_type}
use ebpfmanager.Probe.Detach.{Retry, stop_probe}
use ebpfmanager.Common.{◌+◌, Bool, false, ◌||◌, not, none, some, if◌then◌else◌}
use ebpfmanager.State.{initialized, running, before, is_running}
use ebpfmanager.Errors.{Error, Fault, quoting, probe_not_initialized}
use ebpfmanager.System.{System}
use ebpfmanager.Probe.{Probe}

module _ (sys : System) where
  module _ (retry : Retry) where
    unfoldable pub set_if_nil : Fault → Error → Fault
    set_if_nil none e = some e
    set_if_nil (some old) e = some old

    -- what `attach` does with the result of the `switch`
    unfoldable pub settle : Fault → Step sys
    unfolding stop_probe
    settle none (p, w) =
        (none, (record p { state = running; attach_retry_attempt = p.probe_retry }, w))
    settle (some err) (p, w) =
        let (e, s) = stop_probe sys retry false (record p { last_error = some err }, w) in
        (some (quoting err), s)

    -- `attach`; of a probe with a spec, whose type is `program_type`
    unfoldable pub attach_once : Step sys
    unfolding settle set_if_nil attach_by_type
    attach_once (p, w) =
        let (err, s) = attach_by_type sys p.program_type (p, w) in
        if is_running p.state || not p.enabled
        then (none, (p, w))
        else if before p.state initialized
        then (
          some probe_not_initialized,
          (record p { last_error = set_if_nil p.last_error probe_not_initialized }, w),
        )
        else settle err s

    -- The test for ENOENT and EINVAL on the error of one attempt; other errors are tried again.
    unfoldable pub forgive : (Error → Bool) → Fault → Fault
    forgive permanent none = none
    forgive permanent (some e) = if permanent e then none else some e

    unfoldable pub attempt : (Error → Bool) → Step sys
    unfolding attach_once forgive
    attempt permanent (p, w) =
        let (e, s) =
          attach_once (record p { attach_retry_attempt = p.attach_retry_attempt + 1 }, w) in
        (forgive permanent e, s)

    -- `Attach`
    unfoldable pub attach : (Error → Bool) → Step sys
    unfolding attempt
    attach permanent (p, w) = retry (Probe × sys.World) p.probe_retry (attempt permanent) (p, w)
