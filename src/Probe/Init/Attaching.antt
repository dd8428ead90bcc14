-- ===== src/Probe/Init/Attaching.antt =====
-- A probe from `InitWithOptions` to the end of `Attach`, of probe.go.
use ebpfmanager.Common.{◌<◌, ◌≡◌, ◌≢◌, ◌∙◌, Bool, true, none, inl, inr, false}
use ebpfmanager.State.{running}
use ebpfmanager.Errors.{Error, quoting}
use ebpfmanager.System.{System}
use ebpfmanager.Probe.{Probe}
use ebpfmanager.Probe.Attach.{attach}
use ebpfmanager.Probe.Detach.{Retry}
use ebpfmanager.Probe.Init.{Loader, ProbeOptions, attempts_of, init_with_options}
use ebpfmanager.Probe.Init.Ready.{init_cases}
use ebpfmanager.Probe.Retrying.{IsRetry, Relents, attach_relenting}

module _ (sys : System) (loader : Loader sys) (o : ProbeOptions) (retry : Retry) where
  -- An enabled probe whose count of attempts is 0 and that `InitWithOptions` accepts and leaves with a
  -- program spec is attached and running, with no error, where the kernel turns it down fewer times than it
  -- is attempted, by its own number of retries or else by the default one.
  pub init-attach :
      (law : IsRetry retry) (permanent : Error → Bool) (p : Probe) (w : sys.World)
      (manual pin : Bool)
      → let (err, (p', w')) = init_with_options sys loader o manual pin (p, w) in
        p.enabled ≡ true
        → p.attach_retry_attempt ≡ 0
        → ((e : Error) → permanent (quoting e) ≡ false)
        → err ≡ none
        → p'.program_spec ≢ none
        → (kernel : Relents sys retry permanent p')
        → kernel.refusals w' < attempts_of sys loader o p.probe_retry
        → let (err', (q, v)) = attach sys retry permanent (p', w') in
          (err' ≡ none) × (q.state ≡ running)
  init-attach law permanent p w manual pin h z t n has_spec kernel l =
      elim (init_cases sys loader o p w manual pin h) [
        | inr (m, s, attempts, enabled) ↦ absurd (m n)
        | inl (m, s, program, spec, checked, attempts, count, enabled) ↦
            let (q, v) = (init_with_options sys loader o manual pin (p, w)).1 in
            attach_relenting sys retry law permanent q v kernel t enabled s has_spec (count ∙ z)
              (rw attempts l)
      ]
