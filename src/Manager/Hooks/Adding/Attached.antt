-- ===== src/Manager/Hooks/Adding/Attached.antt =====
-- What `AddHook` of manager.go leaves of the manager.
use ebpfmanager.Common.{
  Option-cases, ◌≡◌, ◌≢◌, ◌⊎◌, inl, inr, refl, ◌∙◌, Bool, true, false, none, some, [], ◌∷◌, ◌++◌,
}
use ebpfmanager.State.{initialized, running}
use ebpfmanager.Errors.{Error, Fault, quoting, probe_not_initialized}
use ebpfmanager.System.{System}
use ebpfmanager.Probe.{Probe}
use ebpfmanager.Probe.Kinds.{Step}
use ebpfmanager.Probe.Detach.{Retry}
use ebpfmanager.Probe.Attach.{attach}
use ebpfmanager.Probe.Init.{Loader, ProbeOptions, attempts_of}
use ebpfmanager.Probe.Init.Ready.{Triple, Outcome}
use ebpfmanager.Probe.Retrying.{IsRetry}
use ebpfmanager.Probe.Phases.Attempts.{attach_phases}
use ebpfmanager.Manager.Routes.{Loaded}
use ebpfmanager.Manager.Hooks.Adding.{or_stop, add_probe}

module _ (sys : System) (loader : Loader sys) (o : ProbeOptions) (retry : Retry)
    (permanent : Error → Bool) where
  -- No claim on a probe that was stopped.
  abbrev pub Any : Probe × sys.World → Type 0
  Any s = true ≡ true

  pub or_stop-Triple :
      {P Q E : Probe × sys.World → Type 0} {f : Step sys}
      → Triple sys P f Q E
      → Triple sys P (or_stop sys loader o retry permanent f) Q Any
  unfolding or_stop
  or_stop-Triple {f = f} h = record {
    holds = λ s p. elim (h.holds s p) [
      | inl (n, q) ↦ rw (or_stop, n) (inl (refl, q))
      | inr (n, e) ↦ elim (Option-cases (f s).0) [
        | inl m ↦ absurd (n m)
        | inr (err, eq) ↦ rw (or_stop, eq) (inr (λ z. cc, refl))
      ]
    ];
  }

  -- Before and after `Init`, and after `Attach`.
  abbrev pub New : Probe × sys.World → Type 0
  New (p, w) = (p.enabled ≡ true) × (attempts_of sys loader o p.probe_retry ≢ 0)

  abbrev pub Initialized : Probe × sys.World → Type 0
  Initialized (p, w) = (p.enabled ≡ true) × (p.state ≡ initialized) × (p.probe_retry ≢ 0)

  abbrev pub Running : Probe × sys.World → Type 0
  Running (p, w) = (p.enabled ≡ true) × (p.state ≡ running)

  module _ (law : IsRetry retry) (t : (e : Error) → permanent (quoting e) ≡ false)
      (u : permanent probe_not_initialized ≡ false) where
    pub attach-Triple : Triple sys Initialized (attach sys retry permanent) Running Any
    attach-Triple = record {
      holds = λ (p, w) h.
          let phases = attach_phases sys retry law permanent t u p w h.2 h.0 in
          elim (phases.0 h.1) [
            | inl (limits, e, runs, spent) ↦ inl (e, (limits.0 ∙ h.0, runs))
            | inr (limits, fails, ends) ↦ inr (fails, refl)
          ];
    }

    -- The manager after a hook is added, or is not.
    abbrev pub Ends : Loaded → Fault × Loaded × sys.World → Type 0
    Ends m (e, m', w) =
        ((e ≢ none) × (m' ≡ m))
        ⊎ ((e ≡ none)
            × ((q : Probe) × (m' ≡ record m { probes = m.probes ++ q ∷ [] })
                × (q.enabled ≡ true)
                × (q.state ≡ running)))

    pub add_probe-Ends :
        (m : Loaded) (r : Fault × (Probe × sys.World))
        → Outcome sys Running Any r
        → Ends m (add_probe sys loader o retry permanent m r)
    unfolding add_probe
    add_probe-Ends m (none, (p, w)) (inl (e, (enabled, runs))) =
        inr (refl, (p, refl, enabled, runs))
    add_probe-Ends m (none, (p, w)) (inr (fails, any)) = absurd (fails refl)
    add_probe-Ends m (some e, (p, w)) h = inl (λ z. cc, refl)
