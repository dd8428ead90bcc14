-- ===== src/Probe/Phases/Refinement.antt =====
-- Calls of probe.go on one probe, as runs of the automaton.
use ebpfmanager.Common.{
  ℕ, suc, ◌+◌, ◌^◌, ◌<◌, ◌≡◌, ◌≢◌, ◌⊎◌, inl, inr, refl, sym, ◌∙◌, Bool, true, false, none, some,
  arith, List, [], ◌∷◌, length,
}
use ebpfmanager.State.{State, reset, initialized, paused, running}
use ebpfmanager.Errors.{Error, Fault, quoting, probe_not_initialized}
use ebpfmanager.System.{System}
use ebpfmanager.Probe.{Probe}
use ebpfmanager.Probe.Detach.{Retry, detach, stop, stop_probe, reset_probe}
use ebpfmanager.Probe.Attach.{attach}
use ebpfmanager.Probe.Init.{Loader, ProbeOptions, attempts_of, init}
use ebpfmanager.Probe.Init.Ready.{init_cases, init-init_with_options}
use ebpfmanager.Probe.Retrying.{IsRetry, counted}
use ebpfmanager.Probe.Phases.{
  Call, init_call, attach_call, detach_call, stop_call, Move, initializes, init_fails, attaches,
  runs_already, is_not_ready, is_refused, gives_up, detaches, detach_fails, was_reset, was_detached,
  stops, stop_fails, Run, done, then_call, failed, call_probe, call_all,
}
use ebpfmanager.Probe.Phases.Attempts.{HasSpent, SameLimits, Attached, Refused, attach_phases}

-- An enabled probe with a positive number of attempts, which a number of calls of `Init` to come cannot
-- overflow; a probe is never paused, and one that runs has used up its attempts.
pub record IsSound (d k : ℕ) (p : Probe) : Type 0 where
  pub enabled : p.enabled ≡ true
  pub retries : p.probe_retry ≢ 0
  pub not_paused : p.state ≢ paused
  pub spent : p.state ≡ running → HasSpent p
  pub fits : p.probe_retry + k + 1 < 2 ^ 64
  pub default_fits : d + k + 1 < 2 ^ 64

-- A call that keeps the limits leaves the probe sound, once the state fits.
IsSound-after :
    (d k : ℕ) (p q : Probe) (s : State)
    → IsSound d (suc k) p
    → SameLimits p q
    → q.state ≡ s
    → s ≢ paused
    → (s ≡ running → HasSpent q)
    → IsSound d k q
IsSound-after d k p q s h l e np spent = record {
  enabled = l.0 ∙ h.enabled;
  retries = rw (l.1) h.retries;
  not_paused = λ z. np (sym e ∙ z);
  spent = λ z. spent (sym e ∙ z);
  fits = rw (l.1) (let f = h.fits in omega arith);
  default_fits = let f = h.default_fits in omega arith;
}

stops_from : (s : State) → Move stop_call false s reset
stops_from s = stops

failed-some : (e : Fault) → e ≢ none → failed e ≡ true
failed-some none n = absurd (n refl)
failed-some (some e) n = refl

module _ (sys : System) (loader : Loader sys) (o : ProbeOptions) (retry : Retry)
    (permanent : Error → Bool) where
  -- A call with this result is a move of the automaton, and leaves a sound probe.
  abbrev Moves : Call → ℕ → Probe → Fault × (Probe × sys.World) → Type 0
  Moves c k p r = Move c (failed r.0) p.state r.1.0.state × IsSound o.default_probe_retry k r.1.0

  attempts_of-fits :
      (n k : ℕ)
      → n + suc k + 1 < 2 ^ 64
      → o.default_probe_retry + suc k + 1 < 2 ^ 64
      → (attempts_of sys loader o n ≢ 0) × (attempts_of sys loader o n + k + 1 < 2 ^ 64)
  attempts_of-fits n k h g = ground arith

  init-Moves :
      (k : ℕ) (p : Probe) (w : sys.World)
      → IsSound o.default_probe_retry (suc k) p
      → Moves init_call k p (init sys loader o (p, w))
  init-Moves k p w h =
      rw (init-init_with_options sys loader o p w)
        (elim (init_cases sys loader o p w p.manual_load_needed p.check_pin h.enabled) [
          | inl (e, s, program, spec, pinned, attempts, count, enabled) ↦
              let fits = attempts_of-fits p.probe_retry k h.fits h.default_fits in
              (
                rw (e, s) initializes,
                record {
                  enabled = enabled;
                  retries = rw attempts (fits.0);
                  not_paused = rw s (λ z. cc);
                  spent = rw s (λ z. absurd (cc));
                  fits = rw attempts (fits.1);
                  default_fits = let g = h.default_fits in omega arith;
                },
              )
          | inr (fails, s, attempts, enabled) ↦ (
            rw (failed-some _ fails, s) init_fails,
            record {
              enabled = enabled;
              retries = rw attempts h.retries;
              not_paused = rw s (λ z. cc);
              spent = rw s (λ z. absurd (cc));
              fits = rw attempts (let g = h.fits in omega arith);
              default_fits = let g = h.default_fits in omega arith;
            },
          )
        ])

  detach-Moves :
      (k : ℕ) (p : Probe) (w : sys.World)
      → IsSound o.default_probe_retry (suc k) p
      → Moves detach_call k p (detach sys retry (p, w))
  unfolding detach
  detach-Moves k p w h = ground (arith, detaches, detach_fails, was_reset, was_detached)

  stop-Moves :
      (k : ℕ) (p : Probe) (w : sys.World)
      → IsSound o.default_probe_retry (suc k) p
      → Moves stop_call k p (stop sys retry (p, w))
  unfolding stop stop_probe reset_probe
  stop-Moves k p w h = ground (arith, stops_from p.state, stop_fails)

  module _ (law : IsRetry retry) (t : (e : Error) → permanent (quoting e) ≡ false)
      (u : permanent probe_not_initialized ≡ false) where
    attach-Moves :
        (k : ℕ) (p : Probe) (w : sys.World)
        → IsSound o.default_probe_retry (suc k) p
        → Moves attach_call k p (attach sys retry permanent (p, w))
    attach-Moves k p w h = by_state p.state refl
      where
        phases :
            let r = attach sys retry permanent (p, w) in
            (p.state ≡ initialized → Attached p (r.0, r.1.0) ⊎ Refused p (r.0, r.1.0))
            × (p.state ≡ reset → SameLimits p r.1.0 × (r.0 ≢ none) × (r.1.0.state ≡ reset))
            × (p.state ≡ running → r ≡ (none, (counted p, w)))
        phases = attach_phases sys retry law permanent t u p w h.retries h.enabled

        still_spent : HasSpent p → HasSpent (counted p)
        still_spent s = ground arith

        by_state :
            (s : State) → p.state ≡ s → Moves attach_call k p (attach sys retry permanent (p, w))
        by_state reset e =
            let (limits, fails, ends) = phases.1 e in
            (
              rw (failed-some _ fails, ends, e) is_not_ready,
              IsSound-after _ k p _ _ h limits ends (λ z. cc) (λ z. absurd (cc)),
            )
        by_state initialized e = elim (phases.0 e) [
          | inl (limits, f, runs, spent) ↦ (
            rw (f, runs, e) attaches,
            IsSound-after _ k p _ _ h limits runs (λ z. cc) (λ z. spent),
          )
          | inr (limits, fails, inl ends) ↦ (
            rw (failed-some _ fails, ends, e) is_refused,
            IsSound-after _ k p _ _ h limits ends (λ z. cc) (λ z. absurd (cc)),
          )
          | inr (limits, fails, inr ends) ↦ (
            rw (failed-some _ fails, ends, e) gives_up,
            IsSound-after _ k p _ _ h limits ends (λ z. cc) (λ z. absurd (cc)),
          )
        ]
        by_state paused e = absurd (h.not_paused e)
        by_state running e = rw (phases.2 e) (
          rw e runs_already,
          IsSound-after _ k p (counted p) running h (refl, refl) e (λ z. cc)
              (λ z. still_spent (h.spent e)),
        )

    call-Moves :
        (c : Call) (k : ℕ) (p : Probe) (w : sys.World)
        → IsSound o.default_probe_retry (suc k) p
        → Moves c k p (call_probe sys loader o retry permanent c (p, w))
    unfolding call_probe
    call-Moves init_call k p w h = init-Moves k p w h
    call-Moves attach_call k p w h = attach-Moves k p w h
    call-Moves detach_call k p w h = detach-Moves k p w h
    call-Moves stop_call k p w h = stop-Moves k p w h

    -- What calls of `Init`, `Attach`, `Detach` and `Stop`, in any order, do to the state of a sound probe,
    -- with the errors that they return, is a run of the automaton.
    pub call_all-Run :
        (cs : List Call) (p : Probe) (w : sys.World)
        → IsSound o.default_probe_retry (length cs) p
        → let (trace, (q, v)) = call_all sys loader o retry permanent cs (p, w) in
          Run trace p.state q.state
    unfolding call_all
    call_all-Run [] p w h = done
    call_all-Run (c ∷ cs) p w h =
        let (q, v) = (call_probe sys loader o retry permanent c (p, w)).1 in
        let (moved, sound) = call-Moves c (length cs) p w h in
        then_call moved (call_all-Run cs q v sound)
