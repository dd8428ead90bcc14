-- ===== src/Probe/Phases/Attempts.antt =====
-- The attempts of `Attach` of probe.go, from an initialized probe and from one that is reset.
use ebpfmanager.Common.{
  Option-cases, ℕ, zero, suc, ◌≡◌, ◌≢◌, ◌⊎◌, inl, inr, refl, ap, ◌∙◌, Bool, true, false, none, some,
  arith, leb,
}
use ebpfmanager.State.{reset, initialized, running}
use ebpfmanager.Errors.{Error, Fault, quoting, probe_not_initialized}
use ebpfmanager.System.{System}
use ebpfmanager.Probe.{Probe}
use ebpfmanager.Probe.Kinds.{attach_by_type}
use ebpfmanager.Probe.Detach.{Retry, stop_probe, reset_probe}
use ebpfmanager.Probe.Attach.{attach_once, attempt, attach, settle, forgive}
use ebpfmanager.Probe.Lifecycle.{attach_by_type-same, attach_once-settle, attempt_never_forgives}
use ebpfmanager.Probe.Retrying.{IsRetry, counted}

-- A running probe has used up its attempts.
abbrev pub HasSpent : Probe → Type 0
HasSpent p = leb p.probe_retry p.attach_retry_attempt ≡ true

abbrev pub SameLimits : Probe → Probe → Type 0
SameLimits p q = (q.enabled ≡ p.enabled) × (q.probe_retry ≡ p.probe_retry)

-- What an attempt returns, and the probe after it.
abbrev pub Attached : Probe → Fault × Probe → Type 0
Attached p (e, q) = SameLimits p q × (e ≡ none) × (q.state ≡ running) × HasSpent q

abbrev pub Refused : Probe → Fault × Probe → Type 0
Refused p (e, q) = SameLimits p q × (e ≢ none) × ((q.state ≡ initialized) ⊎ (q.state ≡ reset))

from_limits :
    (p q : Probe) (r : Fault × Probe)
    → SameLimits p q
    → Attached q r ⊎ Refused q r
    → Attached p r ⊎ Refused p r
from_limits p q r l h = ground arith

module _ (sys : System) (retry : Retry) where
  stop_state :
      (p : Probe) (w : sys.World)
      → p.state ≡ initialized
      → let q = (stop_probe sys retry false (p, w)).1.0 in
        SameLimits p q × ((q.state ≡ initialized) ⊎ (q.state ≡ reset))
  unfolding stop_probe reset_probe
  stop_state p w s = ground arith

  settle_phase :
      (err : Fault) (p : Probe) (w : sys.World)
      → p.state ≡ initialized
      → let r = settle sys retry err (p, w) in Attached p (r.0, r.1.0) ⊎ Refused p (r.0, r.1.0)
  unfolding settle
  settle_phase none p w s = inl ((refl, refl), refl, refl, ground arith)
  settle_phase (some e) p w s =
      let (limits, ends) = stop_state (record p { last_error = some e }) w s in
      inr (limits, λ z. cc, ends)

  attempt_settled :
      (permanent : Error → Bool) (p : Probe) (w : sys.World)
      → ((e : Error) → permanent (quoting e) ≡ false)
      → permanent probe_not_initialized ≡ false
      → p.enabled ≡ true
      → p.state ≡ initialized
      → let r = attempt sys retry permanent (p, w) in
        Attached p (r.0, r.1.0) ⊎ Refused p (r.0, r.1.0)
  attempt_settled permanent p w t u h s =
      let (err, (q, v)) = attach_by_type sys p.program_type (counted p, w) in
      let same = attach_by_type-same sys p.program_type (counted p) w in
      let result = settle sys retry err (q, v) in
      rw (attempt_never_forgives sys retry permanent p w t u) (
        rw (attach_once-settle sys retry (counted p) w h s) (
          from_limits p q (result.0, result.1.0)
            (ap (λ (x : Probe). x.enabled) same, ap (λ (x : Probe). x.probe_retry) same)
            (settle_phase err q v (ap (λ (x : Probe). x.state) same ∙ s))))

  attempt_reset :
      (permanent : Error → Bool) (p : Probe) (w : sys.World)
      → permanent probe_not_initialized ≡ false
      → p.enabled ≡ true
      → p.state ≡ reset
      → let r = attempt sys retry permanent (p, w) in
        SameLimits p r.1.0 × (r.0 ≢ none) × (r.1.0.state ≡ reset)
  unfolding attempt attach_once forgive
  attempt_reset permanent p w t h s = ground arith

  attempt_running :
      (permanent : Error → Bool) (p : Probe) (w : sys.World)
      → p.state ≡ running
      → attempt sys retry permanent (p, w) ≡ (none, (counted p, w))
  unfolding attempt attach_once forgive
  attempt_running permanent p w s = ground arith

module _ (sys : System) (retry : Retry) (law : IsRetry retry) (permanent : Error → Bool) where
  module _ (t : (e : Error) → permanent (quoting e) ≡ false)
      (u : permanent probe_not_initialized ≡ false) where
    reset_loop :
        (n : ℕ) (p : Probe) (w : sys.World)
        → p.enabled ≡ true
        → p.state ≡ reset
        → let r = retry (Probe × sys.World) (suc n) (attempt sys retry permanent) (p, w) in
          SameLimits p r.1.0 × (r.0 ≢ none) × (r.1.0.state ≡ reset)
    reset_loop zero p w h s =
        rw (law.last_failure _ (attempt sys retry permanent) (p, w))
          (attempt_reset sys retry permanent p w u h s)
    reset_loop (suc n) p w h s =
        let (limits, fails, stays) = attempt_reset sys retry permanent p w u h s in
        elim (Option-cases (attempt sys retry permanent (p, w)).0) [
          | inl e ↦ absurd (fails e)
          | inr (err, e) ↦
              let (q, v) = (attempt sys retry permanent (p, w)).1 in
              let (limits', fails', stays') = reset_loop n q v (limits.0 ∙ h) stays in
              rw (law.again _ n (attempt sys retry permanent) (p, w) err e)
                ((limits'.0 ∙ limits.0, limits'.1 ∙ limits.1), fails', stays')
        ]

    -- The first attempt finds a running probe and keeps it, but for the count.
    running_attempt :
        (n : ℕ) (p : Probe) (w : sys.World)
        → p.state ≡ running
        → retry (Probe × sys.World) (suc n) (attempt sys retry permanent) (p, w)
          ≡ (none, (counted p, w))
    running_attempt n p w s =
        let e = attempt_running sys retry permanent p w s in
        law.first_success _ n (attempt sys retry permanent) (p, w) (ap (λ r. r.0) e) ∙ e

    initialized_loop :
        (n : ℕ) (p : Probe) (w : sys.World)
        → p.enabled ≡ true
        → p.state ≡ initialized
        → let r = retry (Probe × sys.World) (suc n) (attempt sys retry permanent) (p, w) in
          Attached p (r.0, r.1.0) ⊎ Refused p (r.0, r.1.0)
    initialized_loop zero p w h s =
        rw (law.last_failure _ (attempt sys retry permanent) (p, w))
          (attempt_settled sys retry permanent p w t u h s)
    initialized_loop (suc n) p w h s = elim (attempt_settled sys retry permanent p w t u h s) [
      | inl (limits, e, runs, spent) ↦
          rw (law.first_success _ (suc n) (attempt sys retry permanent) (p, w) e)
            (inl (limits, e, runs, spent))
      | inr (limits, fails, ends) ↦ elim (Option-cases (attempt sys retry permanent (p, w)).0) [
        | inl e ↦ absurd (fails e)
        | inr (err, e) ↦
            let (q, v) = (attempt sys retry permanent (p, w)).1 in
            let r = retry (Probe × sys.World) (suc n) (attempt sys retry permanent) (q, v) in
            rw (law.again _ n (attempt sys retry permanent) (p, w) err e) (
              from_limits p q (r.0, r.1.0) limits
                (elim ends [
                  | inl i ↦ initialized_loop n q v (limits.0 ∙ h) i
                  | inr z ↦
                      let (limits', fails', stays) = reset_loop n q v (limits.0 ∙ h) z in
                      inr (limits', fails', inr stays)
                ]))
      ]
    ]

    -- `Attach` on an enabled probe, by its state: from `initialized` it ends running or with an error, from
    -- `reset` with an error, and a running probe it leaves as it is, but for the count of its attempts.
    pub attach_phases :
        (p : Probe) (w : sys.World)
        → p.probe_retry ≢ 0
        → p.enabled ≡ true
        → let r = attach sys retry permanent (p, w) in
          (p.state ≡ initialized → Attached p (r.0, r.1.0) ⊎ Refused p (r.0, r.1.0))
          × (p.state ≡ reset → SameLimits p r.1.0 × (r.0 ≢ none) × (r.1.0.state ≡ reset))
          × (p.state ≡ running → r ≡ (none, (counted p, w)))
    unfolding attach
    attach_phases p w z h = phases p.probe_retry z
      where
        phases :
            (n : ℕ)
            → n ≢ 0
            → let r = retry (Probe × sys.World) n (attempt sys retry permanent) (p, w) in
              (p.state ≡ initialized → Attached p (r.0, r.1.0) ⊎ Refused p (r.0, r.1.0))
              × (p.state ≡ reset → SameLimits p r.1.0 × (r.0 ≢ none) × (r.1.0.state ≡ reset))
              × (p.state ≡ running → r ≡ (none, (counted p, w)))
        phases zero z = absurd (z refl)
        phases (suc m) z = (initialized_loop m p w h, reset_loop m p w h, running_attempt m p w)
