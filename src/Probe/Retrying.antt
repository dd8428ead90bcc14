-- ===== src/Probe/Retrying.antt =====
-- `Attach` of probe.go over the attempts of `retry.Do`: when it ends with a running probe, and when with
-- an error.
pub mod Refused
use ebpfmanager.Common.{
  Option-cases, ℕ, zero, suc, ◌+◌, ◌<◌, ◌≤◌, ◌≡◌, ◌≢◌, refl, Bool, sym, ap, ◌∙◌, true, false, none,
  some, arith, leb, inl, inr,
}
use ebpfmanager.State.{initialized, running}
use ebpfmanager.Errors.{Error, Fault, quoting}
use ebpfmanager.System.{System}
use ebpfmanager.Probe.{Probe}
use ebpfmanager.Probe.Kinds.{attach_by_type}
use ebpfmanager.Probe.Detach.{Retry, stop_probe}
use ebpfmanager.Probe.Attach.{attach_once, attempt, attach, settle, forgive}
use ebpfmanager.Probe.Lifecycle.{SameButLink, attach_by_type-same, attach_once-settle}

-- What the documentation of `retry.Do` promises of a positive number of attempts: the first success
-- ends it, and so does the last failure, whose error is returned; any other failure is followed by the
-- attempts that are left.
pub record IsRetry (retry : Retry) : Type 1 where
  pub first_success :
      (S : Type 0) (n : ℕ) (f : S → Fault × S) (s : S) → (f s).0 ≡ none → retry S (suc n) f s ≡ f s
  pub last_failure : (S : Type 0) (f : S → Fault × S) (s : S) → retry S 1 f s ≡ f s
  pub again :
      (S : Type 0) (n : ℕ) (f : S → Fault × S) (s : S) (e : Error)
      → (f s).0 ≡ some e
      → retry S (suc (suc n)) f s ≡ retry S (suc n) f (f s).1

-- The second probe is the first but for what an attempt that fails changes.
abbrev pub SameSetup : Probe → Probe → Type 0
SameSetup p q = q ≡ record p {
  link = q.link;
  func_name = q.func_name;
  last_error = q.last_error;
  attach_retry_attempt = q.attach_retry_attempt;
}

-- The probe of an attempt, which counts it.
abbrev pub counted : Probe → Probe
counted p = record p { attach_retry_attempt = p.attach_retry_attempt + 1 }

pub same_counted : (p q : Probe) → SameSetup p q → SameSetup p (counted q)
same_counted p q same = ground arith

pub same_twice : (p q r : Probe) → SameSetup p q → SameSetup q r → SameSetup p r
same_twice p q r f g = ground arith

pub few_attempts :
    (p q : Probe) (m : ℕ)
    → SameSetup p q
    → q.attach_retry_attempt + suc (suc m) ≡ p.probe_retry
    → q.attach_retry_attempt + 1 < q.probe_retry
few_attempts p q m same count = let r = ap (λ (x : Probe). x.probe_retry) same in omega arith

module _ (sys : System) (retry : Retry) where
  forgive-none :
      (permanent : Error → Bool) (err : Fault) → err ≡ none → forgive sys retry permanent err ≡ none
  unfolding forgive
  forgive-none permanent err h = rw h refl

  settle-none :
      (err : Fault) (p : Probe) (w : sys.World)
      → err ≡ none
      → settle sys retry err (p, w)
        ≡ (none, (record p { state = running; attach_retry_attempt = p.probe_retry }, w))
  unfolding settle
  settle-none err p w h = rw h refl

  -- `stop` while attempts are left keeps the probe.
  stop-unspent :
      (p : Probe) (w : sys.World)
      → leb p.probe_retry p.attach_retry_attempt ≡ false
      → (stop_probe sys retry false (p, w)).1.0 ≡ p
  unfolding stop_probe
  stop-unspent p w h = ground arith

  -- An attempt ends with a running probe where the kernel takes it.
  attempt-accepted :
      (permanent : Error → Bool) (p : Probe) (w : sys.World)
      → p.enabled ≡ true
      → p.state ≡ initialized
      → (attach_by_type sys p.program_type (counted p, w)).0 ≡ none
      → let (err, (p', w')) = attempt sys retry permanent (p, w) in
        (err ≡ none) × (p'.state ≡ running)
  unfolding attempt
  attempt-accepted permanent p w h s a =
      let (q, v) = (attach_by_type sys p.program_type (counted p, w)).1 in
      let e =
        attach_once-settle sys retry (counted p) w h s
        ∙ settle-none (attach_by_type sys p.program_type (counted p, w)).0 q v a in
      (forgive-none permanent _ (ap (λ r. r.0) e), ap (λ r. r.1.0.state) e)

  settle-refused :
      (err : Fault) (p : Probe) (w : sys.World) (e : Error)
      → err ≡ some e
      → leb p.probe_retry p.attach_retry_attempt ≡ false
      → let (err', (p', w')) = settle sys retry err (p, w) in
        (err' ≡ some (quoting e)) × (p' ≡ record p { last_error = some e })
  unfolding settle
  settle-refused err p w e h l = rw h (refl, stop-unspent (record p { last_error = some e }) w l)

  refused-SameSetup :
      (p q p' : Probe) (e : Error)
      → SameButLink sys (counted p) q
      → p' ≡ record q { last_error = some e }
      → SameSetup p p' × (p'.attach_retry_attempt ≡ p.attach_retry_attempt + 1)
  refused-SameSetup p q p' e h g = ground arith

  -- One that it refuses, with attempts left, changes little of the probe.
  pub attempt-refused :
      (permanent : Error → Bool) (p : Probe) (w : sys.World) (e : Error)
      → p.enabled ≡ true
      → p.state ≡ initialized
      → permanent (quoting e) ≡ false
      → p.attach_retry_attempt + 1 < p.probe_retry
      → (attach_by_type sys p.program_type (counted p, w)).0 ≡ some e
      → let (err, (p', w')) = attempt sys retry permanent (p, w) in
        (err ≡ some (quoting e))
        × SameSetup p p'
        × (p'.attach_retry_attempt ≡ p.attach_retry_attempt + 1)
  unfolding attempt forgive
  attempt-refused permanent p w e h s t l a =
      let r = attach_by_type sys p.program_type (counted p, w) in
      let same = attach_by_type-same sys p.program_type (counted p) w in
      let settled = settle-refused r.0 r.1.0 r.1.1 e a (
        rw (ap (λ (x : Probe). x.probe_retry) same)
          (rw (ap (λ (x : Probe). x.attach_retry_attempt) same) (ground arith))) in
      rw (attach_once-settle sys retry (counted p) w h s) (
        let (kept, count) = refused-SameSetup p r.1.0 _ e same settled.1 in
        rw (settled.0) (rw t (refl, kept, count)))

-- A kernel that turns down a probe at most `refusals` more times in a given world: with none left it
-- takes the probe, whatever the attempts before changed of it, and each attempt uses one up.
pub record Relents (sys : System) (retry : Retry) (permanent : Error → Bool) (p : Probe)
    : Type 0 where
  pub refusals : sys.World → ℕ
  pub accepts :
      (q : Probe) (v : sys.World)
      → SameSetup p q
      → refusals v ≡ 0
      → (attach_by_type sys q.program_type (q, v)).0 ≡ none
  pub nearer :
      (q : Probe) (v : sys.World)
      → SameSetup p q
      → refusals v ≢ 0
      → refusals (attempt sys retry permanent (q, v)).1.1 < refusals v

module _ (sys : System) (retry : Retry) (law : IsRetry retry) (permanent : Error → Bool) where
  abbrev Ends : Fault × (Probe × sys.World) → Type 0
  Ends r = (r.0 ≡ none) × (r.1.0.state ≡ running)

  refusals_left :
      (p : Probe) (kernel : Relents sys retry permanent p) (q : Probe) (v : sys.World) (e : Error)
      → SameSetup p q
      → (attach_by_type sys q.program_type (counted q, v)).0 ≡ some e
      → kernel.refusals v ≢ 0
  refusals_left p kernel q v e same a z =
      let taken = kernel.accepts (counted q) v (same_counted p q same) z in absurd (cc)

  relents_loop :
      (p : Probe) (kernel : Relents sys retry permanent p)
      → ((e : Error) → permanent (quoting e) ≡ false)
      → p.enabled ≡ true
      → p.state ≡ initialized
      → (m : ℕ) (q : Probe) (v : sys.World) → SameSetup p q
      → q.attach_retry_attempt + m ≡ p.probe_retry
      → kernel.refusals v < m
      → Ends (retry (Probe × sys.World) m (attempt sys retry permanent) (q, v))
  relents_loop p kernel t h s zero q v same count l = absurd (omega arith)
  relents_loop p kernel t h s (suc zero) q v same count l =
      let taken = kernel.accepts (counted q) v (same_counted p q same) (omega arith) in
      rw (law.last_failure _ (attempt sys retry permanent) (q, v)) (
        attempt-accepted sys retry permanent q v (ap (λ (x : Probe). x.enabled) same ∙ h)
          (ap (λ (x : Probe). x.state) same ∙ s) taken)
  relents_loop p kernel t h s (suc (suc m)) q v same count l =
      let h' = ap (λ (x : Probe). x.enabled) same ∙ h in
      let s' = ap (λ (x : Probe). x.state) same ∙ s in
      elim (Option-cases (attach_by_type sys q.program_type (counted q, v)).0) [
        | inl a ↦
            let done = attempt-accepted sys retry permanent q v h' s' a in
            rw (law.first_success _ (suc m) (attempt sys retry permanent) (q, v) done.0) done
        | inr (e, a) ↦
            let left = refusals_left p kernel q v e same a in
            let (error, kept, one) =
              attempt-refused sys retry permanent q v e h' s' (t e) (few_attempts p q m same count)
                a in
            rw (law.again _ m (attempt sys retry permanent) (q, v) _ error) (
              relents_loop p kernel t h s (suc m) (attempt sys retry permanent (q, v)).1.0
                (attempt sys retry permanent (q, v)).1.1 (same_twice p q _ same kept) (omega arith)
                (omega (arith, kernel.nearer q v same left)))
      ]

  -- An enabled and initialised probe that has a program spec, and whose count of attempts is 0, ends running
  -- with no error where the kernel takes it after fewer refusals than it has attempts.
  pub attach_relenting :
      (p : Probe) (w : sys.World) (kernel : Relents sys retry permanent p)
      → ((e : Error) → permanent (quoting e) ≡ false)
      → p.enabled ≡ true
      → p.state ≡ initialized
      → p.program_spec ≢ none
      → p.attach_retry_attempt ≡ 0
      → kernel.refusals w < p.probe_retry
      → let (err, (p', w')) = attach sys retry permanent (p, w) in
        (err ≡ none) × (p'.state ≡ running)
  unfolding attach
  attach_relenting p w kernel t h s has_spec z l =
      relents_loop p kernel t h s p.probe_retry p w refl (omega arith) l
