-- ===== src/Examples/RetryExamples.antt =====
-- Probes on a kernel that turns them down a number of times.
use ebpfmanager.Common.{
  ℕ, zero, suc, ◌<◌, ◌≡◌, ◌≢◌, refl, sym, subst, String, none, some, Option, arith,
}
use ebpfmanager.State.{running}
use ebpfmanager.Errors.{Fault, external, concat_errors}
use ebpfmanager.System.{System}
use ebpfmanager.Probe.{Probe}
use ebpfmanager.Probe.Kinds.{attach_by_type, keep_link}
use ebpfmanager.Probe.Detach.{detach_once, close_link, stop_probe, detach_retry, close_spent}
use ebpfmanager.Probe.Attach.{attach, attempt, attach_once, settle}
use ebpfmanager.Probe.Retrying.{IsRetry, Relents, SameSetup, attach_relenting}
use ebpfmanager.Examples.Data.{counting, retry, mkdir_probe, is_permanent}

-- The world is the number of times that a program is still turned down.
abbrev request : ℕ → Fault × ℕ × ℕ
request zero = (none, 9, zero)
request (suc n) = (some (external 11), 0, n)

abbrev pub hesitant : System
hesitant = record counting {
  remove = λ s w. (none, w);
  close_program = λ p w. (none, w);
  close_link = λ l w. (none, w);
  attach = λ r w. request w;
}

abbrev never : System
never = record hesitant { attach = λ r w. (some (external 11), 0, w) }

pub retry-IsRetry : IsRetry retry
retry-IsRetry = record {
  first_success = success;
  last_failure = λ S f s. refl;
  again = λ S n f s e h. rw (retry, h) refl;
}
  where
    success :
        (S : Type 0) (n : ℕ) (f : S → Fault × S) (s : S)
        → (f s).0 ≡ none
        → retry S (suc n) f s ≡ f s
    success S zero f s h = refl
    success S (suc n) f s h = rw (retry, h) refl

-- The probe as attempts leave it.
abbrev tried : Option ℕ → String → Fault → ℕ → Probe
tried l f e n = record mkdir_probe {
  link = l;
  func_name = f;
  last_error = e;
  attach_retry_attempt = n;
}

by_setup :
    (P : Probe → Type 0)
    → ((l : Option ℕ) (f : String) (e : Fault) (n : ℕ) → P (tried l f e n))
    → (q : Probe) → SameSetup mkdir_probe q
    → P q
by_setup P h q same = subst P (sym same) (h q.link q.func_name q.last_error q.attach_retry_attempt)

pub hesitant-accepts :
    (q : Probe) (v : ℕ)
    → SameSetup mkdir_probe q
    → v ≡ 0
    → (attach_by_type hesitant q.program_type (q, v)).0 ≡ none
unfolding attach_by_type keep_link
hesitant-accepts q v same z =
    by_setup (λ x. (attach_by_type hesitant x.program_type (x, v)).0 ≡ none) (λ l f e n. rw z refl)
      q same

nearer-tried :
    (l : Option ℕ) (f : String) (e : Fault) (n v : ℕ)
    → v ≢ 0
    → (attempt hesitant retry is_permanent (tried l f e n, v)).1.1 < v
unfolding attempt attach_once settle attach_by_type keep_link stop_probe close_spent detach_retry
    detach_once close_link concat_errors
nearer-tried l f e n zero z = absurd (z refl)
nearer-tried none f e n (suc v) z = ground arith
nearer-tried (some l) f e n (suc v) z = ground arith

pub hesitant-nearer :
    (q : Probe) (v : ℕ)
    → SameSetup mkdir_probe q
    → v ≢ 0
    → (attempt hesitant retry is_permanent (q, v)).1.1 < v
hesitant-nearer q v same z =
    by_setup (λ x. (attempt hesitant retry is_permanent (x, v)).1.1 < v)
      (λ l f e n. nearer-tried l f e n v z) q same

abbrev pub hesitation : Relents hesitant retry is_permanent mkdir_probe
hesitation = record { refusals = λ v. v; accepts = hesitant-accepts; nearer = hesitant-nearer }

-- Turned down once, of two attempts.
attach_relenting_example :
    let (err, (p', w')) = attach hesitant retry is_permanent (mkdir_probe, 1) in
    (err ≡ none) × (p'.state ≡ running)
attach_relenting_example =
    attach_relenting hesitant retry retry-IsRetry is_permanent mkdir_probe 1 hesitation (λ e. refl)
      refl refl (λ e. cc) refl (omega arith)
