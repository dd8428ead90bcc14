-- ===== src/Selectors/Validation.antt =====
-- What `RunValidator` of manager.go and selectors.go checks.
use ebpfmanager.Common.{
  ◌≡◌, ◌↔◌, ◌≤◌, ◌<◌, ◌⊎◌, inl, inr, refl, true, List, Option, none, some, arith, Option-cases,
}
use ebpfmanager.State.{running}
use ebpfmanager.Probe.{Probe}
use ebpfmanager.Selectors.{
  Selector, Selectors, probe_selector, one_of, all_of, best_effort, nil, cons, get_probe,
  validate_probe, run_validator, count_errors, count_selectors,
}

-- The goal of a selector: a probe is enabled and runs; one of a list, or all of it, or nothing.
abbrev mutual
  pub Satisfied : List Probe → Selector → Type 0
  Satisfied ps (probe_selector id) =
      (p : Probe) × (get_probe ps id ≡ some p) × (p.state ≡ running) × (p.enabled ≡ true)
  Satisfied ps (one_of ss) = SomeSatisfied ps ss
  Satisfied ps (all_of ss) = AllSatisfied ps ss
  Satisfied ps (best_effort ss) = Unit {0}

  pub SomeSatisfied : List Probe → Selectors → Type 0
  SomeSatisfied ps nil = ⊥
  SomeSatisfied ps (cons s ss) = Satisfied ps s ⊎ SomeSatisfied ps ss

  pub AllSatisfied : List Probe → Selectors → Type 0
  AllSatisfied ps nil = Unit {0}
  AllSatisfied ps (cons s ss) = Satisfied ps s × AllSatisfied ps ss

validate_probe_sound :
    (o : Option Probe)
    → validate_probe o ≡ none
    → (p : Probe) × (o ≡ some p) × (p.state ≡ running) × (p.enabled ≡ true)
unfolding validate_probe
validate_probe_sound none h = absurd (cc)
validate_probe_sound (some p) h = (p, refl, ground arith, ground arith)

validate_probe_complete :
    (p : Probe) → p.state ≡ running → p.enabled ≡ true → validate_probe (some p) ≡ none
unfolding validate_probe
validate_probe_complete p r e = ground arith

count_errors-le : (ps : List Probe) (ss : Selectors) → count_errors ps ss ≤ count_selectors ss
unfolding run_validator
count_errors-le ps nil = omega arith
count_errors-le ps (cons s ss) = ground (arith, count_errors-le ps ss)

mutual
  unfolding run_validator

  sound : (ps : List Probe) (s : Selector) → run_validator ps s ≡ none → Satisfied ps s
  sound ps (probe_selector id) h = validate_probe_sound (get_probe ps id) h
  sound ps (one_of ss) h = sound_some ps ss (ground (arith, count_errors-le ps ss))
  sound ps (all_of ss) h = sound_all ps ss (ground arith)
  sound ps (best_effort ss) h = tt

  sound_some :
      (ps : List Probe) (ss : Selectors)
      → count_errors ps ss < count_selectors ss
      → SomeSatisfied ps ss
  sound_some ps nil h = absurd (omega arith)
  sound_some ps (cons s ss) h = elim (Option-cases (run_validator ps s)) [
    | inl e ↦ inl (sound ps s e)
    | inr (x, e) ↦ inr (sound_some ps ss (ground arith))
  ]

  sound_all : (ps : List Probe) (ss : Selectors) → count_errors ps ss ≡ 0 → AllSatisfied ps ss
  sound_all ps nil h = tt
  sound_all ps (cons s ss) h = (sound ps s (ground arith), sound_all ps ss (ground arith))

mutual
  unfolding run_validator

  complete : (ps : List Probe) (s : Selector) → Satisfied ps s → run_validator ps s ≡ none
  complete ps (probe_selector id) (p, e, r, en) = rw e (validate_probe_complete p r en)
  complete ps (one_of ss) h = ground (arith, complete_some ps ss h)
  complete ps (all_of ss) h = rw (complete_all ps ss h) refl
  complete ps (best_effort ss) h = refl

  complete_some :
      (ps : List Probe) (ss : Selectors)
      → SomeSatisfied ps ss
      → count_errors ps ss < count_selectors ss
  complete_some ps nil h = elim h [ ]
  complete_some ps (cons s ss) (inl h) = rw (complete ps s h) (omega (arith, count_errors-le ps ss))
  complete_some ps (cons s ss) (inr h) = ground (arith, complete_some ps ss h)

  complete_all : (ps : List Probe) (ss : Selectors) → AllSatisfied ps ss → count_errors ps ss ≡ 0
  complete_all ps nil h = refl
  complete_all ps (cons s ss) (h, hs) = rw (complete ps s h) (complete_all ps ss hs)

-- A selector reports no error exactly when its goal is met.
pub run_validator_iff :
    (ps : List Probe) (s : Selector) → (run_validator ps s ≡ none) ↔ Satisfied ps s
run_validator_iff ps s = (sound ps s, complete ps s)
