-- ===== src/Probe/Init/Ready.antt =====
-- What `init` of probe.go leaves of a probe, with an error and without.
use ebpfmanager.Common.{
  Option-cases, ℕ, ◌≡◌, ◌≢◌, ◌⊎◌, inl, inr, refl, Bool, true, false, String, none, arith,
}
use ebpfmanager.State.{reset, initialized}
use ebpfmanager.Errors.{Fault}
use ebpfmanager.System.{System}
use ebpfmanager.Probe.{Probe}
use ebpfmanager.Probe.Kinds.{Step}
use ebpfmanager.Probe.Init.{
  Loader, ProbeOptions, and_then, attempts_of, match_func_name, check_probe, load_if_needed,
  find_program, find_spec, get_probe_program_spec, with_spec, pin_if_needed, find_function,
  find_interface, set_defaults, prepare, init_once, init_with_options, init,
}
use ebpfmanager.Manager.{contains}

module _ (sys : System) where
  abbrev pub Assertion : Type 1
  Assertion = Probe × sys.World → Type 0

  -- With no error the first assertion holds, with one the second.
  abbrev pub Outcome : Assertion → Assertion → Fault × (Probe × sys.World) → Type 0
  Outcome Q E r = ((r.0 ≡ none) × Q r.1) ⊎ ((r.0 ≢ none) × E r.1)

  -- From the first assertion, the step has this outcome.
  pub record Triple (P : Assertion) (f : Step sys) (Q E : Assertion) : Type 0 where
    pub holds : (s : Probe × sys.World) → P s → Outcome Q E (f s)

  module _ (loader : Loader sys) (o : ProbeOptions) where
    pub and_then-Triple :
        {P Q R E : Assertion} {f g : Step sys}
        → Triple P f Q E
        → Triple Q g R E
        → Triple P (and_then sys loader o f g) R E
    and_then-Triple {f = f} hf hg = record {
      holds = λ s p. elim (hf.holds s p) [
        | inl (n, q) ↦ rw (and_then, n) (hg.holds _ q)
        | inr (n, e) ↦ elim (Option-cases (f s).0) [
          | inl m ↦ absurd (n m)
          | inr (err, eq) ↦ rw (and_then, eq) (inr (λ z. cc, e))
        ]
      ];
    }

    -- What all steps keep: the probe is reset, and its name and numbers of attempts are those given.
    abbrev Base : String → ℕ → ℕ → Assertion
    Base name n k (q, w) =
        (q.state ≡ reset)
        × (match_func_name q ≡ name)
        × (q.probe_retry ≡ n)
        × (q.attach_retry_attempt ≡ k)
        × (q.enabled ≡ true)

    abbrev HasProgram : Assertion
    HasProgram (q, w) = q.program ≢ none

    abbrev HasSpec : String → Assertion
    HasSpec name (q, w) = (q.program_spec ≢ none) ⊎ (contains o.excluded_ebpf_funcs name ≡ true)

    abbrev Found : String → ℕ → ℕ → Assertion
    Found name n k s = Base name n k s × HasProgram s

    abbrev Described : String → ℕ → ℕ → Assertion
    Described name n k s = Found name n k s × HasSpec name s

    abbrev pub Pinned : String → ℕ → ℕ → Assertion
    Pinned name n k s = Described name n k s × (s.0.check_pin ≡ false)

    module _ (name : String) (n k : ℕ) where
      check-Triple :
          Triple (Base name n k) (check_probe sys loader o) (Base name n k) (Base name n k)
      unfolding check_probe
      check-Triple = record { holds = λ s h. ground arith }

      load-Triple :
          Triple (Base name n k) (load_if_needed sys loader o) (Base name n k) (Base name n k)
      unfolding load_if_needed match_func_name
      load-Triple = record { holds = λ s h. ground arith }

      find_program-Triple :
          Triple (Base name n k) (find_program sys loader o) (Found name n k) (Base name n k)
      unfolding find_program match_func_name
      find_program-Triple = record { holds = λ s h. ground arith }

      find_spec-Triple :
          Triple (Found name n k) (find_spec sys loader o) (Described name n k) (Base name n k)
      unfolding find_spec match_func_name with_spec get_probe_program_spec
      find_spec-Triple = record { holds = λ s h. ground arith }

      pin-Triple :
          Triple (Described name n k) (pin_if_needed sys loader o) (Pinned name n k) (Base name n k)
      unfolding pin_if_needed match_func_name
      pin-Triple = record { holds = λ s h. ground arith }

      function-Triple :
          Triple (Pinned name n k) (find_function sys loader o) (Pinned name n k) (Base name n k)
      unfolding find_function match_func_name
      function-Triple = record { holds = λ s h. ground arith }

      interface-Triple :
          Triple (Pinned name n k) (find_interface sys loader o) (Pinned name n k) (Base name n k)
      unfolding find_interface match_func_name
      interface-Triple = record { holds = λ s h. ground arith }

      prepare-Triple :
          Triple (Base name n k) (prepare sys loader o) (Pinned name n k) (Base name n k)
      unfolding prepare
      prepare-Triple = and_then-Triple check-Triple (
          and_then-Triple load-Triple (
            and_then-Triple find_program-Triple (
              and_then-Triple find_spec-Triple
                (and_then-Triple pin-Triple (and_then-Triple function-Triple interface-Triple)))))

      -- The probe is ready to be attached: it has all that `attach` reads, and its attempts count.
      abbrev Ready : Assertion
      Ready (q, w) =
          (q.state ≡ initialized)
          × (q.program ≢ none)
          × ((q.program_spec ≢ none) ⊎ (contains o.excluded_ebpf_funcs name ≡ true))
          × (q.check_pin ≡ false)
          × (q.probe_retry ≡ attempts_of sys loader o n)
          × (q.attach_retry_attempt ≡ k)
          × (q.enabled ≡ true)

      defaults-Triple : Triple (Pinned name n k) (set_defaults sys loader o) Ready (Base name n k)
      unfolding set_defaults
      defaults-Triple = record { holds = λ s h. ground arith }

      init_once-Triple : Triple (Base name n k) (init_once sys loader o) Ready (Base name n k)
      unfolding init_once
      init_once-Triple = and_then-Triple prepare-Triple defaults-Triple

    init_with_options-enabled :
        (p : Probe) (w : sys.World) (manual pin : Bool)
        → p.enabled ≡ true
        → init_with_options sys loader o manual pin (p, w)
          ≡ init_once sys loader o (
            record p {
              has_manager = true;
              state = reset;
              manual_load_needed = manual;
              check_pin = pin;
            },
            w,
          )
    unfolding init_with_options
    init_with_options-enabled p w manual pin h = ground arith

    pub init_cases :
        (p : Probe) (w : sys.World) (manual pin : Bool)
        → p.enabled ≡ true
        → let (err, (p', w')) = init_with_options sys loader o manual pin (p, w) in
          ((err ≡ none)
            × (p'.state ≡ initialized)
            × (p'.program ≢ none)
            × ((p'.program_spec ≢ none)
                ⊎ (contains o.excluded_ebpf_funcs (match_func_name p) ≡ true))
            × (p'.check_pin ≡ false)
            × (p'.probe_retry ≡ attempts_of sys loader o p.probe_retry)
            × (p'.attach_retry_attempt ≡ p.attach_retry_attempt)
            × (p'.enabled ≡ true))
          ⊎ ((err ≢ none)
              × (p'.state ≡ reset)
              × (p'.probe_retry ≡ p.probe_retry)
              × (p'.enabled ≡ true))
    unfolding match_func_name
    init_cases p w manual pin h =
        let ends =
          (init_once-Triple (match_func_name p) p.probe_retry p.attach_retry_attempt).holds
            (
              record p {
                has_manager = true;
                state = reset;
                manual_load_needed = manual;
                check_pin = pin;
              },
              w,
            )
            (refl, refl, refl, refl, h) in
        rw (init_with_options-enabled p w manual pin h) (elim ends [
          | inl (a, (b, c, d, e, f, g, i)) ↦ inl (a, b, c, d, e, f, g, i)
          | inr (a, (b, c, d, e, f)) ↦ inr (a, b, d, f)
        ])

    pub init-init_with_options :
        (p : Probe) (w : sys.World)
        → init sys loader o (p, w)
          ≡ init_with_options sys loader o p.manual_load_needed p.check_pin (p, w)
    unfolding init init_with_options
    init-init_with_options p w = refl
