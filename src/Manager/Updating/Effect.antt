-- ===== src/Manager/Updating/Effect.antt =====
-- What `UpdateActivatedProbes` of manager.go does to the probes.
use ebpfmanager.Common.{
  ℕ, ◌≡◌, ◌⊎◌, inl, inr, refl, sym, ap, subst, Bool, true, false, List, [], ◌∷◌, ◌++◌, none, some,
  any, All, length, Option-cases,
}
use ebpfmanager.Errors.{Error, Fault}
use ebpfmanager.System.{System}
use ebpfmanager.Probe.{
  Probe, ProbeIdentificationPair, matches, get_identification_pair, identification_pair_matches,
}
use ebpfmanager.Probe.Detach.{Retry}
use ebpfmanager.Probe.Init.{Loader, ProbeOptions}
use ebpfmanager.Selectors.{Selector}
use ebpfmanager.Selectors.Validation.{Satisfied}
use ebpfmanager.Manager.Routes.{Outcome, returned, panicked}
use ebpfmanager.Manager.Run.{Fleet, validate_all, undo}
use ebpfmanager.Manager.Run.Starting.{validate_all_sound}
use ebpfmanager.Manager.Updating.{
  Entries, current_probes, next_probes, enable_all, disable_all, check_activation, disable_left,
  update_activated_probes,
}
use ebpfmanager.Manager.Updating.Entries.{
  has_entry, enabled_at, current_probes-has_entry, zero_plus,
}
use ebpfmanager.Manager.Updating.Loops.{enable_all-keeps, disable_all-disabled, is_panic}

abbrev fault_of : {W : Type 0} → Outcome W → Fault
fault_of panicked = none
fault_of (returned e w) = e

abbrev fleet_of : {W : Type 0} → Fleet → Outcome (Fleet × W) → Fleet
fleet_of f panicked = f
fleet_of f (returned e (f', w)) = f'

outcome_cases :
    {W : Type 0} (r : Outcome (Entries × W))
    → (r ≡ panicked) ⊎ ((e : Fault) × (es : Entries) × (w : W) × (r ≡ returned e (es, w)))
outcome_cases panicked = inl refl
outcome_cases (returned e (es, w)) = inr (e, es, w, refl)

module _ (sys : System) (loader : Loader sys) (o : ProbeOptions) (retry : Retry)
    (permanent : Error → Bool) (order : List ProbeIdentificationPair → List ProbeIdentificationPair)
    (order_left : Entries → Entries) (close_rest route : sys.World → Fault × sys.World) where
  check_activation_passed :
      (f f' : Fleet) (w w' : sys.World)
      → check_activation sys loader o retry permanent order order_left close_rest route f w
        ≡ returned none (f', w')
      → (validate_all f.probes f.activated_probes ≡ none) × (f ≡ f')
  unfolding check_activation undo
  check_activation_passed f f' w w' r =
      elim (Option-cases (validate_all f.probes f.activated_probes)) [
        | inl v ↦ (v, ap (fleet_of f) (rw (check_activation, v) at r))
        | inr (err, v) ↦ let z = ap fault_of (rw (check_activation, v) at r) in absurd (cc)
      ]

  disable_left_passed :
      (ss : List Selector) (f f' : Fleet) (e : Fault) (es : Entries) (s : List Probe × sys.World)
      (w' : sys.World)
      → disable_left sys loader o retry permanent order order_left close_rest route ss f e (es, s)
        ≡ returned none (f', w')
      → let r = disable_all sys loader o retry permanent (order_left es) s in
        (e ≡ none)
        × (r.0 ≡ none)
        × (record f { probes = r.1.0; activated_probes = ss } ≡ f')
        × (validate_all r.1.0 ss ≡ none)
  unfolding disable_left
  disable_left_passed ss f f' (some err) es s w' r = let z = ap fault_of r in absurd (cc)
  disable_left_passed ss f f' none es s w' r =
      let left = disable_all sys loader o retry permanent (order_left es) s in
      elim (Option-cases left.0) [
        | inr (err, g) ↦ let z = ap fault_of (rw (disable_left, g) at r) in absurd (cc)
        | inl g ↦
            let (valid, same) =
              check_activation_passed (record f { probes = left.1.0; activated_probes = ss }) f'
                left.1.1 w' (rw (disable_left, g) at r) in
            (refl, g, same, valid)
      ]

  -- Where `UpdateActivatedProbes` returns no error, the goals of the new selectors are met, and they are
  -- the activated ones; and a probe that was enabled, whose pair no later probe has and no selector
  -- names, is disabled, in whatever order the loops go that leaves no entry out.
  pub update_activated_probes-Satisfied :
      (ss : List Selector) (f f' : Fleet) (w w' : sys.World) (before : List Probe) (p : Probe)
      (after : List Probe)
      → ((id : ProbeIdentificationPair) (i : ℕ) (es : Entries)
          → has_entry id i es ≡ true
          → has_entry id i (order_left es) ≡ true)
      → f.probes ≡ before ++ p ∷ after
      → p.enabled ≡ true
      → any (λ q. identification_pair_matches q (get_identification_pair p)) after ≡ false
      → any (λ k. matches k (get_identification_pair p)) (order (next_probes ss [])) ≡ false
      → update_activated_probes sys loader o retry permanent order order_left close_rest route ss f
          w
        ≡ returned none (f', w')
      → All (Satisfied f'.probes) ss
        × (f'.activated_probes ≡ ss)
        × (enabled_at (length before) f'.probes ≡ false)
  unfolding update_activated_probes
  update_activated_probes-Satisfied ss f f' w w' before p after keeps split h n free r =
      let ids = order (next_probes ss []) in
      let es0 = current_probes 0 f.probes [] in
      let first = enable_all sys loader o retry permanent ids es0 (f.probes, w) in
      elim (outcome_cases first) [
        | inl e ↦ let z = is_panic (rw (update_activated_probes, e) at r) in absurd (cc)
        | inr (e, es, s, eq) ↦
            let (ok, done, same, valid) =
              disable_left_passed ss f f' e es s w' (rw (update_activated_probes, eq) at r) in
            let id = get_identification_pair p in
            let entered =
              subst (λ ps. has_entry id (length before) (current_probes 0 ps []) ≡ true) (sym split)
                (subst (λ i. has_entry id i (current_probes 0 (before ++ p ∷ after) []) ≡ true)
                  (zero_plus (length before)) (current_probes-has_entry 0 before p after [] h n)) in
            let left = keeps id (length before) es (
              enable_all-keeps sys loader o retry permanent id (length before) ids es0 (f.probes, w)
                e es s free eq entered) in
            let final = disable_all sys loader o retry permanent (order_left es) s in
            (
              subst (λ ps. All (Satisfied ps) ss) (ap (λ x. x.probes) same)
                  (validate_all_sound final.1.0 ss valid),
              ap (λ x. x.activated_probes) (sym same),
              subst (λ ps. enabled_at (length before) ps ≡ false) (ap (λ x. x.probes) same)
                  (disable_all-disabled sys loader o retry permanent id (length before)
                    (order_left es) s left done),
            )
      ]
