-- ===== src/Manager/Run/Starting.antt =====
-- What `Start` guarantees if it gives no error.
use ebpfmanager.Common.{◌≡◌, refl, Bool, false, List, [], ◌∷◌, none, arith, All, ap, ◌∙◌, sym}
use ebpfmanager.State.{running, reached}
use ebpfmanager.Errors.{Error, Fault, concat_errors-eq-none}
use ebpfmanager.System.{System}
use ebpfmanager.Probe.{Probe}
use ebpfmanager.Probe.Detach.{Retry}
use ebpfmanager.Selectors.{Selector, run_validator}
use ebpfmanager.Selectors.Validation.{Satisfied, run_validator_iff}
use ebpfmanager.Manager.Run.{
  Fleet, validate_all, start_rings, attach_probes, undo, start_checks, start_manager,
}

pub validate_all_sound :
    (ps : List Probe) (ss : List Selector) → validate_all ps ss ≡ none → All (Satisfied ps) ss
unfolding validate_all
validate_all_sound ps [] h = tt
validate_all_sound ps (s ∷ ss) h =
    let (e, e') = concat_errors-eq-none (run_validator ps s) (validate_all ps ss) h in
    ((run_validator_iff ps s).0 e, validate_all_sound ps ss e')

module _ (sys : System) (retry : Retry) (close_rest route : sys.World → Fault × sys.World) where
  start_checks_passed :
      (f : Fleet) (w : sys.World)
      → (start_checks sys retry close_rest route f w).0 ≡ none
      → (validate_all f.probes f.activated_probes ≡ none)
        × ((start_checks sys retry close_rest route f w).1 ≡ f)
        × ((route w).0 ≡ none)
  unfolding start_checks undo
  start_checks_passed f w h = (ground arith, ground arith, ground arith)

  -- The manager when its ring buffers are started and its probes attached.
  abbrev attached : (Error → Bool) → Fleet → sys.World → Fleet × sys.World
  attached permanent f w =
      let (e, rings, w1) = start_rings sys f.rings w in
      let (probes, w2) = attach_probes sys retry permanent f.probes w1 in
      (record f { state = running; rings = rings; probes = probes }, w2)

  start_passed :
      (permanent : Error → Bool) (f : Fleet) (w : sys.World)
      → reached f.state running ≡ false
      → (start_manager sys retry close_rest route permanent f w).0 ≡ none
      → start_manager sys retry close_rest route permanent f w
        ≡ start_checks sys retry close_rest route
            (attached permanent f w).0
            (attached permanent f w).1
  unfolding start_manager
  start_passed permanent f w r h = ground arith

  -- If `Start` gives no error on a manager that does not run, then the manager runs afterwards, and
  -- the goal of every activated selector is met by its probes.
  pub start_manager-Satisfied :
      (permanent : Error → Bool) (f : Fleet) (w : sys.World)
      → reached f.state running ≡ false
      → (start_manager sys retry close_rest route permanent f w).0 ≡ none
      → let (err, f', w') = start_manager sys retry close_rest route permanent f w in
        (f'.state ≡ running) × All (Satisfied f'.probes) f.activated_probes
  start_manager-Satisfied permanent f w r h =
      let e = start_passed permanent f w r h in
      let (valid, same, routed) =
        start_checks_passed (attached permanent f w).0 (attached permanent f w).1
          (ap (λ x. x.0) (sym e) ∙ h) in
      let left = ap (λ x. x.1) e ∙ same in
      (
        rw left refl,
        rw left (validate_all_sound (attached permanent f w).0.probes f.activated_probes valid),
      )
