-- ===== src/Manager/Run/Stopping.antt =====
-- What `Stop` guarantees if it gives no error.
use ebpfmanager.Common.{
  ℕ, ◌≡◌, refl, true, List, [], ◌∷◌, map, none, some, arith, All, ap, ap₂, ◌∙◌, sym, leb,
  if◌then◌else◌, inl, inr,
}
use ebpfmanager.State.{running, reset, before}
use ebpfmanager.Errors.{Fault, concat_errors-eq-none}
use ebpfmanager.System.{System}
use ebpfmanager.Probe.{Probe}
use ebpfmanager.Probe.Detach.{Retry}
use ebpfmanager.Probe.Detach
use ebpfmanager.Probe.Lifecycle.{stop_resets}
use ebpfmanager.Map.{ManagedMap, close_checked, should_close, reset_map}
use ebpfmanager.Map.Lifecycle.{close_checked_lem}
use ebpfmanager.Manager.Run.{Fleet, requote, stop_probes, close_maps, stop_fleet, stop_manager}

-- A probe that runs has used up its attempts, as an attach that succeeds makes it.
abbrev pub Spent : Probe → Type 0
Spent p = p.state ≡ running → leb p.probe_retry p.attach_retry_attempt ≡ true

abbrev pub IsReset : Probe → Type 0
IsReset p = (p.state ≡ reset) × (p.program ≡ none) × (p.link ≡ none)

abbrev pub cleaned : ℕ → ManagedMap → ManagedMap
cleaned cleanup m = if should_close m cleanup then reset_map m else m

requote-eq-none : (e : Fault) → requote e ≡ none → e ≡ none
requote-eq-none none h = refl
requote-eq-none (some e) h = absurd (cc)

module _ (sys : System) where
  close_maps-cleaned :
      (cleanup : ℕ) (ms : List ManagedMap) (w : sys.World)
      → (close_maps sys cleanup ms w).0 ≡ none
      → (close_maps sys cleanup ms w).1 ≡ map (cleaned cleanup) ms
  unfolding close_maps
  close_maps-cleaned cleanup [] w h = refl
  close_maps-cleaned cleanup (m ∷ ms) w h =
      let (e, e') = concat_errors-eq-none _ _ h in
      elim (close_checked_lem sys m cleanup w) [
        | inl f ↦ absurd (f.0 (requote-eq-none _ e))
        | inr f ↦
            ap₂ (λ x xs. x ∷ xs) f.1
              (close_maps-cleaned cleanup ms (close_checked sys m cleanup w).2 e')
      ]

  module _ (retry : Retry) where
    stop_probes-IsReset :
        (ps : List Probe) (w : sys.World)
        → All Spent ps
        → (stop_probes sys retry ps w).0 ≡ none
        → All IsReset (stop_probes sys retry ps w).1
    unfolding stop_probes
    stop_probes-IsReset [] w s h = tt
    stop_probes-IsReset (p ∷ ps) w s h =
        let (e, e') = concat_errors-eq-none _ _ h in
        let (state, program, link, uid, enabled) =
          stop_resets sys retry p w s.0 (requote-eq-none _ e) in
        ((state, program, link), stop_probes-IsReset ps (Detach.stop sys retry (p, w)).1.1 s.1 e')

    -- The manager and its probes are reset, and the maps that the clean up covers.
    abbrev pub IsStopped : ℕ → Fleet → Fleet → Type 0
    IsStopped cleanup before after =
        (after.state ≡ reset)
        × All IsReset after.probes
        × (after.maps ≡ map (cleaned cleanup) before.maps)

    stop_fleet-IsStopped :
        (close_rest : sys.World → Fault × sys.World) (cleanup : ℕ) (f : Fleet) (w : sys.World)
        → All Spent f.probes
        → (stop_fleet sys retry close_rest cleanup f w).0 ≡ none
        → IsStopped cleanup f (stop_fleet sys retry close_rest cleanup f w).1
    unfolding stop_fleet
    stop_fleet-IsStopped close_rest cleanup f w s h =
        let (e123, e4) = concat_errors-eq-none _ _ h in
        let (e12, e3) = concat_errors-eq-none _ _ e123 in
        let (e1, e2) = concat_errors-eq-none _ _ e12 in
        (refl, stop_probes-IsReset f.probes _ s e2, close_maps-cleaned cleanup f.maps _ e3)

    stop_passed :
        (close_rest : sys.World → Fault × sys.World) (cleanup : ℕ) (f : Fleet) (w : sys.World)
        → (stop_manager sys retry close_rest cleanup f w).0 ≡ none
        → stop_manager sys retry close_rest cleanup f w
          ≡ stop_fleet sys retry close_rest cleanup f w
    unfolding stop_manager
    stop_passed close_rest cleanup f w h = ground arith

    -- If `Stop` gives no error, and the probes that run have used up their attempts, then the manager
    -- and all its probes are reset, and its maps are those from before with the ones reset that the
    -- clean up covers.
    pub stop_manager-IsStopped :
        (close_rest : sys.World → Fault × sys.World) (cleanup : ℕ) (f : Fleet) (w : sys.World)
        → All Spent f.probes
        → (stop_manager sys retry close_rest cleanup f w).0 ≡ none
        → IsStopped cleanup f (stop_manager sys retry close_rest cleanup f w).1
    stop_manager-IsStopped close_rest cleanup f w s h =
        let e = stop_passed close_rest cleanup f w h in
        rw e (stop_fleet-IsStopped close_rest cleanup f w s (sym (ap (λ x. x.0) e) ∙ h))
