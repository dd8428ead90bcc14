-- ===== src/Manager/Updating/Loops.antt =====
-- The two loops of `UpdateActivatedProbes` of manager.go.
use ebpfmanager.Common.{
  ℕ, zero, suc, ◌≡◌, inl, inr, refl, sym, ap, subst, Bool, true, false, ◌&&◌, ◌==◌, List, [], ◌∷◌,
  none, any, arith, Option-cases, Bool-cases,
}
use ebpfmanager.Errors.{Error, Fault}
use ebpfmanager.System.{System}
use ebpfmanager.Probe.{Probe, ProbeIdentificationPair, matches}
use ebpfmanager.Probe.Detach.{Retry}
use ebpfmanager.Probe.Init.{Loader, ProbeOptions}
use ebpfmanager.Probe.Lifecycle.{detach_cases}
use ebpfmanager.Manager.Routes.{Outcome, returned, panicked}
use ebpfmanager.Manager.Updating.{
  Entries, has_key, remove_key, index_of, update_at, enable_probe, disable_probe, enable_all,
  disable_all,
}
use ebpfmanager.Manager.Updating.Entries.{has_entry, enabled_at, remove_key-keeps}

abbrev pub entries_of : {A : Type 0} {B : Type 0} → A → Outcome (A × B) → A
entries_of es panicked = es
entries_of es (returned e (es', s)) = es'

abbrev pub is_returned : {W : Type 0} → Outcome W → Bool
is_returned panicked = false
is_returned (returned e w) = true

pub is_panic : {W : Type 0} {e : Fault} {w : W} → panicked ≡ returned e w → true ≡ false
is_panic h = sym (ap is_returned h)

module _ (sys : System) (loader : Loader sys) (o : ProbeOptions) (retry : Retry)
    (permanent : Error → Bool) where
  -- The loop over the selected pairs takes no other entry away.
  pub enable_all-keeps :
      (id : ProbeIdentificationPair) (i : ℕ) (ids : List ProbeIdentificationPair) (es : Entries)
      (s : List Probe × sys.World) (e : Fault) (es' : Entries) (s' : List Probe × sys.World)
      → any (λ k. matches k id) ids ≡ false
      → enable_all sys loader o retry permanent ids es s ≡ returned e (es', s')
      → has_entry id i es ≡ true
      → has_entry id i es' ≡ true
  unfolding enable_all
  enable_all-keeps id i [] es s e es' s' n r h =
      subst (λ x. has_entry id i x ≡ true) (ap (entries_of es) r) h
  enable_all-keeps id i (k ∷ ids) es (ps, w) e es' s' n r h = elim (Bool-cases (has_key k es)) [
    | inl b ↦
        enable_all-keeps id i ids (remove_key k es) (ps, w) e es' s' (ground arith) (rw b at r)
          (remove_key-keeps id k i es (ground arith) h)
    | inr b ↦ elim (Option-cases (index_of k ps)) [
      | inl f ↦ let z = is_panic (rw (b, f) at r) in absurd (cc)
      | inr (j, f) ↦
          let (e1, s1) = update_at sys j (enable_probe sys loader o retry permanent) (ps, w) in
          elim (Option-cases e1) [
            | inl g ↦ enable_all-keeps id i ids es s1 e es' s' (ground arith) (rw (b, f, g) at r) h
            | inr (err, g) ↦
                subst (λ x. has_entry id i x ≡ true) (ap (entries_of es) (rw (b, f, g) at r)) h
          ]
    ]
  ]

  disable_probe-disabled :
      (p : Probe) (w : sys.World)
      → let r = disable_probe sys loader o retry permanent (p, w) in
        (r.0 ≡ none → r.1.0.enabled ≡ false) × (p.enabled ≡ false → r.1.0.enabled ≡ false)
  unfolding disable_probe
  disable_probe-disabled p w = let cases = detach_cases sys retry p w in ground (arith, cases)

  update_at-disabled :
      (j : ℕ) (s : List Probe × sys.World)
      → let r = update_at sys j (disable_probe sys loader o retry permanent) s in
        r.0 ≡ none → enabled_at j r.1.0 ≡ false
  unfolding update_at enabled_at
  update_at-disabled j ([], w) e = refl
  update_at-disabled zero (p ∷ ps, w) e = (disable_probe-disabled p w).0 e
  update_at-disabled (suc j) (p ∷ ps, w) e = update_at-disabled j (ps, w) e

  update_at-keeps_disabled :
      (i j : ℕ) (s : List Probe × sys.World)
      → enabled_at i s.0 ≡ false
      → enabled_at i (update_at sys j (disable_probe sys loader o retry permanent) s).1.0 ≡ false
  unfolding update_at enabled_at
  update_at-keeps_disabled i j ([], w) h = h
  update_at-keeps_disabled zero zero (p ∷ ps, w) h = (disable_probe-disabled p w).1 h
  update_at-keeps_disabled (suc i) zero (p ∷ ps, w) h = h
  update_at-keeps_disabled zero (suc j) (p ∷ ps, w) h = h
  update_at-keeps_disabled (suc i) (suc j) (p ∷ ps, w) h = update_at-keeps_disabled i j (ps, w) h

  disable_all-keeps_disabled :
      (i : ℕ) (es : Entries) (s : List Probe × sys.World)
      → enabled_at i s.0 ≡ false
      → enabled_at i (disable_all sys loader o retry permanent es s).1.0 ≡ false
  unfolding disable_all
  disable_all-keeps_disabled i [] s h = h
  disable_all-keeps_disabled i ((k, j) ∷ es) s h =
      let (e1, s1) = update_at sys j (disable_probe sys loader o retry permanent) s in
      let kept = update_at-keeps_disabled i j s h in
      elim (Option-cases e1) [
        | inl g ↦ rw (disable_all, g) (disable_all-keeps_disabled i es s1 kept)
        | inr (err, g) ↦ rw (disable_all, g) kept
      ]

  same_index : (i j : ℕ) (b : Bool) → (b && j == i) ≡ true → j ≡ i
  same_index i j b h = ground arith

  -- The loop over the rest disables the probe of each entry.
  pub disable_all-disabled :
      (id : ProbeIdentificationPair) (i : ℕ) (es : Entries) (s : List Probe × sys.World)
      → has_entry id i es ≡ true
      → (disable_all sys loader o retry permanent es s).0 ≡ none
      → enabled_at i (disable_all sys loader o retry permanent es s).1.0 ≡ false
  unfolding disable_all
  disable_all-disabled id i [] s h e = absurd (cc)
  disable_all-disabled id i ((k, j) ∷ es) s h e =
      let (e1, s1) = update_at sys j (disable_probe sys loader o retry permanent) s in
      elim (Option-cases e1) [
        | inr (err, g) ↦ let z = rw (disable_all, g) at e in absurd (cc)
        | inl g ↦ elim (Bool-cases (matches k id && j == i)) [
          | inl b ↦
              rw (disable_all, g)
                (disable_all-keeps_disabled i es s1 (
                  subst (λ x. enabled_at x s1.0 ≡ false) (same_index i j (matches k id) b)
                    (update_at-disabled j s g)))
          | inr b ↦
              rw (disable_all, g)
                (disable_all-disabled id i es s1 (rw b at h) (rw (disable_all, g) at e))
        ]
      ]
