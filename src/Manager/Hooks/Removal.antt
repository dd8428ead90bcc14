-- ===== src/Manager/Hooks/Removal.antt =====
-- Which probe `DetachHook` removes.
use ebpfmanager.Common.{
  ℕ, zero, ◌≡◌, refl, Bool, true, false, String, List, [], ◌∷◌, ◌++◌, Option, none, some, arith,
  All, ltb, length, ap, sym, ◌∙◌,
}
use ebpfmanager.Errors.{Fault}
use ebpfmanager.System.{System}
use ebpfmanager.Probe.{Probe, ProbeIdentificationPair, identification_pair_matches}
use ebpfmanager.Probe.Detach.{Retry}
use ebpfmanager.Manager.Routes.{Loaded, programs_of}
use ebpfmanager.Manager.Hooks.{remove_at, detach_matching, detach_hook, release, later}

-- The pair is of none of the probes.
abbrev pub Unmatched : ProbeIdentificationPair → List Probe → Type 0
Unmatched id ps = All (λ p. identification_pair_matches p id ≡ false) ps

remove_later :
    (d : Option ℕ) (p : Probe) (ps : List Probe) → remove_at (later d) (p ∷ ps) ≡ p ∷ remove_at d ps
unfolding remove_at
remove_later none p ps = refl
remove_later (some n) p ps = refl

module _ (sys : System) (retry : Retry) where
  detach_matching-Unmatched :
      (s : Bool) (id : ProbeIdentificationPair) (ps : List Probe) (w : sys.World)
      → Unmatched id ps
      → detach_matching sys retry s id ps w ≡ (none, ps, none, w)
  unfolding detach_matching
  detach_matching-Unmatched s id [] w u = refl
  detach_matching-Unmatched s id (p ∷ ps) w u =
      rw u.0 (rw (detach_matching-Unmatched s id ps w u.1) refl)

  matched_step :
      (s : Bool) (id : ProbeIdentificationPair) (p : Probe) (after : List Probe) (w : sys.World)
      → identification_pair_matches p id ≡ true
      → Unmatched id after
      → (detach_matching sys retry s id (p ∷ after) w).0 ≡ none
      → detach_matching sys retry s id (p ∷ after) w
        ≡ (none, (release sys retry s p w).1.0 ∷ after, some zero, (release sys retry s p w).1.1)
  unfolding detach_matching
  matched_step s id p after w y u h =
      ground (arith, y, h, detach_matching-Unmatched s id after (release sys retry s p w).1.1 u)

  unmatched_step :
      (s : Bool) (id : ProbeIdentificationPair) (q : Probe) (ps : List Probe) (w : sys.World)
      → identification_pair_matches q id ≡ false
      → let (e, ps', d, w') = detach_matching sys retry s id ps w in
        detach_matching sys retry s id (q ∷ ps) w ≡ (e, q ∷ ps', later d, w')
  unfolding detach_matching
  unmatched_step s id q ps w n = rw n refl

  -- What the loop leaves, less the element that it marks.
  abbrev left_by : Fault × List Probe × Option ℕ × sys.World → List Probe
  left_by r = remove_at r.2 r.1

  removed :
      (s : Bool) (id : ProbeIdentificationPair) (before : List Probe) (p : Probe)
      (after : List Probe) (w : sys.World)
      → Unmatched id before
      → identification_pair_matches p id ≡ true
      → Unmatched id after
      → (detach_matching sys retry s id (before ++ p ∷ after) w).0 ≡ none
      → left_by (detach_matching sys retry s id (before ++ p ∷ after) w) ≡ before ++ after
  unfolding remove_at
  removed s id [] p after w v y u h = ap left_by (matched_step s id p after w y u h)
  removed s id (q ∷ before) p after w v y u h =
      let step = unmatched_step s id q (before ++ p ∷ after) w v.0 in
      ap left_by step
      ∙ remove_later (detach_matching sys retry s id (before ++ p ∷ after) w).2 q
          (detach_matching sys retry s id (before ++ p ∷ after) w).1
      ∙ ap (λ ps. q ∷ ps) (removed s id before p after w v.1 y u (sym (ap (λ r. r.0) step) ∙ h))

  hook_passed :
      (section uid : String) (m : Loaded) (w : sys.World)
      → (detach_hook sys retry section uid m w).0 ≡ none
      → let r =
          detach_matching sys retry
            (ltb 1 (length (programs_of section m.probes)))
            (record { uid = uid; ebpf_func_name = section })
            m.probes
            w in
        (r.0 ≡ none) × ((detach_hook sys retry section uid m w).1.probes ≡ left_by r)
  unfolding detach_hook
  hook_passed section uid m w h = (ground arith, ground arith)

  -- Where one probe has the pair of the section and the UID and no other does, `DetachHook` with no
  -- error leaves the other probes, as they were and in their order.
  pub detach_hook-Unmatched :
      (section uid : String) (m : Loaded) (w : sys.World) (before after : List Probe) (p : Probe)
      → m.probes ≡ before ++ p ∷ after
      → Unmatched (record { uid = uid; ebpf_func_name = section }) before
      → identification_pair_matches p (record { uid = uid; ebpf_func_name = section }) ≡ true
      → Unmatched (record { uid = uid; ebpf_func_name = section }) after
      → (detach_hook sys retry section uid m w).0 ≡ none
      → (detach_hook sys retry section uid m w).1.probes ≡ before ++ after
  detach_hook-Unmatched section uid m w before after p e v y u h =
      let s = ltb 1 (length (programs_of section m.probes)) in
      let id : ProbeIdentificationPair = record { uid = uid; ebpf_func_name = section } in
      let (ok, left) = hook_passed section uid m w h in
      left
      ∙ ap (λ ps. left_by (detach_matching sys retry s id ps w)) e
      ∙ removed s id before p after w v y u
          (sym (ap (λ ps. (detach_matching sys retry s id ps w).0) e) ∙ ok)
