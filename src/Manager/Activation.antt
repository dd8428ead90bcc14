-- ===== src/Manager/Activation.antt =====
-- What `activateProbes` of manager.go enables, and what that means for the check at the start.
pub mod Chosen
use ebpfmanager.Common.{
  Bool, ◌||◌, any, str_eq, ◌≡◌, ◌≢◌, refl, sym, true, false, ◌&&◌, not, String, str_eq→eq, List, [],
  ◌∷◌, ◌++◌, map, none, some, if◌then◌else◌, arith, append_assoc, append-nil, some_eq, Bool-cases,
  inl, inr, ◌⊎◌, ap, ◌∙◌,
}
use ebpfmanager.Probe.{
  Probe, ProbeIdentificationPair, get_identification_pair, identification_pair_matches,
}
use ebpfmanager.Selectors.{
  Selector, probe_selector, get_probes_identification_pair_list, get_probe, run_validator,
}
use ebpfmanager.Selectors.Validation.{run_validator_iff}
use ebpfmanager.Manager.{
  Manager, mark_pairs, mark_selectors, unmark_excluded, activate_loop, activate_probes, is_nil,
}

-- Whether a selector has the pair of the probe, and whether its function is excluded.
abbrev pub selected_by : List Selector → Probe → Bool
selected_by selectors p =
    any (λ s. any (λ id. identification_pair_matches p id) (get_probes_identification_pair_list s))
      selectors

abbrev excludes : List String → String → Bool
excludes excluded name = any (λ n. str_eq name n) excluded

abbrev pub is_excluded : List String → Probe → Bool
is_excluded excluded p = excludes excluded p.ebpf_func_name

-- The inner loops compute these tests.
mark_pairs_lem :
    (p : Probe) (ids : List ProbeIdentificationPair) (b : Bool)
    → mark_pairs p ids b ≡ (b || any (λ id. identification_pair_matches p id) ids)
unfolding mark_pairs
mark_pairs_lem p [] b = ground arith
mark_pairs_lem p (id ∷ ids) b =
    mark_pairs_lem p ids (if identification_pair_matches p id then true else b) ∙ ground arith

mark_selectors_lem :
    (p : Probe) (ss : List Selector) (b : Bool) → mark_selectors p ss b ≡ (b || selected_by ss p)
unfolding mark_selectors
mark_selectors_lem p [] b = ground arith
mark_selectors_lem p (s ∷ ss) b =
    mark_selectors_lem p ss (mark_pairs p (get_probes_identification_pair_list s) b)
    ∙ ap (λ c. c || selected_by ss p) (mark_pairs_lem p (get_probes_identification_pair_list s) b)
    ∙ ground arith

unmark_excluded_lem :
    (p : Probe) (excluded : List String) (b : Bool)
    → unmark_excluded p excluded b ≡ (b && not (is_excluded excluded p))
unfolding unmark_excluded
unmark_excluded_lem p [] b = ground arith
unmark_excluded_lem p (n ∷ ns) b =
    unmark_excluded_lem p ns (if str_eq p.ebpf_func_name n then false else b) ∙ ground arith

decision :
    (p : Probe) (excluded : List String) (ss : List Selector) (b : Bool)
    → unmark_excluded p excluded (mark_selectors p ss b)
      ≡ ((b || selected_by ss p) && not (is_excluded excluded p))
decision p excluded ss b =
    unmark_excluded_lem p excluded (mark_selectors p ss b)
    ∙ ap (λ c. c && not (is_excluded excluded p)) (mark_selectors_lem p ss b)

-- The probe as the selectors and the excluded functions make it.
abbrev pub decided : List Selector → List String → Probe → Probe
decided selectors excluded p = record p {
  enabled = selected_by selectors p && not (is_excluded excluded p);
}

abbrev pub by_default : List String → Probe → Probe
by_default excluded p = record p { enabled = not (is_excluded excluded p) }

abbrev pub selector_of : Probe → Selector
selector_of p = probe_selector (get_identification_pair p)

loop_selected :
    (excluded : List String) (ss : List Selector) (ps : List Probe)
    → activate_loop false excluded ss ps ≡ (map (decided ss excluded) ps, ss)
unfolding activate_loop
loop_selected excluded ss [] = refl
loop_selected excluded ss (p ∷ ps) =
    rw (loop_selected excluded ss ps, decision p excluded ss false) refl

loop_default :
    (excluded : List String) (ss : List Selector) (ps : List Probe)
    → activate_loop true excluded ss ps ≡ (map (by_default excluded) ps, ss ++ map selector_of ps)
unfolding activate_loop
loop_default excluded ss [] = rw append-nil refl
loop_default excluded ss (p ∷ ps) =
    rw (loop_default excluded (ss ++ selector_of p ∷ []) ps, decision p excluded ss true)
      (rw append_assoc refl)

pub nil-cases : (ss : List Selector) → (ss ≡ []) ⊎ (is_nil ss ≡ false)
nil-cases [] = inl refl
nil-cases (s ∷ ss) = inr refl

-- With selectors a probe is enabled exactly if one of them names it and its function is not
-- excluded; with none every probe is enabled whose function is not, and each probe gets a selector.
-- Nothing else of the probes changes.
pub activate_probes_formula :
    (m : Manager)
    → activate_probes m ≡ (
        if is_nil m.activated_probes
        then record m {
          probes = map (by_default m.excluded_ebpf_funcs) m.probes;
          activated_probes = map selector_of m.probes;
        }
        else record m { probes = map (decided m.activated_probes m.excluded_ebpf_funcs) m.probes })
unfolding activate_probes
activate_probes_formula m = elim (nil-cases m.activated_probes) [
  | inl h ↦ rw (ap is_nil h) (rw loop_default (rw h refl))
  | inr h ↦ rw h (rw loop_selected refl)
]

matches_name :
    (p : Probe) (id : ProbeIdentificationPair)
    → identification_pair_matches p id ≡ true
    → p.ebpf_func_name ≡ id.ebpf_func_name
unfolding identification_pair_matches
matches_name p id h = str_eq→eq p.ebpf_func_name id.ebpf_func_name (ground arith)

-- A probe that is found has the function name that was looked for.
found_name :
    (excluded : List String) (ps : List Probe) (id : ProbeIdentificationPair) (q : Probe)
    → get_probe (map (by_default excluded) ps) id ≡ some q
    → q.enabled ≡ not (excludes excluded id.ebpf_func_name)
unfolding get_probe
found_name excluded [] id q h = absurd (cc)
found_name excluded (p ∷ ps) id q h =
    elim (Bool-cases (identification_pair_matches (by_default excluded p) id)) [
      | inl e ↦
          let same : by_default excluded p ≡ q = some_eq (rw e at h) in
          ap (λ (x : Probe). x.enabled) (sym same)
          ∙ ap (λ s. not (excludes excluded s)) (matches_name (by_default excluded p) id e)
      | inr e ↦ found_name excluded ps id q (rw e at h)
    ]

-- With no selectors, the selector that `activateProbes` makes of a probe with an excluded function
-- reports an error.
pub default_excluded_fails :
    (m : Manager) (p : Probe)
    → m.activated_probes ≡ []
    → is_excluded m.excluded_ebpf_funcs p ≡ true
    → run_validator (activate_probes m).probes (selector_of p) ≢ none
default_excluded_fails m p h x e =
    let ps : List Probe = map (by_default m.excluded_ebpf_funcs) m.probes in
    let same : (activate_probes m).probes ≡ ps =
      ap (λ (n : Manager). n.probes) (activate_probes_formula m) ∙ rw h refl in
    let (q, found, runs, on) = (run_validator_iff ps (selector_of p)).0 (rw same at e) in
    let off = found_name m.excluded_ebpf_funcs m.probes (get_identification_pair p) q found in
    cc (x, on, off)
