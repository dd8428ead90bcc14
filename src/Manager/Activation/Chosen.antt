-- ===== src/Manager/Activation/Chosen.antt =====
-- Which probes `activateProbes` of manager.go enables, said without its loops.
use ebpfmanager.Common.{
  Bool, true, false, ◌||◌, any, ◌≡◌, ◌↔◌, ◌⊎◌, inl, inr, refl, sym, ap, ◌∙◌, String, str_eq,
  str_eq→eq, str_eq_self, eq_iff, List, [], ◌∷◌, ◌++◌, map, if◌then◌else◌, arith, Bool-cases,
}
use ebpfmanager.Probe.{
  Probe, ProbeIdentificationPair, get_identification_pair, identification_pair_matches,
}
use ebpfmanager.Selectors.{
  Selector, Selectors, probe_selector, one_of, all_of, best_effort, nil, cons, pairs_of,
  get_probes_identification_pair_list,
}
use ebpfmanager.Manager.{Manager, activate_probes, is_nil}
use ebpfmanager.Manager.Activation.{
  nil-cases, selected_by, is_excluded, decided, by_default, selector_of, activate_probes_formula,
}

-- The pair stands somewhere in the selector.
abbrev mutual
  pub Names : ProbeIdentificationPair → Selector → Type 0
  Names id (probe_selector id') = id ≡ id'
  Names id (one_of ss) = SomeNames id ss
  Names id (all_of ss) = SomeNames id ss
  Names id (best_effort ss) = SomeNames id ss

  pub SomeNames : ProbeIdentificationPair → Selectors → Type 0
  SomeNames id nil = ⊥
  SomeNames id (cons s ss) = Names id s ⊎ SomeNames id ss

abbrev pub IsNamed : ProbeIdentificationPair → List Selector → Type 0
IsNamed id [] = ⊥
IsNamed id (s ∷ ss) = Names id s ⊎ IsNamed id ss

abbrev pub IsIn : String → List String → Type 0
IsIn name [] = ⊥
IsIn name (n ∷ ns) = (name ≡ n) ⊎ IsIn name ns

-- The second probe is the first one, and is enabled exactly if its pair is named, or there are no selectors, and
-- its function is not excluded.
abbrev pub IsActivated : List Selector → List String → Probe → Probe → Type 0
IsActivated ss excluded p q =
    (q ≡ record p { enabled = q.enabled })
    × ((q.enabled ≡ true)
        ↔ (((ss ≡ []) ⊎ IsNamed (get_identification_pair p) ss) × ¬ IsIn p.ebpf_func_name excluded))

-- Probe by probe.
abbrev pub AreActivated : List Selector → List String → List Probe → List Probe → Type 0
AreActivated ss excluded [] [] = Unit {0}
AreActivated ss excluded (p ∷ ps) (q ∷ qs) =
    IsActivated ss excluded p q × AreActivated ss excluded ps qs
AreActivated ss excluded _ _ = ⊥

matches_iff :
    (p : Probe) (id : ProbeIdentificationPair)
    → (identification_pair_matches p id ≡ true) ↔ (get_identification_pair p ≡ id)
unfolding identification_pair_matches
matches_iff p id = (
  λ h.
      let uid : p.uid ≡ id.uid = str_eq→eq p.uid id.uid (ground arith) in
      let name : p.ebpf_func_name ≡ id.ebpf_func_name =
        str_eq→eq p.ebpf_func_name id.ebpf_func_name (ground arith) in
      rw (uid, name) refl,
  λ e. rw (sym e) (rw (str_eq_self p.uid, str_eq_self p.ebpf_func_name) refl),
)

any-append :
    (f : ProbeIdentificationPair → Bool) (xs ys : List ProbeIdentificationPair)
    → any f (xs ++ ys) ≡ (any f xs || any f ys)
any-append f [] ys = refl
any-append f (x ∷ xs) ys = ground (arith, any-append f xs ys)

or_iff : {A B : Type 0} (a b : Bool) → (a ≡ true) ↔ A → (b ≡ true) ↔ B → ((a || b) ≡ true) ↔ (A ⊎ B)
or_iff true b f g = (λ e. inl (f.0 refl), λ e. refl)
or_iff false b f g =
    (λ e. inr (g.0 e), λ x. elim x [ inl a ↦ absurd (false_true (f.1 a)) | inr c ↦ g.1 c ])
  where
    false_true : false ≡ true → ⊥
    false_true e = cc

one_iff :
    (p : Probe) (id : ProbeIdentificationPair)
    → (any (λ i. identification_pair_matches p i) (id ∷ []) ≡ true)
      ↔ (get_identification_pair p ≡ id)
one_iff p id = (
  λ e. (matches_iff p id).0 (ground (arith, e)),
  λ e. let z = (matches_iff p id).1 e in ground (arith, z),
)

abbrev has_pair : Probe → List ProbeIdentificationPair → Bool
has_pair p ids = any (λ id. identification_pair_matches p id) ids

mutual
  unfolding get_probes_identification_pair_list pairs_of

  pairs_iff :
      (p : Probe) (s : Selector)
      → (has_pair p (get_probes_identification_pair_list s) ≡ true)
        ↔ Names (get_identification_pair p) s
  pairs_iff p (probe_selector id) = one_iff p id
  pairs_iff p (one_of ss) = some_pairs_iff p ss
  pairs_iff p (all_of ss) = some_pairs_iff p ss
  pairs_iff p (best_effort ss) = some_pairs_iff p ss

  some_pairs_iff :
      (p : Probe) (ss : Selectors)
      → (has_pair p (pairs_of ss) ≡ true) ↔ SomeNames (get_identification_pair p) ss
  some_pairs_iff p nil = (λ e. cc, λ x. absurd x)
  some_pairs_iff p (cons s ss) =
      let parts = or_iff _ _ (pairs_iff p s) (some_pairs_iff p ss) in
      let joined =
        any-append (λ id. identification_pair_matches p id) (get_probes_identification_pair_list s)
          (pairs_of ss) in
      (λ e. parts.0 (sym joined ∙ e), λ x. joined ∙ parts.1 x)

selected_iff :
    (p : Probe) (ss : List Selector)
    → (selected_by ss p ≡ true) ↔ IsNamed (get_identification_pair p) ss
selected_iff p [] = (λ e. cc, λ x. absurd x)
selected_iff p (s ∷ ss) = or_iff _ _ (pairs_iff p s) (selected_iff p ss)

excluded_iff :
    (name : String) (ns : List String) → (any (λ n. str_eq name n) ns ≡ true) ↔ IsIn name ns
excluded_iff name [] = (λ e. cc, λ x. absurd x)
excluded_iff name (n ∷ ns) = or_iff _ _ (eq_iff name n) (excluded_iff name ns)

not_excluded :
    (p : Probe) (excluded : List String)
    → (is_excluded excluded p ≡ false) ↔ (¬ IsIn p.ebpf_func_name excluded)
not_excluded p excluded = (
  λ e i. let z = (excluded_iff p.ebpf_func_name excluded).1 i in true_false (sym z ∙ e),
  λ n. elim (Bool-cases (is_excluded excluded p)) [
    | inl e ↦ absurd (n ((excluded_iff p.ebpf_func_name excluded).0 e))
    | inr e ↦ e
  ],
)
  where
    true_false : true ≡ false → ⊥
    true_false e = cc

decided-IsActivated :
    (ss : List Selector) (excluded : List String) (p : Probe)
    → is_nil ss ≡ false
    → IsActivated ss excluded p (decided ss excluded p)
decided-IsActivated ss excluded p h = (
  refl,
  (
    λ e. (
      inr ((selected_iff p ss).0 (ground (arith, e))),
      (not_excluded p excluded).0 (ground (arith, e)),
    ),
    λ (named, n). elim named [
      | inl none_given ↦ absurd (true_false (ap is_nil (sym none_given) ∙ h))
      | inr x ↦ rw ((selected_iff p ss).1 x, (not_excluded p excluded).1 n) refl
    ],
  ),
)
  where
    true_false : true ≡ false → ⊥
    true_false e = cc

by_default-IsActivated :
    (ss : List Selector) (excluded : List String) (p : Probe)
    → ss ≡ []
    → IsActivated ss excluded p (by_default excluded p)
by_default-IsActivated ss excluded p h = (
  refl,
  (
    λ e. (inl h, (not_excluded p excluded).0 (ground (arith, e))),
    λ (named, n). rw ((not_excluded p excluded).1 n) refl,
  ),
)

map-AreActivated :
    (ss : List Selector) (excluded : List String) (f : Probe → Probe) (ps : List Probe)
    → ((p : Probe) → IsActivated ss excluded p (f p))
    → AreActivated ss excluded ps (map f ps)
map-AreActivated ss excluded f [] h = tt
map-AreActivated ss excluded f (p ∷ ps) h = (h p, map-AreActivated ss excluded f ps h)

-- After `activateProbes` exactly those probes are enabled whose pair stands in a selector, or all where there are
-- no selectors, less those with an excluded function. Without selectors, each probe gets a selector. Nothing else
-- of the manager and of the probes changes.
pub activate_probes-AreActivated :
    (m : Manager)
    → let m' = activate_probes m in
      AreActivated m.activated_probes m.excluded_ebpf_funcs m.probes m'.probes
      × (m' ≡ record m {
        probes = m'.probes;
        activated_probes =
            if is_nil m.activated_probes then map selector_of m.probes else m.activated_probes;
      })
activate_probes-AreActivated m =
    let ss : List Selector = m.activated_probes in
    let ex : List String = m.excluded_ebpf_funcs in
    elim (nil-cases ss) [
      | inl h ↦
          let nothing : is_nil ss ≡ true = ap is_nil h in
          let same : activate_probes m ≡ record m {
            probes = map (by_default ex) m.probes;
            activated_probes = map selector_of m.probes;
          } =
            activate_probes_formula m ∙ rw nothing refl in
          rw (same, nothing)
            (
              map-AreActivated ss ex (by_default ex) m.probes
                  (λ p. by_default-IsActivated ss ex p h),
              refl,
            )
      | inr h ↦
          let same : activate_probes m ≡ record m { probes = map (decided ss ex) m.probes } =
            activate_probes_formula m ∙ rw h refl in
          rw (same, h)
            (
              map-AreActivated ss ex (decided ss ex) m.probes (λ p. decided-IsActivated ss ex p h),
              refl,
            )
    ]
