-- ===== src/Manager/Sanity.antt =====
-- What `sanityCheck` of manager.go guarantees.
use ebpfmanager.Common.{
  ◌≡◌, ◌↔◌, refl, sym, false, String, str_eq, str_eq→eq, List, [], ◌∷◌, none, some, arith,
  Bool-cases, inl, inr, ◌∙◌,
}
use ebpfmanager.Errors.{Error, Fault, map_name_in_use, clone_probe_required}
use ebpfmanager.Manager.{
  Manager, contains, check_unique, map_names, pair_strings, sanity_check, or_else,
}

-- No name stands in the list after itself.
abbrev pub Distinct : List String → Type 0
Distinct [] = Unit {0}
Distinct (n ∷ ns) = (contains ns n ≡ false) × Distinct ns

-- Nor does any of the first list stand in the second.
abbrev Apart : List String → List String → Type 0
Apart [] ns = Unit {0}
Apart (c ∷ cs) ns = (contains ns c ≡ false) × Apart cs ns

Apart-nil : (cs : List String) → Apart cs []
Apart-nil [] = tt
Apart-nil (c ∷ cs) = (refl, Apart-nil cs)

str_eq_comm : (s t : String) → str_eq s t ≡ str_eq t s
str_eq_comm s t = elim (Bool-cases (str_eq s t)) [
  | inl e ↦ rw (str_eq→eq s t e) refl
  | inr e ↦ elim (Bool-cases (str_eq t s)) [ inl f ↦ rw (str_eq→eq t s f) refl | inr f ↦ e ∙ sym f ]
]

contains-Apart : (n : String) (ns cs : List String) → Apart cs (n ∷ ns) → contains cs n ≡ false
contains-Apart n ns [] h = refl
contains-Apart n ns (c ∷ cs) h = ground (arith, str_eq_comm c n, contains-Apart n ns cs h.1, h.0)

Apart-tail : (n : String) (ns cs : List String) → Apart cs (n ∷ ns) → Apart cs ns
Apart-tail n ns [] h = tt
Apart-tail n ns (c ∷ cs) h = (ground (arith, h.0), Apart-tail n ns cs h.1)

Apart-cons :
    (n : String) (ns cs : List String) → contains cs n ≡ false → Apart cs ns → Apart cs (n ∷ ns)
Apart-cons n ns [] h a = tt
Apart-cons n ns (c ∷ cs) h a =
    (ground (arith, str_eq_comm c n, h, a.0), Apart-cons n ns cs (ground (arith, h)) a.1)

check_unique_sound :
    (e : Error) (cache ns : List String)
    → check_unique e cache ns ≡ none
    → Distinct ns × Apart cache ns
unfolding check_unique
check_unique_sound e cache [] h = (tt, Apart-nil cache)
check_unique_sound e cache (n ∷ ns) h = elim (Bool-cases (contains cache n)) [
  | inl f ↦ absurd (cc (rw f at h))
  | inr f ↦
      let (d, a) = check_unique_sound e (n ∷ cache) ns (rw f at h) in
      ((a.0, d), Apart-cons n ns cache f a.1)
]

check_unique_complete :
    (e : Error) (cache ns : List String)
    → Distinct ns
    → Apart cache ns
    → check_unique e cache ns ≡ none
unfolding check_unique
check_unique_complete e cache [] d a = refl
check_unique_complete e cache (n ∷ ns) d a =
    rw (contains-Apart n ns cache a)
      (check_unique_complete e (n ∷ cache) ns d.1 (d.0, Apart-tail n ns cache a))

or_else-eq-none : (a b : Fault) → or_else a b ≡ none → (a ≡ none) × (b ≡ none)
or_else-eq-none none b h = (refl, h)
or_else-eq-none (some e) b h = absurd (cc)

-- The check passes exactly if no two maps or perf maps have one name, and no two probes have
-- identification pairs of one spelling.
pub sanity_check_iff :
    (m : Manager) → (sanity_check m ≡ none) ↔ (Distinct (map_names m) × Distinct (pair_strings m))
unfolding sanity_check
sanity_check_iff m = (
  λ h.
      let (names, pairs) = or_else-eq-none _ _ h in
      (
        (check_unique_sound map_name_in_use [] (map_names m) names).0,
        (check_unique_sound clone_probe_required [] (pair_strings m) pairs).0,
      ),
  λ d.
      rw (check_unique_complete map_name_in_use [] (map_names m) d.0 tt)
        (check_unique_complete clone_probe_required [] (pair_strings m) d.1 tt),
)
