-- ===== src/Manager/Updating/Entries.antt =====
-- The maps of `UpdateActivatedProbes` of manager.go, as lists of entries.
use ebpfmanager.Common.{
  ℕ, zero, suc, ◌+◌, ◌≡◌, refl, Bool, true, false, ◌&&◌, ◌==◌, List, [], ◌∷◌, ◌++◌, any, arith,
  length, str_eq→eq, str_eq_self, if◌then◌else◌,
}
use ebpfmanager.Probe.{
  Probe, ProbeIdentificationPair, matches, get_identification_pair, identification_pair_matches,
}
use ebpfmanager.Manager.Updating.{Entries, assign, current_probes, remove_key}

-- The entry of a pair and an index.
abbrev pub has_entry : ProbeIdentificationPair → ℕ → Entries → Bool
has_entry id i es = any (λ e. matches e.0 id && e.1 == i) es

-- Whether the probe with an index is enabled.
unfoldable pub enabled_at : ℕ → List Probe → Bool
enabled_at i [] = false
enabled_at zero (p ∷ ps) = p.enabled
enabled_at (suc i) (p ∷ ps) = enabled_at i ps

matches_both :
    (k a b : ProbeIdentificationPair) → matches k a ≡ true → matches k b ≡ true → matches a b ≡ true
unfolding matches
matches_both k a b h g =
    let uid = str_eq→eq k.uid a.uid (ground arith) in
    let name = str_eq→eq k.ebpf_func_name a.ebpf_func_name (ground arith) in rw (← uid, ← name) g

matches_self : (k : ProbeIdentificationPair) → matches k k ≡ true
unfolding matches
matches_self k = rw (str_eq_self k.uid, str_eq_self k.ebpf_func_name) refl

equal_self : (i : ℕ) → (i == i) ≡ true
equal_self i = ground arith

assign-has_entry :
    (id : ProbeIdentificationPair) (i : ℕ) (es : Entries) → has_entry id i (assign id i es) ≡ true
unfolding assign
assign-has_entry id i [] = rw (matches_self id, equal_self i) refl
assign-has_entry id i ((k, j) ∷ es) =
    ground (arith, assign-has_entry id i es, matches_self id, equal_self i)

assign-keeps :
    (id a : ProbeIdentificationPair) (i j : ℕ) (es : Entries)
    → matches a id ≡ false
    → has_entry id i es ≡ true
    → has_entry id i (assign a j es) ≡ true
unfolding assign
assign-keeps id a i j [] n h = absurd (cc)
assign-keeps id a i j ((k, l) ∷ es) n h =
    ground (arith, assign-keeps id a i j es n, matches_both k a id)

current_probes-keeps :
    (id : ProbeIdentificationPair) (i j : ℕ) (ps : List Probe) (es : Entries)
    → any (λ q. identification_pair_matches q id) ps ≡ false
    → has_entry id i es ≡ true
    → has_entry id i (current_probes j ps es) ≡ true
unfolding current_probes identification_pair_matches
current_probes-keeps id i j [] es n h = h
current_probes-keeps id i j (p ∷ ps) es n h = ground (
  arith,
  current_probes-keeps id i (suc j) ps es,
  assign-keeps id (get_identification_pair p) i j es,
  current_probes-keeps id i (suc j) ps (assign (get_identification_pair p) j es),
)

shift : (k : ℕ) → k + 0 ≡ k
shift k = omega arith

pub zero_plus : (n : ℕ) → 0 + n ≡ n
zero_plus n = omega arith

later : (k n : ℕ) → k + suc n ≡ suc k + n
later k n = omega arith

-- An enabled probe whose pair no later probe has is entered with its index.
pub current_probes-has_entry :
    (k : ℕ) (before : List Probe) (p : Probe) (after : List Probe) (es : Entries)
    → p.enabled ≡ true
    → any (λ q. identification_pair_matches q (get_identification_pair p)) after ≡ false
    → has_entry
        (get_identification_pair p)
        (k + length before)
        (current_probes k (before ++ p ∷ after) es)
      ≡ true
unfolding current_probes
current_probes-has_entry k [] p after es h n =
    let id = get_identification_pair p in
    rw h (
      current_probes-keeps id (k + 0) (suc k) after (assign id k es) n
        (rw (shift k) (assign-has_entry id k es)))
current_probes-has_entry k (q ∷ before) p after es h n = rw (later k (length before)) (
    current_probes-has_entry (suc k) before p after
      (if q.enabled then assign (get_identification_pair q) k es else es) h n)

pub remove_key-keeps :
    (id a : ProbeIdentificationPair) (i : ℕ) (es : Entries)
    → matches a id ≡ false
    → has_entry id i es ≡ true
    → has_entry id i (remove_key a es) ≡ true
unfolding remove_key
remove_key-keeps id a i [] n h = absurd (cc)
remove_key-keeps id a i ((k, l) ∷ es) n h =
    ground (arith, remove_key-keeps id a i es n, matches_both k a id)
