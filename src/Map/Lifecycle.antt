-- ===== src/Map/Lifecycle.antt =====
-- How `Init` and `Close` of map.go move a map between its states.
use ebpfmanager.Common.{
  ℕ, ◌≡◌, ◌≢◌, ◌⊎◌, refl, true, false, str_eq, str_eq→eq, str_eq_self, sym, ap, ◌∙◌, Option, none,
  some, Bool-cases, Option-cases, inl, inr, if◌then◌else◌, arith, List, [], ◌∷◌,
}
use ebpfmanager.State.{State, reset, initialized, paused, running, reached}
use ebpfmanager.Errors.{Error}
use ebpfmanager.System.{System}
use ebpfmanager.Map.{ManagedMap, should_close, reset_map, init, init_array, pin_new, close_checked}

-- A map is reset, or is initialised and holds an eBPF map.
abbrev pub IsSound : ManagedMap → Type 0
IsSound m = (m.state ≡ reset) ⊎ ((m.state ≡ initialized) × (m.array ≢ none))

module _ (sys : System) where
  -- After `Init` a map has the state, name and pin path of before, or is initialised with an eBPF map.
  pub init_ends :
      (m : ManagedMap) (found : Option ℕ) (w : sys.World)
      → let (err, m', w') = init sys m found w in
        (((err ≡ none)
            × (m'.state ≡ initialized)
            × (m'.array ≢ none)
            × ((m.array ≡ none) ⊎ (m'.array ≡ m.array)))
          ⊎ ((err ≢ none) × (m'.state ≡ m.state)))
        × (m'.name ≡ m.name)
        × (m'.pin_path ≡ m.pin_path)
  unfolding init
  init_ends m found w = ground arith

  -- The map holds its own eBPF map, or else the found one, and is initialised; the kernel was asked only to pin a
  -- found map where there is a path, which succeeded.
  abbrev pub IsDone : ManagedMap → Option ℕ → Option ℕ → sys.World → ManagedMap → sys.World → Type 0
  IsDone m own found w m' w' =
      (a : ℕ) × ((own ≡ some a) ⊎ ((own ≡ none) × (found ≡ some a)))
      × (m' ≡ record m { has_manager = true; state = initialized; array = some a })
      × (((own ≢ none) × (w' ≡ w))
          ⊎ ((m.pin_path ≡ "") × (w' ≡ w))
          ⊎ ((own ≡ none) × (m.pin_path ≢ "") × (sys.pin_map a m.pin_path w ≡ (none, w'))))

  -- There is no eBPF map, or the found one could not be pinned.
  abbrev pub IsRefused : ManagedMap → Option ℕ → Option ℕ → sys.World → sys.World → Type 0
  IsRefused m own found w w' =
      (own ≡ none)
      × (((found ≡ none) × (w' ≡ w))
          ⊎ ((a : ℕ) × (e : Error) × (found ≡ some a)
              × (m.pin_path ≢ "")
              × (sys.pin_map a m.pin_path w ≡ (some e, w'))))

  pinned_lem :
      (m : ManagedMap) (a : ℕ) (w : sys.World)
      → let (err, m', w') = pin_new sys (record m { has_manager = true }) a w in
        ((err ≡ none) × IsDone m none (some a) w m' w')
        ⊎ ((err ≢ none) × (m'.state ≡ m.state) × IsRefused m none (some a) w w')
  unfolding pin_new
  pinned_lem m a w = elim (Bool-cases (str_eq m.pin_path "")) [
    | inl p ↦
        rw (pin_new, p)
          (inl (refl, (a, inr (refl, refl), refl, inr (inl (str_eq→eq m.pin_path "" p, refl)))))
    | inr p ↦
        let path : m.pin_path ≢ "" =
          λ e. true_false (sym (str_eq_self "") ∙ ap (λ x. str_eq x "") (sym e) ∙ p) in
        elim (Option-cases (sys.pin_map a m.pin_path w).0) [
          | inl e ↦
              rw (pin_new, p, e)
                (inl (
                  refl,
                  (
                    a,
                    inr (refl, refl),
                    refl,
                    inr (inr (refl, path, ap (λ x. (x, (sys.pin_map a m.pin_path w).1)) e)),
                  ),
                ))
          | inr (err, e) ↦
              rw (pin_new, p, e)
                (inr (
                  λ z. cc,
                  refl,
                  (refl, inr (a, err, refl, path, ap (λ x. (x, (sys.pin_map a m.pin_path w).1)) e)),
                ))
        ]
  ]
    where
      true_false : true ≡ false → ⊥
      true_false e = cc

  array_lem :
      (m : ManagedMap) (own found : Option ℕ) (w : sys.World)
      → let (err, m', w') = init_array sys (record m { has_manager = true }) own found w in
        own ≡ m.array
        → ((err ≡ none) × IsDone m own found w m' w')
          ⊎ ((err ≢ none) × (m'.state ≡ m.state) × IsRefused m own found w w')
  unfolding init_array
  array_lem m (some a) found w h = inl (refl, (a, inl refl, rw h refl, inl (λ e. cc, refl)))
  array_lem m none none w h = inr (λ e. cc, refl, (refl, inl (refl, refl)))
  array_lem m none (some a) w h = pinned_lem m a w

  rank_reset : (s : State) → reached s initialized ≡ false → s ≡ reset
  rank_reset reset h = refl
  rank_reset initialized h = absurd (cc)
  rank_reset paused h = absurd (cc)
  rank_reset running h = absurd (cc)

  not_reset : (s : State) → reached s initialized ≡ true → s ≢ reset
  not_reset s h e = absurd (ground (arith, h, e))

  -- `Init` of a map that is not reset gives an error and changes nothing. That of a reset map gives no error and
  -- leaves it initialised with its own eBPF map, or else with the one that the collection has, which is pinned
  -- where the map has a path; or it gives an error and leaves the state, as it found no eBPF map or could
  -- not pin it.
  pub init_lem :
      (m : ManagedMap) (found : Option ℕ) (w : sys.World)
      → let (err, m', w') = init sys m found w in
        ((m.state ≢ reset) × (err ≢ none) × (m' ≡ m) × (w' ≡ w))
        ⊎ ((m.state ≡ reset) × (err ≡ none) × IsDone m m.array found w m' w')
        ⊎ ((m.state ≡ reset) × (err ≢ none) × (m'.state ≡ reset) × IsRefused m m.array found w w')
  unfolding init
  init_lem m found w = elim (Bool-cases (reached m.state initialized)) [
    | inl r ↦ rw (init, r) (inl (not_reset m.state r, λ e. cc, refl, refl))
    | inr r ↦
        let s : m.state ≡ reset = rank_reset m.state r in
        rw (init, r)
          (elim (array_lem m m.array found w refl) [
            | inl (e, done) ↦ inr (inl (s, e, done))
            | inr (e, kept, refused) ↦ inr (inr (s, e, kept ∙ s, refused))
          ])
  ]

  -- `Close`: with an error it leaves the map as it was; with none the map is
  -- unchanged if its category is not cleaned up, and else is reset, holds nothing, and its name,
  -- pin path and options are kept.
  pub close_checked_lem :
      (m : ManagedMap) (cleanup : ℕ) (w : sys.World)
      → let (err, m', w') = close_checked sys m cleanup w in
        ((err ≢ none) × (m' ≡ m))
        ⊎ ((err ≡ none) × (m' ≡ (if should_close m cleanup then reset_map m else m)))
  unfolding close_checked
  close_checked_lem m cleanup w = ground arith

  -- Both operations keep the invariant.
  init-IsSound :
      (m : ManagedMap) (found : Option ℕ) (w : sys.World)
      → IsSound m
      → IsSound (init sys m found w).1
  unfolding init
  init-IsSound m found w v = ground arith

  close_checked-IsSound :
      (m : ManagedMap) (cleanup : ℕ) (w : sys.World)
      → IsSound m
      → IsSound (close_checked sys m cleanup w).1
  unfolding close_checked
  close_checked-IsSound m cleanup w v = ground arith

-- What a manager does to a map, in any order and with any results of the system.
pub data Call : Type 0 where
  inits : Option ℕ → Call
  closes : ℕ → Call

module _ (sys : System) where
  pub run : List Call → ManagedMap → sys.World → ManagedMap
  run [] m w = m
  run (inits found ∷ cs) m w = let (err, m', w') = init sys m found w in run cs m' w'
  run (closes cleanup ∷ cs) m w = let (err, m', w') = close_checked sys m cleanup w in run cs m' w'

  -- After any sequence of `Init` and `Close`, whatever the system answers, a map that is initialised
  -- holds an eBPF map, and no other state than reset and initialised occurs.
  pub run-IsSound :
      (cs : List Call) (m : ManagedMap) (w : sys.World) → IsSound m → IsSound (run cs m w)
  unfolding run
  run-IsSound [] m w v = v
  run-IsSound (inits found ∷ cs) m w v =
      run-IsSound cs (init sys m found w).1 (init sys m found w).2 (init-IsSound sys m found w v)
  run-IsSound (closes cleanup ∷ cs) m w v =
      run-IsSound cs (close_checked sys m cleanup w).1 (close_checked sys m cleanup w).2
        (close_checked-IsSound sys m cleanup w v)
