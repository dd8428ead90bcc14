-- ===== src/Manager/NewMaps/Found.antt =====
-- `NewMap` and `CloneMap` of manager.go, and `GetMap` after them.
use ebpfmanager.Common.{
  ℕ, ◌≡◌, ◌≢◌, ◌⊎◌, inl, inr, refl, ap, ◌∙◌, String, str_eq_self, List, [], ◌∷◌, ◌++◌, none, some,
  arith, Option-cases,
}
use ebpfmanager.State.{reset, initialized}
use ebpfmanager.Errors.{Fault}
use ebpfmanager.System.{System}
use ebpfmanager.Map
use ebpfmanager.Map.{ManagedMap, close_checked}
use ebpfmanager.Map.Lifecycle.{init_ends}
use ebpfmanager.Manager.Routes.{Loaded, Collection, ready, get_map, find_array}
use ebpfmanager.Manager.Specs.{MapSpec}
use ebpfmanager.Manager.NewMaps.{
  MapOptions, unloaded, in_collection, pin_loaded, load_new_map, add_map, new_map,
}

find_array-append :
    (name : String) (ms : List ManagedMap) (x : ManagedMap)
    → find_array name ms ≡ none
    → x.name ≡ name
    → find_array name (ms ++ x ∷ []) ≡ some x.array
unfolding find_array
find_array-append name [] x h e = rw (e, str_eq_self name) refl
find_array-append name (m ∷ ms) x h e = ground (arith, find_array-append name ms x)

-- `Init` keeps the array of a map that has one.
kept_array :
    (x x2 : ManagedMap) (e : Fault) (a : ℕ)
    → x.array ≡ some a
    → e ≡ none
    → ((e ≡ none)
        × (x2.state ≡ initialized)
        × (x2.array ≢ none)
        × ((x.array ≡ none) ⊎ (x2.array ≡ x.array)))
      ⊎ ((e ≢ none) × (x2.state ≡ x.state))
    → x2.array ≡ some a
kept_array x x2 e a h n (inl (k, s, f, inl z)) = absurd (cc)
kept_array x x2 e a h n (inl (k, s, f, inr same)) = same ∙ h
kept_array x x2 e a h n (inr (k, s)) = absurd (k n)

module _ (sys : System) (create : String → MapSpec → sys.World → Fault × ℕ × sys.World)
    (address : ℕ) where
  -- A map that is loaded with no error is the one that was created.
  load_new_map-created :
      (name : String) (spec : MapSpec) (options : MapOptions) (w : sys.World)
      → let (e, x, w') = load_new_map sys create address name spec options w in
        e ≡ none → (x.array ≡ some (create name spec w).1) × (x.name ≡ name) × (x.state ≡ reset)
  unfolding load_new_map pin_loaded unloaded
  load_new_map-created name spec options w e = ground arith

  -- A new name is found after the map that has it is added.
  get_map-add :
      (m : Loaded) (c : Collection) (name : String) (x : ManagedMap)
      → ready m ≡ some c
      → (get_map m name).1 ≡ none
      → x.name ≡ name
      → get_map (record m { maps = m.maps ++ x ∷ [] }) name ≡ (none, some x.array)
  unfolding get_map
  get_map-add m c name x r n e =
      let appended = find_array-append name m.maps x in ground (arith, appended)

  -- `NewMap` on an initialised manager that has a collection either returns an error and leaves the manager as it
  -- was, or it returns the map that was created, under a name that `GetMap` did not find, and `GetMap` finds this
  -- map under it from then on.
  pub new_map_cases :
      (name : String) (spec : MapSpec) (options : MapOptions) (m : Loaded) (c : Collection)
      (w : sys.World)
      → ready m ≡ some c
      → let (e, array, m', w') = new_map sys create address name spec options m w in
        let created = (create name spec w).1 in
        ((e ≢ none) × (array ≡ none) × (m' ≡ m))
        ⊎ ((e ≡ none)
            × (array ≡ some created)
            × ((get_map m name).1 ≡ none)
            × (get_map m' name ≡ (none, some (some created))))
  unfolding new_map add_map
  new_map_cases name spec options m c w r = elim (Option-cases (get_map m name).1) [
    | inr (found, f) ↦ rw (new_map, f) (inl (λ z. cc, refl, refl))
    | inl f ↦
        let (e, x, w1) = load_new_map sys create address name spec options w in
        elim (Option-cases e) [
          | inr (err, g) ↦ rw (new_map, f, g) (inl (λ z. cc, refl, refl))
          | inl g ↦
              let (array, named, state) = load_new_map-created name spec options w g in
              let (ends, same_name, pin) = init_ends sys x (in_collection m name) w1 in
              let (e2, x2, w2) = Map.init sys x (in_collection m name) w1 in
              elim (Option-cases e2) [
                | inr (err, k) ↦ rw (new_map, add_map, f, g, k) (inl (λ z. cc, refl, refl))
                | inl k ↦
                    let kept : x2.array ≡ some (create name spec w).1 =
                      kept_array x x2 e2 (create name spec w).1 array k ends in
                    rw (new_map, add_map, f, g, k)
                      (inr (
                        refl,
                        kept,
                        refl,
                        get_map-add m c name x2 r f (same_name ∙ named)
                            ∙ ap (λ a. (none, some a)) kept,
                      ))
              ]
        ]
  ]
