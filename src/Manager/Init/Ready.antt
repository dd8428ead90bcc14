-- ===== src/Manager/Init/Ready.antt =====
-- What a call of `InitWithOptions` that passes its checks leaves behind.
use ebpfmanager.Common.{
  ℕ, ◌≡◌, ◌≢◌, inr, refl, true, false, String, List, [], ◌∷◌, Option, none, map, arith, ◌∙◌,
}
use ebpfmanager.State.{initialized}
use ebpfmanager.Map.{ManagedMap}
use ebpfmanager.Manager.{
  Manager, sanity_check, activate_probes, check_fields, lookup_spec, delete_all,
}
use ebpfmanager.Manager.Init.{
  Options, match_specs, match_maps, init_specs, init_collection, init_held, failure,
}

abbrev pub with_spec : List (String × ℕ) → ManagedMap → ManagedMap
with_spec specs m = record m { array_spec = lookup_spec m.name specs }

-- Each map of a list has a spec of its name.
pub data Specified (specs : List (String × ℕ)) : List ManagedMap → Type 0 where
  specified_nil : Specified specs []
  specified_cons :
      {m : ManagedMap} {ms : List ManagedMap}
      → lookup_spec m.name specs ≢ none
      → Specified specs ms
      → Specified specs (m ∷ ms)

match_maps_found :
    (specs : List (String × ℕ)) (ms : List ManagedMap)
    → (match_maps specs ms).0 ≡ none
    → (match_maps specs ms).1 ≡ map (with_spec specs) ms
unfolding match_maps
match_maps_found specs [] h = refl
match_maps_found specs (m ∷ ms) h = ground (arith, match_maps_found specs ms)

match_maps-Specified :
    (specs : List (String × ℕ)) (ms : List ManagedMap)
    → (match_maps specs ms).0 ≡ none
    → Specified specs ms
unfolding match_maps
match_maps-Specified specs [] h = specified_nil
match_maps-Specified specs (m ∷ ms) h =
    specified_cons (λ e. ground (arith, e)) (match_maps-Specified specs ms (ground arith))

match_specs_lem :
    (copy : Option ℕ → Option ℕ) (m : Manager)
    → (match_specs copy m).0 ≡ none
    → ((match_specs copy m).1.maps ≡ map (with_spec m.map_specs) m.maps)
      × ((match_specs copy m).1.perf_maps ≡ map (with_spec m.map_specs) m.perf_maps)
      × Specified m.map_specs m.maps
      × Specified m.map_specs m.perf_maps
unfolding match_specs
match_specs_lem copy m h = (
  ground (arith, match_maps_found m.map_specs m.maps),
  ground (arith, match_maps_found m.map_specs m.perf_maps),
  match_maps-Specified m.map_specs m.maps (ground arith),
  match_maps-Specified m.map_specs m.perf_maps (ground arith),
)

activate_probes_keeps :
    (m : Manager)
    → ((activate_probes m).maps ≡ m.maps) × ((activate_probes m).perf_maps ≡ m.perf_maps)
unfolding activate_probes
activate_probes_keeps m = (refl, refl)

-- The manager when the excluded programs are removed.
abbrev without_excluded : Manager → Manager
without_excluded m = record m { programs = delete_all m.excluded_ebpf_funcs m.programs }

init_specs_passed :
    (copy : Option ℕ → Option ℕ) (m : Manager)
    → (init_specs copy m).0 ≡ none
    → ((match_specs copy (without_excluded m)).0 ≡ none)
      × ((init_specs copy m).1
          ≡ record (activate_probes (match_specs copy (without_excluded m)).1) {
            state = initialized;
            locked = false;
          })
unfolding init_specs
init_specs_passed copy m h = (ground arith, ground arith)

-- Each map has the spec of its name.
pub record IsMatched (specs : List (String × ℕ)) (maps perf_maps : List ManagedMap)
    (after : Manager) : Type 0 where
  pub is_initialized : after.state ≡ initialized
  pub is_unlocked : after.locked ≡ false
  pub maps_matched : after.maps ≡ map (with_spec specs) maps
  pub perf_maps_matched : after.perf_maps ≡ map (with_spec specs) perf_maps
  pub maps_specified : Specified specs maps
  pub perf_maps_specified : Specified specs perf_maps

init_specs_ready :
    (copy : Option ℕ → Option ℕ) (m : Manager)
    → (init_specs copy m).0 ≡ none
    → IsMatched m.map_specs m.maps m.perf_maps (init_specs copy m).1
init_specs_ready copy m h =
    let (ok, left) = init_specs_passed copy m h in
    let (maps, perf, spec, spec_perf) = match_specs_lem copy (without_excluded m) ok in
    let (keeps, keeps_perf) = activate_probes_keeps (match_specs copy (without_excluded m)).1 in
    record {
      is_initialized = ground (arith, left);
      is_unlocked = ground (arith, left);
      maps_matched = ground (arith, left, keeps, maps);
      perf_maps_matched = ground (arith, left, keeps_perf, perf);
      maps_specified = spec;
      perf_maps_specified = spec_perf;
    }

abbrev started_with : Options → Manager → Manager
started_with o m = record m {
  locked = true;
  activated_probes = o.activated;
  excluded_ebpf_funcs = o.excluded;
}

init_held_passed :
    (copy : Option ℕ → Option ℕ) (o : Options) (m : Manager)
    → (init_held copy o m).0 ≡ none
    → (sanity_check m ≡ none)
      × (failure o.rlimit ≡ none)
      × (init_held copy o m ≡ init_collection copy o (started_with o m))
unfolding init_held
init_held_passed copy o m h = (ground arith, ground arith, ground arith)

init_collection_passed :
    (copy : Option ℕ → Option ℕ) (o : Options) (m : Manager) (programs : List (String × Option ℕ))
    (specs : List (String × ℕ))
    → o.loaded ≡ inr (programs, specs)
    → (init_collection copy o m).0 ≡ none
    → (check_fields m.probes ≡ none)
      × (init_collection copy o m
          ≡ init_specs copy (record m { programs = programs; map_specs = specs }))
unfolding init_collection
init_collection_passed copy o m programs specs l h = (ground (arith, l), ground (arith, l))

-- If the locked part of `InitWithOptions` gives no error, where the ELF file has the given programs
-- and map specs, then the sanity check and the fields of the probes passed and the limit could be
-- set, and the manager is initialised and unlocked, with the spec of its name in each map and perf
-- map.
pub init_held-IsMatched :
    (copy : Option ℕ → Option ℕ) (o : Options) (m : Manager) (programs : List (String × Option ℕ))
    (specs : List (String × ℕ))
    → o.loaded ≡ inr (programs, specs)
    → (init_held copy o m).0 ≡ none
    → (sanity_check m ≡ none)
      × (failure o.rlimit ≡ none)
      × (check_fields m.probes ≡ none)
      × IsMatched specs m.maps m.perf_maps (init_held copy o m).1
init_held-IsMatched copy o m programs specs l h =
    let (sane, limit, e) = init_held_passed copy o m h in
    let (fields, e') =
      init_collection_passed copy o (started_with o m) programs specs l (ground (arith, e, h)) in
    (sane, limit, fields, rw (e ∙ e') (init_specs_ready copy _ (ground (arith, e, e', h))))
