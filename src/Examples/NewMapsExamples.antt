-- ===== src/Examples/NewMapsExamples.antt =====
-- New maps and rings on a manager with one map.
use ebpfmanager.Common.{ℕ, suc, ◌≡◌, ◌≢◌, ◌⊎◌, refl, false, String, [], ◌∷◌, none, some}
use ebpfmanager.State.{running}
use ebpfmanager.Errors.{Fault, map_name_in_use}
use ebpfmanager.Map.{init}
use ebpfmanager.Perf
use ebpfmanager.Manager.{lookup_spec}
use ebpfmanager.Manager.Routes.{Loaded, get_map, find_array, panicked}
use ebpfmanager.Manager.Specs.{MapSpec, get_map_spec}
use ebpfmanager.Manager.NewMaps.{MapOptions, PerfMapOptions, new_map, clone_map, new_perf_ring}
use ebpfmanager.Manager.NewMaps.Found.{new_map_cases}
use ebpfmanager.Examples.Data.{counting}
use ebpfmanager.Examples.SpecsExamples.{pointers, specs}

abbrev loaded : Loaded
loaded = record {
  state = running;
  collection = some (record { maps = ("cache", 5) ∷ []; programs = [] });
  maps = [];
  perf_maps = [];
  probes = [];
}

abbrev create : String → MapSpec → ℕ → Fault × ℕ × ℕ
create name spec w = (none, 11, suc w)

abbrev plain : MapOptions
plain = record { pin_path = ""; always_cleanup = false }

abbrev no_handler : PerfMapOptions
no_handler = record { has_data_handler = false; perf_ring_buffer_size = 0; watermark = 0 }

in_use_test : (new_map counting create 9 "cache" (specs 0) plain loaded 0).0 ≡ some map_name_in_use
unfolding new_map get_map lookup_spec
in_use_test = refl

-- The clone of a spec under a new name is found.
clone_test : clone_map counting create 9 pointers specs "cache" "copy" plain loaded 0 ≢ panicked
unfolding clone_map new_map get_map get_map_spec lookup_spec find_array init
clone_test e = absurd (cc)

-- A ring without a handler is refused after its map is made, one call, which is left open.
no_handler_test :
    let (e, r, m, w) =
      new_perf_ring counting create 9 "events" (specs 0) plain no_handler 1 1 loaded 0 in
    (e ≢ none) × (w ≡ 1) × (m ≡ loaded)
unfolding new_perf_ring get_map lookup_spec find_array Perf.perf_init
no_handler_test = (λ z. cc, refl, refl)

new_map_cases_example :
    let (e, array, m', w') = new_map counting create 9 "copy" (specs 0) plain loaded 0 in
    ((e ≢ none) × (array ≡ none) × (m' ≡ loaded))
    ⊎ ((e ≡ none)
        × (array ≡ some 11)
        × ((get_map loaded "copy").1 ≡ none)
        × (get_map m' "copy" ≡ (none, some (some 11))))
new_map_cases_example =
    new_map_cases counting create 9 "copy" (specs 0) plain loaded
      (record { maps = ("cache", 5) ∷ []; programs = [] }) 0 refl
