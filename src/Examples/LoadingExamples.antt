-- ===== src/Examples/LoadingExamples.antt =====
-- A collection that is loaded into a small manager, and a map that is loaded from its pin.
use ebpfmanager.Common.{
  ℕ, suc, ◌≡◌, ◌≢◌, refl, true, false, String, str_eq, List, [], ◌∷◌, none, some,
}
use ebpfmanager.State.{reset}
use ebpfmanager.Errors.{pinned_object_not_found}
use ebpfmanager.Map.{ManagedMap, should_close}
use ebpfmanager.Map.Clean
use ebpfmanager.Manager.{check_field, lookup_spec, edit_maps}
use ebpfmanager.Manager.Run.{Fleet}
use ebpfmanager.Manager.Loading.{PinSystem, load_pinned_map, load_collection}
use ebpfmanager.Manager.Loading.Pinned.{find_map, load_pinned_map-should_close}
use ebpfmanager.Examples.Data.{new_manager, pinned_map, cache, events}
use ebpfmanager.Examples.RetryExamples.{hesitant}
use ebpfmanager.Examples.InitExamples.{loader, options, fresh}

abbrev fleet : Fleet
fleet = record {
  state = reset;
  probes = fresh ∷ [];
  maps = pinned_map ∷ [];
  rings =
      record events { map = record cache { name = "my_constants"; array = none; state = reset } }
      ∷ [];
  activated_probes = [];
}

abbrev collection_maps : List (String × ℕ)
collection_maps = ("map1", 11) ∷ ("my_constants", 12) ∷ []

-- A collection without the second map
lacking_test :
    (load_collection hesitant loader options (("map1", 11) ∷ []) 4096 0 none fleet 1).0 ≢ none
unfolding load_collection check_field lookup_spec
lacking_test = λ e. cc

-- Only "/sys/fs/bpf/map1" is there; the world counts the loads.
abbrev pins : PinSystem
pins = record {
  World = ℕ;
  is_there = λ path w. str_eq path "/sys/fs/bpf/map1";
  load_pinned_map = λ path w. (none, 21, suc w);
  load_pinned_program = λ path w. (none, 22, suc w);
  rewrite_maps = λ name array w. none;
}

pinned_test :
    load_pinned_map pins "cache" "/tmp/cache" new_manager 0
    ≡ (some pinned_object_not_found, new_manager, 0)
unfolding load_pinned_map
pinned_test = refl

abbrev loaded_map : ManagedMap
loaded_map = record pinned_map { array = some 21; external_map = true; edited_map = true }

load_pinned_map-should_close_example :
    (loaded_map.array ≡ some 21)
    × (should_close loaded_map Clean.external_pinned ≡ false)
    × (should_close loaded_map Clean.external_pinned_and_edited ≡ true)
unfolding load_pinned_map edit_maps find_map
load_pinned_map-should_close_example =
    load_pinned_map-should_close pins "map1" "/sys/fs/bpf/map1" new_manager
      (record new_manager { maps = loaded_map ∷ cache ∷ [] }) 0 1 loaded_map refl refl refl refl
      refl
