-- ===== src/Examples/RoutesExamples.antt =====
-- The routes of examples/map_rewrite_vs_map_router, on maps as functions.
use ebpfmanager.Common.{
  ℕ, ◌≡◌, ◌≢◌, ◌⊎◌, refl, ◌==◌, ◌&&◌, List, [], ◌∷◌, Option, none, some, if◌then◌else◌, arith,
}
use ebpfmanager.State.{initialized}
use ebpfmanager.Errors.{Fault}
use ebpfmanager.Manager.Routes.{Loaded, MapRoute, update_map_routes, returned, map_targets}
use ebpfmanager.Manager.Routes.Entries.{PutLaws, update_map_routes-entry}
use ebpfmanager.Manager.{lookup_spec}

abbrev Cells : Type 0
Cells = ℕ → ℕ → Option ℕ

abbrev put : ℕ → ℕ → ℕ → Cells → Fault × Cells
put a k b w = (none, λ n j. if n == a && j == k then some b else w n j)

abbrev entry : Cells → ℕ → ℕ → Option ℕ
entry w m j = w m j

sets : (a k b : ℕ) (w : Cells) → entry (put a k b w).1 a k ≡ some b
sets a k b w = ground arith

keeps : (a k b m j : ℕ) (w : Cells) → (m ≢ a) ⊎ (j ≢ k) → entry (put a k b w).1 m j ≡ entry w m j
keeps a k b m j w h = ground arith

cells-PutLaws : PutLaws Cells put entry
cells-PutLaws = record { put_sets = λ a k b w e. sets a k b w; put_keeps = keeps }

abbrev two_maps : Loaded
two_maps = record {
  state = initialized;
  collection =
      some (record { maps = ("maps_router", 5) ∷ ("shared_cache2", 7) ∷ []; programs = [] });
  maps = [];
  perf_maps = [];
  probes = [];
}

-- Key 1 of the router is routed by name, and key 2 to a given map.
abbrev router : List MapRoute
router =
    record { routing_map_name = "maps_router"; key = 1; routed_name = "shared_cache2"; map = none }
    ∷ record { routing_map_name = "maps_router"; key = 2; routed_name = ""; map = some 9 }
    ∷ []

abbrev empty : Cells
empty m j = none

abbrev routed : Cells
routed = (put 5 2 9 (put 5 1 7 empty).1).1

updates : update_map_routes Cells put two_maps router empty ≡ returned none routed
unfolding update_map_routes lookup_spec
updates = refl

update_map_routes-entry_example : entry routed 5 1 ≡ some 7
unfolding map_targets lookup_spec
update_map_routes-entry_example =
    update_map_routes-entry Cells put entry cells-PutLaws two_maps router empty routed 5 1 updates
