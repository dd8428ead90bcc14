-- ===== src/Manager/Loading.antt =====
-- `loadPinnedMap`, `loadPinnedProgram`, `loadPinnedObjects` and `loadCollection` of manager.go.
pub mod Pinned
pub mod Collected
use ebpfmanager.Common.{
  ℕ, Bool, true, false, String, str_eq, List, [], ◌∷◌, ◌++◌, map, Option, none, some, if◌then◌else◌,
}
use ebpfmanager.Errors.{Error, Fault, quoting, pinned_object_not_found}
use ebpfmanager.System.{System}
use ebpfmanager.Map.{ManagedMap}
use ebpfmanager.Map
use ebpfmanager.Perf.{PerfMap}
use ebpfmanager.Perf
use ebpfmanager.Probe.{Probe}
use ebpfmanager.Probe.Init.{Loader, ProbeOptions}
use ebpfmanager.Probe.Init
use ebpfmanager.Manager.{Manager, edit_maps, delete_program, lookup_spec}
use ebpfmanager.Manager.Run.{Fleet}

-- The calls on pinned objects: `os.Stat`, the loading of a map and of a program, and `RewriteMaps`.
pub record PinSystem : Type 1 where
  pub World : Type 0
  pub is_there : String → World → Bool
  pub load_pinned_map : String → World → Fault × ℕ × World
  pub load_pinned_program : String → World → Fault × ℕ × World
  pub rewrite_maps : String → ℕ → World → Fault

module _ (pins : PinSystem) where
  -- `loadPinnedMap` of a map or perf map with this name and path. The two assignments that end it repeat
  -- what `editMaps` has done to each map of the name.
  unfoldable pub load_pinned_map :
      String → String → Manager → pins.World → Fault × Manager × pins.World
  unfolding edit_maps
  load_pinned_map name path m w =
      let (e, array, w') = pins.load_pinned_map path w in
      let (e2, m') = edit_maps (pins.rewrite_maps name array w') ((name, array) ∷ []) m in
      if pins.is_there path w
      then elim e [
        | some err ↦ (some (quoting err), m, w')
        | none ↦ elim e2 [ some err ↦ (some err, m', w') | none ↦ (none, m', w') ]
      ]
      else (some pinned_object_not_found, m, w)

  -- `err == ErrPinnedObjectNotFound`
  unfoldable pub not_found : Error → Bool
  not_found pinned_object_not_found = true
  not_found _ = false

  -- The loop over the maps, or over the perf maps, that have a path.
  unfoldable pub load_pinned_maps :
      List ManagedMap → Manager → pins.World → Fault × Manager × pins.World
  unfolding load_pinned_map not_found
  load_pinned_maps [] m w = (none, m, w)
  load_pinned_maps (x ∷ xs) m w =
      let (e, m', w') = load_pinned_map x.name x.pin_path m w in
      if str_eq x.pin_path "" then load_pinned_maps xs m w else elim e [
        | none ↦ load_pinned_maps xs m' w'
        | some err ↦ if not_found err then load_pinned_maps xs m' w' else (some err, m', w')
      ]

  -- `loadPinnedProgram`: the probe and the programs of the collection spec
  unfoldable pub load_pinned_program :
      Probe
      → List (String × Option ℕ)
      → pins.World
      → Fault × Probe × List (String × Option ℕ) × pins.World
  unfolding delete_program
  load_pinned_program p programs w =
      let (e, prog, w') = pins.load_pinned_program p.pin_path w in
      if pins.is_there p.pin_path w
      then elim e [
        | some err ↦ (some (quoting err), p, programs, w')
        | none ↦
            (none, record p { program = some prog }, delete_program p.ebpf_func_name programs, w')
      ]
      else (some pinned_object_not_found, p, programs, w)

  unfoldable pub load_pinned_programs :
      List Probe
      → List (String × Option ℕ)
      → pins.World
      → Fault × List Probe × List (String × Option ℕ) × pins.World
  unfolding load_pinned_program not_found
  load_pinned_programs [] programs w = (none, [], programs, w)
  load_pinned_programs (p ∷ ps) programs w =
      let (e, p', programs1, w1) = load_pinned_program p programs w in
      let (f, ps1, after1, v1) = load_pinned_programs ps programs1 w1 in
      let (f0, ps0, after0, v0) = load_pinned_programs ps programs w in
      if str_eq p.pin_path "" then (f0, p ∷ ps0, after0, v0) else elim e [
        | none ↦ (f, p' ∷ ps1, after1, v1)
        | some err ↦
            if not_found err then (f, p' ∷ ps1, after1, v1) else (some err, p' ∷ ps, programs1, w1)
      ]

  -- `loadPinnedObjects`
  unfoldable pub load_pinned_objects : Manager → pins.World → Fault × Manager × pins.World
  unfolding load_pinned_maps load_pinned_programs
  load_pinned_objects m w =
      let (e1, m1, w1) = load_pinned_maps m.maps m w in
      let (e2, m2, w2) = load_pinned_maps m1.perf_maps m1 w1 in
      let (e3, ps, programs, w3) = load_pinned_programs m2.probes m2.programs w2 in
      elim e1 [
        | some err ↦ (some err, m1, w1)
        | none ↦ elim e2 [
          | some err ↦ (some err, m2, w2)
          | none ↦ (e3, record m2 { probes = ps; programs = programs }, w3)
        ]
      ]

-- `loadCollection` once the collection is loaded: each loop ends at the first error. `collection_maps` are the
-- maps of the collection, and the two numbers the default sizes of rings.
module _ (sys : System) (loader : Loader sys) (o : ProbeOptions)
    (collection_maps : List (String × ℕ)) (size watermark : ℕ) where
  unfoldable pub init_maps : List ManagedMap → sys.World → Fault × List ManagedMap × sys.World
  unfolding Map.init lookup_spec
  init_maps [] w = (none, [], w)
  init_maps (m ∷ ms) w =
      let (e, m', w1) = Map.init sys m (lookup_spec m.name collection_maps) w in
      let (f, ms', w2) = init_maps ms w1 in
      elim e [ none ↦ (f, m' ∷ ms', w2) | some err ↦ (some err, m' ∷ ms, w1) ]

  unfoldable pub init_rings : List PerfMap → sys.World → Fault × List PerfMap × sys.World
  unfolding Perf.perf_init lookup_spec
  init_rings [] w = (none, [], w)
  init_rings (r ∷ rs) w =
      let (e, r', w1) =
        Perf.perf_init sys r (lookup_spec r.map.name collection_maps) size watermark w in
      let (f, rs', w2) = init_rings rs w1 in
      elim e [ none ↦ (f, r' ∷ rs', w2) | some err ↦ (some err, r' ∷ rs, w1) ]

  unfoldable pub init_probes : List Probe → sys.World → Fault × List Probe × sys.World
  unfolding Init.init
  init_probes [] w = (none, [], w)
  init_probes (p ∷ ps) w =
      let (e, (p', w1)) = Init.init sys loader o (p, w) in
      let (f, ps', w2) = init_probes ps w1 in
      elim e [ none ↦ (f, p' ∷ ps', w2) | some err ↦ (some err, p' ∷ ps, w1) ]

  -- `loadCollection`; `loaded` is the result of `NewCollectionWithOptions`
  unfoldable pub load_collection : Fault → Fleet → sys.World → Fault × Fleet × sys.World
  unfolding init_maps init_rings init_probes
  load_collection loaded f w =
      let (e1, maps, w1) = init_maps f.maps w in
      let (e2, rings, w2) = init_rings f.rings w1 in
      let (e3, probes, w3) = init_probes f.probes w2 in
      elim loaded [
        | some err ↦ (some (quoting err), f, w)
        | none ↦ elim e1 [
          | some err ↦ (some err, record f { maps = maps }, w1)
          | none ↦ elim e2 [
            | some err ↦ (some err, record f { maps = maps; rings = rings }, w2)
            | none ↦ (e3, record f { maps = maps; rings = rings; probes = probes }, w3)
          ]
        ]
      ]
