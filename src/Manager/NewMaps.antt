-- ===== src/Manager/NewMaps.antt =====
-- `NewMap`, `CloneMap`, `NewPerfRing` and `ClonePerfRing` of manager.go, with `loadNewMap` of map.go and
-- `loadNewPerfMap` of perf.go.
pub mod Found
use ebpfmanager.Common.{
  ℕ, Bool, true, false, String, str_eq, List, [], ◌∷◌, ◌++◌, Option, none, some, if◌then◌else◌,
}
use ebpfmanager.State.{reset}
use ebpfmanager.Errors.{Error, Fault, quoting, map_name_in_use, unknown_map}
use ebpfmanager.System.{System}
use ebpfmanager.Map
use ebpfmanager.Map.{ManagedMap, close_checked}
use ebpfmanager.Map.Clean
use ebpfmanager.Perf
use ebpfmanager.Perf.{PerfMap}
use ebpfmanager.Manager.{lookup_spec}
use ebpfmanager.Manager.Routes.{Loaded, get_map, Outcome, returned, panicked}
use ebpfmanager.Manager.Specs.{MapSpec, Heap, Pointers, get_map_spec}

-- `MapOptions`, less the handler of dumps.
pub record MapOptions : Type 0 where
  pub pin_path : String
  pub always_cleanup : Bool

-- `PerfMapOptions`, as far as the life of a ring reads them.
pub record PerfMapOptions : Type 0 where
  pub has_data_handler : Bool
  pub perf_ring_buffer_size : ℕ
  pub watermark : ℕ

-- What `loadNewMap` fills in before the map is created: `spec` is the address of its copy of the spec.
unfoldable pub unloaded : String → ℕ → MapOptions → ManagedMap
unloaded name spec options = record {
  array = none;
  array_spec = some spec;
  has_manager = false;
  state = reset;
  external_map = false;
  edited_map = false;
  name = name;
  pin_path = options.pin_path;
  always_cleanup = options.always_cleanup;
}

-- The array of the collection with the name of a map, for `Init`.
abbrev pub in_collection : Loaded → String → Option ℕ
in_collection m name = elim m.collection [ none ↦ none | some c ↦ lookup_spec name c.maps ]

-- `create` is `ebpf.NewMap` of a spec with this name; `address` is where the new spec stands.
module _ (sys : System) (create : String → MapSpec → sys.World → Fault × ℕ × sys.World)
    (address : ℕ) where
  unfoldable pub pin_loaded : ManagedMap → ℕ → sys.World → Fault × ManagedMap × sys.World
  pin_loaded x array w =
      let (e, w') = sys.pin_map array x.pin_path w in
      let loaded = record x { array = some array } in
      if str_eq x.pin_path ""
      then (none, loaded, w)
      else elim e [ none ↦ (none, loaded, w') | some err ↦ (some (quoting err), loaded, w') ]

  -- `loadNewMap`
  unfoldable pub load_new_map :
      String → MapSpec → MapOptions → sys.World → Fault × ManagedMap × sys.World
  unfolding pin_loaded unloaded
  load_new_map name spec options w =
      let (e, array, w') = create name spec w in
      elim e [
        | none ↦ pin_loaded (unloaded name address options) array w'
        | some err ↦ (some err, unloaded name address options, w')
      ]

  -- The map that `Init` leaves is added, or closed after an error.
  unfoldable pub add_map :
      Loaded → Fault × ManagedMap × sys.World → Fault × Option ℕ × Loaded × sys.World
  add_map m (none, x, w) = (none, x.array, record m { maps = m.maps ++ x ∷ [] }, w)
  add_map m (some err, x, w) =
      let (ignored, x', w') = close_checked sys x Clean.internal w in (some err, none, m, w')

  -- `NewMap`
  unfoldable pub new_map :
      String → MapSpec → MapOptions → Loaded → sys.World → Fault × Option ℕ × Loaded × sys.World
  unfolding load_new_map add_map get_map Map.init
  new_map name spec options m w =
      let (e, x, w') = load_new_map name spec options w in
      elim (get_map m name).1 [
        | some found ↦ (some map_name_in_use, none, m, w)
        | none ↦ elim e [
          | some err ↦ (some err, none, m, w')
          | none ↦ add_map m (Map.init sys x (in_collection m name) w')
        ]
      ]

  -- `CloneMap`: the spec is copied as it stands; a nil one is a nil pointer.
  unfoldable pub clone_map :
      Pointers
      → Heap
      → String
      → String
      → MapOptions
      → Loaded
      → sys.World
      → Outcome (Option ℕ × Loaded × sys.World)
  unfolding new_map get_map_spec
  clone_map specs h name new_name options m w =
      let (err, found) = get_map_spec specs name in
      elim err [
        | some e ↦ returned (some e) (none, m, w)
        | none ↦ elim found [
          | none ↦ returned (some (quoting unknown_map)) (none, m, w)
          | some spec ↦ elim spec [
            | none ↦ panicked
            | some p ↦
                let (e, a, m', w') = new_map new_name (h p) options m w in returned e (a, m', w')
          ]
        ]
      ]

  -- `loadNewPerfMap` makes this of the map that `loadNewMap` returns.
  unfoldable pub unstarted : ManagedMap → PerfMapOptions → PerfMap
  unstarted x options = record {
    map = x;
    has_data_handler = options.has_data_handler;
    perf_ring_buffer_size = options.perf_ring_buffer_size;
    watermark = options.watermark;
    readers = 0;
  }

  -- The ring that was started is added, or stopped after an error.
  unfoldable pub add_ring :
      Loaded → Fault × PerfMap × sys.World → Fault × Option PerfMap × Loaded × sys.World
  add_ring m (none, r, w) = (none, some r, record m { perf_maps = m.perf_maps ++ r.map ∷ [] }, w)
  add_ring m (some err, r, w) =
      let (ignored, r', w') = Perf.stop sys r Clean.internal w in (some err, none, m, w')

  -- `NewPerfRing`, with the default sizes of the options
  unfoldable pub new_perf_ring :
      String
      → MapSpec
      → MapOptions
      → PerfMapOptions
      → ℕ
      → ℕ
      → Loaded
      → sys.World
      → Fault × Option PerfMap × Loaded × sys.World
  unfolding load_new_map unstarted add_ring get_map Perf.perf_init Perf.start
  new_perf_ring name spec options perf_options size watermark m w =
      let (e, x, w1) = load_new_map name spec options w in
      let (e2, r, w2) =
        Perf.perf_init sys (unstarted x perf_options) (in_collection m name) size watermark w1 in
      elim (get_map m name).1 [
        | some found ↦ (some map_name_in_use, none, m, w)
        | none ↦ elim e [
          | some err ↦ (some err, none, m, w1)
          | none ↦ elim e2 [
            | some err ↦ (some err, none, m, w2)
            | none ↦ add_ring m (Perf.start sys r w2)
          ]
        ]
      ]

  -- `ClonePerfRing`
  unfoldable pub clone_perf_ring :
      Pointers
      → Heap
      → String
      → String
      → MapOptions
      → PerfMapOptions
      → ℕ
      → ℕ
      → Loaded
      → sys.World
      → Outcome (Option PerfMap × Loaded × sys.World)
  unfolding new_perf_ring get_map_spec
  clone_perf_ring specs h name new_name options perf_options size watermark m w =
      let (err, found) = get_map_spec specs name in
      elim err [
        | some e ↦ returned (some e) (none, m, w)
        | none ↦ elim found [
          | none ↦ returned (some (quoting unknown_map)) (none, m, w)
          | some spec ↦ elim spec [
            | none ↦ panicked
            | some p ↦
                let (e, r, m', w') =
                  new_perf_ring new_name (h p) options perf_options size watermark m w in
                returned e (r, m', w')
          ]
        ]
      ]
