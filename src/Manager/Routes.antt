-- ===== src/Manager/Routes.antt =====
-- `GetMap`, `GetProgram`, `UpdateMapRoutes` and `UpdateTailCallRoutes` of manager.go.
pub mod Entries
use ebpfmanager.Common.{ℕ, Bool, String, str_eq, List, [], ◌∷◌, Option, none, some, if◌then◌else◌}
use ebpfmanager.State.{State, initialized, before}
use ebpfmanager.Errors.{
  Error, Fault, quoting, manager_not_initialized, unknown_map, unknown_match_func_name,
}
use ebpfmanager.Probe.{Probe, ProbeIdentificationPair, identification_pair_matches}
use ebpfmanager.Map.{ManagedMap}
use ebpfmanager.Manager.{lookup_spec}

-- `ebpf.Collection`; eBPF maps and programs are numbers.
pub record Collection : Type 0 where
  pub maps : List (String × ℕ)
  pub programs : List (String × ℕ)

-- What the lookups read of a manager.
pub record Loaded : Type 0 where
  pub state : State
  pub collection : Option Collection
  pub maps : List ManagedMap
  pub perf_maps : List ManagedMap
  pub probes : List Probe

-- The collection, if the manager is initialised.
abbrev pub ready : Loaded → Option Collection
ready m = if before m.state initialized then none else m.collection

-- The array of the first map of a name; none if no map has it, and some none for a nil array.
unfoldable pub find_array : String → List ManagedMap → Option (Option ℕ)
find_array name [] = none
find_array name (m ∷ ms) = if str_eq m.name name then some m.array else find_array name ms

abbrev or_next : Option (Option ℕ) → Option (Option ℕ) → Option (Option ℕ)
or_next none o = o
or_next (some a) o = some a

abbrev found : Option ℕ → Option (Option ℕ)
found none = none
found (some n) = some (some n)

-- `GetMap`
unfoldable pub get_map : Loaded → String → Fault × Option (Option ℕ)
unfolding find_array
get_map m name = elim (ready m) [
  | none ↦ (some manager_not_initialized, none)
  | some c ↦ (
    none,
    or_next (found (lookup_spec name c.maps))
        (or_next (find_array name m.maps) (find_array name m.perf_maps)),
  )
]

-- The programs of the probes with a function.
unfoldable pub programs_of : String → List Probe → List (Option ℕ)
programs_of name [] = []
programs_of name (p ∷ ps) =
    let rest = programs_of name ps in
    if str_eq p.ebpf_func_name name then p.program ∷ rest else rest

unfoldable pub program_of : ProbeIdentificationPair → List Probe → Option (Option ℕ)
program_of id [] = none
program_of id (p ∷ ps) =
    if identification_pair_matches p id then some p.program else program_of id ps

abbrev first_program : List (Option ℕ) → Option (Option ℕ) → Option (Option ℕ)
first_program [] o = o
first_program (p ∷ ps) o = some p

-- `GetProgram`, of whose list the routes take the first.
unfoldable pub get_program : Loaded → ProbeIdentificationPair → Fault × Option (Option ℕ)
unfolding programs_of program_of
get_program m id = elim (ready m) [
  | none ↦ (some manager_not_initialized, none)
  | some c ↦ (
    none,
    if str_eq id.uid ""
        then first_program (programs_of id.ebpf_func_name m.probes)
            (found (lookup_spec id.ebpf_func_name c.programs))
        else program_of id m.probes,
  )
]

pub record MapRoute : Type 0 where
  pub routing_map_name : String
  pub key : ℕ
  pub routed_name : String
  pub map : Option ℕ

pub record TailCallRoute : Type 0 where
  pub prog_array_name : String
  pub key : ℕ
  pub probe_identification_pair : ProbeIdentificationPair
  pub program : Option ℕ

-- What a route comes to: an error, a nil pointer that is used, or a map and what is put into it.
pub data Target : Type 0 where
  refused : Error → Target
  nil_pointer : Target
  target : ℕ → ℕ → Target

-- The result of a lookup that the route names, or of one that it does not need.
abbrev pub chosen : Option ℕ → Fault × Option (Option ℕ) → Fault × Option (Option ℕ)
chosen none r = r
chosen (some n) r = (none, some (some n))

-- The routing map first, and then what is routed.
unfoldable pub resolve : Error → Fault × Option (Option ℕ) → Fault × Option (Option ℕ) → Target
resolve missing (some e, o) r = refused e
resolve missing (none, none) r = refused (quoting unknown_map)
resolve missing (none, some a) (some e, o) = refused e
resolve missing (none, some a) (none, none) = refused (quoting missing)
resolve missing (none, some none) (none, some b) = nil_pointer
resolve missing (none, some (some a)) (none, some none) = nil_pointer
resolve missing (none, some (some a)) (none, some (some b)) = target a b

unfoldable pub map_target : Loaded → MapRoute → Target
unfolding get_map resolve
map_target m r =
    resolve unknown_map (get_map m r.routing_map_name) (chosen r.map (get_map m r.routed_name))

unfoldable pub tail_call_target : Loaded → TailCallRoute → Target
unfolding get_map get_program resolve
tail_call_target m r =
    resolve unknown_match_func_name (get_map m r.prog_array_name)
      (chosen r.program (get_program m r.probe_identification_pair))

-- How a call ends.
pub data Outcome (W : Type 0) : Type 0 where
  returned : Fault → W → Outcome W
  panicked : Outcome W

-- `put` is `(*ebpf.Map).Put` of a file descriptor, which stands for the map or program it is of.
module _ (W : Type 0) (put : ℕ → ℕ → ℕ → W → Fault × W) where
  unfoldable pub insert : Target → ℕ → W → Outcome W
  insert (refused e) key w = returned (some e) w
  insert nil_pointer key w = panicked
  insert (target a b) key w =
      let (e, w') = put a key b w in
      elim e [ none ↦ returned none w' | some err ↦ returned (some (quoting err)) w' ]

  -- The loops: the first error ends them.
  unfoldable pub update_routes : List (Target × ℕ) → W → Outcome W
  unfolding insert
  update_routes [] w = returned none w
  update_routes ((t, key) ∷ rs) w = elim (insert t key w) [
    | panicked ↦ panicked
    | returned none w' ↦ update_routes rs w'
    | returned (some e) w' ↦ returned (some e) w'
  ]

  unfoldable pub map_targets : Loaded → List MapRoute → List (Target × ℕ)
  unfolding map_target
  map_targets m [] = []
  map_targets m (r ∷ rs) = (map_target m r, r.key) ∷ map_targets m rs

  unfoldable pub tail_call_targets : Loaded → List TailCallRoute → List (Target × ℕ)
  unfolding tail_call_target
  tail_call_targets m [] = []
  tail_call_targets m (r ∷ rs) = (tail_call_target m r, r.key) ∷ tail_call_targets m rs

  -- `UpdateMapRoutes`
  unfoldable pub update_map_routes : Loaded → List MapRoute → W → Outcome W
  unfolding update_routes map_targets
  update_map_routes m rs w = update_routes (map_targets m rs) w

  -- `UpdateTailCallRoutes`
  unfoldable pub update_tail_call_routes : Loaded → List TailCallRoute → W → Outcome W
  unfolding update_routes tail_call_targets
  update_tail_call_routes m rs w = update_routes (tail_call_targets m rs) w
