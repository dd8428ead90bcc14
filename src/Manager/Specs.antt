-- ===== src/Manager/Specs.antt =====
-- `GetMapSpec`, `editMapSpec` and `editMapSpecs` of manager.go. The specs of maps stand in a heap, as the
-- collection spec, a map and a perf map can point to the same one.
pub mod Edited
use ebpfmanager.Common.{
  ℕ, ◌*◌, Bool, true, false, ◌&&◌, ◌||◌, String, str_eq, List, [], ◌∷◌, Option, none, some, ◌==◌,
  if◌then◌else◌,
}
use ebpfmanager.State.{State, initialized, before}
use ebpfmanager.Errors.{
  Error, Fault, quoting, manager_not_initialized, unknown_map, missing_editor_flags,
}
use ebpfmanager.Map.{has_flag}
use ebpfmanager.Manager.{lookup_spec}
use ebpfmanager.Manager.Routes.{Outcome, returned, panicked}

-- The fields of `ebpf.MapSpec` that an editor changes; an inner map is a pointer.
pub record MapSpec : Type 0 where
  pub map_type : ℕ
  pub max_entries : ℕ
  pub flags : ℕ
  pub inner_map : Option ℕ

pub record MapSpecEditor : Type 0 where
  pub map_type : ℕ
  pub max_entries : ℕ
  pub flags : ℕ
  pub editor_flag : ℕ
  pub inner_map : Option ℕ

abbrev pub edit_type : ℕ
edit_type = 2

abbrev pub edit_max_entries : ℕ
edit_max_entries = 4

abbrev pub edit_flags : ℕ
edit_flags = 8

abbrev pub edit_inner_map : ℕ
edit_inner_map = 16

abbrev pub Heap : Type 0
Heap = ℕ → MapSpec

unfoldable pub write : ℕ → MapSpec → Heap → Heap
write p spec h q = if q == p then spec else h q

-- What a manager points to: the specs of the collection spec if it has one, and those of its maps and perf
-- maps, which can be nil.
pub record Pointers : Type 0 where
  pub state : State
  pub collection_spec : Option (List (String × ℕ))
  pub maps : List (String × Option ℕ)
  pub perf_maps : List (String × Option ℕ)

abbrev pub specs_ready : Pointers → Option (List (String × ℕ))
specs_ready m = if before m.state initialized then none else m.collection_spec

abbrev first_of : Option ℕ → Option (Option ℕ) → Option (Option ℕ) → Option (Option ℕ)
first_of (some p) a b = some (some p)
first_of none (some a) b = some a
first_of none none b = b

-- `GetMapSpec`
unfoldable pub get_map_spec : Pointers → String → Fault × Option (Option ℕ)
unfolding lookup_spec
get_map_spec m name = elim (specs_ready m) [
  | none ↦ (some manager_not_initialized, none)
  | some c ↦
      (none, first_of (lookup_spec name c) (lookup_spec name m.maps) (lookup_spec name m.perf_maps))
]

-- `m.collectionSpec.Maps[name] = mapSpec`, for a name that is there.
unfoldable pub replace : String → ℕ → List (String × ℕ) → List (String × ℕ)
replace name p [] = []
replace name p ((n, q) ∷ rest) =
    let rest' = replace name p rest in if str_eq n name then (n, p) ∷ rest else (n, q) ∷ rest'

-- `editMapSpec`
unfoldable pub edit_map_spec : String → ℕ → Pointers → Fault × Pointers
unfolding lookup_spec replace
edit_map_spec name p m = elim (specs_ready m) [
  | none ↦ (some manager_not_initialized, m)
  | some c ↦ elim (lookup_spec name c) [
    | none ↦ (some unknown_map, m)
    | some old ↦ (none, record m { collection_spec = some (replace name p c) })
  ]
]

abbrev pub or_keep : Option ℕ → Option ℕ → Option ℕ
or_keep none kept = kept
or_keep (some p) kept = some p

-- The spec after the assignments of an editor.
unfoldable pub apply_editor : MapSpecEditor → MapSpec → MapSpec
apply_editor e spec = record {
  map_type = if has_flag e.editor_flag edit_type then e.map_type else spec.map_type;
  max_entries = if has_flag e.editor_flag edit_max_entries then e.max_entries else spec.max_entries;
  flags = if has_flag e.editor_flag edit_flags then e.flags else spec.flags;
  inner_map =
      if has_flag e.editor_flag edit_inner_map
      then or_keep e.inner_map spec.inner_map
      else spec.inner_map;
}

abbrev is_some : Option ℕ → Bool
is_some none = false
is_some (some p) = true

-- Whether the editor assigns a field.
abbrev pub assigns : MapSpecEditor → Bool
assigns e =
    has_flag e.editor_flag edit_type
    || has_flag e.editor_flag edit_max_entries
    || has_flag e.editor_flag edit_flags
    || (has_flag e.editor_flag edit_inner_map && is_some e.inner_map)

-- `editMapSpecs`, over the editors in the order in which Go takes them from the map.
unfoldable pub edit_map_specs : Pointers → List (String × MapSpecEditor) → Heap → Outcome Heap
unfolding get_map_spec apply_editor write
edit_map_specs m [] h = returned none h
edit_map_specs m ((name, e) ∷ es) h =
    let (err, found) = get_map_spec m name in
    elim err [
      | some error ↦ returned (some error) h
      | none ↦ elim found [
        | none ↦ returned (some (quoting unknown_map)) h
        | some spec ↦
            if e.editor_flag == 0 then returned (some missing_editor_flags) h else elim spec [
              | none ↦ if assigns e then panicked else edit_map_specs m es h
              | some p ↦ edit_map_specs m es (write p (apply_editor e (h p)) h)
            ]
      ]
    ]
