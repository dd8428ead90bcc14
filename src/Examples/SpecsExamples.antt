-- ===== src/Examples/SpecsExamples.antt =====
-- Editors of two specs, of which a map of the manager points to the first.
use ebpfmanager.Common.{ℕ, ◌≡◌, refl, [], ◌∷◌, Option, none, some}
use ebpfmanager.State.{initialized}
use ebpfmanager.Errors.{missing_editor_flags}
use ebpfmanager.Manager.{lookup_spec}
use ebpfmanager.Manager.Routes.{returned, panicked}
use ebpfmanager.Manager.Specs.{
  MapSpec, MapSpecEditor, Heap, Pointers, edit_map_specs, get_map_spec, apply_editor,
}
use ebpfmanager.Manager.Specs.Edited.{IsEdited, edit_map_specs_lem}

abbrev pub pointers : Pointers
pointers = record {
  state = initialized;
  collection_spec = some (("cache", 0) ∷ ("events", 1) ∷ ("counts", 2) ∷ []);
  maps = ("cache", some 0) ∷ ("later", none) ∷ [];
  perf_maps = [];
}

abbrev pub specs : Heap
specs p = record { map_type = 2; max_entries = 1; flags = 0; inner_map = none }

abbrev larger : MapSpecEditor
larger = record { map_type = 0; max_entries = 1000; flags = 0; editor_flag = 4; inner_map = none }

abbrev typed : MapSpecEditor
typed = record { map_type = 1; max_entries = 0; flags = 1; editor_flag = 10; inner_map = some 7 }

abbrev heap_at : ℕ → Option MapSpec
heap_at p = elim (edit_map_specs pointers (("cache", larger) ∷ ("events", typed) ∷ []) specs) [
  | panicked ↦ none
  | returned e h ↦ some (h p)
]

edit_test : heap_at 1 ≡ some (record { map_type = 1; max_entries = 1; flags = 1; inner_map = none })
unfolding edit_map_specs get_map_spec apply_editor lookup_spec
edit_test = refl

no_flag_test :
    edit_map_specs pointers (("cache", record larger { editor_flag = 0 }) ∷ []) specs
    ≡ returned (some missing_editor_flags) specs
unfolding edit_map_specs get_map_spec lookup_spec
no_flag_test = refl

-- A map that has no spec yet is a nil pointer.
nil_test : edit_map_specs pointers (("later", larger) ∷ []) specs ≡ panicked
unfolding edit_map_specs get_map_spec lookup_spec
nil_test = refl

abbrev result : Heap
result = elim (edit_map_specs pointers (("cache", larger) ∷ ("events", typed) ∷ []) specs) [
  | panicked ↦ specs
  | returned e h ↦ h
]

result_test :
    edit_map_specs pointers (("cache", larger) ∷ ("events", typed) ∷ []) specs
    ≡ returned none result
unfolding edit_map_specs get_map_spec lookup_spec
result_test = refl

edit_map_specs_lem_example : IsEdited typed (specs 1) (result 1) × (result 2 ≡ specs 2)
unfolding get_map_spec lookup_spec
edit_map_specs_lem_example =
    edit_map_specs_lem pointers (("cache", larger) ∷ []) "events" typed [] specs result 1 2
      result_test refl refl refl refl
