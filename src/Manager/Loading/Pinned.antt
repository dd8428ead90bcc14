-- ===== src/Manager/Loading/Pinned.antt =====
-- The category of a map that `loadPinnedMap` of manager.go has loaded from its pin.
use ebpfmanager.Common.{
  ℕ, ◌≡◌, refl, sym, ap, ◌∙◌, subst, true, false, String, str_eq, if◌then◌else◌, List, [], ◌∷◌, map,
  Option, none, some, arith, Option-cases, Bool-cases, inl, inr,
}
use ebpfmanager.Map.{ManagedMap, should_close, is_pinned}
use ebpfmanager.Map.Clean
use ebpfmanager.Manager.{Manager, named, record_edit, edit_maps}
use ebpfmanager.Manager.EditMaps.{edit_maps_single}
use ebpfmanager.Manager.Loading.{PinSystem, load_pinned_map}

unfoldable pub find_map : String → List ManagedMap → Option ManagedMap
find_map name [] = none
find_map name (m ∷ ms) = if str_eq m.name name then some m else find_map name ms

-- After `editMaps` a map of the name is an external one that was edited.
found_edited :
    (name : String) (array : ℕ) (ms : List ManagedMap) (y : ManagedMap)
    → find_map name (map (record_edit name array) ms) ≡ some y
    → (y.array ≡ some array) × (y.external_map ≡ true) × (y.edited_map ≡ true)
unfolding find_map record_edit
found_edited name array [] y h = absurd (cc)
found_edited name array (m ∷ ms) y h = ground (arith, found_edited name array ms y)

category :
    (y : ManagedMap)
    → y.external_map ≡ true
    → y.edited_map ≡ true
    → is_pinned y ≡ true
    → y.always_cleanup ≡ false
    → (should_close y Clean.external_pinned ≡ false)
      × (should_close y Clean.external_pinned_and_edited ≡ true)
unfolding should_close
category y e d p a = rw (should_close, e, d, p, a) (refl, refl)

module _ (pins : PinSystem) where
  loaded_maps :
      (name path : String) (m m' : Manager) (w w' : pins.World)
      → named name m.maps ≡ true
      → load_pinned_map pins name path m w ≡ (none, m', w')
      → m'.maps ≡ map (record_edit name (pins.load_pinned_map path w).1) m.maps
  unfolding load_pinned_map
  loaded_maps name path m m' w w' n r =
      let (e, array, v) = pins.load_pinned_map path w in
      elim (Bool-cases (pins.is_there path w)) [
        | inr b ↦ let z = ap (λ x. x.0) (rw (load_pinned_map, b) at r) in absurd (cc)
        | inl b ↦ elim (Option-cases e) [
          | inr (err, c) ↦ let z = ap (λ x. x.0) (rw (load_pinned_map, b, c) at r) in absurd (cc)
          | inl c ↦ elim (Option-cases (pins.rewrite_maps name array v)) [
            | inr (err, d) ↦
                let z = ap (λ x. x.0) (rw (load_pinned_map, edit_maps, b, c, d) at r) in absurd (cc)
            | inl d ↦
                sym (ap (λ x. x.1.maps) (rw (load_pinned_map, b, c, d) at r))
                ∙ ap (λ f. (edit_maps f ((name, array) ∷ []) m).1.maps) d
                ∙ ap (λ (x : Manager). x.maps) (edit_maps_single m name array)
                ∙ rw n refl
          ]
        ]
      ]

  -- A pinned map that the manager loads from its pin counts as edited, so that a clean up of external pinned
  -- maps leaves it, and one of external, pinned and edited maps closes it.
  pub load_pinned_map-should_close :
      (name path : String) (m m' : Manager) (w w' : pins.World) (y : ManagedMap)
      → named name m.maps ≡ true
      → load_pinned_map pins name path m w ≡ (none, m', w')
      → find_map name m'.maps ≡ some y
      → is_pinned y ≡ true
      → y.always_cleanup ≡ false
      → (y.array ≡ some (pins.load_pinned_map path w).1)
        × (should_close y Clean.external_pinned ≡ false)
        × (should_close y Clean.external_pinned_and_edited ≡ true)
  load_pinned_map-should_close name path m m' w w' y n r f p a =
      let maps = loaded_maps name path m m' w w' n r in
      let (array, external, edited) =
        found_edited name (pins.load_pinned_map path w).1 m.maps y
          (subst (λ ms. find_map name ms ≡ some y) maps f) in
      let (kept, closed) = category y external edited p a in (array, kept, closed)
