-- ===== src/Map/Category.antt =====
-- The categories of maps in the comment on `MapCleanupType` of map.go, against the tests of `close`.
use ebpfmanager.Common.{ℕ, ◌≡◌, Bool, true, false, ◌||◌, ◌&&◌, not, Option, none, some, arith}
use ebpfmanager.Map.{ManagedMap, should_close, has_flag, is_pinned}
use ebpfmanager.Map.Clean

-- "A map can only be in one of the following categories".
pub data Category : Type 0 where
  internal_pinned internal_not_pinned : Category
  external_pinned external_pinned_and_edited external_edited : Category

abbrev pub flag_of : Category → ℕ
flag_of internal_pinned = Clean.internal_pinned
flag_of internal_not_pinned = Clean.internal_not_pinned
flag_of external_pinned = Clean.external_pinned
flag_of external_pinned_and_edited = Clean.external_pinned_and_edited
flag_of external_edited = Clean.external_edited

-- external, pinned, edited; an external map that is neither pinned nor edited is in no category
abbrev category_of : Bool → Bool → Bool → Option Category
category_of false true edited = some internal_pinned
category_of false false edited = some internal_not_pinned
category_of true true false = some external_pinned
category_of true true true = some external_pinned_and_edited
category_of true false true = some external_edited
category_of true false false = none

abbrev pub category : ManagedMap → Option Category
category m = category_of m.external_map (is_pinned m) m.edited_map

-- A map is closed exactly if it always is, or if the clean up type has the flag of its category.
pub should_close_lem :
    (m : ManagedMap) (cleanup : ℕ)
    → should_close m cleanup ≡ (
        m.always_cleanup
        || elim (category m) [ none ↦ false | some c ↦ has_flag cleanup (flag_of c) ])
unfolding should_close
should_close_lem m cleanup = ground arith

-- `CleanInternal` closes the maps that this manager loaded, `CleanExternal` those of the external
-- categories, and `CleanAll` every map that is in a category.
pub should_close_masks :
    (m : ManagedMap)
    → m.always_cleanup ≡ false
    → (should_close m Clean.internal ≡ not m.external_map)
      × (should_close m Clean.external ≡ (m.external_map && (is_pinned m || m.edited_map)))
      × (should_close m Clean.all ≡ (not m.external_map || (is_pinned m || m.edited_map)))
unfolding should_close
should_close_masks m h = ground arith
