-- ===== src/Manager/EditMaps.antt =====
-- `editMaps` of manager.go: which maps of the manager the given eBPF maps take the place of.
use ebpfmanager.Common.{
  ℕ, ◌≡◌, refl, Bool, true, false, ◌||◌, String, str_eq_self, List, [], ◌∷◌, ◌++◌, map, none,
  if◌then◌else◌, arith, Bool-cases, inl, inr, ◌∙◌,
}
use ebpfmanager.Map.{ManagedMap}
use ebpfmanager.Manager.{Manager, named, record_edit, edited_entry, edit_maps}

record_edit_absent :
    (name : String) (array : ℕ) (ms : List ManagedMap)
    → named name ms ≡ false
    → map (record_edit name array) ms ≡ ms
unfolding record_edit
record_edit_absent name array [] h = refl
record_edit_absent name array (m ∷ ms) h = ground (arith, record_edit_absent name array ms)

named-record_edit :
    (b name : String) (array : ℕ) (ms : List ManagedMap)
    → named b (map (record_edit name array) ms) ≡ named b ms
unfolding record_edit
named-record_edit b name array [] = refl
named-record_edit b name array (m ∷ ms) = ground (arith, named-record_edit b name array ms)

named_last :
    (b : String) (y : ℕ) (ms : List ManagedMap) → named b (ms ++ edited_entry b y ∷ []) ≡ true
named_last b y [] = ground (arith, str_eq_self b)
named_last b y (m ∷ ms) = ground (arith, named_last b y ms)

named_kept :
    (b : String) (c : Bool) (ms es : List ManagedMap)
    → named b ms ≡ true
    → named b (if c then ms else ms ++ es) ≡ true
named_kept b true ms es h = h
named_kept b false [] es h = ground (arith, h)
named_kept b false (m ∷ ms) es h = ground (arith, named_kept b false ms es)

named_added :
    (b : String) (y : ℕ) (c : Bool) (ms : List ManagedMap)
    → c ≡ false
    → named b (if c then ms else ms ++ edited_entry b y ∷ []) ≡ true
named_added b y true ms h = ground (arith, h)
named_added b y false ms h = named_last b y ms

-- One editor, as for a pinned map: where a map or perf map has the name, exactly those with it get
-- the eBPF map and count as external and edited; where none has, a new map is added at the end and
-- the others stay.
pub edit_maps_single :
    (m : Manager) (name : String) (array : ℕ)
    → (edit_maps none ((name, array) ∷ []) m).1 ≡ (
        if named name m.maps || named name m.perf_maps
        then record m {
          maps = map (record_edit name array) m.maps;
          perf_maps = map (record_edit name array) m.perf_maps;
        }
        else record m { maps = m.maps ++ edited_entry name array ∷ [] })
unfolding edit_maps
edit_maps_single m name array = elim (Bool-cases (named name m.maps || named name m.perf_maps)) [
  | inl h ↦ grind (arith)
  | inr h ↦
      ground
        (arith, record_edit_absent name array m.maps, record_edit_absent name array m.perf_maps)
]

-- With two editors the second one, for a name that no map has, adds its map only if it comes first:
-- after an editor for a known name it is dropped.
pub edit_maps_drops :
    (m : Manager) (a b : String) (x y : ℕ)
    → named a m.maps ≡ true
    → named b m.maps ≡ false
    → named b m.perf_maps ≡ false
    → (named b (edit_maps none ((a, x) ∷ (b, y) ∷ []) m).1.maps ≡ false)
      × (named b (edit_maps none ((b, y) ∷ (a, x) ∷ []) m).1.maps ≡ true)
unfolding edit_maps
edit_maps_drops m a b x y ha hb hp = (
  ground (
    arith,
    named-record_edit b a x m.maps,
    named-record_edit b b y (map (record_edit a x) m.maps),
  ),
  named_kept b _ (map (record_edit a x) _) _ (
      named-record_edit b a x _
      ∙ named_added b y (named b m.maps || named b m.perf_maps) (map (record_edit b y) m.maps)
          (ground arith)),
)
