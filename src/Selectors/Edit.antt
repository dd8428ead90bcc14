-- ===== src/Selectors/Edit.antt =====
-- `EditProbeIdentificationPair` of manager.go and selectors.go against the lists of pairs.
use ebpfmanager.Common.{◌≡◌, refl, ◌++◌, map, if◌then◌else◌, ◌∙◌, ap₂, sym, map-append}
use ebpfmanager.Probe.{ProbeIdentificationPair, matches}
use ebpfmanager.Selectors.{
  Selector, Selectors, probe_selector, one_of, all_of, best_effort, nil, cons,
  get_probes_identification_pair_list, pairs_of, edit_probe_identification_pair, edit_all,
}

-- One pair takes the place of another.
abbrev pub replace :
    ProbeIdentificationPair
    → ProbeIdentificationPair
    → ProbeIdentificationPair
    → ProbeIdentificationPair
replace old new id = if matches id old then new else id

mutual
  unfolding get_probes_identification_pair_list edit_probe_identification_pair

  edited_list :
      (old new : ProbeIdentificationPair) (s : Selector)
      → get_probes_identification_pair_list (edit_probe_identification_pair old new s)
        ≡ map (replace old new) (get_probes_identification_pair_list s)
  edited_list old new (probe_selector id) = refl
  edited_list old new (one_of ss) = edited_lists old new ss
  edited_list old new (all_of ss) = edited_lists old new ss
  edited_list old new (best_effort ss) = edited_lists old new ss

  edited_lists :
      (old new : ProbeIdentificationPair) (ss : Selectors)
      → pairs_of (edit_all old new ss) ≡ map (replace old new) (pairs_of ss)
  edited_lists old new nil = refl
  edited_lists old new (cons s ss) =
      ap₂ ◌++◌ (edited_list old new s) (edited_lists old new ss)
      ∙ sym (map-append (replace old new) (get_probes_identification_pair_list s) (pairs_of ss))

-- Editing a selector puts the new pair at each place of its list where the old one stood, and changes
-- nothing else of the list.
pub pair_list-edit :
    (old new : ProbeIdentificationPair) (s : Selector)
    → get_probes_identification_pair_list (edit_probe_identification_pair old new s)
      ≡ map (replace old new) (get_probes_identification_pair_list s)
pair_list-edit old new s = edited_list old new s
