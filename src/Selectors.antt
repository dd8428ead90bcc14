-- ===== src/Selectors.antt =====
-- The selectors of manager.go and selectors.go: which probes they name, when they are satisfied, and
-- how they follow a change of a probe's identification pair.
pub mod Validation
pub mod Edit
use ebpfmanager.Common.{
  ℕ, zero, suc, Bool, true, false, ◌&&◌, not, List, [], ◌∷◌, ◌++◌, Option, none, some, ◌==◌,
  if◌then◌else◌, length,
}
use ebpfmanager.Errors.{Error, Fault, message, quoting}
use ebpfmanager.Probe.{
  Probe, ProbeIdentificationPair, matches, identification_pair_matches, probe_is_running,
}

-- The types that implement `ProbesSelector`.
mutual
  pub data Selector : Type 0 where
    probe_selector : ProbeIdentificationPair → Selector
    one_of : Selectors → Selector
    all_of : Selectors → Selector
    best_effort : Selectors → Selector

  pub data Selectors : Type 0 where
    nil : Selectors
    cons : Selector → Selectors → Selectors

abbrev pub to_list : Selectors → List Selector
to_list nil = []
to_list (cons s ss) = s ∷ to_list ss

unfoldable mutual
  pub get_probes_identification_pair_list : Selector → List ProbeIdentificationPair
  get_probes_identification_pair_list (probe_selector id) = id ∷ []
  get_probes_identification_pair_list (one_of ss) = pairs_of ss
  get_probes_identification_pair_list (all_of ss) = pairs_of ss
  get_probes_identification_pair_list (best_effort ss) = pairs_of ss

  pub pairs_of : Selectors → List ProbeIdentificationPair
  pairs_of nil = []
  pairs_of (cons s ss) = get_probes_identification_pair_list s ++ pairs_of ss

-- `GetProbe` of manager.go.
unfoldable pub get_probe : List Probe → ProbeIdentificationPair → Option Probe
get_probe [] id = none
get_probe (p ∷ ps) id = if identification_pair_matches p id then some p else get_probe ps id

-- The text of `GetLastError`, which is nil if no error was met.
abbrev last_error_text : Fault → Error
last_error_text none = message "error:<nil>"
last_error_text (some e) = quoting e

validate_probe : Option Probe → Fault
validate_probe none = some (message "probe not found")
validate_probe (some p) =
    if not (probe_is_running p) && p.enabled
    then some (last_error_text p.last_error)
    else if not p.enabled
    then some (message "is disabled, add it to the activation list")
    else none

abbrev count_error : Fault → ℕ → ℕ
count_error none n = n
count_error (some e) n = suc n

unfoldable mutual
  unfolding get_probe validate_probe

  pub run_validator : List Probe → Selector → Fault
  run_validator ps (probe_selector id) = validate_probe (get_probe ps id)
  run_validator ps (one_of ss) =
      if count_errors ps ss == count_selectors ss
      then some (message "OneOf requirement failed")
      else none
  run_validator ps (all_of ss) =
      if count_errors ps ss == 0 then none else some (message "AllOf requirement failed")
  run_validator ps (best_effort ss) = none

  -- `len(errs)` after the loop over the selectors
  pub count_errors : List Probe → Selectors → ℕ
  count_errors ps nil = 0
  count_errors ps (cons s ss) = count_error (run_validator ps s) (count_errors ps ss)

  pub count_selectors : Selectors → ℕ
  count_selectors nil = 0
  count_selectors (cons s ss) = suc (count_selectors ss)

unfoldable mutual
  pub edit_probe_identification_pair :
      ProbeIdentificationPair → ProbeIdentificationPair → Selector → Selector
  edit_probe_identification_pair old new (probe_selector id) =
      probe_selector (if matches id old then new else id)
  edit_probe_identification_pair old new (one_of ss) = one_of (edit_all old new ss)
  edit_probe_identification_pair old new (all_of ss) = all_of (edit_all old new ss)
  edit_probe_identification_pair old new (best_effort ss) = best_effort (edit_all old new ss)

  pub edit_all : ProbeIdentificationPair → ProbeIdentificationPair → Selectors → Selectors
  edit_all old new nil = nil
  edit_all old new (cons s ss) =
      cons (edit_probe_identification_pair old new s) (edit_all old new ss)
