-- ===== src/Errors.antt =====
-- err.go, and `ConcatErrors` of utils.go.
use ebpfmanager.Common.{ℕ, ◌≡◌, refl, Option, none, some, String}

pub data Error : Type 0 where
  manager_not_initialized manager_not_started manager_running : Error
  unknown_section unknown_match_func_name unknown_match_func_spec unknown_map : Error
  pinned_object_not_found map_name_in_use identification_pair_in_use : Error
  probe_not_initialized section_format symbol_not_found kprobe_id_not_exist : Error
  uprobe_id_not_exist clone_probe_required interface_not_set map_initialized : Error
  map_not_initialized map_not_running loopback_disabled missing_editor_flags : Error
  -- an error of the kernel or of a library, by a number
  external : ℕ → Error
  -- a new error with a text of its own
  message : String → Error
  -- a new error whose text quotes another; it is not that error any more
  quoting : Error → Error
  joined : Error → Error → Error

-- A Go `error` result; `none` is nil.
abbrev pub Fault : Type 0
Fault = Option Error

unfoldable pub concat_errors : Fault → Fault → Fault
concat_errors none err2 = err2
concat_errors (some e1) (some e2) = some (joined e1 e2)
concat_errors (some e1) none = some e1

pub concat_errors-eq-none : (a b : Fault) → concat_errors a b ≡ none → (a ≡ none) × (b ≡ none)
unfolding concat_errors
concat_errors-eq-none none b h = (refl, h)
concat_errors-eq-none (some e) none h = absurd (cc)
concat_errors-eq-none (some e) (some f) h = absurd (cc)
