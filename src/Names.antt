-- ===== src/Names.antt =====
-- `GenerateEventName` and `generateTCFilterName` of utils.go.
pub mod Bounds
use ebpfmanager.Common.{
  ℕ, ◌+◌, ◌-◌, Bool, true, false, ◌&&◌, ◌||◌, not, List, [], ◌∷◌, ◌++◌, map, Option, none, some,
  ltb, leb, take, length, if◌then◌else◌,
}

-- A text is its code points, and its length in bytes is that of its UTF-8 form.
abbrev pub rune_len : ℕ → ℕ
rune_len c = if ltb c 0x80 then 1 else if ltb c 0x800 then 2 else if ltb c 0x10000 then 3 else 4

unfoldable pub byte_len : List ℕ → ℕ
byte_len [] = 0
byte_len (c ∷ s) = rune_len c + byte_len s

abbrev between : ℕ → ℕ → ℕ → Bool
between lo hi c = leb lo c && leb c hi

abbrev pub is_safe : ℕ → Bool
is_safe c = between 97 122 c || between 65 90 c || between 48 57 c

-- `safeEventRegexp.ReplaceAllString(s, "_")`
unfoldable pub sanitize : List ℕ → List ℕ
sanitize s = map (λ c. if is_safe c then c else b'_') s

abbrev pub max_event_name_len : ℕ
max_event_name_len = 64

abbrev pub min_function_name_len : ℕ
min_function_name_len = 10

abbrev pub max_classifier_name_len : ℕ
max_classifier_name_len = 256

-- The name where it is short enough: the last check.
unfoldable pub checked : ℕ → List ℕ → Option (List ℕ)
unfolding byte_len
checked limit name = if ltb limit (byte_len name) then none else some name

-- `GenerateEventName`, where `pid` is the decimal text of the PID. On ints the budget of the
-- function's name is `max_event_name_len - 3 - ...`, which is less than the least one exactly if
-- the sum is too large; none is an error.
unfoldable pub generate_event_name : List ℕ → List ℕ → List ℕ → List ℕ → Option (List ℕ)
unfolding checked sanitize
generate_event_name probe_type func_name uid pid =
    let rest = 3 + byte_len probe_type + byte_len uid + byte_len pid in
    if ltb max_event_name_len (rest + min_function_name_len)
    then none
    else checked max_event_name_len (
        sanitize (
          probe_type
          ++ b'_' ∷ take (max_event_name_len - rest) func_name
          ++ b'_' ∷ uid
          ++ b'_' ∷ pid))

-- `generateTCFilterName`
unfoldable pub generate_tc_filter_name : List ℕ → List ℕ → List ℕ → Option (List ℕ)
unfolding checked sanitize
generate_tc_filter_name uid section_name pid =
    let rest = 3 + byte_len uid + byte_len pid in
    if ltb max_classifier_name_len rest
    then none
    else checked max_classifier_name_len
        (sanitize (take (max_classifier_name_len - rest) section_name ++ b'_' ∷ uid ++ b'_' ∷ pid))
