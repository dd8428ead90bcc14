-- ===== src/Names/Bounds.antt =====
-- The lengths of the names that utils.go makes.
use ebpfmanager.Common.{
  ℕ, suc, ◌+◌, ◌-◌, ◌≤◌, ◌<◌, ◌≡◌, refl, List, [], ◌∷◌, ◌++◌, none, some, arith, take, length,
  length-append, length-take, ltb, if◌then◌else◌,
}
use ebpfmanager.Names.{
  byte_len, sanitize, checked, generate_event_name, generate_tc_filter_name, max_event_name_len,
  max_classifier_name_len, min_function_name_len,
}

length≤byte_len : (s : List ℕ) → length s ≤ byte_len s
unfolding byte_len
length≤byte_len [] = ground arith
length≤byte_len (c ∷ s) = ground (arith, length≤byte_len s)

byte_len-sanitize : (s : List ℕ) → byte_len (sanitize s) ≡ length s
unfolding byte_len sanitize
byte_len-sanitize [] = refl
byte_len-sanitize (c ∷ s) = ground (arith, byte_len-sanitize s)

length_event :
    (t f u p : List ℕ)
    → length (t ++ b'_' ∷ f ++ b'_' ∷ u ++ b'_' ∷ p)
      ≡ length t + suc (length f) + suc (length u) + suc (length p)
length_event t f u p = rw length-append (rw length-append (rw length-append refl))

-- The bytes that are left for the function's name.
abbrev pub left_for_function : List ℕ → List ℕ → List ℕ → ℕ
left_for_function t u p = max_event_name_len - (3 + byte_len t + byte_len u + byte_len p)

abbrev pub event_text : List ℕ → List ℕ → List ℕ → List ℕ → List ℕ
event_text t f u p = sanitize (t ++ b'_' ∷ take (left_for_function t u p) f ++ b'_' ∷ u ++ b'_' ∷ p)

event_fits :
    (t f u p : List ℕ)
    → 3 + byte_len t + byte_len u + byte_len p + min_function_name_len ≤ max_event_name_len
    → byte_len (event_text t f u p) ≤ max_event_name_len
event_fits t f u p h = rw byte_len-sanitize (
    rw length_event
      (rw length-take (omega (arith, length≤byte_len t, length≤byte_len u, length≤byte_len p, h))))

-- An event name is refused exactly if the probe type, the UID and the PID leave less than ten bytes
-- for the function's name. Otherwise that is cut to what is left: the check at the end always
-- passes.
pub generate_event_name_lem :
    (t f u p : List ℕ)
    → generate_event_name t f u p ≡ (
        if ltb max_event_name_len (3 + byte_len t + byte_len u + byte_len p + min_function_name_len)
        then none
        else some (event_text t f u p))
unfolding generate_event_name checked
generate_event_name_lem t f u p = ground (arith, event_fits t f u p)

abbrev pub filter_text : List ℕ → List ℕ → List ℕ → List ℕ
filter_text u s p =
    sanitize
      (take (max_classifier_name_len - (3 + byte_len u + byte_len p)) s ++ b'_' ∷ u ++ b'_' ∷ p)

filter_fits :
    (u s p : List ℕ)
    → 3 + byte_len u + byte_len p ≤ max_classifier_name_len
    → byte_len (filter_text u s p) < max_classifier_name_len
filter_fits u s p h = rw byte_len-sanitize (
    rw length-append
      (rw length-append (rw length-take (omega (arith, length≤byte_len u, length≤byte_len p, h)))))

-- The name of a TC filter is refused exactly if the UID and the PID do not fit with three bytes
-- more. Otherwise the section is cut to what is left: the check at the end always passes.
pub generate_tc_filter_name_lem :
    (u s p : List ℕ)
    → generate_tc_filter_name u s p ≡ (
        if ltb max_classifier_name_len (3 + byte_len u + byte_len p)
        then none
        else some (filter_text u s p))
unfolding generate_tc_filter_name checked
generate_tc_filter_name_lem u s p = ground (arith, filter_fits u s p)

ascii-sanitize : (s : List ℕ) → byte_len (sanitize s) ≡ length (sanitize s)
unfolding byte_len sanitize
ascii-sanitize [] = refl
ascii-sanitize (c ∷ s) = ground (arith, ascii-sanitize s)

bounded_event :
    (t f u p e : List ℕ)
    → generate_event_name t f u p ≡ some e
    → (e ≡ event_text t f u p) × (byte_len (event_text t f u p) ≤ max_event_name_len)
bounded_event t f u p e h = (
  ground (arith, generate_event_name_lem t f u p, h),
  event_fits t f u p (ground (arith, generate_event_name_lem t f u p, h)),
)

bounded_filter :
    (u s p n : List ℕ)
    → generate_tc_filter_name u s p ≡ some n
    → (n ≡ filter_text u s p) × (byte_len (filter_text u s p) < max_classifier_name_len)
bounded_filter u s p n h = (
  ground (arith, generate_tc_filter_name_lem u s p, h),
  filter_fits u s p (ground (arith, generate_tc_filter_name_lem u s p, h)),
)

-- A name that is made for an event or a filter is within the limit of the kernel, and in ASCII: it
-- has as many bytes as characters.
pub generated_names-bounds :
    (t f u p e s n : List ℕ)
    → generate_event_name t f u p ≡ some e
    → generate_tc_filter_name u s p ≡ some n
    → (byte_len e ≤ max_event_name_len)
      × (byte_len n < max_classifier_name_len)
      × (byte_len e ≡ length e)
      × (byte_len n ≡ length n)
generated_names-bounds t f u p e s n h g =
    let (e_text, e_fits) = bounded_event t f u p e h in
    let (n_text, n_fits) = bounded_filter u s p n g in
    (rw e_text e_fits, rw n_text n_fits, rw e_text (ascii-sanitize _), rw n_text (ascii-sanitize _))
