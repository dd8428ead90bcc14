-- ===== src/Probe/Kinds/RawTracepoint.antt =====
-- The names that `attachRawTracepoint` of probe.go makes of section names.
use ebpfmanager.Common.{
  ℕ, ◌≤◌, ◌≡◌, ◌↔◌, refl, inl, inr, ap, Bool, Bool-cases, false, String, List, [], ◌∷◌, ◌++◌, any,
  ◌==◌, arith, length,
}
use ebpfmanager.Probe.Kinds.{codes, trim_left, raw_tracepoint_name}

abbrev pub cutset : List ℕ
cutset = codes "raw_tracepoint/"

abbrev pub starts_in : List ℕ → List ℕ → Bool
starts_in cs [] = false
starts_in cs (c ∷ s) = any (λ x. x == c) cs

length-trim_left : (cs s : List ℕ) → length (trim_left cs s) ≤ length s
unfolding trim_left
length-trim_left cs [] = ground arith
length-trim_left cs (c ∷ s) = ground (arith, length-trim_left cs s)

trim_left_same_iff : (cs s : List ℕ) → (trim_left cs s ≡ s) ↔ (starts_in cs s ≡ false)
unfolding trim_left
trim_left_same_iff cs [] = (λ h. refl, λ h. refl)
trim_left_same_iff cs (c ∷ s) = elim (Bool-cases (any (λ x. x == c) cs)) [
  | inl h ↦ (
    λ e. absurd (ground (arith, ap length e, h, length-trim_left cs s)),
    λ f. ground (arith, h, f),
  )
  | inr h ↦ (λ e. h, λ f. rw h refl)
]

-- Of a section that is "raw_tracepoint/" and a name the prefix is cut off; the name is left as it is
-- exactly if it does not begin with one of the characters of the prefix.
pub raw_tracepoint_name_iff :
    (section : String) (name : List ℕ)
    → codes section ≡ cutset ++ name
    → (raw_tracepoint_name section ≡ name) ↔ (starts_in cutset name ≡ false)
unfolding raw_tracepoint_name
raw_tracepoint_name_iff section name h = rw h (trim_left_same_iff cutset name)

-- So the tracepoint task_rename is asked for as "sk_rename".
raw_tracepoint_name_test : raw_tracepoint_name "raw_tracepoint/task_rename" ≡ codes "sk_rename"
unfolding raw_tracepoint_name
raw_tracepoint_name_test = refl
