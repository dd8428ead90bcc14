-- ===== src/Manager/Specs/Edited.antt =====
-- What `editMapSpecs` of manager.go writes.
use ebpfmanager.Common.{
  ℕ, ◌≡◌, ◌≢◌, if◌then◌else◌, refl, sym, ap, ◌∙◌, subst, Bool, true, false, String, List, [], ◌∷◌,
  ◌++◌, Option, none, some, ◌==◌, any, arith, Option-cases, Bool-cases, inl, inr, ◌⊎◌,
}
use Prim.Native.Nat.{bit_and}
use ebpfmanager.Errors.{Fault}
use ebpfmanager.Map.{has_flag}
use ebpfmanager.Manager.Routes.{Outcome, returned, panicked}
use ebpfmanager.Manager.Specs.{
  or_keep, MapSpec, MapSpecEditor, Heap, write, Pointers, get_map_spec, apply_editor, assigns,
  edit_map_specs,
}

-- Whether the name of an editor is the name of the spec that stands there.
abbrev pub points_to : Option (Option ℕ) → ℕ → Bool
points_to none p = false
points_to (some none) p = false
points_to (some (some q)) p = p == q

abbrev pub refers : Pointers → ℕ → String × MapSpecEditor → Bool
refers m p e = points_to (get_map_spec m e.0).1 p

abbrev fault_of : Outcome Heap → Fault
fault_of panicked = none
fault_of (returned e h) = e

abbrev has_ended : Outcome Heap → Bool
has_ended panicked = false
has_ended (returned e h) = true

abbrev heap_of : Heap → Outcome Heap → Heap
heap_of h panicked = h
heap_of h (returned e h') = h'

-- A first editor without an error leaves the rest to do.
first_editor :
    (m : Pointers) (name : String) (e : MapSpecEditor) (es : List (String × MapSpecEditor))
    (h h' : Heap)
    → edit_map_specs m ((name, e) ∷ es) h ≡ returned none h'
    → ((p : ℕ) × ((get_map_spec m name).1 ≡ some (some p))
        × (edit_map_specs m es (write p (apply_editor e (h p)) h) ≡ returned none h'))
      ⊎ (((get_map_spec m name).1 ≡ some none) × (edit_map_specs m es h ≡ returned none h'))
unfolding edit_map_specs
first_editor m name e es h h' r = elim (Option-cases (get_map_spec m name).0) [
  | inr (error, a) ↦ let z = ap fault_of (rw (edit_map_specs, a) at r) in absurd (cc)
  | inl a ↦ elim (Option-cases (get_map_spec m name).1) [
    | inl b ↦ let z = ap fault_of (rw (edit_map_specs, a, b) at r) in absurd (cc)
    | inr (spec, b) ↦ elim (Bool-cases (e.editor_flag == 0)) [
      | inl c ↦ let z = ap fault_of (rw (edit_map_specs, a, b, c) at r) in absurd (cc)
      | inr c ↦ elim (Option-cases spec) [
        | inl d ↦ elim (Bool-cases (assigns e)) [
          | inl f ↦ let z = ap has_ended (rw (edit_map_specs, a, b, c, d, f) at r) in absurd (cc)
          | inr f ↦ inr (b ∙ ap some d, rw (edit_map_specs, a, b, c, d, f) at r)
        ]
        | inr (p, d) ↦ inl (p, b ∙ ap some d, rw (edit_map_specs, a, b, c, d) at r)
      ]
    ]
  ]
]

write_same : (p : ℕ) (spec : MapSpec) (h : Heap) → write p spec h p ≡ spec
unfolding write
write_same p spec h = rw (equal_self p) refl
  where
    equal_self : (i : ℕ) → (i == i) ≡ true
    equal_self i = ground arith

write_other : (p q : ℕ) (spec : MapSpec) (h : Heap) → (q == p) ≡ false → write p spec h q ≡ h q
unfolding write
write_other p q spec h n = rw n refl

-- A spec that no editor is for keeps its fields.
untouched :
    (m : Pointers) (es : List (String × MapSpecEditor)) (h h' : Heap) (p : ℕ)
    → edit_map_specs m es h ≡ returned none h'
    → any (refers m p) es ≡ false
    → h' p ≡ h p
unfolding edit_map_specs
untouched m [] h h' p r n = ap (λ x. heap_of h x p) (sym r)
untouched m ((name, e) ∷ es) h h' p r n = elim (first_editor m name e es h h' r) [
  | inl (q, found, rest) ↦
      untouched m es (write q (apply_editor e (h q)) h) h' p rest (ground arith)
      ∙ write_other q p (apply_editor e (h q)) h (ground (arith, found))
  | inr (found, rest) ↦ untouched m es h h' p rest (ground arith)
]

-- A field of a spec after the assignment under a flag.
abbrev IsWritten : {A : Type 0} → ℕ → ℕ → A → A → A → Type 0
IsWritten flags flag given old new =
    ((bit_and flags flag ≡ flag) × (new ≡ given)) ⊎ ((bit_and flags flag ≢ flag) × (new ≡ old))

-- What an editor makes of a spec: a field whose flag is set gets the value of the editor, except that an inner
-- map that is nil is not given, and all else stays.
pub record IsEdited (e : MapSpecEditor) (old new : MapSpec) : Type 0 where
  pub type_written : IsWritten e.editor_flag 2 e.map_type old.map_type new.map_type
  pub max_entries_written : IsWritten e.editor_flag 4 e.max_entries old.max_entries new.max_entries
  pub flags_written : IsWritten e.editor_flag 8 e.flags old.flags new.flags
  pub inner_map_written :
      ((e.inner_map ≡ none) × (new.inner_map ≡ old.inner_map))
      ⊎ IsWritten e.editor_flag 16 e.inner_map old.inner_map new.inner_map

field-IsWritten :
    {A : Type 0} (flags flag : ℕ) (given old : A)
    → IsWritten flags flag given old (if has_flag flags flag then given else old)
field-IsWritten flags flag given old = elim (Bool-cases (bit_and flags flag == flag)) [
  | inl e ↦ rw e (inl (ground (arith, e), refl))
  | inr e ↦ rw e (inr (λ f. ground (arith, e, f), refl))
]

inner-IsWritten :
    (flags : ℕ) (given old : Option ℕ)
    → ((given ≡ none) × ((if has_flag flags 16 then or_keep given old else old) ≡ old))
      ⊎ IsWritten flags 16 given old (if has_flag flags 16 then or_keep given old else old)
inner-IsWritten flags none old = inl (refl, ground arith)
inner-IsWritten flags (some p) old = inr (field-IsWritten flags 16 (some p) old)

apply_editor-IsEdited : (e : MapSpecEditor) (spec : MapSpec) → IsEdited e spec (apply_editor e spec)
unfolding apply_editor
apply_editor-IsEdited e spec = record {
  type_written = field-IsWritten e.editor_flag 2 e.map_type spec.map_type;
  max_entries_written = field-IsWritten e.editor_flag 4 e.max_entries spec.max_entries;
  flags_written = field-IsWritten e.editor_flag 8 e.flags spec.flags;
  inner_map_written = inner-IsWritten e.editor_flag e.inner_map spec.inner_map;
}

-- Where `editMapSpecs` returns no error, a spec that one editor is for has its fields edited by it, and a spec
-- that none is for is as it was, in whatever order the editors are applied.
pub edit_map_specs_lem :
    (m : Pointers) (first : List (String × MapSpecEditor)) (name : String) (e : MapSpecEditor)
    (last : List (String × MapSpecEditor)) (h h' : Heap) (p other : ℕ)
    → edit_map_specs m (first ++ (name, e) ∷ last) h ≡ returned none h'
    → (get_map_spec m name).1 ≡ some (some p)
    → any (refers m p) first ≡ false
    → any (refers m p) last ≡ false
    → any (refers m other) (first ++ (name, e) ∷ last) ≡ false
    → IsEdited e (h p) (h' p) × (h' other ≡ h other)
edit_map_specs_lem m first name e last h h' p other r found n k free = (
  subst (λ spec. IsEdited e (h p) spec) (sym (edited first h r n)) (apply_editor-IsEdited e (h p)),
  untouched m (first ++ (name, e) ∷ last) h h' other r free,
)
  where
    edited :
        (es : List (String × MapSpecEditor)) (g : Heap)
        → edit_map_specs m (es ++ (name, e) ∷ last) g ≡ returned none h'
        → any (refers m p) es ≡ false
        → h' p ≡ apply_editor e (g p)
    edited [] g s n = elim (first_editor m name e last g h' s) [
      | inl (q, found', rest) ↦
          let same : q ≡ p = cc in
          untouched m last (write q (apply_editor e (g q)) g) h' p rest k
          ∙ subst (λ x. write x (apply_editor e (g x)) g p ≡ apply_editor e (g p)) (sym same)
              (write_same p (apply_editor e (g p)) g)
      | inr (found', rest) ↦ absurd (cc)
    ]
    edited ((name', e') ∷ es) g s n =
        elim (first_editor m name' e' (es ++ (name, e) ∷ last) g h' s) [
          | inl (q, found', rest) ↦
              edited es (write q (apply_editor e' (g q)) g) rest (ground arith)
              ∙ ap (apply_editor e)
                  (write_other q p (apply_editor e' (g q)) g (ground (arith, found')))
          | inr (found', rest) ↦ edited es g rest (ground arith)
        ]
