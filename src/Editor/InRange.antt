-- ===== src/Editor/InRange.antt =====
-- The indices that `RewriteConstant` of editor.go reads.
use ebpfmanager.Common.{
  ℕ, ◌≡◌, ◌≢◌, refl, ◌∙◌, ap, sym, Bool, true, false, String, List, [], ◌∷◌, none, some, All, ◌==◌,
  get_elem?, set, arith, get_elem?-set, Bool-cases, Option-cases, inl, inr,
}
use ebpfmanager.Editor.{
  Instruction, Instructions, Edited, done, failed, panic, ConstantEditor, Value, uint64, other_type,
  surface, write, rewrite_loads, rewrite_indices, rewrite_constant, edit_value, edit_constant,
}
use ebpfmanager.Editor.Rewrite.{OffsetLaw, All-of-any, opt_refers}

abbrev IsInside : Instructions → ℕ → Type 0
IsInside insns i = get_elem? insns i ≢ none

-- Writing an instruction leaves the other indices inside.
IsInside-set :
    (insns : Instructions) (i : ℕ) (v load : Instruction) (is : List ℕ)
    → get_elem? insns i ≡ some load
    → All (IsInside insns) is
    → All (IsInside (set insns i v)) is
IsInside-set insns i v load [] h k = tt
IsInside-set insns i v load (j ∷ is) h k = (
  λ e. elim (Bool-cases (i == j)) [
    | inl b ↦
        let z : some v ≡ none = sym (get_elem?-set insns i j v h ∙ rw b refl) ∙ e in absurd (cc)
    | inr b ↦ k.0 (sym (get_elem?-set insns i j v h ∙ rw b refl) ∙ e)
  ],
  IsInside-set insns i v load is h k.1,
)

abbrev Stays : Edited → Type 0
Stays r = (out : Instructions) → r ≢ panic out

module _ (ld_dw_imm : ℕ) where
  rewrite_loads-Stays :
      (symbol : String) (value : ℕ) (is : List ℕ) (insns : Instructions)
      → All (IsInside insns) is
      → Stays (rewrite_loads ld_dw_imm symbol value is insns)
  unfolding rewrite_loads
  rewrite_loads-Stays symbol value [] insns h out = λ e. cc
  rewrite_loads-Stays symbol value (i ∷ is) insns h out = elim (Option-cases (get_elem? insns i)) [
    | inl e ↦ absurd (h.0 e)
    | inr (load, e) ↦ elim (Bool-cases (load.op_code == ld_dw_imm)) [
      | inl b ↦
          rw (rewrite_loads, e, b)
            (rewrite_loads-Stays symbol value is (set insns i (write value load))
              (IsInside-set insns i (write value load) load is e h.1) out)
      | inr b ↦ rw (rewrite_loads, e, b) (λ z. cc)
    ]
  ]

  indices-Stays :
      (symbol : String) (value : ℕ) (is : List ℕ) (insns : Instructions)
      → All (IsInside insns) is
      → Stays (rewrite_indices ld_dw_imm symbol value is insns)
  unfolding rewrite_indices
  indices-Stays symbol value [] insns h out = λ e. cc
  indices-Stays symbol value (i ∷ is) insns h out =
      rewrite_loads-Stays symbol value (i ∷ is) insns h out

surface-Stays : (b : Bool) (r : Edited) → Stays r → Stays (surface b r)
unfolding surface
surface-Stays b (done insns) h out = λ e. cc
surface-Stays b (failed x insns) h out = λ e. ground (arith, e)
surface-Stays b (panic insns) h out = absurd (h insns refl)

module _ (ld_dw_imm : ℕ) (offsets : Instructions → String → List ℕ) (law : OffsetLaw offsets) where
  value-Stays :
      (e : ConstantEditor) (v : Value) (insns : Instructions)
      → Stays (edit_value ld_dw_imm offsets e v insns)
  unfolding edit_value rewrite_constant
  value-Stays e other_type insns out = λ z. cc
  value-Stays e (uint64 v) insns out =
      surface-Stays e.fail_on_missing _
        (indices-Stays ld_dw_imm e.name v (offsets insns e.name) insns (
          All-of-any _ _ λ j m z.
            let a : false ≡ true = ap (opt_refers e.name) (sym z) ∙ sym (law insns e.name j) ∙ m in
            absurd (cc)))
        out

  pub edit_constant-in_range :
      (e : ConstantEditor) (insns out : Instructions)
      → edit_constant ld_dw_imm offsets e insns ≢ panic out
  unfolding edit_constant
  edit_constant-in_range e insns out = value-Stays e e.value insns out
