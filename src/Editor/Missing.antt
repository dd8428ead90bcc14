-- ===== src/Editor/Missing.antt =====
-- Which errors `editConstant` of manager.go lets through.
use ebpfmanager.Common.{
  ℕ, ◌≡◌, ◌≢◌, refl, String, List, [], ◌∷◌, some, if◌then◌else◌, get_elem?, arith,
}
use ebpfmanager.Editor.{
  Instruction, Instructions, done, failed, unreferenced_symbol, wrong_value_type, ConstantEditor,
  Value, uint64, other_type, rewrite_constant, rewrite_loads, edit_constant, edit_value,
}

module _ (ld_dw_imm : ℕ) (offsets : Instructions → String → List ℕ) where
  missing_value :
      (editor : ConstantEditor) (value : Value) (insns : Instructions)
      → offsets insns editor.name ≡ []
      → edit_value ld_dw_imm offsets editor value insns ≡ elim value [
        | other_type ↦ failed wrong_value_type insns
        | uint64 v ↦
            if editor.fail_on_missing
            then failed (unreferenced_symbol editor.name) insns
            else done insns
      ]
  unfolding edit_value
  missing_value editor other_type insns h = refl
  missing_value editor (uint64 v) insns h = rw (h, rewrite_constant) (ground arith)

  -- A constant that no instruction refers to is an error exactly under `FailOnMissing`; a value that
  -- is no `uint64` always is one. The instructions stay as they were.
  pub edit_constant_missing :
      (editor : ConstantEditor) (insns : Instructions)
      → offsets insns editor.name ≡ []
      → edit_constant ld_dw_imm offsets editor insns ≡ elim editor.value [
        | other_type ↦ failed wrong_value_type insns
        | uint64 v ↦
            if editor.fail_on_missing
            then failed (unreferenced_symbol editor.name) insns
            else done insns
      ]
  unfolding edit_constant
  edit_constant_missing editor insns h = missing_value editor editor.value insns h

  -- A referring instruction that is no 64-bit immediate load stops the rewriting, and `editConstant`
  -- reports no error, also under `FailOnMissing`.
  pub edit_constant-hides_bad_load :
      (editor : ConstantEditor) (insns : Instructions) (v i : ℕ) (is : List ℕ) (load : Instruction)
      → editor.value ≡ uint64 v
      → offsets insns editor.name ≡ i ∷ is
      → get_elem? insns i ≡ some load
      → load.op_code ≢ ld_dw_imm
      → edit_constant ld_dw_imm offsets editor insns ≡ done insns
  unfolding edit_constant rewrite_loads
  edit_constant-hides_bad_load editor insns v i is load hv ho hg hn =
      rw (hv, edit_value) (rw (ho, rewrite_constant) (rw (hg, rewrite_loads) (ground arith)))
