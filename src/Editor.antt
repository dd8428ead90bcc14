-- ===== src/Editor.antt =====
-- editor.go: rewriting the loads of a symbol by a constant.
pub mod Rewrite
pub mod Constants
pub mod Missing
pub mod InRange
use ebpfmanager.Common.{
  ℕ, String, List, [], ◌∷◌, Option, none, some, Bool, true, false, ◌&&◌, ◌==◌, if◌then◌else◌,
  get_elem?, set,
}
use ebpfmanager.Common.Int.{ℤ, signed}

-- What the editor reads of an `asm.Instruction`.
pub record Instruction : Type 0 where
  pub op_code : ℕ
  pub constant : ℤ
  pub reference : Option String

abbrev pub Instructions : Type 0
Instructions = List Instruction

pub data EditError : Type 0 where
  unreferenced_symbol : String → EditError
  bad_load : String → ℕ → EditError
  wrong_value_type : EditError

-- The instructions, which are edited in place, and the error. `panic` is an index out of range.
pub data Edited : Type 0 where
  done : Instructions → Edited
  failed : EditError → Instructions → Edited
  panic : Instructions → Edited

abbrev pub is_unreferenced_symbol : EditError → Bool
is_unreferenced_symbol (unreferenced_symbol s) = true
is_unreferenced_symbol _ = false

-- The value that is written: `int64(value)`.
abbrev pub write : ℕ → Instruction → Instruction
write value load = record load { constant = signed 64 value }

-- `ld_dw_imm` is `asm.LoadImmOp(asm.DWord)`.
module _ (ld_dw_imm : ℕ) where
  -- the loop over the indices
  pub rewrite_loads : String → ℕ → List ℕ → Instructions → Edited
  rewrite_loads symbol value [] insns = done insns
  rewrite_loads symbol value (index ∷ indices) insns = elim (get_elem? insns index) [
    | none ↦ panic insns
    | some load ↦
        let rest = rewrite_loads symbol value indices (set insns index (write value load)) in
        if load.op_code == ld_dw_imm then rest else failed (bad_load symbol load.op_code) insns
  ]

  -- `Edit` takes the offsets of the instructions that it is given, and `RewriteConstant` uses them.
  pub rewrite_indices : String → ℕ → List ℕ → Instructions → Edited
  unfolding rewrite_loads
  rewrite_indices symbol value [] insns = failed (unreferenced_symbol symbol) insns
  rewrite_indices symbol value (i ∷ is) insns = rewrite_loads symbol value (i ∷ is) insns

-- `reference_offsets` is the library's `ReferenceOffsets`.
module _ (ld_dw_imm : ℕ) (reference_offsets : Instructions → String → List ℕ) where
  unfoldable pub rewrite_constant : String → ℕ → Instructions → Edited
  unfolding rewrite_indices
  rewrite_constant symbol value insns =
      rewrite_indices ld_dw_imm symbol value (reference_offsets insns symbol) insns

-- `ConstantEditor` of manager.go; its value is a `uint64` or of another type.
pub data Value : Type 0 where
  uint64 : ℕ → Value
  other_type : Value

pub record ConstantEditor : Type 0 where
  pub name : String
  pub value : Value
  pub fail_on_missing : Bool

-- The errors that `editConstant` of manager.go lets through.
pub surface : Bool → Edited → Edited
surface fail_on_missing (failed e out) =
    if is_unreferenced_symbol e && fail_on_missing then failed e out else done out
surface fail_on_missing r = r

module _ (ld_dw_imm : ℕ) (reference_offsets : Instructions → String → List ℕ) where
  pub edit_value : ConstantEditor → Value → Instructions → Edited
  unfolding surface rewrite_constant
  edit_value editor other_type insns = failed wrong_value_type insns
  edit_value editor (uint64 data') insns =
      surface editor.fail_on_missing
        (rewrite_constant ld_dw_imm reference_offsets editor.name data' insns)

  unfoldable pub edit_constant : ConstantEditor → Instructions → Edited
  unfolding edit_value
  edit_constant editor insns = edit_value editor editor.value insns
