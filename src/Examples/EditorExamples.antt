-- ===== src/Examples/EditorExamples.antt =====
-- The editor on a program of two instructions.
use ebpfmanager.Common.{
  ℕ, ◌≡◌, refl, true, String, [], ◌∷◌, map, none, some, arith, zero, suc, get_elem?, ap, sym,
  some_eq, ◌∙◌,
}
use ebpfmanager.Common.Int.{pos}
use ebpfmanager.Bpf.Model.{memory, memory_laws, blank}
use ebpfmanager.Bpf.Constants.{kprobe_vfs_mkdir}
use ebpfmanager.Editor.{
  Instruction, Instructions, ConstantEditor, uint64, rewrite_constant, edit_constant, done,
}
use ebpfmanager.Editor.Rewrite.{refers, edit_instruction, rewrite_constant-map}
use ebpfmanager.Editor.Constants.{load_constant, kprobe_vfs_mkdir-rewrite_constant}
use ebpfmanager.Editor.Missing.{edit_constant-hides_bad_load}
use ebpfmanager.Examples.Offsets.{offsets, offsets-OffsetLaw}

-- The operation code of a load of 64 bits.
abbrev pub ld_dw_imm : ℕ
ld_dw_imm = 0x18

abbrev pub loads : String → Instructions
loads symbol =
    record { op_code = ld_dw_imm; constant = pos 0; reference = some symbol }
    ∷ record { op_code = 0x95; constant = pos 0; reference = none }
    ∷ []

abbrev constant_loads : Instructions
constant_loads = loads "constant"

only_loads :
    (symbol : String) (j : ℕ) (ins : Instruction)
    → get_elem? (loads symbol) j ≡ some ins
    → refers symbol ins ≡ true
    → ins.op_code ≡ ld_dw_imm
only_loads symbol zero ins h r = ap (λ (x : Instruction). x.op_code) (sym (some_eq h))
only_loads symbol (suc zero) ins h r = ground (arith, sym r ∙ ap (refers symbol) (sym (some_eq h)))
only_loads symbol (suc (suc j)) ins h r = absurd (cc)

rewrite_constant-map_example :
    rewrite_constant ld_dw_imm offsets "constant" 42 constant_loads
    ≡ done (map (edit_instruction "constant" 42) constant_loads)
rewrite_constant-map_example =
    rewrite_constant-map ld_dw_imm offsets offsets-OffsetLaw "constant" 42 constant_loads (λ e. cc)
      (only_loads "constant")

kprobe_vfs_mkdir-rewrite_constant_example :
    (out : Instructions) × (rewrite_constant ld_dw_imm offsets "my_constant" 42
        (loads "my_constant")
      ≡ done out)
    × ((kprobe_vfs_mkdir memory (load_constant out) 6 blank).1.sent ≡ (6, 3, 42) ∷ [])
kprobe_vfs_mkdir-rewrite_constant_example =
    kprobe_vfs_mkdir-rewrite_constant ld_dw_imm offsets offsets-OffsetLaw memory memory_laws 6 42
      (loads "my_constant") blank (omega arith) (λ e. cc) (only_loads "my_constant") (λ w c. refl)

abbrev missing_editor : ConstantEditor
missing_editor = record { name = "absent"; value = uint64 7; fail_on_missing = true }

abbrev strict_editor : ConstantEditor
strict_editor = record { name = "constant"; value = uint64 7; fail_on_missing = true }

edit_constant-hides_bad_load_example :
    edit_constant 0x61 offsets strict_editor constant_loads ≡ done constant_loads
edit_constant-hides_bad_load_example =
    edit_constant-hides_bad_load 0x61 offsets strict_editor constant_loads 7 0 []
      (record { op_code = ld_dw_imm; constant = pos 0; reference = some "constant" }) refl refl refl
      (omega arith)
