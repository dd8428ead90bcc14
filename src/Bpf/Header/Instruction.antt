-- ===== src/Bpf/Header/Instruction.antt =====
-- `struct bpf_insn` of bpf.h: the fields of an instruction.
use ebpfmanager.Common.{ℕ}
use ebpfmanager.Common.Int.{ℤ}

-- The two registers are four bits each, the offset 16 bits and the immediate value 32 bits, both signed.
pub record BpfInsn : Type 0 where
  pub code : ℕ
  pub dst_reg : ℕ
  pub src_reg : ℕ
  pub off : ℤ
  pub imm : ℤ
