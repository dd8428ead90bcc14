-- ===== src/Bpf/Header/Opcodes.antt =====
-- The opcodes and the register numbers of bpf.h.
use ebpfmanager.Common.{
  ℕ, ◌+◌, ◌-◌, ◌^◌, ◌≡◌, refl, ◌==◌, ◌&&◌, not, Bool, true, false, List, [], ◌∷◌, ltb, leb, any,
  ◌||◌, if◌then◌else◌,
}
use ebpfmanager.Common.Int.{ℤ, pos, negsuc, signed}

-- The fields of an opcode that bpf.h adds to those of the classic machine.
pub data Field : Type 0 where
  alu64 dw xadd mov arsh to_end to_le to_be from_le from_be call exit : Field

unfoldable pub field_code : Field → ℕ
field_code alu64 = 0x07
field_code dw = 0x18
field_code xadd = 0xc0
field_code mov = 0xb0
field_code arsh = 0xc0
field_code to_end = 0xd0
field_code to_le = 0x00
field_code to_be = 0x08
field_code from_le = 0x00
field_code from_be = 0x08
field_code call = 0x80
field_code exit = 0x90

-- The conditional jumps.
pub data Jump : Type 0 where
  jne jlt jle jsgt jsge jslt jsle : Jump

abbrev pub jumps : List Jump
jumps = jne ∷ jlt ∷ jle ∷ jsgt ∷ jsge ∷ jslt ∷ jsle ∷ []

unfoldable pub jump_code : Jump → ℕ
jump_code jne = 0x50
jump_code jlt = 0xa0
jump_code jle = 0xb0
jump_code jsgt = 0x60
jump_code jsge = 0x70
jump_code jslt = 0xc0
jump_code jsle = 0xd0

unfoldable pub less : ℤ → ℤ → Bool
less (pos m) (pos n) = ltb m n
less (pos m) (negsuc n) = false
less (negsuc m) (pos n) = true
less (negsuc m) (negsuc n) = ltb n m

-- Whether the jump is taken when the two 64-bit registers hold these words.
unfoldable pub is_taken : Jump → ℕ → ℕ → Bool
unfolding less signed
is_taken jne a b = not (a == b)
is_taken jlt a b = ltb a b
is_taken jle a b = leb a b
is_taken jsgt a b = less (signed 64 b) (signed 64 a)
is_taken jsge a b = not (less (signed 64 a) (signed 64 b))
is_taken jslt a b = less (signed 64 a) (signed 64 b)
is_taken jsle a b = not (less (signed 64 b) (signed 64 a))

-- The registers, general purpose ones first.
abbrev pub max_bpf_reg : ℕ
max_bpf_reg = 11

abbrev pub stack_frame : ℕ
stack_frame = 10

abbrev pub pseudo_map_fd : ℕ
pseudo_map_fd = 1

abbrev pub pseudo_call : ℕ
pseudo_call = 1

abbrev count_code : ℕ → List Jump → ℕ
count_code n [] = 0
count_code n (j ∷ js) = (if jump_code j == n then 1 else 0) + count_code n js

-- No two jumps, and neither `BPF_CALL` nor `BPF_EXIT` and a jump, have the same code.
jump_codes_test :
    any
      (λ j.
        not (count_code (jump_code j) jumps == 1)
        || jump_code j == field_code call
        || jump_code j == field_code exit)
      jumps
    ≡ false
unfolding jump_code field_code
jump_codes_test = refl

-- The word of all ones is the greatest without a sign, and below zero with one.
ones_test : is_taken jlt 1 (2 ^ 64 - 1) && is_taken jslt (2 ^ 64 - 1) 1 ≡ true
unfolding is_taken
ones_test = refl

equal_test : is_taken jsle (2 ^ 63) (2 ^ 63) && not (is_taken jne (2 ^ 63) (2 ^ 63)) ≡ true
unfolding is_taken
equal_test = refl

endianness_test : field_code from_be ≡ field_code to_be
unfolding field_code
endianness_test = refl
