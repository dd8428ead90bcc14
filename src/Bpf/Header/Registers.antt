-- ===== src/Bpf/Header/Registers.antt =====
-- The `PT_REGS_` macros of bpf_helpers.h: which register holds what, by architecture.
use ebpfmanager.Common.{
  ◌≡◌, refl, Bool, true, ◌&&◌, not, String, str_eq, List, [], ◌∷◌, Option, none, some, any, false,
}

pub data Arch : Type 0 where
  x86_64 s390x aarch64 powerpc : Arch

-- The fields of the registers of the first five arguments.
unfoldable pub parms : Arch → List String
parms x86_64 = "di" ∷ "si" ∷ "dx" ∷ "cx" ∷ "r8" ∷ []
parms s390x = "gprs[2]" ∷ "gprs[3]" ∷ "gprs[4]" ∷ "gprs[5]" ∷ "gprs[6]" ∷ []
parms aarch64 = "regs[0]" ∷ "regs[1]" ∷ "regs[2]" ∷ "regs[3]" ∷ "regs[4]" ∷ []
parms powerpc = "gpr[3]" ∷ "gpr[4]" ∷ "gpr[5]" ∷ "gpr[6]" ∷ "gpr[7]" ∷ []

unfoldable pub ret : Arch → Option String
ret x86_64 = some "sp"
ret s390x = some "gprs[14]"
ret aarch64 = some "regs[30]"
ret powerpc = none

unfoldable pub fp : Arch → Option String
fp x86_64 = some "bp"
fp s390x = some "gprs[11]"
fp aarch64 = some "regs[29]"
fp powerpc = none

unfoldable pub rc : Arch → String
rc x86_64 = "ax"
rc s390x = "gprs[2]"
rc aarch64 = "regs[0]"
rc powerpc = "gpr[3]"

unfoldable pub sp : Arch → String
sp x86_64 = "sp"
sp s390x = "gprs[15]"
sp aarch64 = "sp"
sp powerpc = "sp"

unfoldable pub ip : Arch → String
ip x86_64 = "ip"
ip s390x = "ip"
ip aarch64 = "pc"
ip powerpc = "nip"

abbrev pub all_distinct : List String → Bool
all_distinct [] = true
all_distinct (r ∷ rs) = not (any (λ q. str_eq q r) rs) && all_distinct rs

-- On each architecture the arguments, the stack pointer and the instruction pointer are in different
-- registers.
pub registers-distinct : (a : Arch) → all_distinct (sp a ∷ ip a ∷ parms a) ≡ true
unfolding parms sp ip
registers-distinct x86_64 = refl
registers-distinct s390x = refl
registers-distinct aarch64 = refl
registers-distinct powerpc = refl

-- How a probe at the entry, and one at the return, of a function reads the address that the function
-- returns to: from the link register, or from memory at an offset from a register, with the size of the
-- address where the stack frame holds the caller's frame pointer first.
pub data ReturnAddress : Type 0 where
  link : ReturnAddress
  at : Option String → Bool → ReturnAddress

unfoldable pub kprobe_read_ret_ip : Arch → ReturnAddress
unfolding ret
kprobe_read_ret_ip powerpc = link
kprobe_read_ret_ip x86_64 = at (ret x86_64) false
kprobe_read_ret_ip s390x = at (ret s390x) false
kprobe_read_ret_ip aarch64 = at (ret aarch64) false

unfoldable pub kretprobe_read_ret_ip : Arch → ReturnAddress
unfolding fp kprobe_read_ret_ip
kretprobe_read_ret_ip powerpc = kprobe_read_ret_ip powerpc
kretprobe_read_ret_ip x86_64 = at (fp x86_64) true
kretprobe_read_ret_ip s390x = at (fp s390x) true
kretprobe_read_ret_ip aarch64 = at (fp aarch64) true

abbrev pub is_defined : ReturnAddress → Bool
is_defined link = true
is_defined (at none skip) = false
is_defined (at (some register) skip) = true

-- Neither macro uses a `PT_REGS_` macro that the architecture does not have.
pub ret_ip-defined :
    (a : Arch) → is_defined (kprobe_read_ret_ip a) && is_defined (kretprobe_read_ret_ip a) ≡ true
unfolding kprobe_read_ret_ip kretprobe_read_ret_ip ret fp
ret_ip-defined x86_64 = refl
ret_ip-defined s390x = refl
ret_ip-defined aarch64 = refl
ret_ip-defined powerpc = refl
