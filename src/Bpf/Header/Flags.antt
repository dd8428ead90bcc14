-- ===== src/Bpf/Header/Flags.antt =====
-- The flags of bpf.h: groups of masks that go into one word.
use Prim.Native.Nat.{bit_and, bit_or}
use ebpfmanager.Common.{
  ℕ, ◌*◌, ◌^◌, ◌≡◌, refl, ◌==◌, ◌&&◌, Bool, true, false, String, List, [], ◌∷◌, any, not,
}

pub record Flag : Type 0 where
  pub name : String
  pub mask : ℕ

abbrev flag : String → ℕ → Flag
flag name mask = record { name = name; mask = mask }

-- The flags of BPF_PROG_ATTACH.
abbrev pub attach_flags : List Flag
attach_flags = flag "BPF_F_ALLOW_OVERRIDE" (1) ∷ flag "BPF_F_ALLOW_MULTI" (2) ∷ []

-- The flags of BPF_MAP_CREATE, which share the field `map_flags`.
abbrev pub map_flags : List Flag
map_flags =
    flag "BPF_F_NO_PREALLOC" (2 ^ 0)
    ∷ flag "BPF_F_NO_COMMON_LRU" (2 ^ 1)
    ∷ flag "BPF_F_NUMA_NODE" (2 ^ 2)
    ∷ flag "BPF_F_RDONLY" (2 ^ 3)
    ∷ flag "BPF_F_WRONLY" (2 ^ 4)
    ∷ flag "BPF_F_STACK_BUILD_ID" (2 ^ 5)
    ∷ []

-- The flags of skb_store_bytes.
abbrev pub store_bytes_flags : List Flag
store_bytes_flags = flag "BPF_F_RECOMPUTE_CSUM" (2 ^ 0) ∷ flag "BPF_F_INVALIDATE_HASH" (2 ^ 1) ∷ []

-- The flags of l4_csum_replace.
abbrev pub csum_replace_flags : List Flag
csum_replace_flags =
    flag "BPF_F_HDR_FIELD_MASK" (0xf)
    ∷ flag "BPF_F_PSEUDO_HDR" (2 ^ 4)
    ∷ flag "BPF_F_MARK_MANGLED_0" (2 ^ 5)
    ∷ flag "BPF_F_MARK_ENFORCE" (2 ^ 6)
    ∷ []

-- The flags of get_stackid.
abbrev pub stackid_flags : List Flag
stackid_flags =
    flag "BPF_F_SKIP_FIELD_MASK" (0xff)
    ∷ flag "BPF_F_USER_STACK" (2 ^ 8)
    ∷ flag "BPF_F_FAST_STACK_CMP" (2 ^ 9)
    ∷ flag "BPF_F_REUSE_STACKID" (2 ^ 10)
    ∷ []

-- The flags of skb_set_tunnel_key.
abbrev pub set_tunnel_key_flags : List Flag
set_tunnel_key_flags =
    flag "BPF_F_TUNINFO_IPV6" (2 ^ 0)
    ∷ flag "BPF_F_ZERO_CSUM_TX" (2 ^ 1)
    ∷ flag "BPF_F_DONT_FRAGMENT" (2 ^ 2)
    ∷ flag "BPF_F_SEQ_NUMBER" (2 ^ 3)
    ∷ []

-- The parts of the flags of perf_event_output.
abbrev pub perf_output_flags : List Flag
perf_output_flags =
    flag "BPF_F_INDEX_MASK" (0xffffffff) ∷ flag "BPF_F_CTXLEN_MASK" (0xfffff * 2 ^ 32) ∷ []

-- The callbacks of sock_ops programs.
abbrev pub cb_flags : List Flag
cb_flags =
    flag "BPF_SOCK_OPS_RTO_CB_FLAG" (2 ^ 0)
    ∷ flag "BPF_SOCK_OPS_RETRANS_CB_FLAG" (2 ^ 1)
    ∷ flag "BPF_SOCK_OPS_STATE_CB_FLAG" (2 ^ 2)
    ∷ []

-- The accesses to a device.
abbrev pub device_access : List Flag
device_access =
    flag "BPF_DEVCG_ACC_MKNOD" (2 ^ 0)
    ∷ flag "BPF_DEVCG_ACC_READ" (2 ^ 1)
    ∷ flag "BPF_DEVCG_ACC_WRITE" (2 ^ 2)
    ∷ []

abbrev pub all_cb_flags : ℕ
all_cb_flags = 0x7

abbrev union : List Flag → ℕ
union [] = 0
union (f ∷ fs) = bit_or f.mask (union fs)

-- No two masks of a group share a bit.
abbrev pub are_disjoint : List Flag → Bool
are_disjoint [] = true
are_disjoint (f ∷ fs) = not (any (λ g. not (bit_and f.mask g.mask == 0)) fs) && are_disjoint fs

abbrev groups : List (List Flag)
groups =
    attach_flags ∷ map_flags ∷ store_bytes_flags ∷ csum_replace_flags ∷ stackid_flags
    ∷ set_tunnel_key_flags ∷ perf_output_flags ∷ cb_flags ∷ device_access ∷ []

groups_test : any (λ g. not (are_disjoint g)) groups ≡ false
groups_test = refl

cb_flags_test : union cb_flags ≡ all_cb_flags
cb_flags_test = refl
