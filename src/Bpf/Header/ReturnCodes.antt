-- ===== src/Bpf/Header/ReturnCodes.antt =====
-- Return codes and small enumerations of bpf.h.
use ebpfmanager.Common.{
  ℕ, ◌≡◌, refl, ◌==◌, ◌&&◌, ◌||◌, Bool, true, false, List, [], ◌∷◌, ltb, leb, any,
}

-- `enum bpf_ret_code`.
pub data RetCode : Type 0 where
  bpf_ok bpf_drop bpf_redirect : RetCode

unfoldable pub ret_code : RetCode → ℕ
ret_code bpf_ok = 0
ret_code bpf_drop = 2
ret_code bpf_redirect = 7

-- Reserved codes, for all types of programs and for codes of one type.
abbrev pub is_reserved : ℕ → Bool
is_reserved n = n == 1 || (leb 3 n && leb n 6) || ltb 127 n

-- `enum sk_action`.
pub data SkAction : Type 0 where
  sk_drop sk_pass : SkAction

unfoldable pub sk_action : SkAction → ℕ
sk_action sk_drop = 0
sk_action sk_pass = 1

-- `enum bpf_adj_room_mode`.
pub data AdjRoomMode : Type 0 where
  adj_room_net : AdjRoomMode

unfoldable pub adj_room_mode : AdjRoomMode → ℕ
adj_room_mode adj_room_net = 0

-- `enum bpf_stack_build_id_status`: an empty entry, one with a build id and an offset, and one where the
-- build id is missing and the instruction pointer stands in its place.
pub data BuildIdStatus : Type 0 where
  build_id_empty build_id_valid build_id_ip : BuildIdStatus

unfoldable pub build_id_status : BuildIdStatus → ℕ
build_id_status build_id_empty = 0
build_id_status build_id_valid = 1
build_id_status build_id_ip = 2

abbrev ret_codes : List RetCode
ret_codes = bpf_ok ∷ bpf_drop ∷ bpf_redirect ∷ []

reserved_test : any (λ c. is_reserved (ret_code c)) ret_codes ≡ false
unfolding ret_code
reserved_test = refl

kinds_test :
    sk_action sk_drop == adj_room_mode adj_room_net && build_id_status build_id_ip == 2 ≡ true
unfolding sk_action adj_room_mode build_id_status
kinds_test = refl
