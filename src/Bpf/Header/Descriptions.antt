-- ===== src/Bpf/Header/Descriptions.antt =====
-- The descriptions of helpers in the comment of bpf.h, against the declarations of bpf_helpers.h,
-- which call them by number.
pub mod Format
pub mod Core
pub mod Metadata
pub mod Packets
pub mod Sockets
use Prim.Native.String.{◌++◌ as text_append}
use ebpfmanager.Common.{
  ℕ, ◌≡◌, refl, ◌==◌, ◌&&◌, ◌||◌, Bool, true, false, String, str_eq, List, [], ◌∷◌, ◌++◌, Option,
  none, some, ltb, any, not, length,
}
use ebpfmanager.Bpf.Header.Helpers.{
  Helper, helper_name, tail_call, map_lookup_elem, map_update_elem, map_delete_elem, probe_read,
  ktime_get_ns, trace_printk, get_prandom_u32, get_smp_processor_id, skb_store_bytes,
  l3_csum_replace, l4_csum_replace, clone_redirect, get_current_pid_tgid, get_current_uid_gid,
  get_current_comm, skb_get_tunnel_key, skb_set_tunnel_key, perf_event_read, redirect,
  perf_event_output,
}
use ebpfmanager.Bpf.Header.Descriptions.Format.{Description, notes_fit, find_description}
use ebpfmanager.Bpf.Header.Descriptions.Core.{basics}
use ebpfmanager.Bpf.Header.Descriptions.Metadata.{metadata}
use ebpfmanager.Bpf.Header.Descriptions.Packets.{packets}
use ebpfmanager.Bpf.Header.Descriptions.Sockets.{sockets}

abbrev pub descriptions : List Description
descriptions = basics ++ metadata ++ packets ++ sockets

abbrev pub described : Helper → Option Description
described h = find_description (text_append "bpf_" (helper_name h)) descriptions

-- A function pointer of bpf_helpers.h: the helper that it calls, and its number of arguments.
pub record Declaration : Type 0 where
  pub helper : Helper
  pub arity : ℕ

abbrev declare : Helper → ℕ → Declaration
declare h n = record { helper = h; arity = n }

abbrev pub declarations : List Declaration
declarations =
    declare map_lookup_elem 2
    ∷ declare map_update_elem 4
    ∷ declare map_delete_elem 2
    ∷ declare probe_read 3
    ∷ declare ktime_get_ns 0
    ∷ declare trace_printk 2
    ∷ declare get_smp_processor_id 0
    ∷ declare get_current_pid_tgid 0
    ∷ declare get_current_uid_gid 0
    ∷ declare get_current_comm 2
    ∷ declare perf_event_read 2
    ∷ declare clone_redirect 3
    ∷ declare redirect 2
    ∷ declare perf_event_output 5
    ∷ declare skb_get_tunnel_key 4
    ∷ declare skb_set_tunnel_key 4
    ∷ declare get_prandom_u32 0
    ∷ []

abbrev pub packet_declarations : List Declaration
packet_declarations =
    declare skb_store_bytes 5 ∷ declare l3_csum_replace 5 ∷ declare l4_csum_replace 5 ∷ []

-- The version of the header that examples/program_router includes has one more.
abbrev pub tail_call_declaration : Declaration
tail_call_declaration = declare tail_call 3

-- A description, where there is one, has as many parameters, and no helper takes more than five.
abbrev pub agrees : Declaration → Bool
agrees d = elim (described d.helper) [
  | none ↦ ltb d.arity 6
  | some t ↦ length t.parameters == d.arity && ltb d.arity 6
]

-- Every declaration agrees with its description.
declarations_test :
    any (λ d. not (agrees d)) (tail_call_declaration ∷ declarations ++ packet_declarations) ≡ false
unfolding helper_name
declarations_test = refl

-- The notes are on parameters of the helper, but for bpf_skb_change_head, which is described without
-- parameters.
notes_test :
    any (λ d. not (notes_fit d || str_eq d.name "bpf_skb_change_head")) descriptions ≡ false
notes_test = refl
