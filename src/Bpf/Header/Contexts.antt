-- ===== src/Bpf/Header/Contexts.antt =====
-- The structs of bpf.h that the kernel hands to programs: their members in order.
use ebpfmanager.Common.{List, [], ◌∷◌}
use ebpfmanager.Bpf.Header.Layout.{Item, plain, overlay, u8, u16, u32, u32s, u64, u64s}

abbrev pub sk_buff : List Item
sk_buff =
    plain (u32 "len")
    ∷ plain (u32 "pkt_type")
    ∷ plain (u32 "mark")
    ∷ plain (u32 "queue_mapping")
    ∷ plain (u32 "protocol")
    ∷ plain (u32 "vlan_present")
    ∷ plain (u32 "vlan_tci")
    ∷ plain (u32 "vlan_proto")
    ∷ plain (u32 "priority")
    ∷ plain (u32 "ingress_ifindex")
    ∷ plain (u32 "ifindex")
    ∷ plain (u32 "tc_index")
    ∷ plain (u32s 5 "cb")
    ∷ plain (u32 "hash")
    ∷ plain (u32 "tc_classid")
    ∷ plain (u32 "data")
    ∷ plain (u32 "data_end")
    ∷ plain (u32 "napi_id")
    ∷ plain (u32 "family")
    ∷ plain (u32 "remote_ip4")
    ∷ plain (u32 "local_ip4")
    ∷ plain (u32s 4 "remote_ip6")
    ∷ plain (u32s 4 "local_ip6")
    ∷ plain (u32 "remote_port")
    ∷ plain (u32 "local_port")
    ∷ plain (u32 "data_meta")
    ∷ []

abbrev pub bpf_tunnel_key : List Item
bpf_tunnel_key =
    plain (u32 "tunnel_id")
    ∷ overlay (u32 "remote_ipv4" ∷ u32s 4 "remote_ipv6" ∷ [])
    ∷ plain (u8 "tunnel_tos")
    ∷ plain (u8 "tunnel_ttl")
    ∷ plain (u16 "tunnel_ext")
    ∷ plain (u32 "tunnel_label")
    ∷ []

abbrev pub bpf_sock : List Item
bpf_sock =
    plain (u32 "bound_dev_if")
    ∷ plain (u32 "family")
    ∷ plain (u32 "type")
    ∷ plain (u32 "protocol")
    ∷ plain (u32 "mark")
    ∷ plain (u32 "priority")
    ∷ plain (u32 "src_ip4")
    ∷ plain (u32s 4 "src_ip6")
    ∷ plain (u32 "src_port")
    ∷ []

abbrev pub xdp_md : List Item
xdp_md =
    plain (u32 "data")
    ∷ plain (u32 "data_end")
    ∷ plain (u32 "data_meta")
    ∷ plain (u32 "ingress_ifindex")
    ∷ plain (u32 "rx_queue_index")
    ∷ []

abbrev pub sk_msg_md : List Item
sk_msg_md = plain (u64 "data") ∷ plain (u64 "data_end") ∷ []

abbrev pub bpf_sock_addr : List Item
bpf_sock_addr =
    plain (u32 "user_family")
    ∷ plain (u32 "user_ip4")
    ∷ plain (u32s 4 "user_ip6")
    ∷ plain (u32 "user_port")
    ∷ plain (u32 "family")
    ∷ plain (u32 "type")
    ∷ plain (u32 "protocol")
    ∷ []

abbrev pub bpf_sock_ops : List Item
bpf_sock_ops =
    plain (u32 "op")
    ∷ overlay (u32s 4 "args" ∷ u32 "reply" ∷ u32s 4 "replylong" ∷ [])
    ∷ plain (u32 "family")
    ∷ plain (u32 "remote_ip4")
    ∷ plain (u32 "local_ip4")
    ∷ plain (u32s 4 "remote_ip6")
    ∷ plain (u32s 4 "local_ip6")
    ∷ plain (u32 "remote_port")
    ∷ plain (u32 "local_port")
    ∷ plain (u32 "is_fullsock")
    ∷ plain (u32 "snd_cwnd")
    ∷ plain (u32 "srtt_us")
    ∷ plain (u32 "bpf_sock_ops_cb_flags")
    ∷ plain (u32 "state")
    ∷ plain (u32 "rtt_min")
    ∷ plain (u32 "snd_ssthresh")
    ∷ plain (u32 "rcv_nxt")
    ∷ plain (u32 "snd_nxt")
    ∷ plain (u32 "snd_una")
    ∷ plain (u32 "mss_cache")
    ∷ plain (u32 "ecn_flags")
    ∷ plain (u32 "rate_delivered")
    ∷ plain (u32 "rate_interval_us")
    ∷ plain (u32 "packets_out")
    ∷ plain (u32 "retrans_out")
    ∷ plain (u32 "total_retrans")
    ∷ plain (u32 "segs_in")
    ∷ plain (u32 "data_segs_in")
    ∷ plain (u32 "segs_out")
    ∷ plain (u32 "data_segs_out")
    ∷ plain (u32 "lost_out")
    ∷ plain (u32 "sacked_out")
    ∷ plain (u32 "sk_txhash")
    ∷ plain (u64 "bytes_received")
    ∷ plain (u64 "bytes_acked")
    ∷ []

abbrev pub bpf_perf_event_value : List Item
bpf_perf_event_value = plain (u64 "counter") ∷ plain (u64 "enabled") ∷ plain (u64 "running") ∷ []

abbrev pub bpf_cgroup_dev_ctx : List Item
bpf_cgroup_dev_ctx = plain (u32 "access_type") ∷ plain (u32 "major") ∷ plain (u32 "minor") ∷ []

abbrev pub bpf_raw_tracepoint_args : List Item
bpf_raw_tracepoint_args = plain (u64s 0 "args") ∷ []
