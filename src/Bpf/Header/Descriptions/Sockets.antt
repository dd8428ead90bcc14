-- ===== src/Bpf/Header/Descriptions/Sockets.antt =====
-- The descriptions of helpers in lines 692 to 798 of bpf.h.
use ebpfmanager.Common.{false, List, [], ◌∷◌, some, none}
use ebpfmanager.Bpf.Header.Descriptions.Format.{Description, describe, int, u32, u64}

abbrev pub sockets : List Description
sockets =
    (describe u64 "bpf_get_socket_cookie" ("skb" ∷ []) false
      "Get the cookie for the socket stored inside sk_buff." (("skb", "pointer to skb") ∷ [])
      (some
        "8 Bytes non-decreasing number on success or 0 if the socket field is missing inside sk_buff"))
    ∷ (describe u32 "bpf_get_socket_uid" ("skb" ∷ []) false
        "Get the owner uid of the socket stored inside sk_buff." (("skb", "pointer to skb") ∷ [])
        (some "uid of the socket owner on success or overflowuid if failed."))
    ∷ (describe u32 "bpf_set_hash" ("skb" ∷ "hash" ∷ []) false "Set full skb->hash."
        (("skb", "pointer to skb") ∷ ("hash", "hash to set") ∷ []) none)
    ∷ (describe int "bpf_setsockopt" ("bpf_socket" ∷ "level" ∷ "optname" ∷ "optval" ∷ "optlen" ∷ [])
        false
        "Calls setsockopt. Not all opts are available, only those with integer optvals plus TCP_CONGESTION. Supported levels: SOL_SOCKET and IPPROTO_TCP"
        (("bpf_socket", "pointer to bpf_socket")
          ∷ ("level", "SOL_SOCKET or IPPROTO_TCP")
          ∷ ("optname", "option name")
          ∷ ("optval", "pointer to option value")
          ∷ ("optlen", "length of optval in bytes")
          ∷ [])
        (some "0 or negative error"))
    ∷ (describe int "bpf_getsockopt" ("bpf_socket" ∷ "level" ∷ "optname" ∷ "optval" ∷ "optlen" ∷ [])
        false "Calls getsockopt. Not all opts are available. Supported levels: IPPROTO_TCP"
        (("bpf_socket", "pointer to bpf_socket")
          ∷ ("level", "IPPROTO_TCP")
          ∷ ("optname", "option name")
          ∷ ("optval", "pointer to option value")
          ∷ ("optlen", "length of optval in bytes")
          ∷ [])
        (some "0 or negative error"))
    ∷ (describe int "bpf_sock_ops_cb_flags_set" ("bpf_sock_ops" ∷ "flags" ∷ []) false
        "Set callback flags for sock_ops"
        (("bpf_sock_ops", "pointer to bpf_sock_ops_kern struct") ∷ ("flags", "flags value") ∷ [])
        (some
          "0 for no error -EINVAL if there is no full tcp socket bits in flags that are not supported by current kernel"))
    ∷ (describe int "bpf_skb_adjust_room" ("skb" ∷ "len_diff" ∷ "mode" ∷ "flags" ∷ []) false
        "Grow or shrink room in sk_buff."
        (("skb", "pointer to skb")
          ∷ ("len_diff", "(signed) amount of room to grow/shrink")
          ∷ ("mode", "operation mode (enum bpf_adj_room_mode)")
          ∷ ("flags", "reserved for future use")
          ∷ [])
        (some "0 on success or negative error code"))
    ∷ (describe int "bpf_sk_redirect_map" ("map" ∷ "key" ∷ "flags" ∷ []) false
        "Redirect skb to a sock in map using key as a lookup key for the sock in map."
        (("map", "pointer to sockmap")
          ∷ ("key", "key to lookup sock in map")
          ∷ ("flags", "reserved for future use")
          ∷ [])
        (some "SK_PASS"))
    ∷ (describe int "bpf_sock_map_update" ("skops" ∷ "map" ∷ "key" ∷ "flags" ∷ []) false ""
        (("skops", "pointer to bpf_sock_ops")
          ∷ ("map", "pointer to sockmap to update")
          ∷ ("key", "key to insert/update sock in map")
          ∷ ("flags", "same flags as map update elem")
          ∷ [])
        none)
    ∷ (describe int "bpf_xdp_adjust_meta" ("xdp_md" ∷ "delta" ∷ []) false
        "Adjust the xdp_md.data_meta by delta"
        (("xdp_md", "pointer to xdp_md")
          ∷ ("delta", "An positive/negative integer to be added to xdp_md.data_meta")
          ∷ [])
        (some "0 on success or negative on error"))
    ∷ (describe int "bpf_perf_event_read_value" ("map" ∷ "flags" ∷ "buf" ∷ "buf_size" ∷ []) false
        "read perf event counter value and perf event enabled/running time"
        (("map", "pointer to perf_event_array map")
          ∷ ("flags", "index of event in the map or bitmask flags")
          ∷ ("buf", "buf to fill")
          ∷ ("buf_size", "size of the buf")
          ∷ [])
        (some "0 on success or negative error code"))
    ∷ (describe int "bpf_perf_prog_read_value" ("ctx" ∷ "buf" ∷ "buf_size" ∷ []) false
        "read perf prog attached perf event counter and enabled/running time"
        (("ctx", "pointer to ctx") ∷ ("buf", "buf to fill") ∷ ("buf_size", "size of the buf") ∷ [])
        (some "0 on success or negative error code"))
    ∷ (describe int "bpf_override_return" ("pt_regs" ∷ "rc" ∷ []) false ""
        (("pt_regs", "pointer to struct pt_regs") ∷ ("rc", "the return value to set") ∷ []) none)
    ∷ (describe int "bpf_msg_redirect_map" ("map" ∷ "key" ∷ "flags" ∷ []) false
        "Redirect msg to a sock in map using key as a lookup key for the sock in map."
        (("map", "pointer to sockmap")
          ∷ ("key", "key to lookup sock in map")
          ∷ ("flags", "reserved for future use")
          ∷ [])
        (some "SK_PASS"))
    ∷ (describe int "bpf_bind" ("ctx" ∷ "addr" ∷ "addr_len" ∷ []) false
        "Bind socket to address. Only binding to IP is supported, no port can be set in addr."
        (("ctx", "pointer to context of type bpf_sock_addr")
          ∷ ("addr", "pointer to struct sockaddr to bind socket to")
          ∷ ("addr_len", "length of sockaddr structure")
          ∷ [])
        (some "0 on success or negative error code"))
    ∷ []
