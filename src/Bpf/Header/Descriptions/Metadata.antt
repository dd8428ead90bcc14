-- ===== src/Bpf/Header/Descriptions/Metadata.antt =====
-- The descriptions of helpers in lines 502 to 608 of bpf.h.
use ebpfmanager.Common.{false, List, [], ◌∷◌, some}
use ebpfmanager.Bpf.Header.Descriptions.Format.{Description, describe, int, u32, u64, s64}

abbrev pub metadata : List Description
metadata =
    (describe int "bpf_skb_get_tunnel_key" ("skb" ∷ "key" ∷ "size" ∷ "flags" ∷ []) false
      "retrieve or populate tunnel metadata"
      (("skb", "pointer to skb")
        ∷ ("key", "pointer to 'struct bpf_tunnel_key'")
        ∷ ("size", "size of 'struct bpf_tunnel_key'")
        ∷ ("flags", "room for future extensions")
        ∷ [])
      (some "0 on success or negative error"))
    ∷ (describe int "bpf_skb_set_tunnel_key" ("skb" ∷ "key" ∷ "size" ∷ "flags" ∷ []) false
        "retrieve or populate tunnel metadata"
        (("skb", "pointer to skb")
          ∷ ("key", "pointer to 'struct bpf_tunnel_key'")
          ∷ ("size", "size of 'struct bpf_tunnel_key'")
          ∷ ("flags", "room for future extensions")
          ∷ [])
        (some "0 on success or negative error"))
    ∷ (describe u64 "bpf_perf_event_read" ("map" ∷ "flags" ∷ []) false
        "read perf event counter value"
        (("map", "pointer to perf_event_array map")
          ∷ ("flags", "index of event in the map or bitmask flags")
          ∷ [])
        (some "value of perf event counter read or error code"))
    ∷ (describe int "bpf_redirect" ("ifindex" ∷ "flags" ∷ []) false "redirect to another netdev"
        (("ifindex", "ifindex of the net device")
          ∷ (
            "flags",
            "cls_bpf: bit 0 - if set, redirect to ingress instead of egress other bits - reserved xdp_bpf: all bits - reserved",
          )
          ∷ [])
        (some
          "cls_bpf: TC_ACT_REDIRECT on success or TC_ACT_SHOT on error xdp_bfp: XDP_REDIRECT on success or XDP_ABORT on error"))
    ∷ (describe int "bpf_redirect_map" ("map" ∷ "key" ∷ "flags" ∷ []) false
        "redirect to endpoint in map"
        (("map", "pointer to dev map") ∷ ("key", "index in map to lookup") ∷ ("flags", "--") ∷ [])
        (some "XDP_REDIRECT on success or XDP_ABORT on error"))
    ∷ (describe u32 "bpf_get_route_realm" ("skb" ∷ []) false "retrieve a dst's tclassid"
        (("skb", "pointer to skb") ∷ []) (some "realm if != 0"))
    ∷ (describe int "bpf_perf_event_output" ("ctx" ∷ "map" ∷ "flags" ∷ "data" ∷ "size" ∷ []) false
        "output perf raw sample"
        (("ctx", "struct pt_regs*")
          ∷ ("map", "pointer to perf_event_array map")
          ∷ ("flags", "index of event in the map or bitmask flags")
          ∷ ("data", "data on stack to be output as raw data")
          ∷ ("size", "size of data")
          ∷ [])
        (some "0 on success or negative error"))
    ∷ (describe int "bpf_get_stackid" ("ctx" ∷ "map" ∷ "flags" ∷ []) false
        "walk user or kernel stack and return id"
        (("ctx", "struct pt_regs*")
          ∷ ("map", "pointer to stack_trace map")
          ∷ (
            "flags",
            "bits 0-7 - numer of stack frames to skip bit 8 - collect user stack instead of kernel bit 9 - compare stacks by hash only bit 10 - if two different stacks hash into the same stackid discard old other bits - reserved",
          )
          ∷ [])
        (some ">= 0 stackid on success or negative error"))
    ∷ (describe s64 "bpf_csum_diff" ("from" ∷ "from_size" ∷ "to" ∷ "to_size" ∷ "seed" ∷ []) false
        "calculate csum diff"
        (("from", "raw from buffer")
          ∷ ("from_size", "length of from buffer")
          ∷ ("to", "raw to buffer")
          ∷ ("to_size", "length of to buffer")
          ∷ ("seed", "optional seed")
          ∷ [])
        (some "csum result or negative error code"))
    ∷ (describe int "bpf_skb_get_tunnel_opt" ("skb" ∷ "opt" ∷ "size" ∷ []) false
        "retrieve tunnel options metadata"
        (("skb", "pointer to skb")
          ∷ ("opt", "pointer to raw tunnel option data")
          ∷ ("size", "size of @opt")
          ∷ [])
        (some "option size"))
    ∷ (describe int "bpf_skb_set_tunnel_opt" ("skb" ∷ "opt" ∷ "size" ∷ []) false
        "populate tunnel options metadata"
        (("skb", "pointer to skb")
          ∷ ("opt", "pointer to raw tunnel option data")
          ∷ ("size", "size of @opt")
          ∷ [])
        (some "0 on success or negative error"))
    ∷ (describe int "bpf_skb_change_proto" ("skb" ∷ "proto" ∷ "flags" ∷ []) false
        "Change protocol of the skb. Currently supported is v4 -> v6, v6 -> v4 transitions. The helper will also resize the skb. eBPF program is expected to fill the new headers via skb_store_bytes and lX_csum_replace."
        (("skb", "pointer to skb")
          ∷ ("proto", "new skb->protocol type")
          ∷ ("flags", "reserved")
          ∷ [])
        (some "0 on success or negative error"))
    ∷ (describe int "bpf_skb_change_type" ("skb" ∷ "type" ∷ []) false "Change packet type of skb."
        (("skb", "pointer to skb") ∷ ("type", "new skb->pkt_type type") ∷ [])
        (some "0 on success or negative error"))
    ∷ (describe int "bpf_skb_under_cgroup" ("skb" ∷ "map" ∷ "index" ∷ []) false
        "Check cgroup2 membership of skb"
        (("skb", "pointer to skb")
          ∷ ("map", "pointer to bpf_map in BPF_MAP_TYPE_CGROUP_ARRAY type")
          ∷ ("index", "index of the cgroup in the bpf_map")
          ∷ [])
        (some
          "== 0 skb failed the cgroup2 descendant test == 1 skb succeeded the cgroup2 descendant test < 0 error"))
    ∷ []
