-- ===== src/Bpf/Header/Descriptions/Core.antt =====
-- The descriptions of helpers in lines 411 to 500 of bpf.h.
use ebpfmanager.Common.{true, false, List, [], ◌∷◌, some}
use ebpfmanager.Bpf.Header.Descriptions.Format.{Description, describe, pointer, int, u32, u64}

abbrev pub basics : List Description
basics =
    (describe pointer "bpf_map_lookup_elem" ("map" ∷ "key" ∷ []) false "" ([])
      (some "Map value or NULL"))
    ∷ (describe int "bpf_map_update_elem" ("map" ∷ "key" ∷ "value" ∷ "flags" ∷ []) false "" ([])
        (some "0 on success or negative error"))
    ∷ (describe int "bpf_map_delete_elem" ("map" ∷ "key" ∷ []) false "" ([])
        (some "0 on success or negative error"))
    ∷ (describe int "bpf_probe_read" ("dst" ∷ "size" ∷ "src" ∷ []) false "" ([])
        (some "0 on success or negative error"))
    ∷ (describe u64 "bpf_ktime_get_ns" ([]) false "" ([]) (some "current ktime"))
    ∷ (describe int "bpf_trace_printk" ("fmt" ∷ "fmt_size" ∷ []) true "" ([])
        (some "length of buffer written or negative error"))
    ∷ (describe u32 "bpf_prandom_u32" ([]) false "" ([]) (some "random value"))
    ∷ (describe u32 "bpf_raw_smp_processor_id" ([]) false "" ([]) (some "SMP processor ID"))
    ∷ (describe int "bpf_skb_store_bytes" ("skb" ∷ "offset" ∷ "from" ∷ "len" ∷ "flags" ∷ []) false
        "store bytes into packet"
        (("skb", "pointer to skb")
          ∷ ("offset", "offset within packet from skb->mac_header")
          ∷ ("from", "pointer where to copy bytes from")
          ∷ ("len", "number of bytes to store into packet")
          ∷ ("flags", "bit 0 - if true, recompute skb->csum other bits - reserved")
          ∷ [])
        (some "0 on success or negative error"))
    ∷ (describe int "bpf_l3_csum_replace" ("skb" ∷ "offset" ∷ "from" ∷ "to" ∷ "flags" ∷ []) false
        "recompute IP checksum"
        (("skb", "pointer to skb")
          ∷ ("offset", "offset within packet where IP checksum is located")
          ∷ ("from", "old value of header field")
          ∷ ("to", "new value of header field")
          ∷ ("flags", "bits 0-3 - size of header field other bits - reserved")
          ∷ [])
        (some "0 on success or negative error"))
    ∷ (describe int "bpf_l4_csum_replace" ("skb" ∷ "offset" ∷ "from" ∷ "to" ∷ "flags" ∷ []) false
        "recompute TCP/UDP checksum"
        (("skb", "pointer to skb")
          ∷ ("offset", "offset within packet where TCP/UDP checksum is located")
          ∷ ("from", "old value of header field")
          ∷ ("to", "new value of header field")
          ∷ (
            "flags",
            "bits 0-3 - size of header field bit 4 - is pseudo header other bits - reserved",
          )
          ∷ [])
        (some "0 on success or negative error"))
    ∷ (describe int "bpf_tail_call" ("ctx" ∷ "prog_array_map" ∷ "index" ∷ []) false
        "jump into another BPF program"
        (("ctx", "context pointer passed to next program")
          ∷ ("prog_array_map", "pointer to map which type is BPF_MAP_TYPE_PROG_ARRAY")
          ∷ ("index", "32-bit index inside array that selects specific program to run")
          ∷ [])
        (some "0 on success or negative error"))
    ∷ (describe int "bpf_clone_redirect" ("skb" ∷ "ifindex" ∷ "flags" ∷ []) false
        "redirect to another netdev"
        (("skb", "pointer to skb")
          ∷ ("ifindex", "ifindex of the net device")
          ∷ ("flags", "bit 0 - if set, redirect to ingress instead of egress other bits - reserved")
          ∷ [])
        (some "0 on success or negative error"))
    ∷ (describe u64 "bpf_get_current_pid_tgid" ([]) false "" ([])
        (some "current->tgid << 32 | current->pid"))
    ∷ (describe u64 "bpf_get_current_uid_gid" ([]) false "" ([])
        (some "current_gid << 32 | current_uid"))
    ∷ (describe int "bpf_get_current_comm" ("buf" ∷ "size_of_buf" ∷ []) false
        "stores current->comm into buf" ([]) (some "0 on success or negative error"))
    ∷ (describe u32 "bpf_get_cgroup_classid" ("skb" ∷ []) false "retrieve a proc's classid"
        (("skb", "pointer to skb") ∷ []) (some "classid if != 0"))
    ∷ (describe int "bpf_skb_vlan_push" ("skb" ∷ "vlan_proto" ∷ "vlan_tci" ∷ []) false "" ([])
        (some "0 on success or negative error"))
    ∷ (describe int "bpf_skb_vlan_pop" ("skb" ∷ []) false "" ([])
        (some "0 on success or negative error"))
    ∷ []
