-- ===== src/Bpf/Header/Descriptions/Packets.antt =====
-- The descriptions of helpers in lines 610 to 690 of bpf.h.
use ebpfmanager.Common.{false, List, [], ◌∷◌, some, none}
use ebpfmanager.Bpf.Header.Descriptions.Format.{Description, describe, int, u32, u64, s64, nothing}

abbrev pub packets : List Description
packets =
    (describe u32 "bpf_get_hash_recalc" ("skb" ∷ []) false
      "Retrieve and possibly recalculate skb->hash." (("skb", "pointer to skb") ∷ []) (some "hash"))
    ∷ (describe u64 "bpf_get_current_task" ([]) false "Returns current task_struct" ([])
        (some "current"))
    ∷ (describe int "bpf_probe_write_user" ("dst" ∷ "src" ∷ "len" ∷ []) false
        "safely attempt to write to a location"
        (("dst", "destination address in userspace")
          ∷ ("src", "source address on stack")
          ∷ ("len", "number of bytes to copy")
          ∷ [])
        (some "0 on success or negative error"))
    ∷ (describe int "bpf_current_task_under_cgroup" ("map" ∷ "index" ∷ []) false
        "Check cgroup2 membership of current task"
        (("map", "pointer to bpf_map in BPF_MAP_TYPE_CGROUP_ARRAY type")
          ∷ ("index", "index of the cgroup in the bpf_map")
          ∷ [])
        (some
          "== 0 current failed the cgroup2 descendant test == 1 current succeeded the cgroup2 descendant test < 0 error"))
    ∷ (describe int "bpf_skb_change_tail" ("skb" ∷ "len" ∷ "flags" ∷ []) false
        "The helper will resize the skb to the given new size, to be used f.e. with control messages."
        (("skb", "pointer to skb") ∷ ("len", "new skb length") ∷ ("flags", "reserved") ∷ [])
        (some "0 on success or negative error"))
    ∷ (describe int "bpf_skb_pull_data" ("skb" ∷ "len" ∷ []) false
        "The helper will pull in non-linear data in case the skb is non-linear and not all of len are part of the linear section. Only needed for read/write with direct packet access."
        (("skb", "pointer to skb") ∷ ("len", "len to make read/writeable") ∷ [])
        (some "0 on success or negative error"))
    ∷ (describe s64 "bpf_csum_update" ("skb" ∷ "csum" ∷ []) false
        "Adds csum into skb->csum in case of CHECKSUM_COMPLETE."
        (("skb", "pointer to skb") ∷ ("csum", "csum to add") ∷ [])
        (some "csum on success or negative error"))
    ∷ (describe nothing "bpf_set_hash_invalid" ("skb" ∷ []) false "Invalidate current skb->hash."
        (("skb", "pointer to skb") ∷ []) none)
    ∷ (describe int "bpf_get_numa_node_id" ([]) false "" ([]) (some "Id of current NUMA node."))
    ∷ (describe int "bpf_skb_change_head" ([]) false
        "Grows headroom of skb and adjusts MAC header offset accordingly. Will extends/reallocae as required automatically. May change skb data pointer and will thus invalidate any check performed for direct packet access."
        (("skb", "pointer to skb")
          ∷ ("len", "length of header to be pushed in front")
          ∷ ("flags", "Flags (unused for now)")
          ∷ [])
        (some "0 on success or negative error"))
    ∷ (describe int "bpf_xdp_adjust_head" ("xdp_md" ∷ "delta" ∷ []) false
        "Adjust the xdp_md.data by delta"
        (("xdp_md", "pointer to xdp_md")
          ∷ ("delta", "An positive/negative integer to be added to xdp_md.data")
          ∷ [])
        (some "0 on success or negative on error"))
    ∷ (describe int "bpf_probe_read_str" ("dst" ∷ "size" ∷ "unsafe_ptr" ∷ []) false
        "Copy a NUL terminated string from unsafe address. In case the string length is smaller than size, the target is not padded with further NUL bytes. In case the string length is larger than size, just count-1 bytes are copied and the last byte is set to NUL."
        (("dst", "destination address")
          ∷ ("size", "maximum number of bytes to copy, including the trailing NUL")
          ∷ ("unsafe_ptr", "unsafe address")
          ∷ [])
        (some "> 0 length of the string including the trailing NUL on success < 0 error"))
    ∷ []
