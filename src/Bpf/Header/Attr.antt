-- ===== src/Bpf/Header/Attr.antt =====
-- `union bpf_attr` of bpf.h, one struct for each group of commands of bpf(2), and the structs that the
-- kernel fills in.
use ebpfmanager.Common.{List, [], ◌∷◌}
use ebpfmanager.Bpf.Header.Layout.{Item, plain, overlay, u8s, u32, u64}

abbrev pub map_create : List Item
map_create =
    plain (u32 "map_type")
    ∷ plain (u32 "key_size")
    ∷ plain (u32 "value_size")
    ∷ plain (u32 "max_entries")
    ∷ plain (u32 "map_flags")
    ∷ plain (u32 "inner_map_fd")
    ∷ plain (u32 "numa_node")
    ∷ plain (u8s 16 "map_name")
    ∷ plain (u32 "map_ifindex")
    ∷ []

abbrev pub map_elem : List Item
map_elem =
    plain (u32 "map_fd")
    ∷ plain (u64 "key")
    ∷ overlay (u64 "value" ∷ u64 "next_key" ∷ [])
    ∷ plain (u64 "flags")
    ∷ []

abbrev pub prog_load : List Item
prog_load =
    plain (u32 "prog_type")
    ∷ plain (u32 "insn_cnt")
    ∷ plain (u64 "insns")
    ∷ plain (u64 "license")
    ∷ plain (u32 "log_level")
    ∷ plain (u32 "log_size")
    ∷ plain (u64 "log_buf")
    ∷ plain (u32 "kern_version")
    ∷ plain (u32 "prog_flags")
    ∷ plain (u8s 16 "prog_name")
    ∷ plain (u32 "prog_ifindex")
    ∷ plain (u32 "expected_attach_type")
    ∷ []

abbrev pub obj : List Item
obj = plain (u64 "pathname") ∷ plain (u32 "bpf_fd") ∷ plain (u32 "file_flags") ∷ []

abbrev pub prog_attach : List Item
prog_attach =
    plain (u32 "target_fd")
    ∷ plain (u32 "attach_bpf_fd")
    ∷ plain (u32 "attach_type")
    ∷ plain (u32 "attach_flags")
    ∷ []

abbrev pub test_run : List Item
test_run =
    plain (u32 "prog_fd")
    ∷ plain (u32 "retval")
    ∷ plain (u32 "data_size_in")
    ∷ plain (u32 "data_size_out")
    ∷ plain (u64 "data_in")
    ∷ plain (u64 "data_out")
    ∷ plain (u32 "repeat")
    ∷ plain (u32 "duration")
    ∷ []

abbrev pub get_id : List Item
get_id =
    overlay (u32 "start_id" ∷ u32 "prog_id" ∷ u32 "map_id" ∷ [])
    ∷ plain (u32 "next_id")
    ∷ plain (u32 "open_flags")
    ∷ []

abbrev pub info_by_fd : List Item
info_by_fd = plain (u32 "bpf_fd") ∷ plain (u32 "info_len") ∷ plain (u64 "info") ∷ []

abbrev pub prog_query : List Item
prog_query =
    plain (u32 "target_fd")
    ∷ plain (u32 "attach_type")
    ∷ plain (u32 "query_flags")
    ∷ plain (u32 "attach_flags")
    ∷ plain (u64 "prog_ids")
    ∷ plain (u32 "prog_cnt")
    ∷ []

abbrev pub raw_tracepoint : List Item
raw_tracepoint = plain (u64 "name") ∷ plain (u32 "prog_fd") ∷ []

abbrev pub bpf_prog_info : List Item
bpf_prog_info =
    plain (u32 "type")
    ∷ plain (u32 "id")
    ∷ plain (u8s 8 "tag")
    ∷ plain (u32 "jited_prog_len")
    ∷ plain (u32 "xlated_prog_len")
    ∷ plain (u64 "jited_prog_insns")
    ∷ plain (u64 "xlated_prog_insns")
    ∷ plain (u64 "load_time")
    ∷ plain (u32 "created_by_uid")
    ∷ plain (u32 "nr_map_ids")
    ∷ plain (u64 "map_ids")
    ∷ plain (u8s 16 "name")
    ∷ plain (u32 "ifindex")
    ∷ plain (u32 "padding")
    ∷ plain (u64 "netns_dev")
    ∷ plain (u64 "netns_ino")
    ∷ []

abbrev pub bpf_map_info : List Item
bpf_map_info =
    plain (u32 "type")
    ∷ plain (u32 "id")
    ∷ plain (u32 "key_size")
    ∷ plain (u32 "value_size")
    ∷ plain (u32 "max_entries")
    ∷ plain (u32 "map_flags")
    ∷ plain (u8s 16 "name")
    ∷ plain (u32 "ifindex")
    ∷ plain (u32 "padding")
    ∷ plain (u64 "netns_dev")
    ∷ plain (u64 "netns_ino")
    ∷ []

abbrev pub bpf_stack_build_id : List Item
bpf_stack_build_id =
    plain (u32 "status") ∷ plain (u8s 20 "build_id") ∷ overlay (u64 "offset" ∷ u64 "ip" ∷ []) ∷ []

abbrev pub bpf_lpm_trie_key : List Item
bpf_lpm_trie_key = plain (u32 "prefixlen") ∷ plain (u8s 0 "data") ∷ []

-- `union bpf_attr`
abbrev pub bpf_attr : List (List Item)
bpf_attr =
    map_create ∷ map_elem ∷ prog_load ∷ obj ∷ prog_attach ∷ test_run ∷ get_id ∷ info_by_fd
    ∷ prog_query ∷ raw_tracepoint ∷ []
