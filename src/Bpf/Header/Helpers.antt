-- ===== src/Bpf/Header/Helpers.antt =====
-- The helpers of the kernel: their order and numbers in bpf.h.
use ebpfmanager.Common.{String, ℕ, zero, suc, ◌≡◌, refl, List, [], ◌∷◌, map}

-- `__BPF_FUNC_MAPPER`, less the prefix `bpf_`
pub data Helper : Type 0 where
  unspec map_lookup_elem map_update_elem map_delete_elem probe_read ktime_get_ns trace_printk :
      Helper
  get_prandom_u32 get_smp_processor_id skb_store_bytes l3_csum_replace l4_csum_replace : Helper
  tail_call clone_redirect get_current_pid_tgid get_current_uid_gid get_current_comm : Helper
  get_cgroup_classid skb_vlan_push skb_vlan_pop skb_get_tunnel_key skb_set_tunnel_key : Helper
  perf_event_read redirect get_route_realm perf_event_output skb_load_bytes get_stackid : Helper
  csum_diff skb_get_tunnel_opt skb_set_tunnel_opt skb_change_proto skb_change_type : Helper
  skb_under_cgroup get_hash_recalc get_current_task probe_write_user : Helper
  current_task_under_cgroup skb_change_tail skb_pull_data csum_update set_hash_invalid : Helper
  get_numa_node_id skb_change_head xdp_adjust_head probe_read_str get_socket_cookie : Helper
  get_socket_uid set_hash setsockopt skb_adjust_room redirect_map sk_redirect_map : Helper
  sock_map_update xdp_adjust_meta perf_event_read_value perf_prog_read_value getsockopt : Helper
  override_return sock_ops_cb_flags_set msg_redirect_map msg_apply_bytes msg_cork_bytes : Helper
  msg_pull_data bind : Helper

abbrev pub helpers : List Helper
helpers =
    unspec ∷ map_lookup_elem ∷ map_update_elem ∷ map_delete_elem ∷ probe_read ∷ ktime_get_ns
    ∷ trace_printk ∷ get_prandom_u32 ∷ get_smp_processor_id ∷ skb_store_bytes ∷ l3_csum_replace
    ∷ l4_csum_replace ∷ tail_call ∷ clone_redirect ∷ get_current_pid_tgid ∷ get_current_uid_gid
    ∷ get_current_comm ∷ get_cgroup_classid ∷ skb_vlan_push ∷ skb_vlan_pop ∷ skb_get_tunnel_key
    ∷ skb_set_tunnel_key ∷ perf_event_read ∷ redirect ∷ get_route_realm ∷ perf_event_output
    ∷ skb_load_bytes ∷ get_stackid ∷ csum_diff ∷ skb_get_tunnel_opt ∷ skb_set_tunnel_opt
    ∷ skb_change_proto ∷ skb_change_type ∷ skb_under_cgroup ∷ get_hash_recalc ∷ get_current_task
    ∷ probe_write_user ∷ current_task_under_cgroup ∷ skb_change_tail ∷ skb_pull_data ∷ csum_update
    ∷ set_hash_invalid ∷ get_numa_node_id ∷ skb_change_head ∷ xdp_adjust_head ∷ probe_read_str
    ∷ get_socket_cookie ∷ get_socket_uid ∷ set_hash ∷ setsockopt ∷ skb_adjust_room ∷ redirect_map
    ∷ sk_redirect_map ∷ sock_map_update ∷ xdp_adjust_meta ∷ perf_event_read_value
    ∷ perf_prog_read_value ∷ getsockopt ∷ override_return ∷ sock_ops_cb_flags_set ∷ msg_redirect_map
    ∷ msg_apply_bytes ∷ msg_cork_bytes ∷ msg_pull_data ∷ bind ∷ []

-- `enum bpf_func_id`
unfoldable pub func_id : Helper → ℕ
func_id unspec = 0
func_id map_lookup_elem = 1
func_id map_update_elem = 2
func_id map_delete_elem = 3
func_id probe_read = 4
func_id ktime_get_ns = 5
func_id trace_printk = 6
func_id get_prandom_u32 = 7
func_id get_smp_processor_id = 8
func_id skb_store_bytes = 9
func_id l3_csum_replace = 10
func_id l4_csum_replace = 11
func_id tail_call = 12
func_id clone_redirect = 13
func_id get_current_pid_tgid = 14
func_id get_current_uid_gid = 15
func_id get_current_comm = 16
func_id get_cgroup_classid = 17
func_id skb_vlan_push = 18
func_id skb_vlan_pop = 19
func_id skb_get_tunnel_key = 20
func_id skb_set_tunnel_key = 21
func_id perf_event_read = 22
func_id redirect = 23
func_id get_route_realm = 24
func_id perf_event_output = 25
func_id skb_load_bytes = 26
func_id get_stackid = 27
func_id csum_diff = 28
func_id skb_get_tunnel_opt = 29
func_id skb_set_tunnel_opt = 30
func_id skb_change_proto = 31
func_id skb_change_type = 32
func_id skb_under_cgroup = 33
func_id get_hash_recalc = 34
func_id get_current_task = 35
func_id probe_write_user = 36
func_id current_task_under_cgroup = 37
func_id skb_change_tail = 38
func_id skb_pull_data = 39
func_id csum_update = 40
func_id set_hash_invalid = 41
func_id get_numa_node_id = 42
func_id skb_change_head = 43
func_id xdp_adjust_head = 44
func_id probe_read_str = 45
func_id get_socket_cookie = 46
func_id get_socket_uid = 47
func_id set_hash = 48
func_id setsockopt = 49
func_id skb_adjust_room = 50
func_id redirect_map = 51
func_id sk_redirect_map = 52
func_id sock_map_update = 53
func_id xdp_adjust_meta = 54
func_id perf_event_read_value = 55
func_id perf_prog_read_value = 56
func_id getsockopt = 57
func_id override_return = 58
func_id sock_ops_cb_flags_set = 59
func_id msg_redirect_map = 60
func_id msg_apply_bytes = 61
func_id msg_cork_bytes = 62
func_id msg_pull_data = 63
func_id bind = 64

-- The name that the macro of the mapper is given.
unfoldable pub helper_name : Helper → String
helper_name unspec = "unspec"
helper_name map_lookup_elem = "map_lookup_elem"
helper_name map_update_elem = "map_update_elem"
helper_name map_delete_elem = "map_delete_elem"
helper_name probe_read = "probe_read"
helper_name ktime_get_ns = "ktime_get_ns"
helper_name trace_printk = "trace_printk"
helper_name get_prandom_u32 = "get_prandom_u32"
helper_name get_smp_processor_id = "get_smp_processor_id"
helper_name skb_store_bytes = "skb_store_bytes"
helper_name l3_csum_replace = "l3_csum_replace"
helper_name l4_csum_replace = "l4_csum_replace"
helper_name tail_call = "tail_call"
helper_name clone_redirect = "clone_redirect"
helper_name get_current_pid_tgid = "get_current_pid_tgid"
helper_name get_current_uid_gid = "get_current_uid_gid"
helper_name get_current_comm = "get_current_comm"
helper_name get_cgroup_classid = "get_cgroup_classid"
helper_name skb_vlan_push = "skb_vlan_push"
helper_name skb_vlan_pop = "skb_vlan_pop"
helper_name skb_get_tunnel_key = "skb_get_tunnel_key"
helper_name skb_set_tunnel_key = "skb_set_tunnel_key"
helper_name perf_event_read = "perf_event_read"
helper_name redirect = "redirect"
helper_name get_route_realm = "get_route_realm"
helper_name perf_event_output = "perf_event_output"
helper_name skb_load_bytes = "skb_load_bytes"
helper_name get_stackid = "get_stackid"
helper_name csum_diff = "csum_diff"
helper_name skb_get_tunnel_opt = "skb_get_tunnel_opt"
helper_name skb_set_tunnel_opt = "skb_set_tunnel_opt"
helper_name skb_change_proto = "skb_change_proto"
helper_name skb_change_type = "skb_change_type"
helper_name skb_under_cgroup = "skb_under_cgroup"
helper_name get_hash_recalc = "get_hash_recalc"
helper_name get_current_task = "get_current_task"
helper_name probe_write_user = "probe_write_user"
helper_name current_task_under_cgroup = "current_task_under_cgroup"
helper_name skb_change_tail = "skb_change_tail"
helper_name skb_pull_data = "skb_pull_data"
helper_name csum_update = "csum_update"
helper_name set_hash_invalid = "set_hash_invalid"
helper_name get_numa_node_id = "get_numa_node_id"
helper_name skb_change_head = "skb_change_head"
helper_name xdp_adjust_head = "xdp_adjust_head"
helper_name probe_read_str = "probe_read_str"
helper_name get_socket_cookie = "get_socket_cookie"
helper_name get_socket_uid = "get_socket_uid"
helper_name set_hash = "set_hash"
helper_name setsockopt = "setsockopt"
helper_name skb_adjust_room = "skb_adjust_room"
helper_name redirect_map = "redirect_map"
helper_name sk_redirect_map = "sk_redirect_map"
helper_name sock_map_update = "sock_map_update"
helper_name xdp_adjust_meta = "xdp_adjust_meta"
helper_name perf_event_read_value = "perf_event_read_value"
helper_name perf_prog_read_value = "perf_prog_read_value"
helper_name getsockopt = "getsockopt"
helper_name override_return = "override_return"
helper_name sock_ops_cb_flags_set = "sock_ops_cb_flags_set"
helper_name msg_redirect_map = "msg_redirect_map"
helper_name msg_apply_bytes = "msg_apply_bytes"
helper_name msg_cork_bytes = "msg_cork_bytes"
helper_name msg_pull_data = "msg_pull_data"
helper_name bind = "bind"

-- The numbers from one on.
abbrev pub up_from : ℕ → ℕ → List ℕ
up_from n zero = []
up_from n (suc k) = n ∷ up_from (suc n) k

-- The numbers are those of the order, and every declaration agrees with its description.
func_id_test : map func_id helpers ≡ up_from 0 65
unfolding func_id
func_id_test = refl
