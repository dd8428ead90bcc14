-- ===== src/Bpf/Header/Numbers.antt =====
-- The enums of bpf.h that number commands, program types, attach types, sock_ops operators and TCP
-- states.
use ebpfmanager.Common.{ℕ, ◌≡◌, refl, List, [], ◌∷◌, map}
use ebpfmanager.Bpf.Header.Helpers.{up_from}

-- `enum bpf_cmd`
pub data BpfCmd : Type 0 where
  map_create map_lookup_elem map_update_elem map_delete_elem map_get_next_key prog_load : BpfCmd
  obj_pin obj_get prog_attach prog_detach prog_test_run prog_get_next_id map_get_next_id : BpfCmd
  prog_get_fd_by_id map_get_fd_by_id obj_get_info_by_fd prog_query raw_tracepoint_open : BpfCmd

abbrev pub bpf_cmds : List BpfCmd
bpf_cmds =
    map_create ∷ map_lookup_elem ∷ map_update_elem ∷ map_delete_elem ∷ map_get_next_key ∷ prog_load
    ∷ obj_pin ∷ obj_get ∷ prog_attach ∷ prog_detach ∷ prog_test_run ∷ prog_get_next_id
    ∷ map_get_next_id ∷ prog_get_fd_by_id ∷ map_get_fd_by_id ∷ obj_get_info_by_fd ∷ prog_query
    ∷ raw_tracepoint_open ∷ []

unfoldable pub cmd_number : BpfCmd → ℕ
cmd_number map_create = 0
cmd_number map_lookup_elem = 1
cmd_number map_update_elem = 2
cmd_number map_delete_elem = 3
cmd_number map_get_next_key = 4
cmd_number prog_load = 5
cmd_number obj_pin = 6
cmd_number obj_get = 7
cmd_number prog_attach = 8
cmd_number prog_detach = 9
cmd_number prog_test_run = 10
cmd_number prog_get_next_id = 11
cmd_number map_get_next_id = 12
cmd_number prog_get_fd_by_id = 13
cmd_number map_get_fd_by_id = 14
cmd_number obj_get_info_by_fd = 15
cmd_number prog_query = 16
cmd_number raw_tracepoint_open = 17

cmd_number_test : map cmd_number bpf_cmds ≡ up_from 0 18
unfolding cmd_number
cmd_number_test = refl

-- `enum bpf_prog_type`
pub data ProgType : Type 0 where
  unspec socket_filter kprobe sched_cls sched_act tracepoint xdp perf_event cgroup_skb : ProgType
  cgroup_sock lwt_in lwt_out lwt_xmit sock_ops sk_skb cgroup_device sk_msg raw_tracepoint : ProgType
  cgroup_sock_addr : ProgType

abbrev pub prog_types : List ProgType
prog_types =
    unspec ∷ socket_filter ∷ kprobe ∷ sched_cls ∷ sched_act ∷ tracepoint ∷ xdp ∷ perf_event
    ∷ cgroup_skb ∷ cgroup_sock ∷ lwt_in ∷ lwt_out ∷ lwt_xmit ∷ sock_ops ∷ sk_skb ∷ cgroup_device
    ∷ sk_msg ∷ raw_tracepoint ∷ cgroup_sock_addr ∷ []

unfoldable pub prog_type_number : ProgType → ℕ
prog_type_number unspec = 0
prog_type_number socket_filter = 1
prog_type_number kprobe = 2
prog_type_number sched_cls = 3
prog_type_number sched_act = 4
prog_type_number tracepoint = 5
prog_type_number xdp = 6
prog_type_number perf_event = 7
prog_type_number cgroup_skb = 8
prog_type_number cgroup_sock = 9
prog_type_number lwt_in = 10
prog_type_number lwt_out = 11
prog_type_number lwt_xmit = 12
prog_type_number sock_ops = 13
prog_type_number sk_skb = 14
prog_type_number cgroup_device = 15
prog_type_number sk_msg = 16
prog_type_number raw_tracepoint = 17
prog_type_number cgroup_sock_addr = 18

prog_type_number_test : map prog_type_number prog_types ≡ up_from 0 19
unfolding prog_type_number
prog_type_number_test = refl

-- `enum bpf_attach_type`
pub data AttachType : Type 0 where
  cgroup_inet_ingress cgroup_inet_egress cgroup_inet_sock_create cgroup_sock_ops : AttachType
  sk_skb_stream_parser sk_skb_stream_verdict cgroup_device sk_msg_verdict cgroup_inet4_bind :
      AttachType
  cgroup_inet6_bind cgroup_inet4_connect cgroup_inet6_connect cgroup_inet4_post_bind : AttachType
  cgroup_inet6_post_bind : AttachType

abbrev pub attach_types : List AttachType
attach_types =
    cgroup_inet_ingress ∷ cgroup_inet_egress ∷ cgroup_inet_sock_create ∷ cgroup_sock_ops
    ∷ sk_skb_stream_parser ∷ sk_skb_stream_verdict ∷ cgroup_device ∷ sk_msg_verdict
    ∷ cgroup_inet4_bind ∷ cgroup_inet6_bind ∷ cgroup_inet4_connect ∷ cgroup_inet6_connect
    ∷ cgroup_inet4_post_bind ∷ cgroup_inet6_post_bind ∷ []

unfoldable pub attach_type_number : AttachType → ℕ
attach_type_number cgroup_inet_ingress = 0
attach_type_number cgroup_inet_egress = 1
attach_type_number cgroup_inet_sock_create = 2
attach_type_number cgroup_sock_ops = 3
attach_type_number sk_skb_stream_parser = 4
attach_type_number sk_skb_stream_verdict = 5
attach_type_number cgroup_device = 6
attach_type_number sk_msg_verdict = 7
attach_type_number cgroup_inet4_bind = 8
attach_type_number cgroup_inet6_bind = 9
attach_type_number cgroup_inet4_connect = 10
attach_type_number cgroup_inet6_connect = 11
attach_type_number cgroup_inet4_post_bind = 12
attach_type_number cgroup_inet6_post_bind = 13

attach_type_number_test : map attach_type_number attach_types ≡ up_from 0 14
unfolding attach_type_number
attach_type_number_test = refl

-- The operators of sock_ops programs
pub data SockOp : Type 0 where
  void timeout_init rwnd_init tcp_connect_cb active_established_cb passive_established_cb : SockOp
  needs_ecn base_rtt rto_cb retrans_cb state_cb : SockOp

abbrev pub sock_op_list : List SockOp
sock_op_list =
    void ∷ timeout_init ∷ rwnd_init ∷ tcp_connect_cb ∷ active_established_cb
    ∷ passive_established_cb ∷ needs_ecn ∷ base_rtt ∷ rto_cb ∷ retrans_cb ∷ state_cb ∷ []

unfoldable pub sock_op_number : SockOp → ℕ
sock_op_number void = 0
sock_op_number timeout_init = 1
sock_op_number rwnd_init = 2
sock_op_number tcp_connect_cb = 3
sock_op_number active_established_cb = 4
sock_op_number passive_established_cb = 5
sock_op_number needs_ecn = 6
sock_op_number base_rtt = 7
sock_op_number rto_cb = 8
sock_op_number retrans_cb = 9
sock_op_number state_cb = 10

sock_op_number_test : map sock_op_number sock_op_list ≡ up_from 0 11
unfolding sock_op_number
sock_op_number_test = refl

-- The states of TCP
pub data TcpState : Type 0 where
  established syn_sent syn_recv fin_wait1 fin_wait2 time_wait close close_wait last_ack : TcpState
  listen closing new_syn_recv : TcpState

abbrev pub tcp_states : List TcpState
tcp_states =
    established ∷ syn_sent ∷ syn_recv ∷ fin_wait1 ∷ fin_wait2 ∷ time_wait ∷ close ∷ close_wait
    ∷ last_ack ∷ listen ∷ closing ∷ new_syn_recv ∷ []

unfoldable pub tcp_state_number : TcpState → ℕ
tcp_state_number established = 1
tcp_state_number syn_sent = 2
tcp_state_number syn_recv = 3
tcp_state_number fin_wait1 = 4
tcp_state_number fin_wait2 = 5
tcp_state_number time_wait = 6
tcp_state_number close = 7
tcp_state_number close_wait = 8
tcp_state_number last_ack = 9
tcp_state_number listen = 10
tcp_state_number closing = 11
tcp_state_number new_syn_recv = 12

tcp_state_number_test : map tcp_state_number tcp_states ≡ up_from 1 12
unfolding tcp_state_number
tcp_state_number_test = refl
