-- ===== src/Bpf/Hooks/Network.antt =====
-- examples/programs/{xdp, tc, socket, cgroup, sockops}/ebpf/main.c
use ebpfmanager.Common.{ℕ, [], ◌∷◌}
use ebpfmanager.Common.Int.{ℤ, pos}
use ebpfmanager.Bpf.{Kernel, Program, bpf_printk, return, ◌>>◌}

-- `enum xdp_action` of bpf.h
pub data XdpAction : Type 0 where
  xdp_aborted xdp_drop xdp_pass xdp_tx xdp_redirect : XdpAction

abbrev pub xdp_code : XdpAction → ℕ
xdp_code xdp_aborted = 0
xdp_code xdp_drop = 1
xdp_code xdp_pass = 2
xdp_code xdp_tx = 3
xdp_code xdp_redirect = 4

-- `TC_ACT_OK` of the kernel's pkt_cls.h
abbrev pub tc_act_ok : ℕ
tc_act_ok = 0

module _ (k : Kernel) where
  unfoldable pub xdp_ingress : Program k ℤ
  xdp_ingress = do bpf_printk k "new packet captured (XDP)\n" []; return (pos (xdp_code xdp_pass))

  unfoldable pub egress_cls_func : Program k ℤ
  egress_cls_func = do
    bpf_printk k "new packet captured on egress (TC)\n" []
    return (pos tc_act_ok)

  unfoldable pub ingress_cls_func : Program k ℤ
  ingress_cls_func = do
    bpf_printk k "new packet captured on ingress (TC)\n" []
    return (pos tc_act_ok)

  unfoldable pub socket_sock_filter : Program k ℤ
  socket_sock_filter = do bpf_printk k "new packet received\n" []; return (pos 0)

  unfoldable pub cgroup_egress_func : Program k ℤ
  cgroup_egress_func = do bpf_printk k "new packet captured on cgroup egress\n" []; return (pos 1)

  -- The `switch` has a `default` only.
  unfoldable pub bpf_sockops : ℕ → Program k ℤ
  bpf_sockops op = do bpf_printk k "eBPF sockops : %d \n" (op ∷ []); return (pos 0)
