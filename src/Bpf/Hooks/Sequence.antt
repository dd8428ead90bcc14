-- ===== src/Bpf/Hooks/Sequence.antt =====
-- All the programs that print and accept, run in any order.
use ebpfmanager.Common.{ℕ, ◌+◌, ◌≡◌, refl, List, [], ◌∷◌, String, arith, length, ◌∙◌, ap}
use ebpfmanager.Common.Int.{ℤ, pos}
use ebpfmanager.Bpf.{Kernel, KernelLaws, Program}
use ebpfmanager.Bpf.Hooks.Kprobe
use ebpfmanager.Bpf.Hooks.Activated
use ebpfmanager.Bpf.Hooks.Network
use ebpfmanager.Bpf.Hooks.Tracing

pub data Hook : Type 0 where
  vfs_mkdir utimes_common mkdirat_return : Hook
  activated_vfs_mkdir activated_utimes_common activated_open activated_exclude : Hook
  xdp_ingress tc_egress tc_ingress sock_filter cgroup_egress : Hook
  sockops : ℕ → Hook
  raw_sys_enter tracepoint_mkdirat readline : Hook

module _ (k : Kernel) where
  pub run_hook : Hook → Program k ℤ
  unfolding Kprobe.kprobe_vfs_mkdir Kprobe.kprobe_utimes_common Kprobe.kretpobe_unlinkat
      Activated.kprobe_vfs_mkdir Activated.kprobe_utimes_common Activated.kprobe_open
      Activated.kprobe_exclude Network.xdp_ingress Network.egress_cls_func Network.ingress_cls_func
      Network.socket_sock_filter Network.cgroup_egress_func Network.bpf_sockops
      Tracing.raw_tracepoint_sys_enter Tracing.tracepoint_sys_enter_mkdirat Tracing.uprobe_readline
  run_hook vfs_mkdir = Kprobe.kprobe_vfs_mkdir k
  run_hook utimes_common = Kprobe.kprobe_utimes_common k
  run_hook mkdirat_return = Kprobe.kretpobe_unlinkat k
  run_hook activated_vfs_mkdir = Activated.kprobe_vfs_mkdir k
  run_hook activated_utimes_common = Activated.kprobe_utimes_common k
  run_hook activated_open = Activated.kprobe_open k
  run_hook activated_exclude = Activated.kprobe_exclude k
  run_hook xdp_ingress = Network.xdp_ingress k
  run_hook tc_egress = Network.egress_cls_func k
  run_hook tc_ingress = Network.ingress_cls_func k
  run_hook sock_filter = Network.socket_sock_filter k
  run_hook cgroup_egress = Network.cgroup_egress_func k
  run_hook (sockops op) = Network.bpf_sockops k op
  run_hook raw_sys_enter = Tracing.raw_tracepoint_sys_enter k
  run_hook tracepoint_mkdirat = Tracing.tracepoint_sys_enter_mkdirat k
  run_hook readline = Tracing.uprobe_readline k

  pub run_hooks : List Hook → k.World → k.World
  run_hooks [] w = w
  run_hooks (h ∷ hs) w = run_hooks hs (run_hook h w).1

-- What the programs return: `XDP_PASS`, 1 for a cgroup, and 0.
abbrev pub pass_code : Hook → ℤ
pass_code xdp_ingress = pos 2
pass_code cgroup_egress = pos 1
pass_code _ = pos 0

module _ (k : Kernel) (laws : KernelLaws k) where
  open laws use {lookup-printk, trace-printk}

  -- A program prints one line and writes to no map.
  abbrev PrintsOne : k.World → k.World → Type 0
  PrintsOne w v =
      (length (k.trace v) ≡ length (k.trace w) + 1) × ((m i : ℕ) → k.lookup v m i ≡ k.lookup w m i)

  printk-PrintsOne : (w : k.World) (s : String) (xs : List ℕ) → PrintsOne w (k.printk w s xs)
  printk-PrintsOne w s xs = (omega (arith, ap length (trace-printk w s xs)), lookup-printk w s xs)

  run_hook-PrintsOne :
      (h : Hook) (w : k.World) → PrintsOne w (run_hook k h w).1 × ((run_hook k h w).0 ≡ pass_code h)
  unfolding run_hook
  run_hook-PrintsOne vfs_mkdir w = (printk-PrintsOne w _ _, refl)
  run_hook-PrintsOne _ w = (printk-PrintsOne w _ _, refl)

  -- The XDP program returns 2, the cgroup program 1 and each other program 0; and in any sequence they
  -- print one line for each event and change no entry of any map.
  pub run_hooks-trace :
      (hs : List Hook) (w : k.World)
      → ((h : Hook) → (run_hook k h w).0 ≡ pass_code h)
        × (length (k.trace (run_hooks k hs w)) ≡ length (k.trace w) + length hs)
        × ((m i : ℕ) → k.lookup (run_hooks k hs w) m i ≡ k.lookup w m i)
  unfolding run_hooks
  run_hooks-trace [] w = ((λ h. (run_hook-PrintsOne h w).1), omega arith, λ m i. refl)
  run_hooks-trace (h ∷ hs) w =
      let (one, _) = run_hook-PrintsOne h w in
      let (_, count, same) = run_hooks-trace hs (run_hook k h w).1 in
      ((λ g. (run_hook-PrintsOne g w).1), omega (arith, one.0, count), λ m i. same m i ∙ one.1 m i)
