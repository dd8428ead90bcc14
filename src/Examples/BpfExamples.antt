-- ===== src/Examples/BpfExamples.antt =====
-- The programs of examples/*/ebpf run on the concrete kernel of `Bpf.Model`.
use ebpfmanager.Common.{ℕ, Option, ◌≡◌, refl, [], ◌∷◌, none, some, arith, if◌then◌else◌, ◌==◌, ◌&&◌}
use ebpfmanager.Bpf.SharedCache.{kprobe_vfs_mkdir, kretprobe_vfs_mkdir, contains_1, contains_2}
use ebpfmanager.Bpf.SharedCache.{kretprobe_vfs_mkdir-trace}
use ebpfmanager.Bpf.SelfTest.{MyFuncTestData}
use ebpfmanager.Bpf.TailCall
use ebpfmanager.Bpf.TailCall.{Classifier, one, two, three, Accepts, run-Accepts, run_routed}
use ebpfmanager.Bpf.Model.{Memory, memory, memory_laws, blank}
use ebpfmanager.Bpf.Pinning.{run_hooks, kprobe_mkdir, kretprobe_mkdir, kretprobe_mkdirat}
use ebpfmanager.Bpf.Pinning.Persistence.{Follows, run_hooks-Follows}
use ebpfmanager.Bpf.Pinning.Interleaving.{run, run-Follows, at_lookup}

run_hooks_inserts :
    (run_hooks memory 0 (kretprobe_mkdir ∷ kprobe_mkdir ∷ []) blank).cells 0 1 ≡ some 42
unfolding run_hooks
run_hooks_inserts = refl

run_hooks-Follows_example :
    Follows none ((run_hooks memory 0 (kretprobe_mkdir ∷ kretprobe_mkdirat ∷ []) blank).cells 0 1)
run_hooks-Follows_example =
    run_hooks-Follows memory memory_laws 0 (kretprobe_mkdir ∷ kretprobe_mkdirat ∷ []) blank

run-Follows_example : Follows none (
    (run memory 0
        (7 ∷ 8 ∷ 7 ∷ 8 ∷ [])
        (record { world = blank; place = λ i. at_lookup })).world.cells
      0 1)
run-Follows_example =
    run-Follows memory memory_laws 0 (7 ∷ 8 ∷ 7 ∷ 8 ∷ [])
      (record { world = blank; place = λ i. at_lookup }) (λ i. refl)

-- Map 7 is behind key 1 of the router 5.
abbrev routed_world : Memory
routed_world = record blank { routes = λ m i. if m == 5 && i == 1 then some 7 else none }

kretprobe_vfs_mkdir-trace_example :
    let after = (kprobe_vfs_mkdir memory 2 5 routed_world).1 in
    (kretprobe_vfs_mkdir memory 2 7 after).1.lines
    ≡ (contains_2, 500 ∷ []) ∷ (contains_1, 42 ∷ []) ∷ after.lines
kretprobe_vfs_mkdir-trace_example =
    kretprobe_vfs_mkdir-trace memory memory_laws 2 5 7 routed_world refl (omega arith) (λ w v. refl)
      (λ w v. refl)

abbrev test_data : Memory → ℕ → Option MyFuncTestData
test_data w key = if key == 1 then some (record { input = 21; output = 42 }) else none

abbrev tail_calls : ℕ → Option Classifier
tail_calls key = if key == 1 then some two else if key == 2 then some three else none

run-Accepts_example : Accepts 35 (TailCall.run tail_calls 33 one [])
run-Accepts_example = run-Accepts tail_calls 33 one []
