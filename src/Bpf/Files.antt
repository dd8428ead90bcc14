-- ===== src/Bpf/Files.antt =====
-- The program files: the symbols that each puts into which section of its ELF file, with its
-- license and its version.
use ebpfmanager.Common.{
  ℕ, ◌≡◌, refl, ◌&&◌, Bool, true, false, String, str_eq, List, [], ◌∷◌, any, not, Option, none,
  some,
}

pub record Placed : Type 0 where
  pub section : String
  pub symbol : String

pub record ProgramFile : Type 0 where
  pub license : String
  pub version : Option ℕ
  pub placed : List Placed

abbrev sec : String → String → Placed
sec section symbol = record { section = section; symbol = symbol }

abbrev gpl : List Placed → ProgramFile
gpl placed = record { license = "GPL"; version = some 0xFFFFFFFE; placed = placed }

abbrev pub activated_probes_file : ProgramFile
activated_probes_file = gpl (
    sec "kprobe/vfs_mkdir" "kprobe_vfs_mkdir"
    ∷ sec "kprobe/utimes_common" "kprobe_utimes_common"
    ∷ sec "kprobe/vfs_opennnnnn" "kprobe_open"
    ∷ sec "kprobe/exclude" "kprobe_exclude"
    ∷ [])

abbrev pub clone_vs_add_hook_file : ProgramFile
clone_vs_add_hook_file = gpl (
    sec "maps/my_constants" "my_constants"
    ∷ sec "kprobe/vfs_mkdir" "kprobe_vfs_mkdir"
    ∷ sec "kprobe/vfs_rmdir" "kprobe_vfs_rmdir"
    ∷ sec "kretprobe/mkdir" "kretpobe_mkdir"
    ∷ [])

-- examples/map_rewrite_vs_map_router/ebpf/prog1.c
abbrev pub map_rewrite_vs_map_router_prog1_file : ProgramFile
map_rewrite_vs_map_router_prog1_file = gpl (
    sec "maps/shared_cache1" "shared_cache1"
    ∷ sec "maps/shared_cache2" "shared_cache2"
    ∷ sec "kretprobe/vfs_mkdir" "kretprobe_vfs_mkdir"
    ∷ [])

-- examples/map_rewrite_vs_map_router/ebpf/prog2.c
abbrev pub map_rewrite_vs_map_router_prog2_file : ProgramFile
map_rewrite_vs_map_router_prog2_file = gpl (
    sec "maps/shared_cache1" "shared_cache1"
    ∷ sec "maps/maps_router" "routed_cache"
    ∷ sec "maps/maps_router" "maps_router"
    ∷ sec "kprobe/vfs_mkdir" "kprobe_vfs_mkdir"
    ∷ [])

abbrev pub mapspec_editor_file : ProgramFile
mapspec_editor_file = gpl (sec "maps/cache" "cache" ∷ [])

abbrev pub object_pinning_file : ProgramFile
object_pinning_file = gpl (
    sec "maps/map1" "map1"
    ∷ sec "maps/map2" "map2"
    ∷ sec "kprobe/mkdir" "kprobe_mkdir"
    ∷ sec "kprobe/mkdirat" "kprobe_mkdirat"
    ∷ sec "kretprobe/mkdir" "kretprobe_mkdir"
    ∷ sec "kretprobe/mkdirat" "kretprobe_mkdirat"
    ∷ [])

-- examples/program_router/ebpf/prog1.c
abbrev pub program_router_prog1_file : ProgramFile
program_router_prog1_file = gpl (
    sec "maps/tc_prog_array" "tc_prog_array"
    ∷ sec "classifier/one" "classifier_one"
    ∷ sec "classifier/two" "classifier_two"
    ∷ [])

-- examples/program_router/ebpf/prog2.c
abbrev pub program_router_prog2_file : ProgramFile
program_router_prog2_file = gpl (sec "classifier/three" "classifier_three" ∷ [])

abbrev pub cgroup_file : ProgramFile
cgroup_file = gpl (sec "cgroup_skb/egress" "cgroup_egress_func" ∷ [])

abbrev pub kprobe_file : ProgramFile
kprobe_file = gpl (
    sec "kprobe/vfs_mkdir" "kprobe_vfs_mkdir"
    ∷ sec "kprobe/utimes_common" "kprobe_utimes_common"
    ∷ sec "kretprobe/mkdirat" "kretpobe_unlinkat"
    ∷ [])

abbrev pub rawtracepoint_file : ProgramFile
rawtracepoint_file = gpl (sec "raw_tracepoint/sys_enter" "raw_tracepoint_sys_enter" ∷ [])

abbrev pub socket_file : ProgramFile
socket_file = gpl (sec "socket/sock_filter" "socket_sock_filter" ∷ [])

abbrev pub sockops_file : ProgramFile
sockops_file = gpl (sec "sockops" "bpf_sockops" ∷ [])

abbrev pub tc_file : ProgramFile
tc_file =
    gpl
      (sec "classifier/egress" "egress_cls_func" ∷ sec "classifier/ingress" "ingress_cls_func" ∷ [])

abbrev pub tracepoint_file : ProgramFile
tracepoint_file =
    gpl (sec "tracepoint/syscalls/sys_enter_mkdirat" "tracepoint_sys_enter_mkdirat" ∷ [])

abbrev pub uprobe_file : ProgramFile
uprobe_file = gpl (sec "uprobe/readline" "uprobe_readline" ∷ [])

abbrev pub xdp_file : ProgramFile
xdp_file = gpl (sec "xdp/ingress" "egress_cls_func" ∷ [])

abbrev pub tests_and_benchmarks_file : ProgramFile
tests_and_benchmarks_file =
    gpl (
      sec "maps/my_func_test_data" "my_func_test_data" ∷ sec "xdp/my_func_test" "my_func_test" ∷ [])

-- testdata/rewrite.c
abbrev pub rewrite_file : ProgramFile
rewrite_file = record {
  license = "MIT";
  version = none;
  placed = sec "maps" "map_val" ∷ sec "socket" "rewrite" ∷ sec "socket/map" "rewrite_map" ∷ [];
}

abbrev pub program_files : List ProgramFile
program_files =
    activated_probes_file ∷ clone_vs_add_hook_file ∷ map_rewrite_vs_map_router_prog1_file
    ∷ map_rewrite_vs_map_router_prog2_file ∷ mapspec_editor_file ∷ object_pinning_file
    ∷ program_router_prog1_file ∷ program_router_prog2_file ∷ cgroup_file ∷ kprobe_file
    ∷ rawtracepoint_file ∷ socket_file ∷ sockops_file ∷ tc_file ∷ tracepoint_file ∷ uprobe_file
    ∷ xdp_file ∷ tests_and_benchmarks_file ∷ rewrite_file ∷ []

abbrev pub symbols_differ : List Placed → Bool
symbols_differ [] = true
symbols_differ (p ∷ ps) = not (any (λ q. str_eq q.symbol p.symbol) ps) && symbols_differ ps

-- In no file do two programs or maps have one symbol.
symbols_test : any (λ f. not (symbols_differ f.placed)) program_files ≡ false
symbols_test = refl
