-- ===== src/Lib.antt =====
-- A verification library for ebpfmanager: the eBPF programs of its examples, and the Go library that
-- loads, edits, attaches and stops such programs.
--
-- The parts and how they interact. A manager (manager.go) holds probes (probe.go), maps (map.go) and
-- perf maps (perf.go). It checks and matches them with an ELF file, edits constants (editor.go) and
-- maps, and decides by selectors (selectors.go) which probes are enabled and whether they all run.
-- The programs (examples/*/ebpf, testdata/rewrite.c) see only what the kernel gives them: maps,
-- tail calls, the trace, and the constants that the manager wrote into their instructions.
--
-- The programs, in C:
--   Bpf            the kernel as a record of helpers and of what bpf_helpers.h and the kernel's
--                  documentation say of them (KernelLaws); Bpf/Model is a kernel that meets it
--   Bpf/Header     examples/programs/sockops/ebpf/include/bpf.h (each example has the same file) and
--                  bpf_helpers.h of object_pinning: the instruction format, opcodes, the numbers of
--                  helpers, commands and types, the descriptions of helpers (Descriptions), the structs,
--                  the flags, what the comment says of programs on cgroups, and the registers of the
--                  arguments
--   Bpf/MapDefs    bpf_map.h and the map definitions of all programs
--   Bpf/Pinning    examples/object_pinning/ebpf/main.c; its children run the hooks in sequence and,
--                  cut between lookup and update, interleaved by a schedule
--   Bpf/SharedCache   examples/map_rewrite_vs_map_router/ebpf/prog1.c and prog2.c
--   Bpf/TailCall   examples/program_router/ebpf/prog1.c and prog2.c
--   Bpf/Constants  examples/clone_vs_add_hook/ebpf/main.c
--   Bpf/SelfTest   examples/tests_and_benchmarks/ebpf/main.c
--   Bpf/Hooks      examples/programs/*/ebpf/main.c and examples/activated_probes/ebpf/main.c
--   Bpf/Files      the sections, license and version of every program file
--   Bpf/TestData   testdata/common.h and the map of testdata/rewrite.c
--   Editor/Constants  the programs of testdata/rewrite.c, with the editor that writes its constant
-- The library, in Go:
--   Editor         editor.go, and editConstant of manager.go
--   State, Errors  the states and ConcatErrors of utils.go, and err.go
--   Names          GenerateEventName and generateTCFilterName of utils.go
--   Symbols        FindFilterFunction, GetSyscallFnNameWithSymFile and SanitizeUprobeAddresses of
--                  utils.go
--   System         what the library asks of the kernel, the files and the eBPF library
--   Selectors      selectors.go, and the selector of one probe in manager.go
--   Probe          probe.go: Init has Init and Copy, Kinds the attaching by type of program, Detach has
--                  Detach and Stop, Attach has Attach; Retrying is about its attempts, Phases has
--                  the automaton of the states of a probe and the calls as its runs, and Traffic
--                  attachTCCLS and detachTCCLS with the netlink cache of manager.go
--   Map, Perf      map.go and perf.go
--   Manager        manager.go: sanityCheck, activateProbes, editMaps; Init has matchSpecs and
--                  InitWithOptions up to its last Unlock; Run has Start and Stop, Routes GetMap,
--                  GetProgram and the updates of map and tail call routes, Hooks AddHook, CloneProgram and
--                  DetachHook, Updating UpdateActivatedProbes, Specs GetMapSpec and the editors of
--                  specs, NewMaps NewMap, CloneMap, NewPerfRing and ClonePerfRing, and Loading
--                  loadPinnedObjects and loadCollection
-- Common holds what these share, and Examples the tests.
--
-- How they are modelled. A C program is a function of the kernel's world to its result and the world
-- after it; an int is an integer, a u32 a number below 2 ^ 32 with its wrap-around written out. A
-- method of the library takes its object and the world and returns the error, the object and the
-- world; a pointer to a map, a program or a link is a number, and nil is none. A text is a String, or
-- its code points where its length matters.
--
-- Bounds. The tail calls that the kernel still allows are the fuel of TailCall.run; where they run
-- out a call fails, as in the kernel, so that no fuel is too little. retry.Do is a parameter; IsRetry says
-- what its documentation promises for a positive number of attempts. ReferenceOffsets, the copy of
-- a program spec, and the order in which Go loops over a map are parameters too. All else is
-- structural recursion.
--
-- Not modelled: DumpMaps, which asks functions of its user for texts; InitWithOptions as one function
-- with the loading that ends it; buildTCClsActQdisc and buildTCFilter, which nothing calls; the
-- reading of ELF files and kallsyms, system calls and the commands of the examples, which are input
-- and output; the contents of maps that a spec is given, and the timing of goroutines. A
-- probe has the type, section and attach type of its program spec beside the spec, so that a nil spec, on
-- which attach and detach panic, is outside the model.
pub mod Common
pub mod Bpf
pub mod Editor
pub mod State
pub mod Errors
pub mod Probe
pub mod Selectors
pub mod System
pub mod Names
pub mod Symbols
pub mod Map
pub mod Perf
pub mod Manager
pub mod Examples
