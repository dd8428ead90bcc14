-- ===== src/Bpf/SharedCache.antt =====
-- examples/map_rewrite_vs_map_router/ebpf: prog2 writes into the maps that prog1 reads, one of them
-- given to it by a map editor and the other through the map of maps `maps_router`.
use ebpfmanager.Common.{ℕ, ◌≡◌, ◌≢◌, refl, inl, [], ◌∷◌, Option, none, some, ◌∙◌, String, ap}
use ebpfmanager.Common.Int.{ℤ, pos}
use ebpfmanager.Bpf.{
  Kernel, KernelLaws, Program, bpf_printk, bpf_map_lookup_elem, bpf_map_update_elem, return, ◌>>=◌,
  ◌>>◌,
}

abbrev pub contains_1 : String
contains_1 = "(prog1) shared_cache1 contains %u\n"

abbrev pub contains_2 : String
contains_2 = "(prog1) shared_cache2 contains %u\n"

abbrev writing_42 : String
writing_42 = "(prog2) writing 42 in shared_cache1 at key 1 ...\n"

abbrev writing_500 : String
writing_500 = "(prog2) writing 500 in router_map at key 1 ...\n"

module _ (k : Kernel) where
  -- the two branches of prog1 on a looked-up pointer
  show : String → String → Option ℕ → Program k (Unit {0})
  show missing found none = bpf_printk k missing []
  show missing found (some v) = bpf_printk k found (v ∷ [])

  unfoldable pub kretprobe_vfs_mkdir : ℕ → ℕ → Program k ℤ
  unfolding show
  kretprobe_vfs_mkdir shared_cache1 shared_cache2 = do
    value ← bpf_map_lookup_elem k shared_cache1 1
    show "(prog1) shared_cache1 is empty\n" contains_1 value
    value2 ← bpf_map_lookup_elem k shared_cache2 1
    show "(prog1) shared_cache2 is empty\n" contains_2 value2
    return (pos 0)

  bpf_map_lookup_inner : ℕ → ℕ → Program k (Option ℕ)
  bpf_map_lookup_inner m i w = (k.route w m i, w)

  update_routed : Option ℕ → Program k ℤ
  update_routed none = return (pos 0)
  update_routed (some routed_map) = do
    bpf_printk k writing_500 []
    bpf_map_update_elem k routed_map 1 500
    return (pos 0)

  unfoldable pub kprobe_vfs_mkdir : ℕ → ℕ → Program k ℤ
  unfolding bpf_map_lookup_inner update_routed
  kprobe_vfs_mkdir shared_cache1 maps_router = do
    bpf_printk k writing_42 []
    bpf_map_update_elem k shared_cache1 1 42
    routed_map ← bpf_map_lookup_inner maps_router 1
    update_routed routed_map

module _ (k : Kernel) (laws : KernelLaws k) where
  open laws use {
    lookup-printk, route-printk, lookup-update_self, lookup-update_ne, route-update, trace-printk,
    trace-update,
  }

  -- An update of this map at key 1 finds room.
  abbrev pub HasRoom : ℕ → Type 0
  HasRoom m = (w : k.World) (v : ℕ) → (k.update w m 1 v).1 ≡ pos 0

  module _ (c1 router r : ℕ) (w : k.World) (routed : k.route w router 1 ≡ some r) where
    first : k.World
    first = (k.update (k.printk w writing_42 []) c1 1 42).0

    second : k.World
    unfolding first
    second = (k.update (k.printk first writing_500 []) r 1 500).0

    kprobe_vfs_mkdir-second : kprobe_vfs_mkdir k c1 router w ≡ (pos 0, second)
    unfolding kprobe_vfs_mkdir second
    kprobe_vfs_mkdir-second =
        ap (λ o. update_routed k o first)
          (route-update _ c1 1 42 router 1 ∙ route-printk w writing_42 [] router 1 ∙ routed)

    second-routed : HasRoom r → k.lookup second r 1 ≡ some 500
    unfolding second
    second-routed room = lookup-update_self _ r 1 500 (room _ 500)

    second-shared : c1 ≢ r → HasRoom c1 → k.lookup second c1 1 ≡ some 42
    unfolding second
    second-shared ne room =
        lookup-update_ne _ r 1 500 c1 1 (inl ne)
        ∙ lookup-printk first writing_500 [] c1 1
        ∙ lookup-update_self _ c1 1 42 (room _ 42)

    -- Where `maps_router` points at another map than the shared cache and both have room, prog2's
    -- hook leaves 42 at key 1 of the cache and 500 at key 1 of the routed map.
    pub kprobe_vfs_mkdir-lookup :
        c1 ≢ r
        → HasRoom c1
        → HasRoom r
        → let after = (kprobe_vfs_mkdir k c1 router w).1 in
          (k.lookup after c1 1 ≡ some 42) × (k.lookup after r 1 ≡ some 500)
    kprobe_vfs_mkdir-lookup ne room1 room2 =
        rw kprobe_vfs_mkdir-second (second-shared ne room1, second-routed room2)

    -- prog1's hook then prints 42 and 500, if the routed map is its second cache: two managers share
    -- a map by a map editor and another by the map router.
    pub kretprobe_vfs_mkdir-trace :
        c1 ≢ r
        → HasRoom c1
        → HasRoom r
        → let after = (kprobe_vfs_mkdir k c1 router w).1 in
          k.trace (kretprobe_vfs_mkdir k c1 r after).1
          ≡ (contains_2, 500 ∷ []) ∷ (contains_1, 42 ∷ []) ∷ k.trace after
    unfolding kretprobe_vfs_mkdir
    kretprobe_vfs_mkdir-trace ne room1 room2 =
        let (e1, e2) = kprobe_vfs_mkdir-lookup ne room1 room2 in
        rw (e1, show) (rw lookup-printk (rw (e2, show) (rw (trace-printk, trace-printk) refl)))
