-- ===== src/Bpf/Pinning/Persistence.antt =====
-- What the hooks of examples/object_pinning/ebpf/main.c leave in `map1` and print of it.
use ebpfmanager.Common.{
  ℕ, ◌≡◌, ◌≢◌, refl, ◌⊎◌, inl, inr, List, [], ◌∷◌, Option, none, some, arith, ◌∙◌,
}
use ebpfmanager.Bpf.{Kernel, KernelLaws, update-cases}
use ebpfmanager.Bpf.Pinning.{
  key, value, report, insert_missing, Hook, run_hook, run_hooks, kprobe_mkdir, kprobe_mkdirat,
  kretprobe_mkdir, kretprobe_mkdirat,
}

-- What may follow an entry: a value stays, and an absent one becomes 42 or stays absent.
abbrev pub Follows : Option ℕ → Option ℕ → Type 0
Follows (some d) o = o ≡ some d
Follows none o = (o ≡ none) ⊎ (o ≡ some value)

pub Follows-same : (o p : Option ℕ) → p ≡ o → Follows o p
Follows-same none p e = inl e
Follows-same (some d) p e = e

pub Follows-trans : (o p q : Option ℕ) → Follows o p → Follows p q → Follows o q
Follows-trans (some d) p q e f = ground arith
Follows-trans none none q e f = f
Follows-trans none (some c) q e f = ground arith

module _ (k : Kernel) (laws : KernelLaws k) (map1 : ℕ) where
  open laws use {lookup-printk, lookup-update_ne}

  abbrev pub cell : k.World → Option ℕ
  cell w = k.lookup w map1 key

  report-lookup :
      (t : ℕ) (o : Option ℕ) (m i : ℕ) (w : k.World)
      → k.lookup (report k map1 t o w).1 m i ≡ k.lookup w m i
  unfolding report
  report-lookup t none m i w = lookup-printk w _ _ m i
  report-lookup t (some d) m i w = lookup-printk w _ _ m i

  insert_missing-cell :
      (t : ℕ) (o : Option ℕ) (w : k.World)
      → cell w ≡ o
      → Follows o (cell (insert_missing k map1 t o w).1)
  unfolding insert_missing
  insert_missing-cell t none w e = elim (update-cases k laws (k.printk w _ _) map1 key value) [
    | inl new ↦ inr new
    | inr old ↦ inl (old ∙ lookup-printk w _ _ map1 key ∙ e)
  ]
  insert_missing-cell t (some d) w e = lookup-printk w _ _ map1 key ∙ e

  insert_missing-other :
      (t : ℕ) (o : Option ℕ) (m i : ℕ) (w : k.World)
      → (m ≢ map1) ⊎ (i ≢ key)
      → k.lookup (insert_missing k map1 t o w).1 m i ≡ k.lookup w m i
  unfolding insert_missing
  insert_missing-other t none m i w h =
      lookup-update_ne _ map1 key value m i h ∙ lookup-printk w _ _ m i
  insert_missing-other t (some d) m i w h = lookup-printk w _ _ m i

  run_hook-cell : (h : Hook) (w : k.World) → Follows (cell w) (cell (run_hook k map1 h w).1)
  unfolding run_hook
  run_hook-cell kprobe_mkdir w = Follows-same _ _ (report-lookup 1 (cell w) map1 key w)
  run_hook-cell kprobe_mkdirat w = Follows-same _ _ (report-lookup 2 (cell w) map1 key w)
  run_hook-cell kretprobe_mkdir w = insert_missing-cell 1 (cell w) w refl
  run_hook-cell kretprobe_mkdirat w = insert_missing-cell 2 (cell w) w refl

  run_hook-other :
      (h : Hook) (m i : ℕ) (w : k.World)
      → (m ≢ map1) ⊎ (i ≢ key)
      → k.lookup (run_hook k map1 h w).1 m i ≡ k.lookup w m i
  unfolding run_hook
  run_hook-other kprobe_mkdir m i w e = report-lookup 1 (cell w) m i w
  run_hook-other kprobe_mkdirat m i w e = report-lookup 2 (cell w) m i w
  run_hook-other kretprobe_mkdir m i w e = insert_missing-other 1 (cell w) m i w e
  run_hook-other kretprobe_mkdirat m i w e = insert_missing-other 2 (cell w) m i w e

  -- After any sequence of the four hooks the entry at key 1 of `map1` is what it was, if there was
  -- one, and is absent or 42 if there was none.
  pub run_hooks-Follows :
      (hs : List Hook) (w : k.World) → Follows (cell w) (cell (run_hooks k map1 hs w))
  unfolding run_hooks
  run_hooks-Follows [] w = Follows-same _ _ refl
  run_hooks-Follows (h ∷ hs) w =
      Follows-trans (cell w) (cell (run_hook k map1 h w).1) _ (run_hook-cell h w)
        (run_hooks-Follows hs (run_hook k map1 h w).1)

  -- No sequence of the hooks changes any entry other than that at key 1 of `map1`.
  pub run_hooks-other :
      (hs : List Hook) (m i : ℕ) (w : k.World)
      → (m ≢ map1) ⊎ (i ≢ key)
      → k.lookup (run_hooks k map1 hs w) m i ≡ k.lookup w m i
  unfolding run_hooks
  run_hooks-other [] m i w e = refl
  run_hooks-other (h ∷ hs) m i w e =
      run_hooks-other hs m i (run_hook k map1 h w).1 e ∙ run_hook-other h m i w e
