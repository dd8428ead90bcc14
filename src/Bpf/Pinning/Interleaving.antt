-- ===== src/Bpf/Pinning/Interleaving.antt =====
-- `mkdir_ret` of examples/object_pinning/ebpf/main.c run by many threads at once. A lookup and an
-- update are atomic, and the scheduler may switch threads between them.
use ebpfmanager.Common.{
  ℕ, ◌≡◌, ◌⊎◌, refl, inl, inr, List, [], ◌∷◌, Option, none, some, arith, sym, ◌∙◌, ◌==◌,
  if◌then◌else◌, subst,
}
use ebpfmanager.Bpf.{
  Kernel, KernelLaws, Program, bpf_printk, bpf_map_lookup_elem, bpf_map_update_elem, return, ◌>>=◌,
  ◌>>◌, update-cases,
}
use ebpfmanager.Bpf.Pinning.{key, value, mkdir_ret}
use ebpfmanager.Bpf.Pinning.Persistence.{Follows, Follows-same, Follows-trans}

-- Where a thread stands in `mkdir_ret`.
pub data Place : Type 0 where
  at_lookup at_update finished : Place

pub record Threads (W : Type 0) : Type 0 where
  pub world : W
  pub place : ℕ → Place

module _ (k : Kernel) (map1 : ℕ) where
  branch : ℕ → Option ℕ → Program k Place
  branch t none = do
    bpf_printk k "(mkdirat ret %d) inserting %d at %d in map1\n" (t ∷ value ∷ key ∷ [])
    return at_update
  branch t (some d) = do
    bpf_printk k "(mkdirat ret %d) data already there, nothing to do\n" (t ∷ [])
    return finished

  -- One uninterrupted piece of `mkdir_ret`.
  pub piece : ℕ → Place → Program k Place
  unfolding branch
  piece t at_lookup = do d ← bpf_map_lookup_elem k map1 key; branch t d
  piece t at_update = do bpf_map_update_elem k map1 key value; return finished
  piece t finished = return finished

  pub turn : ℕ → Threads k.World → Threads k.World
  unfolding piece
  turn t c =
      let (p, w) = piece t (c.place t) c.world in
      record { world = w; place = λ i. if i == t then p else c.place i }

  -- The threads move in the order of the schedule.
  pub run : List ℕ → Threads k.World → Threads k.World
  run [] c = c
  run (t ∷ ts) c = run ts (turn t c)

  branch_whole :
      (t : ℕ) (o : Option ℕ) (w : k.World)
      → k.lookup w map1 key ≡ o
      → (piece t (branch t o w).0 (branch t o w).1).1 ≡ (mkdir_ret k map1 t w).1
  unfolding branch piece mkdir_ret
  branch_whole t none w e = rw e refl
  branch_whole t (some d) w e = rw e refl

  -- A thread that is not interrupted does what `mkdir_ret` does.
  pub piece-whole :
      (t : ℕ) (w : k.World) → ((piece t at_lookup >>= piece t) w).1 ≡ (mkdir_ret k map1 t w).1
  unfolding piece
  piece-whole t w = branch_whole t (k.lookup w map1 key) w refl

module _ (k : Kernel) (laws : KernelLaws k) (map1 : ℕ) where
  open laws use {lookup-printk}

  -- A thread writes only if the entry was absent at the start.
  abbrev Pending : Option ℕ → Place → Type 0
  Pending o at_update = o ≡ none
  Pending o _ = Unit {0}

  branch-Follows :
      (t : ℕ) (o e : Option ℕ) (w : k.World)
      → k.lookup w map1 key ≡ e
      → Follows o e
      → Follows o (k.lookup (branch k map1 t e w).1 map1 key) × Pending o (branch k map1 t e w).0
  unfolding branch
  branch-Follows t none none w h f =
      (Follows-trans none none _ f (Follows-same none _ (lookup-printk w _ _ map1 key ∙ h)), refl)
  branch-Follows t (some d) none w h f = absurd (cc)
  branch-Follows t o (some c) w h f = (
    Follows-trans o (some c) _ f (Follows-same (some c) _ (lookup-printk w _ _ map1 key ∙ h)),
    tt,
  )

  write-Follows :
      (o e c : Option ℕ) → o ≡ none → Follows o e → (c ≡ some value) ⊎ (c ≡ e) → Follows o c
  write-Follows none e c h f (inl new) = inr new
  write-Follows none e c h f (inr old) = Follows-trans none e c f (Follows-same e c old)
  write-Follows (some d) e c h f g = absurd (cc)

  piece-Follows :
      (t : ℕ) (o : Option ℕ) (p : Place) (w : k.World)
      → Pending o p
      → Follows o (k.lookup w map1 key)
      → Follows o (k.lookup (piece k map1 t p w).1 map1 key) × Pending o (piece k map1 t p w).0
  unfolding piece
  piece-Follows t o at_lookup w h f = branch-Follows t o (k.lookup w map1 key) w refl f
  piece-Follows t o at_update w h f =
      (write-Follows o (k.lookup w map1 key) _ h f (update-cases k laws w map1 key value), tt)
  piece-Follows t o finished w h f = (f, tt)

  run-Inv :
      (o : Option ℕ) (ts : List ℕ) (c : Threads k.World)
      → ((i : ℕ) → Pending o (c.place i))
      → Follows o (k.lookup c.world map1 key)
      → Follows o (k.lookup (run k map1 ts c).world map1 key)
  unfolding run turn
  run-Inv o [] c h f = f
  run-Inv o (t ∷ ts) c h f =
      let (f', p) = piece-Follows t o (c.place t) c.world (h t) f in
      run-Inv o ts (turn k map1 t c) (λ i. ground (arith, h i, p)) f'

  -- However the scheduler interleaves any number of threads that start in `mkdir_ret`, an entry
  -- that was in `map1` at key 1 stays, and an absent one stays absent or becomes 42.
  pub run-Follows :
      (ts : List ℕ) (c : Threads k.World)
      → ((i : ℕ) → c.place i ≡ at_lookup)
      → Follows (k.lookup c.world map1 key) (k.lookup (run k map1 ts c).world map1 key)
  run-Follows ts c h =
      run-Inv _ ts c (λ i. subst (Pending _) (sym (h i)) tt) (Follows-same _ _ refl)
