-- ===== src/Bpf.antt =====
-- The eBPF helpers that the example programs call (examples/*/ebpf/include/bpf_helpers.h). They are
-- implemented in the kernel, so a program takes them as a parameter: a `Kernel`, and the documented
-- behaviour of its helpers as `KernelLaws`.
pub mod Model
pub mod Hooks
pub mod Pinning
pub mod SharedCache
pub mod MapDefs
pub mod SelfTest
pub mod TailCall
pub mod Constants
pub mod Header
pub mod Files
pub mod TestData
use ebpfmanager.Common.{ℕ, ◌≡◌, ◌≢◌, ◌⊎◌, inl, inr, String, List, ◌∷◌, Option, some}
use ebpfmanager.Common.Int.{ℤ, pos, zero-cases}

-- What the helpers read and write, in one type of worlds. A map is named by the number that stands
-- for its address after relocation; keys and values are 32-bit words.
pub record Kernel : Type 1 where
  pub World : Type 0
  -- `bpf_map_lookup_elem`: the value behind the returned pointer, `none` for NULL
  pub lookup : World → ℕ → ℕ → Option ℕ
  -- `bpf_map_lookup_elem` on a map of maps: the inner map behind the returned pointer
  pub route : World → ℕ → ℕ → Option ℕ
  -- `bpf_map_update_elem` with `BPF_ANY`: 0, or a negative error
  pub update : World → ℕ → ℕ → ℕ → World × ℤ
  -- `bpf_trace_printk` and the lines that it has written, last first
  pub printk : World → String → List ℕ → World
  pub trace : World → List (String × List ℕ)
  -- `bpf_get_smp_processor_id`
  pub cpu : World → ℕ
  -- `bpf_perf_event_output` of one word, and the samples sent as map, cpu and word, last first
  pub output : World → ℕ → ℕ → ℕ → World × ℤ
  pub samples : World → List (ℕ × ℕ × ℕ)

pub record KernelLaws (k : Kernel) : Type 0 where
  pub lookup-printk :
      (w : k.World) (s : String) (xs : List ℕ) (m i : ℕ)
      → k.lookup (k.printk w s xs) m i ≡ k.lookup w m i
  pub route-printk :
      (w : k.World) (s : String) (xs : List ℕ) (m i : ℕ)
      → k.route (k.printk w s xs) m i ≡ k.route w m i
  pub trace-printk :
      (w : k.World) (s : String) (xs : List ℕ) → k.trace (k.printk w s xs) ≡ (s, xs) ∷ k.trace w
  pub samples-printk :
      (w : k.World) (s : String) (xs : List ℕ) → k.samples (k.printk w s xs) ≡ k.samples w
  pub cpu-printk : (w : k.World) (s : String) (xs : List ℕ) → k.cpu (k.printk w s xs) ≡ k.cpu w
  -- an update that returns 0 has written the value
  pub lookup-update_self :
      (w : k.World) (m i v : ℕ)
      → (k.update w m i v).1 ≡ pos 0
      → k.lookup (k.update w m i v).0 m i ≡ some v
  -- one that fails has written nothing
  pub lookup-update_failed :
      (w : k.World) (m i v : ℕ)
      → (k.update w m i v).1 ≢ pos 0
      → k.lookup (k.update w m i v).0 m i ≡ k.lookup w m i
  pub lookup-update_ne :
      (w : k.World) (m i v n j : ℕ)
      → (n ≢ m) ⊎ (j ≢ i)
      → k.lookup (k.update w m i v).0 n j ≡ k.lookup w n j
  pub route-update :
      (w : k.World) (m i v n j : ℕ) → k.route (k.update w m i v).0 n j ≡ k.route w n j
  pub trace-update : (w : k.World) (m i v : ℕ) → k.trace (k.update w m i v).0 ≡ k.trace w
  pub samples-output :
      (w : k.World) (m c v : ℕ)
      → (k.output w m c v).1 ≡ pos 0
      → k.samples (k.output w m c v).0 ≡ (m, c, v) ∷ k.samples w

-- A program is a function of the world; `x ← m` runs `m` and hands its result on.
infixl 5 ◌>>=◌ ◌>>◌
abbrev pub ◌>>=◌ : {W A B : Type 0} → (W → A × W) → (A → W → B × W) → W → B × W
◌>>=◌ m f w = f (m w).0 (m w).1

abbrev pub ◌>>◌ : {W B : Type 0} → (W → (Unit {0}) × W) → (W → B × W) → W → B × W
m >> k = m >>= λ _. k

abbrev pub return : {W A : Type 0} → A → W → A × W
return a w = (a, w)

module _ (k : Kernel) where
  abbrev pub Program : Type 0 → Type 0
  Program A = k.World → A × k.World

  abbrev pub bpf_printk : String → List ℕ → Program (Unit {0})
  bpf_printk s xs w = (tt, k.printk w s xs)

  abbrev pub bpf_map_lookup_elem : ℕ → ℕ → Program (Option ℕ)
  bpf_map_lookup_elem m i w = (k.lookup w m i, w)

  abbrev pub bpf_map_update_elem : ℕ → ℕ → ℕ → Program (Unit {0})
  bpf_map_update_elem m i v w = (tt, (k.update w m i v).0)

-- An update writes its value or leaves the entry as it was.
pub update-cases :
    (k : Kernel) (laws : KernelLaws k) (w : k.World) (m i v : ℕ)
    → (k.lookup (k.update w m i v).0 m i ≡ some v)
      ⊎ (k.lookup (k.update w m i v).0 m i ≡ k.lookup w m i)
update-cases k laws w m i v = elim (zero-cases (k.update w m i v).1) [
  | inl e ↦ inl (laws.lookup-update_self w m i v e)
  | inr n ↦ inr (laws.lookup-update_failed w m i v n)
]
