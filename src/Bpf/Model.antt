-- ===== src/Bpf/Model.antt =====
-- A concrete kernel that meets the laws: maps as functions, updates that always succeed.
use ebpfmanager.Common.{
  ℕ, ◌≡◌, refl, ◌≢◌, ◌⊎◌, String, List, [], ◌∷◌, Option, none, some, ◌&&◌, arith, ◌==◌,
  if◌then◌else◌,
}
use ebpfmanager.Common.Int.{pos}
use ebpfmanager.Bpf.{Kernel, KernelLaws}

pub record Memory : Type 0 where
  pub cells : ℕ → ℕ → Option ℕ
  pub routes : ℕ → ℕ → Option ℕ
  pub lines : List (String × List ℕ)
  pub sent : List (ℕ × ℕ × ℕ)

abbrev pub memory : Kernel
memory = record {
  World = Memory;
  lookup = λ w m i. w.cells m i;
  route = λ w m i. w.routes m i;
  update = λ w m i v.
      (record w { cells = λ n j. if m == n && i == j then some v else w.cells n j }, pos 0);
  printk = λ w s xs. record w { lines = (s, xs) ∷ w.lines };
  trace = λ w. w.lines;
  cpu = λ w. 3;
  output = λ w m c v. (record w { sent = (m, c, v) ∷ w.sent }, pos 0);
  samples = λ w. w.sent;
}

update_self : (w : Memory) (m i v : ℕ) → (memory.update w m i v).0.cells m i ≡ some v
update_self w m i v = ground arith

update_ne :
    (w : Memory) (m i v n j : ℕ)
    → (n ≢ m) ⊎ (j ≢ i)
    → (memory.update w m i v).0.cells n j ≡ w.cells n j
update_ne w m i v n j h = ground arith

pub memory_laws : KernelLaws memory
memory_laws = record {
  lookup-printk = λ w s xs m i. refl;
  route-printk = λ w s xs m i. refl;
  trace-printk = λ w s xs. refl;
  samples-printk = λ w s xs. refl;
  cpu-printk = λ w s xs. refl;
  lookup-update_self = λ w m i v h. update_self w m i v;
  lookup-update_failed = λ w m i v h. absurd (h refl);
  lookup-update_ne = update_ne;
  route-update = λ w m i v n j. refl;
  trace-update = λ w m i v. refl;
  samples-output = λ w m c v h. refl;
}

-- A world with nothing in it.
abbrev pub blank : Memory
blank = record { cells = λ m i. none; routes = λ m i. none; lines = []; sent = [] }
