-- ===== src/Symbols/Addresses.antt =====
-- The addresses that `SanitizeUprobeAddresses` of utils.go gives.
use ebpfmanager.Common.{
  ℕ, ◌+◌, ◌^◌, ◌≤◌, ◌<◌, ◌≡◌, ◌≢◌, refl, ◌∙◌, ap, true, false, List, [], ◌∷◌, ◌++◌, map, All, some,
  get_elem?, get_elem?-map, Bool-cases, inl, inr, arith,
}
use ebpfmanager.Symbols.{
  Segment, FileType, exec, dyn, other, holds, translate, sanitize_value, sanitize_uprobe_addresses,
}

-- The segment is one to load, and the value is an address of it.
abbrev pub IsInside : ℕ → Segment → Type 0
IsInside v s = (s.is_load ≡ true) × (s.vaddr ≤ v) × (v < s.vaddr + s.memsz)

-- The segment ends within 64 bits.
abbrev pub EndsInRange : Segment → Type 0
EndsInRange s = s.vaddr + s.memsz < 2 ^ 64

holds-IsInside : (v : ℕ) (s : Segment) → EndsInRange s → IsInside v s → holds v s ≡ true
holds-IsInside v s f h = ground (arith, f, h)

not_inside : (v : ℕ) (s : Segment) → EndsInRange s → ¬ IsInside v s → holds v s ≡ false
not_inside v s f n = elim (Bool-cases (holds v s)) [
  | inr e ↦ e
  | inl e ↦ absurd (n (ground (arith, e), ground (arith, e), ground (arith, e, f)))
]

-- Segments that the value is not in leave it.
skip_segments :
    (ss : List Segment) (v current : ℕ)
    → All EndsInRange ss
    → All (λ s. ¬ IsInside v s) ss
    → sanitize_value ss v current ≡ current
unfolding sanitize_value
skip_segments [] v current f n = refl
skip_segments (s ∷ ss) v current f n =
    rw (not_inside v s f.0 n.0) (skip_segments ss v current f.1 n.1)

last_segment :
    (first : List Segment) (s : Segment) (last : List Segment) (v current : ℕ)
    → All EndsInRange (first ++ s ∷ last)
    → IsInside v s
    → All (λ t. ¬ IsInside v t) last
    → sanitize_value (first ++ s ∷ last) v current ≡ translate v s
unfolding sanitize_value
last_segment [] s last v current f h n =
    rw (sanitize_value, holds-IsInside v s f.0 h) (skip_segments last v (translate v s) f.1 n)
last_segment (t ∷ first) s last v current f h n = last_segment first s last v _ f.1 h n

translate_bounds :
    (v : ℕ) (s : Segment)
    → IsInside v s
    → s.off + s.memsz < 2 ^ 64
    → (s.off ≤ translate v s)
      × (translate v s < s.off + s.memsz)
      × (translate v s + s.vaddr ≡ v + s.off)
translate_bounds v s h g = ground (arith, h, g)

sanitized :
    (t : FileType) (ss : List Segment) (syms : List ℕ)
    → t ≢ other
    → sanitize_uprobe_addresses t ss syms ≡ map (λ v. sanitize_value ss v v) syms
unfolding sanitize_uprobe_addresses
sanitized exec ss syms n = refl
sanitized dyn ss syms n = refl
sanitized other ss syms n = absurd (n refl)

-- In an executable or a shared object whose segments end within 64 bits, the symbol at an index whose
-- value is an address of a segment to load, and of no later one, gets the value that is as far from the
-- segment's offset in the file as its old one is from the segment's address, less than the segment's size
-- in memory, where the offset and that size do not overflow. A symbol whose value is an address of no
-- segment to load keeps it.
pub sanitize_uprobe_addresses-bounds :
    (t : FileType) (first : List Segment) (s : Segment) (last : List Segment) (syms : List ℕ)
    (i j v kept : ℕ)
    → t ≢ other
    → All EndsInRange (first ++ s ∷ last)
    → s.off + s.memsz < 2 ^ 64
    → get_elem? syms i ≡ some v
    → IsInside v s
    → All (λ r. ¬ IsInside v r) last
    → get_elem? syms j ≡ some kept
    → All (λ r. ¬ IsInside kept r) (first ++ s ∷ last)
    → let after = sanitize_uprobe_addresses t (first ++ s ∷ last) syms in
      ((found : ℕ) × (get_elem? after i ≡ some found)
        × (s.off ≤ found)
        × (found < s.off + s.memsz)
        × (found + s.vaddr ≡ v + s.off))
      × (get_elem? after j ≡ some kept)
sanitize_uprobe_addresses-bounds t first s last syms i j v kept n f g at_i h later at_j free =
    let ss : List Segment = first ++ s ∷ last in
    let (low, high, offset) = translate_bounds v s h g in
    rw (sanitized t ss syms n) (
      (
        translate v s,
        get_elem?-map (λ x. sanitize_value ss x x) syms i
            ∙ rw (at_i) (ap some (last_segment first s last v v f h later)),
        low,
        high,
        offset,
      ),
      get_elem?-map (λ x. sanitize_value ss x x) syms j
          ∙ rw (at_j) (ap some (skip_segments ss kept kept f free)),
    )
