-- ===== src/Bpf/Header/Layout.antt =====
-- Where the members of the structs of bpf.h stand, by the rules of C for structs and unions of scalars.
use ebpfmanager.Common.{
  ℕ, ◌+◌, ◌*◌, ◌/◌, ◌%◌, ◌≤◌, ◌≡◌, String, List, [], ◌∷◌, arith, leb, if◌then◌else◌,
}

-- The size of a scalar, and its alignment.
pub data Width : Type 0 where
  w8 w16 w32 w64 : Width

abbrev pub bytes : Width → ℕ
bytes w8 = 1
bytes w16 = 2
bytes w32 = 4
bytes w64 = 8

-- A scalar, or an array of them.
pub record Member : Type 0 where
  pub name : String
  pub width : Width
  pub count : ℕ

pub data Item : Type 0 where
  plain : Member → Item
  overlay : List Member → Item

abbrev pub scalars : Width → ℕ → String → Member
scalars w n name = record { name = name; width = w; count = n }

abbrev pub u8 : String → Member
u8 = scalars w8 1

abbrev pub u16 : String → Member
u16 = scalars w16 1

abbrev pub u32 : String → Member
u32 = scalars w32 1

abbrev pub u64 : String → Member
u64 = scalars w64 1

abbrev pub u8s : ℕ → String → Member
u8s = scalars w8

abbrev pub u32s : ℕ → String → Member
u32s = scalars w32

abbrev pub u64s : ℕ → String → Member
u64s = scalars w64

abbrev pub align : Width → ℕ → ℕ
align w8 o = o
align w16 o = (o + 1) / 2 * 2
align w32 o = (o + 3) / 4 * 4
align w64 o = (o + 7) / 8 * 8

abbrev pub wider : Width → Width → Width
wider a b = if leb (bytes a) (bytes b) then b else a

-- The alignment and the size of an item.
abbrev pub widest : List Member → Width
widest [] = w8
widest (m ∷ ms) = wider m.width (widest ms)

abbrev pub largest : List Member → ℕ
largest [] = 0
largest (m ∷ ms) =
    let size = bytes m.width * m.count in
    let rest = largest ms in if leb size rest then rest else size

abbrev pub alignment : Item → Width
alignment (plain m) = m.width
alignment (overlay ms) = widest ms

abbrev pub size : Item → ℕ
size (plain m) = bytes m.width * m.count
size (overlay ms) = largest ms

-- The offsets of the items from a given one on.
unfoldable pub offsets : ℕ → List Item → List ℕ
offsets o [] = []
offsets o (i ∷ is) = let at = align (alignment i) o in at ∷ offsets (at + size i) is

unfoldable pub end_of : ℕ → List Item → ℕ
end_of o [] = o
end_of o (i ∷ is) = end_of (align (alignment i) o + size i) is

-- Each item is aligned, and begins where the one before it has ended.
abbrev pub Laid : ℕ → List Item → List ℕ → Type 0
Laid o [] [] = Unit {0}
Laid o (i ∷ is) (at ∷ os) = (o ≤ at) × (at % bytes (alignment i) ≡ 0) × Laid (at + size i) is os
Laid o [] (at ∷ os) = ⊥
Laid o (i ∷ is) [] = ⊥

align-le : (w : Width) (o : ℕ) → o ≤ align w o
align-le w8 o = ground arith
align-le w16 o = ground arith
align-le w32 o = ground arith
align-le w64 o = ground arith

align-mod : (w : Width) (o : ℕ) → align w o % bytes w ≡ 0
align-mod w8 o = ground arith
align-mod w16 o = ground arith
align-mod w32 o = ground arith
align-mod w64 o = ground arith

-- The items of a struct do not overlap, and each is aligned.
pub offsets-Laid : (o : ℕ) (is : List Item) → Laid o is (offsets o is)
unfolding offsets
offsets-Laid o [] = tt
offsets-Laid o (i ∷ is) = (
  align-le (alignment i) o,
  align-mod (alignment i) o,
  offsets-Laid (align (alignment i) o + size i) is,
)
