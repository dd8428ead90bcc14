-- ===== src/Examples/Offsets.antt =====
-- `ReferenceOffsets` as a function: the indices of the instructions that refer to a symbol.
use ebpfmanager.Common.{
  ℕ, zero, suc, ◌≡◌, refl, Bool, true, false, String, List, [], ◌∷◌, map, any, ◌==◌, if◌then◌else◌,
  arith, ◌∙◌,
}
use ebpfmanager.Editor.{Instructions}
use ebpfmanager.Editor.Rewrite.{refers, OffsetLaw}

abbrev pub offsets : Instructions → String → List ℕ
offsets [] symbol = []
offsets (ins ∷ insns) symbol =
    let rest = map suc (offsets insns symbol) in if refers symbol ins then 0 ∷ rest else rest

any_zero-suc : (is : List ℕ) → any (λ i. i == 0) (map suc is) ≡ false
any_zero-suc [] = refl
any_zero-suc (i ∷ is) = ground (arith, any_zero-suc is)

any-suc-suc : (j : ℕ) (is : List ℕ) → any (λ i. i == suc j) (map suc is) ≡ any (λ i. i == j) is
any-suc-suc j [] = refl
any-suc-suc j (i ∷ is) = ground (arith, any-suc-suc j is)

first_listed :
    (c : Bool) (is : List ℕ) → any (λ i. i == 0) (if c then 0 ∷ map suc is else map suc is) ≡ c
first_listed true is = refl
first_listed false is = any_zero-suc is

later_listed :
    (c : Bool) (j : ℕ) (is : List ℕ)
    → any (λ i. i == suc j) (if c then 0 ∷ map suc is else map suc is) ≡ any (λ i. i == j) is
later_listed true j is = ground (arith, any-suc-suc j is)
later_listed false j is = any-suc-suc j is

pub offsets-OffsetLaw : OffsetLaw offsets
offsets-OffsetLaw [] symbol j = refl
offsets-OffsetLaw (ins ∷ insns) symbol zero =
    first_listed (refers symbol ins) (offsets insns symbol)
offsets-OffsetLaw (ins ∷ insns) symbol (suc j) =
    later_listed (refers symbol ins) j (offsets insns symbol) ∙ offsets-OffsetLaw insns symbol j
