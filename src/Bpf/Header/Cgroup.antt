-- ===== src/Bpf/Header/Cgroup.antt =====
-- The attach flags of programs on cgroups, as the comment of bpf.h explains them.
use ebpfmanager.Common.{
  ◌≡◌, refl, Bool, true, false, String, List, [], ◌∷◌, ◌++◌, Option, none, some, if◌then◌else◌,
  ◌&&◌, not,
}

-- `BPF_F_ALLOW_OVERRIDE`, `BPF_F_ALLOW_MULTI` or neither.
pub data Sharing : Type 0 where
  exclusive allow_override allow_multi : Sharing

pub record Cgroup : Type 0 where
  pub sharing : Sharing
  pub programs : List String

unfoldable pub is_multi : Sharing → Bool
is_multi exclusive = false
is_multi allow_override = false
is_multi allow_multi = true

-- What the ancestors add below a cgroup whose programs run.
unfoldable pub inherited : List Cgroup → List String
unfolding is_multi
inherited [] = []
inherited (c ∷ cs) = if is_multi c.sharing then c.programs ++ inherited cs else inherited cs

-- The programs that an event triggers, in their order, on a cgroup and its ancestors up to the root.
unfoldable pub effective : List Cgroup → List String
unfolding inherited
effective [] = []
effective (c ∷ cs) = run_or_yield c.programs (inherited cs) (effective cs)
  where
    run_or_yield : List String → List String → List String → List String
    run_or_yield [] above yielded = yielded
    run_or_yield (p ∷ ps) above yielded = p ∷ ps ++ above

abbrev same_sharing : Sharing → Sharing → Bool
same_sharing exclusive exclusive = true
same_sharing allow_override allow_override = true
same_sharing allow_multi allow_multi = true
same_sharing exclusive allow_override = false
same_sharing exclusive allow_multi = false
same_sharing allow_override exclusive = false
same_sharing allow_override allow_multi = false
same_sharing allow_multi exclusive = false
same_sharing allow_multi allow_override = false

-- A cgroup that has programs and no flag lets no program below it.
unfoldable pub permits : Cgroup → Bool
permits c = permits_below c.programs c.sharing
  where
    permits_below : List String → Sharing → Bool
    permits_below [] sharing = true
    permits_below (p ∷ ps) exclusive = false
    permits_below (p ∷ ps) allow_override = true
    permits_below (p ∷ ps) allow_multi = true

unfoldable pub all_permit : List Cgroup → Bool
unfolding permits
all_permit [] = true
all_permit (c ∷ cs) = permits c && all_permit cs

-- The programs of a cgroup after one more is attached with the flag that the others have.
unfoldable pub add_program : Sharing → List String → String → List String
unfolding is_multi
add_program s ps p = if is_multi s then ps ++ p ∷ [] else p ∷ []

-- Attaches a program to the cgroup below these ancestors.
unfoldable pub attach_program : Sharing → String → Cgroup → List Cgroup → Option Cgroup
unfolding all_permit add_program
attach_program s p c above = if not (all_permit above) then none else attach_to c.programs
  where
    attach_to : List String → Option Cgroup
    attach_to [] = some (record { sharing = s; programs = p ∷ [] })
    attach_to (q ∷ qs) =
        if same_sharing s c.sharing
        then some (record { sharing = s; programs = add_program s (q ∷ qs) p })
        else none

abbrev multi_ab : Cgroup
multi_ab = record { sharing = allow_multi; programs = "A" ∷ "B" ∷ [] }

abbrev override : List String → Cgroup
override ps = record { sharing = allow_override; programs = ps }

abbrev multi : List String → Cgroup
multi ps = record { sharing = allow_multi; programs = ps }

abbrev single : List String → Cgroup
single ps = record { sharing = exclusive; programs = ps }

-- The cgroups of the comment's first example, with these programs in its last three.
abbrev hierarchy : List String → List String → List String → List Cgroup
hierarchy f e d = single f ∷ override e ∷ multi d ∷ override ("C" ∷ []) ∷ multi_ab ∷ []

all_attached_test :
    effective (hierarchy ("F" ∷ []) ("E" ∷ []) ("D" ∷ [])) ≡ "F" ∷ "D" ∷ "A" ∷ "B" ∷ []
unfolding effective
all_attached_test = refl

without_f_test : effective (hierarchy [] ("E" ∷ []) ("D" ∷ [])) ≡ "E" ∷ "D" ∷ "A" ∷ "B" ∷ []
unfolding effective
without_f_test = refl

without_f_and_d_test : effective (hierarchy [] ("E" ∷ []) []) ≡ "E" ∷ "A" ∷ "B" ∷ []
unfolding effective
without_f_and_d_test = refl

only_ancestors_test : effective (hierarchy [] [] []) ≡ "C" ∷ "A" ∷ "B" ∷ []
unfolding effective
only_ancestors_test = refl

below_exclusive_test : attach_program allow_multi "G" (multi []) (hierarchy ("F" ∷ []) [] []) ≡ none
unfolding attach_program
below_exclusive_test = refl

fifo_test : attach_program allow_multi "G" multi_ab [] ≡ some (multi ("A" ∷ "B" ∷ "G" ∷ []))
unfolding attach_program
fifo_test = refl

replaced_test :
    attach_program allow_override "G" (override ("C" ∷ [])) (multi_ab ∷ [])
    ≡ some (override ("G" ∷ []))
unfolding attach_program
replaced_test = refl
