-- ===== src/Editor/Rewrite.antt =====
-- What `RewriteConstant` of editor.go does to the instructions.
use ebpfmanager.Common.{
  ℕ, ◌≡◌, ◌≢◌, inl, inr, refl, sym, String, List, [], ◌∷◌, Option, none, some, Bool, true, false,
  ◌==◌, if◌then◌else◌, get_elem?, set, any, map, All, arith, Bool-cases, get_elem?-set, ==_self,
  get_elem?-map, get_elem?-ext, str_eq, ◌∙◌, ap,
}
use ebpfmanager.Editor.{
  Instruction, Instructions, done, write, rewrite_loads, rewrite_indices, rewrite_constant,
}

abbrev opt_write : ℕ → Option Instruction → Option Instruction
opt_write value none = none
opt_write value (some load) = some (write value load)

module _ (ld_dw_imm : ℕ) where
  -- An index of a 64-bit immediate load.
  abbrev pub IsLoad : Instructions → ℕ → Type 0
  IsLoad insns i =
      (load : Instruction) × (get_elem? insns i ≡ some load) × (load.op_code ≡ ld_dw_imm)

  IsLoad-set :
      (value : ℕ) (insns : Instructions) (i j : ℕ) (load : Instruction)
      → get_elem? insns i ≡ some load
      → load.op_code ≡ ld_dw_imm
      → IsLoad insns j
      → IsLoad (set insns i (write value load)) j
  IsLoad-set value insns i j load e op (l, at, opl) = elim (Bool-cases (i == j)) [
    | inl same ↦ (write value load, get_elem?-set insns i j (write value load) e ∙ rw same refl, op)
    | inr other ↦ (l, get_elem?-set insns i j (write value load) e ∙ rw other at, opl)
  ]

  All-IsLoad-set :
      (value : ℕ) (insns : Instructions) (i : ℕ) (js : List ℕ) (load : Instruction)
      → get_elem? insns i ≡ some load
      → load.op_code ≡ ld_dw_imm
      → All (IsLoad insns) js
      → All (IsLoad (set insns i (write value load))) js
  All-IsLoad-set value insns i [] load e op h = tt
  All-IsLoad-set value insns i (j ∷ js) load e op h =
      (IsLoad-set value insns i j load e op h.0, All-IsLoad-set value insns i js load e op h.1)

  -- Over loads the loop ends well and has written exactly the entries at the indices.
  pub rewrite_loads-get_elem? :
      (symbol : String) (value : ℕ) (is : List ℕ) (insns : Instructions)
      → All (IsLoad insns) is
      → (out : Instructions) × (rewrite_loads ld_dw_imm symbol value is insns ≡ done out)
        × ((j : ℕ)
            → get_elem? out j ≡ (
                if any (λ i. i == j) is
                then opt_write value (get_elem? insns j)
                else get_elem? insns j))
  unfolding rewrite_loads
  rewrite_loads-get_elem? symbol value [] insns h = (insns, refl, λ j. refl)
  rewrite_loads-get_elem? symbol value (i ∷ is) insns ((load, e, op), hs) =
      let (out, r, g) =
        rewrite_loads-get_elem? symbol value is (set insns i (write value load))
          (All-IsLoad-set value insns i is load e op hs) in
      (
        out,
        rw (e, rewrite_loads) (rw (==_self op) r),
        λ j. g j ∙ ground (arith, get_elem?-set insns i j (write value load) e, e),
      )

-- Whether an instruction refers to a symbol.
abbrev pub refers : String → Instruction → Bool
refers symbol ins = elim ins.reference [ none ↦ false | some r ↦ str_eq r symbol ]

abbrev pub opt_refers : String → Option Instruction → Bool
opt_refers symbol none = false
opt_refers symbol (some ins) = refers symbol ins

-- What the library says of `ReferenceOffsets`: the offsets of a symbol are those of the
-- instructions that refer to it.
abbrev pub OffsetLaw : (Instructions → String → List ℕ) → Type 0
OffsetLaw offsets =
    (insns : Instructions) (symbol : String) (j : ℕ)
    → any (λ i. i == j) (offsets insns symbol) ≡ opt_refers symbol (get_elem? insns j)

-- The specification: every instruction that refers to the symbol gets the value.
abbrev pub edit_instruction : String → ℕ → Instruction → Instruction
edit_instruction symbol value ins = if refers symbol ins then write value ins else ins

pub All-of-any :
    (P : ℕ → Type 0) (is : List ℕ) → ((j : ℕ) → any (λ i. i == j) is ≡ true → P j) → All P is
All-of-any P [] h = tt
All-of-any P (i ∷ is) h =
    (h i (ground (arith, ==_self {a = i} refl)), All-of-any P is (λ j m. h j (ground arith)))

edited_entry :
    (symbol : String) (value : ℕ) (o : Option Instruction)
    → (if opt_refers symbol o then opt_write value o else o)
      ≡ elim o [ none ↦ none | some ins ↦ some (edit_instruction symbol value ins) ]
edited_entry symbol value none = refl
edited_entry symbol value (some ins) = ground arith

module _ (ld_dw_imm : ℕ) (offsets : Instructions → String → List ℕ) (law : OffsetLaw offsets) where
  -- Every instruction that refers to the symbol is a 64-bit immediate load.
  abbrev pub OnlyLoads : String → Instructions → Type 0
  OnlyLoads symbol insns =
      (j : ℕ) (ins : Instruction)
      → get_elem? insns j ≡ some ins
      → refers symbol ins ≡ true
      → ins.op_code ≡ ld_dw_imm

  IsLoad-of_entry :
      (symbol : String) (insns : Instructions) (j : ℕ) (o : Option Instruction)
      → get_elem? insns j ≡ o
      → OnlyLoads symbol insns
      → opt_refers symbol o ≡ true
      → IsLoad ld_dw_imm insns j
  IsLoad-of_entry symbol insns j none e h r = absurd (cc)
  IsLoad-of_entry symbol insns j (some ins) e h r = (ins, e, h j ins e r)

  loop-map :
      (symbol : String) (value : ℕ) (insns : Instructions)
      → OnlyLoads symbol insns
      → rewrite_loads ld_dw_imm symbol value (offsets insns symbol) insns
        ≡ done (map (edit_instruction symbol value) insns)
  loop-map symbol value insns h =
      let (out, r, g) =
        rewrite_loads-get_elem? ld_dw_imm symbol value (offsets insns symbol) insns (
          All-of-any _ _ λ j m.
            IsLoad-of_entry symbol insns j (get_elem? insns j) refl h
              (sym (law insns symbol j) ∙ m)) in
      r
      ∙ ap done (
          get_elem?-ext out (map (edit_instruction symbol value) insns) λ j.
            g j
            ∙ rw (law insns symbol j) (edited_entry symbol value (get_elem? insns j))
            ∙ sym (get_elem?-map (edit_instruction symbol value) insns j))

  rewrite_indices-loop :
      (symbol : String) (value : ℕ) (is : List ℕ) (insns : Instructions)
      → is ≢ []
      → rewrite_indices ld_dw_imm symbol value is insns
        ≡ rewrite_loads ld_dw_imm symbol value is insns
  unfolding rewrite_indices
  rewrite_indices-loop symbol value [] insns h = absurd (h refl)
  rewrite_indices-loop symbol value (i ∷ is) insns h = refl

  -- A symbol that some instruction refers to, and only 64-bit immediate loads do, is rewritten with
  -- no error, and the result is the edit of every instruction that refers to it.
  pub rewrite_constant-map :
      (symbol : String) (value : ℕ) (insns : Instructions)
      → offsets insns symbol ≢ []
      → OnlyLoads symbol insns
      → rewrite_constant ld_dw_imm offsets symbol value insns
        ≡ done (map (edit_instruction symbol value) insns)
  unfolding rewrite_constant
  rewrite_constant-map symbol value insns used h =
      rewrite_indices-loop symbol value (offsets insns symbol) insns used
      ∙ loop-map symbol value insns h
