-- ===== src/Editor/Constants.antt =====
-- testdata/rewrite.c and the hooks of examples/clone_vs_add_hook/ebpf/main.c after `RewriteConstant`.
use ebpfmanager.Common.{
  ℕ, zero, suc, get_elem?, ==_self, ◌≡◌, ◌≢◌, ◌<◌, ◌%◌, ◌^◌, refl, sym, String, List, [], ◌∷◌,
  Option, none, some, Bool, true, false, map, if◌then◌else◌, Bool-cases, inl, inr, ◌∙◌, arith,
}
use ebpfmanager.Common.Int.{ℤ, pos, signed, unsigned, unsigned-signed64}
use ebpfmanager.Bpf.{Kernel, KernelLaws}
use ebpfmanager.Bpf.Constants.{kprobe_vfs_mkdir, kprobe_vfs_mkdir-samples}
use ebpfmanager.Editor.{Instructions, done, rewrite_constant}
use ebpfmanager.Editor.Rewrite.{
  refers, opt_refers, edit_instruction, OffsetLaw, OnlyLoads, rewrite_constant-map,
}

-- `LOAD_CONSTANT`: the 64-bit immediate of the instruction that refers to the symbol; 0 stands in
-- its place where none does.
unfoldable pub load_constant : Instructions → String → ℕ
load_constant [] symbol = 0
load_constant (ins ∷ rest) symbol =
    if refers symbol ins then unsigned 64 ins.constant else load_constant rest symbol

-- An `int` result of an `unsigned long` is its low 32 bits.
unfoldable pub rewrite : Instructions → ℤ
unfolding load_constant
rewrite insns = let acc = load_constant insns "constant" in signed 32 (acc % 2 ^ 32)

unfoldable pub rewrite_map : (ℕ → Option ℕ) → ℤ
rewrite_map map_lookup_elem = elim (map_lookup_elem 0) [
  | none ↦ pos 0
  | some value ↦ signed 32 value
]

any_refers : String → Instructions → Bool
any_refers symbol [] = false
any_refers symbol (ins ∷ rest) = if refers symbol ins then true else any_refers symbol rest

load_constant-map :
    (symbol : String) (value : ℕ) (insns : Instructions)
    → value < 2 ^ 64
    → any_refers symbol insns ≡ true
    → load_constant (map (edit_instruction symbol value) insns) symbol ≡ value
unfolding load_constant any_refers
load_constant-map symbol value [] lt h = absurd (cc)
load_constant-map symbol value (ins ∷ rest) lt h = elim (Bool-cases (refers symbol ins)) [
  | inl e ↦ rw e (rw e (unsigned-signed64 value lt))
  | inr e ↦ rw e (rw e (load_constant-map symbol value rest lt (rw e at h)))
]

any_refers_entry :
    (symbol : String) (insns : Instructions) (j : ℕ)
    → opt_refers symbol (get_elem? insns j) ≡ true
    → any_refers symbol insns ≡ true
unfolding any_refers
any_refers_entry symbol [] j h = absurd (cc)
any_refers_entry symbol (ins ∷ rest) zero h = rw h refl
any_refers_entry symbol (ins ∷ rest) (suc j) h = ground (arith, any_refers_entry symbol rest j h)

module _ (ld_dw_imm : ℕ) (offsets : Instructions → String → List ℕ) (law : OffsetLaw offsets) where
  any_refers-offsets :
      (symbol : String) (insns : Instructions) (is : List ℕ)
      → offsets insns symbol ≡ is
      → is ≢ []
      → any_refers symbol insns ≡ true
  any_refers-offsets symbol insns [] e h = absurd (h refl)
  any_refers-offsets symbol insns (i ∷ is) e h =
      any_refers_entry symbol insns i
        (sym (law insns symbol i) ∙ rw e (ground (arith, ==_self {a = i} refl)))

  -- A constant that the loads of a program refer to, once rewritten, is what `LOAD_CONSTANT` reads.
  pub load_constant-rewrite_constant :
      (symbol : String) (value : ℕ) (insns : Instructions)
      → value < 2 ^ 64
      → offsets insns symbol ≢ []
      → OnlyLoads ld_dw_imm offsets law symbol insns
      → (out : Instructions) × (rewrite_constant ld_dw_imm offsets symbol value insns ≡ done out)
        × (load_constant out symbol ≡ value)
  load_constant-rewrite_constant symbol value insns lt used h = (
    map (edit_instruction symbol value) insns,
    rewrite_constant-map ld_dw_imm offsets law symbol value insns used h,
    load_constant-map symbol value insns lt
        (any_refers-offsets symbol insns (offsets insns symbol) refl used),
  )

  -- So the test program `rewrite` returns the low 32 bits of the constant, as an `int`.
  pub rewrite-rewrite_constant :
      (value : ℕ) (insns : Instructions)
      → value < 2 ^ 64
      → offsets insns "constant" ≢ []
      → OnlyLoads ld_dw_imm offsets law "constant" insns
      → (out : Instructions) × (rewrite_constant ld_dw_imm offsets "constant" value insns
          ≡ done out)
        × (rewrite out ≡ signed 32 (value % 2 ^ 32))
  unfolding rewrite
  rewrite-rewrite_constant value insns lt used h =
      let (out, done', e) = load_constant-rewrite_constant "constant" value insns lt used h in
      (out, done', rw e refl)

  -- And the hook on mkdir prints the constant and sends it to user space, where the send succeeds.
  pub kprobe_vfs_mkdir-rewrite_constant :
      (k : Kernel) (laws : KernelLaws k) (my_constants value : ℕ) (insns : Instructions)
      (w : k.World)
      → value < 2 ^ 64
      → offsets insns "my_constant" ≢ []
      → OnlyLoads ld_dw_imm offsets law "my_constant" insns
      → ((w' : k.World) (c : ℕ) → (k.output w' my_constants c value).1 ≡ pos 0)
      → (out : Instructions) × (rewrite_constant ld_dw_imm offsets "my_constant" value insns
          ≡ done out)
        × (k.samples (kprobe_vfs_mkdir k (load_constant out) my_constants w).1
            ≡ (my_constants, k.cpu w, value) ∷ k.samples w)
  kprobe_vfs_mkdir-rewrite_constant k laws my_constants value insns w lt used h sends =
      let (out, done', e) = load_constant-rewrite_constant "my_constant" value insns lt used h in
      (out, done', kprobe_vfs_mkdir-samples k laws (load_constant out) my_constants value w e sends)
