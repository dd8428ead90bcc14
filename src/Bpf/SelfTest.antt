-- ===== src/Bpf/SelfTest.antt =====
-- examples/tests_and_benchmarks/ebpf/main.c: `my_func` and the program that tests it.
use ebpfmanager.Common.{
  ℕ, ◌≡◌, ◌⊎◌, refl, ◌*◌, ◌%◌, ◌^◌, [], ◌∷◌, Option, none, some, arith, ◌==◌, not, if◌then◌else◌,
  Bool-cases, inl, inr,
}
use ebpfmanager.Common.Int.{ℤ, pos, negsuc}
use ebpfmanager.Bpf.{Kernel, Program, bpf_printk, return, ◌>>◌}

-- `2*input` in 32 bits
unfoldable pub my_func : ℕ → ℕ
my_func input = 2 * input % 2 ^ 32

abbrev pub test_data_key : ℕ
test_data_key = 1

pub record MyFuncTestData : Type 0 where
  pub input : ℕ
  pub output : ℕ

-- `read` is the lookup in the map `my_func_test_data`, whose values are two words.
module _ (k : Kernel) (read : k.World → ℕ → Option MyFuncTestData) where
  compare_output : Option MyFuncTestData → Program k ℤ
  compare_output none = do bpf_printk k "no test data\n" []; return (negsuc 0)
  compare_output (some d) =
      let ret = my_func d.input in
      if not (ret == d.output)
      then (do
        bpf_printk k "expected %d for input %d, got %d\n" (d.output ∷ d.input ∷ ret ∷ [])
        return (negsuc 0))
      else return (pos 0)

  unfoldable pub my_func_test : Program k ℤ
  unfolding compare_output
  my_func_test w = compare_output (read w test_data_key) w

  compare_output_cases :
      (o : Option MyFuncTestData) (w : k.World)
      → ((compare_output o w ≡ (pos 0, w))
          × ((d : MyFuncTestData) × (o ≡ some d) × (d.output ≡ 2 * d.input % 2 ^ 32)))
        ⊎ (((compare_output o w).0 ≡ negsuc 0)
            × (¬ ((d : MyFuncTestData) × (o ≡ some d) × (d.output ≡ 2 * d.input % 2 ^ 32))))
  unfolding compare_output my_func
  compare_output_cases none w = inr (refl, λ d. ground (arith, d.1))
  compare_output_cases (some d) w = elim (Bool-cases (my_func d.input == d.output)) [
    | inl e ↦ inl (rw e refl, (d, refl, ground arith))
    | inr e ↦ inr (rw e refl, λ c. ground (arith, c.1, c.2))
  ]

  -- Either the test returns 0 and leaves no line in the trace, and then there is test data whose
  -- output is twice its input in 32 bits; or it returns -1, and there is no such test data.
  pub my_func_test-cases :
      (w : k.World)
      → ((my_func_test w ≡ (pos 0, w))
          × ((d : MyFuncTestData) × (read w 1 ≡ some d) × (d.output ≡ 2 * d.input % 2 ^ 32)))
        ⊎ (((my_func_test w).0 ≡ negsuc 0)
            × (¬ ((d : MyFuncTestData) × (read w 1 ≡ some d) × (d.output ≡ 2 * d.input % 2 ^ 32))))
  unfolding my_func_test
  my_func_test-cases w = compare_output_cases (read w test_data_key) w
