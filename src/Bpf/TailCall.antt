-- ===== src/Bpf/TailCall.antt =====
-- examples/program_router/ebpf: the three classifiers and their tail calls through `tc_prog_array`.
use ebpfmanager.Common.{
  ℕ, zero, suc, ◌+◌, ◌≤◌, ◌<◌, ◌≡◌, refl, List, [], ◌∷◌, ◌++◌, Option, none, some, arith, length,
  length-append, Option-cases, inl, inr, subst,
}
use ebpfmanager.Common.Int.{ℤ, pos}
use ebpfmanager.Bpf.MapDefs.{tc_prog_array}

-- The lines that the programs print, in order.
pub data Line : Type 0 where
  one_captured one_failed two_triggered two_failed three_triggered : Line

abbrev pub Outcome : Type 0
Outcome = List Line × ℤ

abbrev pub tc_act_ok : ℤ
tc_act_ok = pos 0

abbrev pub tail_call_key : ℕ
tail_call_key = 1

abbrev pub external_tail_call_key : ℕ
external_tail_call_key = 2

-- `bpf_tail_call` does not return if it succeeds: its outcome is that of the program called. A
-- program takes it as a parameter, from the key and the lines printed so far.
abbrev pub TailCall : Type 0
TailCall = ℕ → List Line → Option Outcome

abbrev or_else : Option Outcome → Outcome → Outcome
or_else (some o) d = o
or_else none d = d

unfoldable pub classifier_one : TailCall → List Line → Outcome
classifier_one bpf_tail_call out =
    let called = out ++ one_captured ∷ [] in
    or_else (bpf_tail_call tail_call_key called) (called ++ one_failed ∷ [], tc_act_ok)

unfoldable pub classifier_two : TailCall → List Line → Outcome
classifier_two bpf_tail_call out =
    let called = out ++ two_triggered ∷ [] in
    or_else (bpf_tail_call external_tail_call_key called) (called ++ two_failed ∷ [], tc_act_ok)

unfoldable pub classifier_three : TailCall → List Line → Outcome
classifier_three bpf_tail_call out = (out ++ three_triggered ∷ [], tc_act_ok)

pub data Classifier : Type 0 where
  one two three : Classifier

unfoldable pub classify : Classifier → TailCall → List Line → Outcome
unfolding classifier_one classifier_two classifier_three
classify one = classifier_one
classify two = classifier_two
classify three = classifier_three

-- The programs under a program array, with the number of tail calls that the kernel still allows
-- (it limits a chain of them). A call fails at an empty entry and past the limit.
module _ (prog_array : ℕ → Option Classifier) where
  unfoldable pub run : ℕ → Classifier → List Line → Outcome
  unfolding classify
  run zero p out = classify p (λ key called. none) out
  run (suc n) p out =
      classify p
        (λ key called. elim (prog_array key) [ none ↦ none | some q ↦ some (run n q called) ]) out

-- What holds of a program's outcome: it holds of those of its tail call, which is made one line
-- later, and of every outcome that accepts after at most two lines.
classify_rule :
    (P : Outcome → Type 0) (p : Classifier) (call : TailCall) (out : List Line)
    → ((key : ℕ) (called : List Line) (o : Outcome)
        → length called ≡ length out + 1
        → call key called ≡ some o
        → P o)
    → ((o : Outcome) → o.1 ≡ tc_act_ok → length o.0 ≤ length out + 2 → P o)
    → P (classify p call out)
unfolding classify
classify_rule P one call out h g =
    let called : List Line = out ++ one_captured ∷ [] in
    elim (Option-cases (call tail_call_key called)) [
      | inl e ↦ rw e (
          g _ refl (
            omega (
              arith,
              length-append called (one_failed ∷ []),
              length-append out (one_captured ∷ []),
            )))
      | inr (o, e) ↦ rw e (h tail_call_key called o (length-append out (one_captured ∷ [])) e)
    ]
classify_rule P two call out h g =
    let called : List Line = out ++ two_triggered ∷ [] in
    elim (Option-cases (call external_tail_call_key called)) [
      | inl e ↦ rw e (
          g _ refl (
            omega (
              arith,
              length-append called (two_failed ∷ []),
              length-append out (two_triggered ∷ []),
            )))
      | inr (o, e) ↦
          rw e (h external_tail_call_key called o (length-append out (two_triggered ∷ [])) e)
    ]
classify_rule P three call out h g =
    g _ refl (omega (arith, length-append out (three_triggered ∷ [])))

entry_rule :
    (P : Outcome → Type 0) (e : Option Classifier) (f : Classifier → Outcome)
    → ((q : Classifier) → P (f q))
    → (o : Outcome) → elim e [ none ↦ none | some q ↦ some (f q) ] ≡ some o
    → P o
entry_rule P none f h o e = absurd (cc)
entry_rule P (some q) f h o e = subst P (cc) (h q)

-- The packet is accepted, after a bounded number of lines.
abbrev pub Accepts : ℕ → Outcome → Type 0
Accepts bound o = (o.1 ≡ tc_act_ok) × (length o.0 ≤ bound)

module _ (prog_array : ℕ → Option Classifier) where
  -- Whatever is in the program array, a chain of classifiers accepts the packet and ends, after at
  -- most two lines more than there are tail calls left.
  pub run-Accepts :
      (n : ℕ) (p : Classifier) (out : List Line)
      → Accepts (length out + n + 2) (run prog_array n p out)
  unfolding run
  run-Accepts zero p out =
      classify_rule (Accepts (length out + 0 + 2)) p (λ key called. none) out
        (λ key called o l e. absurd (cc)) (λ o e l. (e, omega arith))
  run-Accepts (suc n) p out =
      classify_rule (Accepts (length out + suc n + 2)) p _ out
        (λ key called o l e.
          entry_rule (Accepts (length out + suc n + 2)) (prog_array key)
            (λ q. run prog_array n q called)
            (λ q. let (ok, le) = run-Accepts n q called in (ok, omega arith)) o e)
        (λ o e l. (e, omega arith))

  -- With the second classifier at key 1 and the third at key 2, and two tail calls left, the first
  -- one runs all three, once each.
  pub run_routed :
      (n : ℕ) (out : List Line)
      → prog_array 1 ≡ some two
      → prog_array 2 ≡ some three
      → run prog_array (suc (suc n)) one out
        ≡ (((out ++ one_captured ∷ []) ++ two_triggered ∷ []) ++ three_triggered ∷ [], tc_act_ok)
  unfolding run classify
  run_routed zero out h1 h2 = rw h1 (rw h2 refl)
  run_routed (suc n) out h1 h2 = rw h1 (rw h2 refl)

  -- With no program at key 1 the first classifier says that it could not call, and accepts.
  pub run_unrouted :
      (n : ℕ) (out : List Line)
      → prog_array 1 ≡ none
      → run prog_array n one out ≡ ((out ++ one_captured ∷ []) ++ one_failed ∷ [], tc_act_ok)
  unfolding run classify
  run_unrouted zero out h = refl
  run_unrouted (suc n) out h = rw h refl

  -- A classifier routed to itself uses up every tail call, so the bound on the lines is reached.
  pub length-run_looped :
      (n : ℕ) (out : List Line)
      → prog_array 1 ≡ some one
      → length (run prog_array n one out).0 ≡ length out + n + 2
  unfolding run classify
  length-run_looped zero out h = omega (
    arith,
    length-append (out ++ one_captured ∷ []) (one_failed ∷ []),
    length-append out (one_captured ∷ []),
  )
  length-run_looped (suc n) out h = rw h (
      omega (
        arith,
        length-run_looped n (out ++ one_captured ∷ []) h,
        length-append out (one_captured ∷ []),
      ))

-- The keys that the programs call are entries of `tc_prog_array`.
pub tail_call_keys-lt :
    (tail_call_key < tc_prog_array.max_entries)
    × (external_tail_call_key < tc_prog_array.max_entries)
unfolding tc_prog_array
tail_call_keys-lt = omega arith
