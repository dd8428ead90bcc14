-- ===== src/Examples/TrafficExamples.antt =====
-- Classifiers on an interface whose world is whether it has a qdisc, and the number of its filters.
use ebpfmanager.Common.{ℕ, suc, ◌≡◌, refl, Bool, true, false, [], none, some, ◌==◌}
use ebpfmanager.Errors.{Error, Fault, external, concat_errors}
use ebpfmanager.Probe.Traffic.{
  CacheKey, Netlink, Classifier, attach_tccls, detach_tccls, find_value, forgive_exists,
}
use ebpfmanager.Probe.Traffic.Counting.{Takes, reattached_keeps_qdisc}

-- EEXIST
abbrev is_exists : Error → Bool
is_exists (external n) = n == 17
is_exists _ = false

abbrev add_qdisc : Bool × ℕ → Fault × (Bool × ℕ)
add_qdisc (true, n) = (some (external 17), (true, n))
add_qdisc (false, n) = (none, (true, n))

abbrev net : Netlink
net = record {
  World = Bool × ℕ;
  open_socket = λ ns w. (none, 3, w);
  qdisc_add = λ s i w. add_qdisc w;
  filter_add = λ s i p w. (none, (w.0, suc w.1));
  qdisc_delete = λ s o w. (none, (false, 0));
  is_exists = is_exists;
}

abbrev eth0 : CacheKey
eth0 = record { ifindex = 2; netns = 0 }

abbrev classifier : Classifier
classifier = record { key = eth0; ifname = "eth0"; program = some 3; tc_object = none }

adds_qdisc :
    (w : Bool × ℕ) → (forgive_exists net (add_qdisc w).0 ≡ none) × ((add_qdisc w).1.0 ≡ true)
unfolding forgive_exists
adds_qdisc (true, n) = (refl, refl)
adds_qdisc (false, n) = (refl, refl)

net-Takes : Takes net eth0
net-Takes = record {
  has_qdisc = λ w. w.0;
  opens = λ w. refl;
  adds = λ s w. adds_qdisc w;
  filters = λ s p w. (refl, refl);
  deletes = λ s o w. (refl, refl);
}

reattached_keeps_qdisc_example :
    let (e1, (q1, c1, w1)) = attach_tccls net (classifier, [], (false, 0)) in
    let (e2, (q2, c2, w2)) = detach_tccls net (record classifier { tc_object = some 2 }, c1, w1) in
    let (e3, (q3, c3, w3)) = attach_tccls net (classifier, c2, w2) in
    let (e4, (q4, c4, w4)) = detach_tccls net (record classifier { tc_object = some 2 }, c3, w3) in
    (concat_errors (concat_errors e1 e2) (concat_errors e3 e4) ≡ none)
    × (w2.0 ≡ false)
    × (w4.0 ≡ true)
unfolding net-Takes find_value
reattached_keeps_qdisc_example =
    reattached_keeps_qdisc net classifier net-Takes [] (false, 0) (some 2) (some 2) refl refl
