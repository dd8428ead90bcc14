-- ===== src/Probe/Traffic/Counting.antt =====
-- Classifiers of one interface that are attached and detached again, of probe.go.
use ebpfmanager.Common.{
  ℕ, ◌+◌, ◌-◌, ◌≤◌, ◌≡◌, refl, sym, ◌∙◌, ap, Bool, true, false, [], ◌∷◌, Option, none, some, arith,
  leb, ◌==◌, Option-cases, Bool-cases, inl, inr,
}
use ebpfmanager.Errors.{Fault, concat_errors}
use ebpfmanager.Probe.Traffic.{
  CacheKey, CacheValue, NetlinkCache, find_value, set_value, Netlink, Classifier, connection,
  new_netlink_connection, forgive_exists, add_classifier, attach_tccls, remove_classifier,
  detach_tccls,
}

find_value-set_value :
    (k : CacheKey) (v : CacheValue) (cache : NetlinkCache)
    → find_value k (set_value k v cache) ≡ some v
unfolding find_value set_value
find_value-set_value k v [] = rw (equal_self k.ifindex, equal_self k.netns) refl
  where
    equal_self : (i : ℕ) → (i == i) ≡ true
    equal_self i = ground arith
find_value-set_value k v ((l, u) ∷ rest) = ground (arith, find_value-set_value k v rest)

-- The classifiers that the cache counts for an interface.
abbrev pub count_of : CacheKey → NetlinkCache → ℕ
count_of k cache = elim (find_value k cache) [ none ↦ 0 | some v ↦ v.sched_cls_count ]

count_of-set_value :
    (k : CacheKey) (v : CacheValue) (cache : NetlinkCache)
    → count_of k (set_value k v cache) ≡ v.sched_cls_count
count_of-set_value k v cache = rw (count_of, find_value-set_value k v cache) refl

-- A kernel that takes every classifier of an interface: its qdisc is there once it is added and until it is
-- deleted.
pub record Takes (net : Netlink) (k : CacheKey) : Type 0 where
  pub has_qdisc : net.World → Bool
  pub opens : (w : net.World) → (net.open_socket k.netns w).0 ≡ none
  pub adds :
      (s : ℕ) (w : net.World)
      → (forgive_exists net (net.qdisc_add s k.ifindex w).0 ≡ none)
        × (has_qdisc (net.qdisc_add s k.ifindex w).1 ≡ true)
  pub filters :
      (s : ℕ) (program : Option ℕ) (w : net.World)
      → ((net.filter_add s k.ifindex program w).0 ≡ none)
        × (has_qdisc (net.filter_add s k.ifindex program w).1 ≡ has_qdisc w)
  pub deletes :
      (s : ℕ) (o : Option ℕ) (w : net.World)
      → ((net.qdisc_delete s o w).0 ≡ none) × (has_qdisc (net.qdisc_delete s o w).1 ≡ false)

module _ (net : Netlink) where
  add_classifier-count :
      (p : Classifier) (kernel : Takes net p.key) (v : CacheValue) (cache : NetlinkCache)
      (w : net.World)
      → let (e, (q, cache', w')) = add_classifier net v (p, cache, w) in
        (e ≡ none) × (count_of p.key cache' ≡ v.sched_cls_count + 1) × (kernel.has_qdisc w' ≡ true)
  unfolding add_classifier
  add_classifier-count p kernel v cache w =
      let (adds, there) = kernel.adds v.rt_netlink w in
      let w1 = (net.qdisc_add v.rt_netlink p.key.ifindex w).1 in
      let (filters, still) = kernel.filters v.rt_netlink p.program w1 in
      let counted = record v { sched_cls_count = v.sched_cls_count + 1 } in
      rw (add_classifier, adds, filters)
        (refl, count_of-set_value p.key counted cache, still ∙ there)

  -- The socket of an interface comes with its count.
  connection_cases :
      (p : Classifier) (kernel : Takes net p.key) (cache : NetlinkCache) (w : net.World)
      → (v : CacheValue) × (cache' : NetlinkCache) × (w' : net.World) × (connection net p.key cache
            w
          ≡ (none, v, cache', w'))
        × (v.sched_cls_count ≡ count_of p.key cache)
  unfolding connection new_netlink_connection
  connection_cases p kernel cache w = elim (Option-cases (find_value p.key cache)) [
    | inr (v, e) ↦ (v, cache, w, rw (connection, e) refl, rw (count_of, e) refl)
    | inl e ↦
        let (f, socket, w1) = net.open_socket p.key.netns w in
        let v : CacheValue = record { rt_netlink = socket; sched_cls_count = 0 } in
        (
          v,
          set_value p.key v cache,
          w1,
          rw (connection, e) (rw (new_netlink_connection, kernel.opens w) refl),
          rw (count_of, e) refl,
        )
  ]

  attach_tccls-add_classifier :
      (p : Classifier) (cache cache' : NetlinkCache) (w w' : net.World) (v : CacheValue)
      → (p.key.ifindex == 0) ≡ false
      → connection net p.key cache w ≡ (none, v, cache', w')
      → attach_tccls net (p, cache, w) ≡ add_classifier net v (p, cache', w')
  unfolding attach_tccls
  attach_tccls-add_classifier p cache cache' w w' v n c =
      rw (attach_tccls, n) (ap (λ (x : Fault × CacheValue × NetlinkCache × net.World). result x) c)
    where
      result :
          Fault × CacheValue × NetlinkCache × net.World
          → Fault × (Classifier × NetlinkCache × net.World)
      result (e, v, cache, w) = elim e [
        | some err ↦ (some err, (p, cache, w))
        | none ↦ add_classifier net v (p, cache, w)
      ]

  -- `attachTCCLS` counts one more, and the qdisc is there.
  pub attach_tccls-count :
      (p : Classifier) (kernel : Takes net p.key) (cache : NetlinkCache) (w : net.World)
      → (p.key.ifindex == 0) ≡ false
      → let (e, (q, cache', w')) = attach_tccls net (p, cache, w) in
        (e ≡ none)
        × (count_of p.key cache' ≡ count_of p.key cache + 1)
        × (kernel.has_qdisc w' ≡ true)
  attach_tccls-count p kernel cache w n =
      let (v, cache', w', c, counts) = connection_cases p kernel cache w in
      let (ok, count, there) = add_classifier-count p kernel v cache' w' in
      rw (attach_tccls-add_classifier p cache cache' w w' v n c)
        (ok, count ∙ ap (λ x. x + 1) counts, there)

  remove_classifier-count :
      (p : Classifier) (kernel : Takes net p.key) (v : CacheValue) (cache : NetlinkCache)
      (w : net.World)
      → 1 ≤ v.sched_cls_count
      → let (e, (q, cache', w')) = remove_classifier net v (p, cache, w) in
        (e ≡ none)
        × (2 ≤ v.sched_cls_count → (count_of p.key cache' + 1 ≡ v.sched_cls_count) × (w' ≡ w))
        × (v.sched_cls_count ≡ 1 → (cache' ≡ cache) × (kernel.has_qdisc w' ≡ false))
  unfolding remove_classifier
  remove_classifier-count p kernel v cache w h =
      let (deletes, gone) = kernel.deletes v.rt_netlink p.tc_object w in
      let counted : CacheValue = record {
        rt_netlink = v.rt_netlink;
        sched_cls_count = v.sched_cls_count - 1;
      } in
      let set = count_of-set_value p.key counted cache in
      elim (Bool-cases (leb 2 v.sched_cls_count)) [
        | inl b ↦
            rw (remove_classifier, b)
              (
                refl,
                (λ two. (ap (λ x. x + 1) set ∙ omega arith, refl)),
                (λ one. absurd (ground arith)),
              )
        | inr b ↦
            rw (remove_classifier, b, deletes)
              (refl, (λ two. absurd (ground arith)), (λ one. (refl, gone)))
      ]

  -- `detachTCCLS` counts one less while it counts more than one, and keeps the qdisc; otherwise it deletes the
  -- qdisc and keeps the count.
  pub detach_tccls-count :
      (p : Classifier) (kernel : Takes net p.key) (cache : NetlinkCache) (w : net.World)
      → 1 ≤ count_of p.key cache
      → let (e, (q, cache', w')) = detach_tccls net (p, cache, w) in
        let n = count_of p.key cache in
        (e ≡ none)
        × ((2 ≤ n) → (count_of p.key cache' + 1 ≡ n) × (w' ≡ w))
        × (n ≡ 1 → (count_of p.key cache' ≡ 1) × (kernel.has_qdisc w' ≡ false))
  unfolding detach_tccls remove_classifier
  detach_tccls-count p kernel cache w h = elim (Option-cases (find_value p.key cache)) [
    | inl e ↦ let z : 1 ≤ 0 = rw (count_of, e) at h in absurd (omega arith)
    | inr (v, e) ↦
        let counts : count_of p.key cache ≡ v.sched_cls_count = rw (count_of, e) refl in
        let (ok, shared, alone) = remove_classifier-count p kernel v cache w (omega arith) in
        rw (detach_tccls, e)
          (
            ok,
            (λ two. let (less, same) = shared (omega arith) in (less ∙ sym counts, same)),
            (λ one.
                let (same, gone) = alone (omega arith) in
                (ap (count_of p.key) same ∙ counts ∙ omega arith, gone)),
          )
  ]

  -- On a kernel that takes every classifier of an interface, a first classifier that is attached and detached
  -- takes the qdisc away, but one that is attached and detached after it leaves the qdisc there, as
  -- the cache counts two.
  pub reattached_keeps_qdisc :
      (p : Classifier) (kernel : Takes net p.key) (cache : NetlinkCache) (w : net.World)
      (first second : Option ℕ)
      → (p.key.ifindex == 0) ≡ false
      → count_of p.key cache ≡ 0
      → let (e1, (q1, c1, w1)) = attach_tccls net (p, cache, w) in
        let (e2, (q2, c2, w2)) = detach_tccls net (record p { tc_object = first }, c1, w1) in
        let (e3, (q3, c3, w3)) = attach_tccls net (p, c2, w2) in
        let (e4, (q4, c4, w4)) = detach_tccls net (record p { tc_object = second }, c3, w3) in
        (concat_errors (concat_errors e1 e2) (concat_errors e3 e4) ≡ none)
        × (kernel.has_qdisc w2 ≡ false)
        × (kernel.has_qdisc w4 ≡ true)
  unfolding concat_errors
  reattached_keeps_qdisc p kernel cache w first second n z =
      let (q1, c1, w1) = (attach_tccls net (p, cache, w)).1 in
      let (ok1, one, there) = attach_tccls-count p kernel cache w n in
      let (q2, c2, w2) = (detach_tccls net (record p { tc_object = first }, c1, w1)).1 in
      let (ok2, many2, alone) =
        detach_tccls-count (record p { tc_object = first }) kernel c1 w1 (omega arith) in
      let (still_one, gone) = alone (omega arith) in
      let (q3, c3, w3) = (attach_tccls net (p, c2, w2)).1 in
      let (ok3, two, there_again) = attach_tccls-count p kernel c2 w2 n in
      let (ok4, shared, alone4) =
        detach_tccls-count (record p { tc_object = second }) kernel c3 w3 (omega arith) in
      let (less, same) = shared (omega arith) in
      (rw (ok1, ok2, ok3, ok4) refl, gone, ap kernel.has_qdisc same ∙ there_again)
