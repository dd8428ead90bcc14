-- ===== src/Probe/Traffic.antt =====
-- `attachTCCLS` and `detachTCCLS` of probe.go, with the cache of netlink sockets of manager.go.
pub mod Counting
use ebpfmanager.Common.{
  ℕ, ◌+◌, ◌-◌, Bool, true, false, ◌&&◌, not, String, str_eq, List, [], ◌∷◌, ◌++◌, Option, none,
  some, ◌==◌, leb, if◌then◌else◌,
}
use ebpfmanager.Errors.{Error, Fault, quoting, message, interface_not_set}

-- `netlinkCacheKey` and `netlinkCacheValue`; a socket is a number.
pub record CacheKey : Type 0 where
  pub ifindex : ℕ
  pub netns : ℕ

pub record CacheValue : Type 0 where
  pub rt_netlink : ℕ
  pub sched_cls_count : ℕ

abbrev pub NetlinkCache : Type 0
NetlinkCache = List (CacheKey × CacheValue)

abbrev pub same_key : CacheKey → CacheKey → Bool
same_key a b = a.ifindex == b.ifindex && a.netns == b.netns

unfoldable pub find_value : CacheKey → NetlinkCache → Option CacheValue
find_value k [] = none
find_value k ((l, v) ∷ rest) = if same_key l k then some v else find_value k rest

unfoldable pub set_value : CacheKey → CacheValue → NetlinkCache → NetlinkCache
set_value k v [] = (k, v) ∷ []
set_value k v ((l, u) ∷ rest) =
    let rest' = set_value k v rest in if same_key l k then (l, v) ∷ rest else (l, u) ∷ rest'

-- The calls of the netlink library: opening a socket in a namespace, adding the qdisc of an interface or a
-- filter with a program to it, and deleting a qdisc; `is_exists` tells the error that it is there.
pub record Netlink : Type 1 where
  pub World : Type 0
  pub open_socket : ℕ → World → Fault × ℕ × World
  pub qdisc_add : ℕ → ℕ → World → Fault × World
  pub filter_add : ℕ → ℕ → Option ℕ → World → Fault × World
  pub qdisc_delete : ℕ → Option ℕ → World → Fault × World
  pub is_exists : Error → Bool

-- What the two functions read of a probe, and its `tcObject`, the interface of a qdisc.
pub record Classifier : Type 0 where
  pub key : CacheKey
  pub ifname : String
  pub program : Option ℕ
  pub tc_object : Option ℕ

module _ (net : Netlink) where
  abbrev pub Traffic : Type 0
  Traffic = Classifier × NetlinkCache × net.World

  -- `newNetlinkConnection`
  unfoldable pub new_netlink_connection :
      CacheKey → NetlinkCache → net.World → Fault × CacheValue × NetlinkCache × net.World
  unfolding set_value
  new_netlink_connection k cache w =
      let (e, socket, w') = net.open_socket k.netns w in
      let v : CacheValue = record { rt_netlink = socket; sched_cls_count = 0 } in
      elim e [
        | none ↦ (none, v, set_value k v cache, w')
        | some err ↦ (some (quoting err), v, cache, w')
      ]

  -- The socket of an interface, from the cache or new.
  unfoldable pub connection :
      CacheKey → NetlinkCache → net.World → Fault × CacheValue × NetlinkCache × net.World
  unfolding find_value new_netlink_connection
  connection k cache w = elim (find_value k cache) [
    | some v ↦ (none, v, cache, w)
    | none ↦ new_netlink_connection k cache w
  ]

  -- An error of adding the qdisc, unless it is there.
  unfoldable pub forgive_exists : Fault → Fault
  forgive_exists none = none
  forgive_exists (some e) = if net.is_exists e then none else some e

  -- `attachTCCLS` from where it has a socket
  unfoldable pub add_classifier : CacheValue → Traffic → Fault × Traffic
  unfolding forgive_exists set_value
  add_classifier v (p, cache, w) =
      let (e1, w1) = net.qdisc_add v.rt_netlink p.key.ifindex w in
      let (e2, w2) = net.filter_add v.rt_netlink p.key.ifindex p.program w1 in
      let counted = record v { sched_cls_count = v.sched_cls_count + 1 } in
      elim (forgive_exists e1) [
        | some err ↦ (some (quoting err), (p, cache, w1))
        | none ↦ elim e2 [
          | some err ↦ (some (quoting err), (p, cache, w2))
          | none ↦ (
            none,
            (record p { tc_object = some p.key.ifindex }, set_value p.key counted cache, w2),
          )
        ]
      ]

  -- `attachTCCLS`
  unfoldable pub attach_tccls : Traffic → Fault × Traffic
  unfolding connection add_classifier
  attach_tccls (p, cache, w) =
      let (e, v, cache', w') = connection p.key cache w in
      if p.key.ifindex == 0 && str_eq p.ifname ""
      then (some interface_not_set, (p, cache, w))
      else elim e [
        | some err ↦ (some err, (p, cache', w'))
        | none ↦ add_classifier v (p, cache', w')
      ]

  -- `detachTCCLS` with the socket from the cache
  unfoldable pub remove_classifier : CacheValue → Traffic → Fault × Traffic
  unfolding set_value
  remove_classifier v (p, cache, w) =
      let (e, w') = net.qdisc_delete v.rt_netlink p.tc_object w in
      let counted = record v { sched_cls_count = v.sched_cls_count - 1 } in
      if leb 2 v.sched_cls_count then (none, (p, set_value p.key counted cache, w)) else elim e [
        | none ↦ (none, (p, cache, w'))
        | some err ↦ (some (quoting err), (p, cache, w'))
      ]

  -- `detachTCCLS`
  unfoldable pub detach_tccls : Traffic → Fault × Traffic
  unfolding find_value remove_classifier
  detach_tccls (p, cache, w) = elim (find_value p.key cache) [
    | none ↦ (some (message "couldn't find qdisc"), (p, cache, w))
    | some v ↦ remove_classifier v (p, cache, w)
  ]
