-- ===== src/Probe/Lifecycle.antt =====
-- What `Attach`, `Detach` and `Stop` of probe.go do to the state of a probe.
use text.Mathlib.Text.{starts_with}
use ebpfmanager.Common.{
  ◌+◌, ◌≡◌, ◌≢◌, ◌⊎◌, inl, inr, refl, Bool, true, false, not, none, some, arith, leb, ◌||◌,
  Bool-cases, if◌then◌else◌, ◌∙◌, ap,
}
use ebpfmanager.State.{reset, initialized, running, before, is_running}
use ebpfmanager.Errors.{Error, Fault, quoting, probe_not_initialized, section_format}
use ebpfmanager.System.{
  System, Request, link_uretprobe, link_uprobe, link_kretprobe, link_kprobe, link_cgroup,
  link_tracepoint, link_perf_event, link_raw_tracepoint, tc_attach, sock_attach, xdp_attach,
}
use ebpfmanager.Probe.{
  Probe, ProgramType, unspecified, kprobe, perf_event, tracepoint, cgroup, sock_ops, socket_filter,
  sched_cls, xdp, raw_tracepoint, other,
}
use ebpfmanager.Probe.Kinds.{
  uprobe_options, attach_by_type, keep_link, without_link, attach_uprobe, attach_kprobe,
  attach_cgroup, attach_tracepoint, attach_tccls, raw_tracepoint_name,
}
use ebpfmanager.Probe.Detach.{Retry, detach, stop_probe, stop}
use ebpfmanager.Probe.Attach.{attach_once, settle, attempt, forgive}

module _ (sys : System) where
  -- An attempt to attach changes no more of a probe than its link and its function name.
  abbrev pub SameButLink : Probe → Probe → Type 0
  SameButLink p q = q ≡ record p { link = q.link; func_name = q.func_name }

  keep_link-same :
      (r : Request) (p : Probe) (w : sys.World) → SameButLink p (keep_link sys r (p, w)).1.0
  unfolding keep_link
  keep_link-same r p w = ground arith

  without_link-same :
      (r : Request) (f : Error → Error) (p : Probe) (w : sys.World)
      → SameButLink p (without_link sys r f (p, w)).1.0
  unfolding without_link
  without_link-same r f p w = ground arith

  branches-same :
      (b : Bool) (p : Probe) (r s : Fault × (Probe × sys.World))
      → SameButLink p r.1.0
      → SameButLink p s.1.0
      → SameButLink p (if b then r else s).1.0
  branches-same true p r s h g = h
  branches-same false p r s h g = g

  attach_uprobe-same : (p : Probe) (w : sys.World) → SameButLink p (attach_uprobe sys (p, w)).1.0
  unfolding attach_uprobe
  attach_uprobe-same p w =
      let named = record p { func_name = p.attach_to_func_name } in
      let options = uprobe_options sys p in
      let request1 = link_uretprobe p.binary_path p.attach_to_func_name p.program options in
      let request2 = link_uprobe p.binary_path p.attach_to_func_name p.program options in
      branches-same (starts_with p.section "uretprobe/") p (keep_link sys request1 (named, w))
        (if starts_with p.section "uprobe/"
          then keep_link sys request2 (named, w)
          else (some (quoting section_format), (p, w)))
        (keep_link-same request1 named w)
        (branches-same (starts_with p.section "uprobe/") p (keep_link sys request2 (named, w))
          (some (quoting section_format), (p, w)) (keep_link-same request2 named w) refl)

  attach_kprobe-same : (p : Probe) (w : sys.World) → SameButLink p (attach_kprobe sys (p, w)).1.0
  unfolding attach_kprobe
  attach_kprobe-same p w = ground (
    arith,
    keep_link-same (link_kretprobe p.func_name p.program) p w,
    keep_link-same (link_kprobe p.func_name p.program) p w,
    attach_uprobe-same p w,
  )

  attach_cgroup-same : (p : Probe) (w : sys.World) → SameButLink p (attach_cgroup sys (p, w)).1.0
  unfolding attach_cgroup
  attach_cgroup-same p w =
      ground (arith, keep_link-same (link_cgroup p.cgroup_path p.attach_type p.program) p w)

  pub attach_by_type-same :
      (t : ProgramType) (p : Probe) (w : sys.World)
      → SameButLink p (attach_by_type sys t (p, w)).1.0
  unfolding attach_by_type attach_tracepoint attach_tccls
  attach_by_type-same unspecified p w = refl
  attach_by_type-same kprobe p w = attach_kprobe-same p w
  attach_by_type-same perf_event p w = keep_link-same (link_perf_event p.program) p w
  attach_by_type-same tracepoint p w =
      ground (arith, keep_link-same (link_tracepoint p.spec_section p.program) p w)
  attach_by_type-same cgroup p w = attach_cgroup-same p w
  attach_by_type-same sock_ops p w = attach_cgroup-same p w
  attach_by_type-same socket_filter p w =
      without_link-same (sock_attach p.socket_fd p.program) (λ e. e) p w
  attach_by_type-same sched_cls p w =
      ground (arith, without_link-same (tc_attach p.ifindex p.ifindex_netns p.program) quoting p w)
  attach_by_type-same xdp p w =
      without_link-same (xdp_attach p.ifindex p.program p.xdp_attach_mode) quoting p w
  attach_by_type-same raw_tracepoint p w =
      keep_link-same (link_raw_tracepoint (raw_tracepoint_name p.section) p.program) p w
  attach_by_type-same other p w = refl

pair_first {ℓ κ} :
    {A : Type ℓ} {B : Type κ} {a a' : A} {b : B} → a ≡ a' → ◌≡◌ {A = A × B} (a, b) (a', b)
pair_first {b} p = λ i. (p i, b)

module _ (sys : System) (retry : Retry) where
  stopped_state :
      (p : Probe) (w : sys.World)
      → p.state ≡ initialized
      → (stop_probe sys retry false (p, w)).1.0.state ≢ running
  unfolding stop_probe
  stopped_state p w s e = ground arith

  settle_cases :
      (err : Fault) (p : Probe) (w : sys.World)
      → p.state ≡ initialized
      → let (err', (p', w')) = settle sys retry err (p, w) in
        ((err' ≡ none) × (p'.state ≡ running))
        ⊎ ((e : Error) × (err' ≡ some (quoting e)) × (p'.state ≢ running))
  unfolding settle
  settle_cases none p w s = inl (refl, refl)
  settle_cases (some e) p w s = inr (e, refl, stopped_state (record p { last_error = some e }) w s)

  pub attach_once-settle :
      (p : Probe) (w : sys.World)
      → p.enabled ≡ true
      → p.state ≡ initialized
      → attach_once sys retry (p, w)
        ≡ settle sys retry
            (attach_by_type sys p.program_type (p, w)).0
            (attach_by_type sys p.program_type (p, w)).1
  unfolding attach_once
  attach_once-settle p w h s = ground arith

  -- `attach` on a probe that is enabled, initialised and does not run ends in one of two ways: with
  -- no error the probe runs; with one it does not run, and the error is a new one that quotes the
  -- cause.
  pub attach_once_cases :
      (p : Probe) (w : sys.World)
      → p.enabled ≡ true
      → p.state ≡ initialized
      → let (err, (p', w')) = attach_once sys retry (p, w) in
        ((err ≡ none) × (p'.state ≡ running))
        ⊎ ((e : Error) × (err ≡ some (quoting e)) × (p'.state ≢ running))
  unfolding attach_once
  attach_once_cases p w h s =
      let (err, (q, v)) = attach_by_type sys p.program_type (p, w) in
      rw (attach_once-settle p w h s) (
        settle_cases err q v
          (ap (λ (x : Probe). x.state) (attach_by_type-same sys p.program_type p w) ∙ s))

  settle_error :
      (err : Fault) (p : Probe) (w : sys.World)
      → (settle sys retry err (p, w)).0 ≡ elim err [ none ↦ none | some e ↦ some (quoting e) ]
  unfolding settle
  settle_error none p w = refl
  settle_error (some e) p w = refl

  forgive_settled :
      (permanent : Error → Bool) (err : Fault)
      → ((e : Error) → permanent (quoting e) ≡ false)
      → forgive sys retry permanent (elim err [ none ↦ none | some e ↦ some (quoting e) ])
        ≡ elim err [ none ↦ none | some e ↦ some (quoting e) ]
  unfolding forgive
  forgive_settled permanent none h = refl
  forgive_settled permanent (some e) h = rw (h e) refl

  attach_once_branches :
      (p : Probe) (w : sys.World)
      → ((attach_once sys retry (p, w)).0 ≡ none)
        ⊎ (((attach_once sys retry (p, w)).0 ≡ some probe_not_initialized)
            ⊎ ((attach_once sys retry (p, w)).0
                ≡ (settle sys retry
                    (attach_by_type sys p.program_type (p, w)).0
                    (attach_by_type sys p.program_type (p, w)).1).0))
  unfolding attach_once
  attach_once_branches p w = elim (Bool-cases (is_running p.state || not p.enabled)) [
    | inl e ↦ inl (rw e refl)
    | inr e ↦ elim (Bool-cases (before p.state initialized)) [
      | inl f ↦ inr (inl (rw e (rw f refl)))
      | inr f ↦ inr (inr (rw e (rw f refl)))
    ]
  ]

  -- Where the test for permanent errors fails on a new error that quotes another, and on
  -- `probe_not_initialized`, an attempt of `Attach` is one `attach`, with its error, whatever the
  -- error of the kernel.
  pub attempt_never_forgives :
      (permanent : Error → Bool) (p : Probe) (w : sys.World)
      → ((e : Error) → permanent (quoting e) ≡ false)
      → permanent probe_not_initialized ≡ false
      → let counted = record p { attach_retry_attempt = p.attach_retry_attempt + 1 } in
        attempt sys retry permanent (p, w) ≡ attach_once sys retry (counted, w)
  unfolding attempt
  attempt_never_forgives permanent p w h g =
      let counted = record p { attach_retry_attempt = p.attach_retry_attempt + 1 } in
      let r = attach_by_type sys p.program_type (counted, w) in
      elim (attach_once_branches counted w) [
        | inl e ↦ pair_first (rw e refl)
        | inr (inl e) ↦ pair_first (rw e (rw g refl))
        | inr (inr e) ↦
            pair_first (rw (e ∙ settle_error r.0 r.1.0 r.1.1) (forgive_settled permanent r.0 h))
      ]

  -- After `Detach` the probe is the same but for its state and its last error: with no error it does not
  -- run, unless it is disabled; an error leaves its state as it was and is its last error.
  pub detach_cases :
      (p : Probe) (w : sys.World)
      → let (err, (p', w')) = detach sys retry (p, w) in
        (((err ≡ none) × ((p'.state ≢ running) ⊎ (p.enabled ≡ false)))
          ⊎ ((err ≢ none) × (p'.state ≡ p.state) × (p'.last_error ≡ err)))
        × (p'.program ≡ p.program)
        × (p'.enabled ≡ p.enabled)
  unfolding detach
  detach_cases p w = ground arith

  -- `Stop` with no error leaves nothing behind once the attempts are used up, as they are after an
  -- attach that succeeded.
  pub stop_resets :
      (p : Probe) (w : sys.World)
      → (p.state ≡ running → leb p.probe_retry p.attach_retry_attempt ≡ true)
      → (stop sys retry (p, w)).0 ≡ none
      → let (err, (p', w')) = stop sys retry (p, w) in
        (p'.state ≡ reset)
        × (p'.program ≡ none)
        × (p'.link ≡ none)
        × (p'.uid ≡ p.uid)
        × (p'.enabled ≡ p.enabled)
  unfolding stop
  stop_resets p w h e = ground arith
