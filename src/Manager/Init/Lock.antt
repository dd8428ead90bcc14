-- ===== src/Manager/Init/Lock.antt =====
-- `stateLock` over `InitWithOptions`, and what a call that succeeds has checked.
use ebpfmanager.Common.{
  ℕ, ◌≡◌, inl, inr, Bool, true, false, ◌&&◌, ◌||◌, not, Option, none, some, if◌then◌else◌, ap,
  arith,
}
use ebpfmanager.State.{initialized, before}
use ebpfmanager.Errors.{Fault}
use ebpfmanager.Manager.{Manager, sanity_check, check_fields}
use ebpfmanager.Manager.Init.{Options, init_specs, init_collection, init_held, init_locked, failure}

abbrev failed : Fault → Bool
failed none = false
failed (some e) = true

abbrev parsed : Options → Bool
parsed o = elim o.loaded [ inl e ↦ false | inr x ↦ true ]

-- The two returns of `InitWithOptions` that lack an `Unlock`.
abbrev pub stays_locked : Options → Manager → Bool
stays_locked o m =
    not (before initialized m.state)
    && not (failed (sanity_check m))
    && (failed (failure o.rlimit) || (parsed o && failed (check_fields m.probes)))

init_specs_unlocked :
    (copy : Option ℕ → Option ℕ) (m : Manager) → (init_specs copy m).1.locked ≡ false
unfolding init_specs
init_specs_unlocked copy m = ground arith

init_collection_lock :
    (copy : Option ℕ → Option ℕ) (o : Options) (m : Manager)
    → m.locked ≡ true
    → (init_collection copy o m).1.locked ≡ (parsed o && failed (check_fields m.probes))
unfolding init_collection
init_collection_lock copy o m h = grind (arith, init_specs_unlocked, h)

held_lock :
    (copy : Option ℕ → Option ℕ) (o : Options) (m : Manager)
    → (init_held copy o m).1.locked ≡ stays_locked o m
unfolding init_held
held_lock copy o m = ground (
  arith,
  init_collection_lock copy o (record m {
    locked = true;
    activated_probes = o.activated;
    excluded_ebpf_funcs = o.excluded;
  }),
)

-- A call that finds the lock free returns, and leaves the lock held exactly if the manager does not
-- run, passes the sanity check, and fails in `Setrlimit` or, after the ELF file is parsed, in
-- `checkField`. A call after it waits exactly then.
pub init_locked-stays_locked :
    (copy : Option ℕ → Option ℕ) (o o' : Options) (m : Manager)
    → m.locked ≡ false
    → (init_locked copy o m ≡ some (init_held copy o m))
      × ((init_held copy o m).1.locked ≡ stays_locked o m)
      × (init_locked copy o' (init_held copy o m).1
          ≡ (if stays_locked o m then none else some (init_held copy o' (init_held copy o m).1)))
unfolding init_locked
init_locked-stays_locked copy o o' m h = (
  ground (arith, h),
  held_lock copy o m,
  ap (λ c. if c then none else some (init_held copy o' (init_held copy o m).1))
      (held_lock copy o m),
)
