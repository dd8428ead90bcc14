-- ===== src/Manager/Updating.antt =====
-- `UpdateActivatedProbes` of manager.go. Probes are pointed to by their index in the list, and the maps
-- that it loops over, in an order that Go leaves open, are lists of entries.
pub mod Entries
pub mod Loops
pub mod Effect
use ebpfmanager.Common.{
  ℕ, zero, suc, Bool, true, false, List, [], ◌∷◌, ◌++◌, Option, none, some, any, if◌then◌else◌,
}
use ebpfmanager.Errors.{Error, Fault, quoting}
use ebpfmanager.System.{System}
use ebpfmanager.Probe.{
  Probe, ProbeIdentificationPair, matches, get_identification_pair, identification_pair_matches,
}
use ebpfmanager.Probe.Kinds.{Step}
use ebpfmanager.Probe.Detach.{Retry, detach}
use ebpfmanager.Probe.Attach.{attach}
use ebpfmanager.Probe.Init.{Loader, ProbeOptions, init, and_then}
use ebpfmanager.Selectors.{Selector, get_probes_identification_pair_list}
use ebpfmanager.Manager.Routes.{Outcome, returned, panicked}
use ebpfmanager.Manager.Run.{Fleet, validate_all, undo}

abbrev pub Entries : Type 0
Entries = List (ProbeIdentificationPair × ℕ)

-- `currentProbes[id] = p`
unfoldable pub assign : ProbeIdentificationPair → ℕ → Entries → Entries
assign id i [] = (id, i) ∷ []
assign id i ((k, j) ∷ es) =
    let rest = assign id i es in if matches k id then (id, i) ∷ es else (k, j) ∷ rest

-- The enabled probes, from the one with this index on.
unfoldable pub current_probes : ℕ → List Probe → Entries → Entries
unfolding assign
current_probes i [] es = es
current_probes i (p ∷ ps) es =
    current_probes (suc i) ps (if p.enabled then assign (get_identification_pair p) i es else es)

abbrev pub has_key : ProbeIdentificationPair → Entries → Bool
has_key id es = any (λ e. matches e.0 id) es

-- `delete(currentProbes, id)`
unfoldable pub remove_key : ProbeIdentificationPair → Entries → Entries
remove_key id [] = []
remove_key id ((k, j) ∷ es) =
    let rest = remove_key id es in if matches k id then rest else (k, j) ∷ rest

-- The keys of `nextProbes`.
unfoldable pub add_ids :
    List ProbeIdentificationPair → List ProbeIdentificationPair → List ProbeIdentificationPair
add_ids [] set = set
add_ids (id ∷ ids) set = add_ids ids (if any (λ k. matches k id) set then set else set ++ id ∷ [])

unfoldable pub next_probes :
    List Selector → List ProbeIdentificationPair → List ProbeIdentificationPair
unfolding add_ids get_probes_identification_pair_list
next_probes [] set = set
next_probes (s ∷ ss) set = next_probes ss (add_ids (get_probes_identification_pair_list s) set)

-- Where `GetProbe` finds its probe.
unfoldable pub index_of : ProbeIdentificationPair → List Probe → Option ℕ
index_of id [] = none
index_of id (p ∷ ps) =
    let rest = index_of id ps in
    if identification_pair_matches p id
    then some zero
    else elim rest [ none ↦ none | some i ↦ some (suc i) ]

module _ (sys : System) where
  -- A step of the probe with an index.
  unfoldable pub update_at :
      ℕ → Step sys → List Probe × sys.World → Fault × (List Probe × sys.World)
  update_at i f ([], w) = (none, ([], w))
  update_at zero f (p ∷ ps, w) = let (e, (p', w')) = f (p, w) in (e, (p' ∷ ps, w'))
  update_at (suc i) f (p ∷ ps, w) = let (e, (ps', w')) = update_at i f (ps, w) in (e, (p ∷ ps', w'))

  module _ (loader : Loader sys) (o : ProbeOptions) (retry : Retry) (permanent : Error → Bool) where
    unfoldable pub enable_probe : Step sys
    unfolding init attach
    enable_probe (p, w) =
        and_then sys loader o (init sys loader o) (attach sys retry permanent)
          (record p { enabled = true }, w)

    unfoldable pub disable_probe : Step sys
    unfolding detach
    disable_probe (p, w) =
        let (e, (p', w')) = detach sys retry (p, w) in
        elim e [
          | none ↦ (none, (record p' { enabled = false }, w'))
          | some err ↦ (some err, (p', w'))
        ]

    -- The loop over `nextProbes`; a pair that no probe has is a nil pointer.
    unfoldable pub enable_all :
        List ProbeIdentificationPair
        → Entries
        → List Probe × sys.World
        → Outcome (Entries × (List Probe × sys.World))
    unfolding remove_key index_of update_at enable_probe
    enable_all [] es s = returned none (es, s)
    enable_all (id ∷ ids) es (ps, w) =
        if has_key id es then enable_all ids (remove_key id es) (ps, w) else elim (index_of id ps) [
          | none ↦ panicked
          | some i ↦
              let (e, s') = update_at i enable_probe (ps, w) in
              elim e [ none ↦ enable_all ids es s' | some err ↦ returned (some err) (es, s') ]
        ]

    -- The loop over what is left of `currentProbes`.
    unfoldable pub disable_all : Entries → List Probe × sys.World → Fault × (List Probe × sys.World)
    unfolding update_at disable_probe
    disable_all [] s = (none, s)
    disable_all ((k, i) ∷ es) s =
        let (e, s') = update_at i disable_probe s in
        elim e [ none ↦ disable_all es s' | some err ↦ (some err, s') ]

    -- The orders of the two loops, and what `Stop` closes besides.
    module _ (order : List ProbeIdentificationPair → List ProbeIdentificationPair)
        (order_left : Entries → Entries) (close_rest route : sys.World → Fault × sys.World) where
      unfoldable pub check_activation : Fleet → sys.World → Outcome (Fleet × sys.World)
      unfolding validate_all undo
      check_activation f w = elim (validate_all f.probes f.activated_probes) [
        | none ↦ returned none (f, w)
        | some err ↦
            let (e', f', w') = undo sys retry close_rest route (quoting err) f w in
            returned e' (f', w')
      ]

      unfoldable pub disable_left :
          List Selector
          → Fleet
          → Fault
          → Entries × (List Probe × sys.World)
          → Outcome (Fleet × sys.World)
      unfolding disable_all check_activation
      disable_left ss f (some err) (es, (ps, w)) = returned (some err) (record f { probes = ps }, w)
      disable_left ss f none (es, s) =
          let (e, (ps, w)) = disable_all (order_left es) s in
          elim e [
            | some err ↦ returned (some err) (record f { probes = ps }, w)
            | none ↦ check_activation (record f { probes = ps; activated_probes = ss }) w
          ]

      -- `UpdateActivatedProbes`
      unfoldable pub update_activated_probes :
          List Selector → Fleet → sys.World → Outcome (Fleet × sys.World)
      unfolding enable_all disable_left next_probes current_probes
      update_activated_probes ss f w =
          elim (enable_all (order (next_probes ss [])) (current_probes zero f.probes [])
            (f.probes, w)) [ panicked ↦ panicked | returned e s ↦ disable_left ss f e s ]
