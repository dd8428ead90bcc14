-- ===== src/Manager/Hooks/Cloning.antt =====
-- `CloneProgram` of manager.go, and `rewriteMaps`, which it calls.
pub mod Attached
use ebpfmanager.Common.{ℕ, Bool, true, false, String, List, [], ◌∷◌, Option, none, some}
use ebpfmanager.Errors.{
  Error, Fault, quoting, message, unknown_match_func_spec, identification_pair_in_use,
}
use ebpfmanager.System.{System}
use ebpfmanager.Editor.{Instructions, ConstantEditor, edit_constant, done, failed, panic}
use ebpfmanager.Probe.{Probe, ProbeIdentificationPair, get_identification_pair}
use ebpfmanager.Probe.Kinds.{Step}
use ebpfmanager.Probe.Detach.{Retry}
use ebpfmanager.Probe.Attach.{attach}
use ebpfmanager.Probe.Init.{Loader, ProbeOptions, init_with_options, and_then}
use ebpfmanager.Manager.Routes.{Loaded, Collection, Outcome, returned, panicked, get_program}
use ebpfmanager.Manager.Hooks.Adding.{get_program_spec, or_stop, add_probe}

-- The library's specs of programs, which stand in the world: `Copy`, the field `Instructions`, and
-- `AssociateMap`, which changes the instructions in place.
pub record ProgramSpecs (sys : System) : Type 0 where
  pub copy : Option ℕ → sys.World → Option ℕ × sys.World
  pub instructions : ℕ → sys.World → Instructions
  pub set_instructions : ℕ → Instructions → sys.World → sys.World
  pub associate_map : String → ℕ → Instructions → Fault × Instructions
  pub ld_dw_imm : ℕ
  pub reference_offsets : Instructions → String → List ℕ

-- The second call, unless the first one panics or returns an error.
abbrev pub and_next : {W : Type 0} → Outcome W → (W → Outcome W) → Outcome W
and_next panicked g = panicked
and_next (returned (some e) w) g = returned (some e) w
and_next (returned none w) g = g w

abbrev pub quote_error : {W : Type 0} → Outcome W → Outcome W
quote_error panicked = panicked
quote_error (returned none w) = returned none w
quote_error (returned (some e) w) = returned (some (quoting e)) w

module _ (sys : System) (specs : ProgramSpecs sys) where
  -- The loop over the constant editors; `spec` is the spec of the new probe, and nil has no instructions.
  unfoldable pub edit_constants : Option ℕ → List ConstantEditor → sys.World → Outcome sys.World
  unfolding edit_constant
  edit_constants spec [] w = returned none w
  edit_constants none (e ∷ es) w = panicked
  edit_constants (some s) (e ∷ es) w =
      elim (edit_constant specs.ld_dw_imm specs.reference_offsets e (specs.instructions s w)) [
        | done insns ↦ edit_constants (some s) es (specs.set_instructions s insns w)
        | failed err insns ↦
            returned (some (quoting (message e.name))) (specs.set_instructions s insns w)
        | panic insns ↦ panicked
      ]

  -- `rewriteMaps`, over the maps in the order in which Go takes them.
  unfoldable pub rewrite_maps : Option ℕ → List (String × ℕ) → sys.World → Outcome sys.World
  rewrite_maps spec [] w = returned none w
  rewrite_maps none ((symbol, array) ∷ rest) w = panicked
  rewrite_maps (some s) ((symbol, array) ∷ rest) w =
      let (e, insns) = specs.associate_map symbol array (specs.instructions s w) in
      let w' = specs.set_instructions s insns w in
      elim e [ some err ↦ returned (some (quoting err)) w' | none ↦ rewrite_maps (some s) rest w' ]

  -- The maps of the collection, which can be nil.
  unfoldable pub rewrite_current : Option ℕ → Option Collection → sys.World → Outcome sys.World
  unfolding rewrite_maps
  rewrite_current spec none w = panicked
  rewrite_current spec (some c) w = quote_error (rewrite_maps spec c.maps w)

  -- All changes of the copied spec.
  unfoldable pub edit_clone :
      Option ℕ
      → List ConstantEditor
      → Option Collection
      → List (String × ℕ)
      → sys.World
      → Outcome sys.World
  unfolding edit_constants rewrite_current rewrite_maps
  edit_clone spec constants collection maps w = and_next (edit_constants spec constants w) (λ w1.
      and_next (rewrite_current spec collection w1) (λ w2. quote_error (rewrite_maps spec maps w2)))

module _ (sys : System) (loader : Loader sys) (o : ProbeOptions) (retry : Retry)
    (permanent : Error → Bool) where
  -- `CloneProgram` from where the spec of the new probe is edited
  unfoldable pub start_clone : Step sys
  unfolding or_stop init_with_options attach
  start_clone =
      and_then sys loader o
        (or_stop sys loader o retry permanent (init_with_options sys loader o true true))
        (or_stop sys loader o retry permanent (attach sys retry permanent))

  -- The new probe with the spec `cloned`, once that is edited with this result.
  unfoldable pub add_clone : Loaded → Probe → Outcome sys.World → Outcome (Loaded × sys.World)
  unfolding start_clone add_probe
  add_clone m new panicked = panicked
  add_clone m new (returned (some err) w1) = returned (some err) (m, w1)
  add_clone m new (returned none w1) =
      let (e, m', w2) = add_probe sys loader o retry permanent m (start_clone (new, w1)) in
      returned e (m', w2)

  -- `CloneProgram`
  unfoldable pub clone_program :
      ProgramSpecs sys
      → String
      → Probe
      → List ConstantEditor
      → List (String × ℕ)
      → Loaded
      → sys.World
      → Outcome (Loaded × sys.World)
  unfolding add_clone edit_clone get_program_spec get_program
  clone_program specs uid new constants maps m w =
      let old : ProbeIdentificationPair = record {
        uid = uid;
        ebpf_func_name = new.ebpf_func_name;
      } in
      let (e, found) = get_program_spec o m old in
      elim e [
        | some err ↦ returned (some err) (m, w)
        | none ↦ elim found [
          | none ↦ returned (some (quoting unknown_match_func_spec)) (m, w)
          | some spec ↦ elim (get_program m (get_identification_pair new)).1 [
            | some p ↦ returned (some (quoting identification_pair_in_use)) (m, w)
            | none ↦
                let (cloned, w1) = specs.copy spec w in
                add_clone m (record new { enabled = true; program_spec = cloned })
                  (edit_clone sys specs cloned constants m.collection maps w1)
          ]
        ]
      ]
