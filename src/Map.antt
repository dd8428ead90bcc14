-- ===== src/Map.antt =====
-- map.go: a map of a manager, how it is initialised, and when it is closed.
pub mod Clean
pub mod Category
pub mod Lifecycle
use Prim.Native.Nat.{bit_and}
use ebpfmanager.Common.{
  ℕ, Bool, true, false, ◌&&◌, ◌||◌, not, ◌==◌, if◌then◌else◌, String, str_eq, Option, none, some,
}
use Clean
use ebpfmanager.State.{State, reset, initialized, reached, before}
use ebpfmanager.Errors.{Fault, concat_errors, quoting, message, map_initialized, unknown_section}
use ebpfmanager.System.{System}

-- `Map`: the eBPF map and its spec are named by numbers.
pub record ManagedMap : Type 0 where
  pub array : Option ℕ
  pub array_spec : Option ℕ
  pub has_manager : Bool
  pub state : State
  pub external_map : Bool
  pub edited_map : Bool
  pub name : String
  pub pin_path : String
  pub always_cleanup : Bool

abbrev pub is_pinned : ManagedMap → Bool
is_pinned m = not (str_eq m.pin_path "")

-- `cleanup & flag == flag`
abbrev pub has_flag : ℕ → ℕ → Bool
has_flag cleanup flag = bit_and cleanup flag == flag

-- The tests of `close`, each of which sets `shouldClose`.
unfoldable pub should_close : ManagedMap → ℕ → Bool
should_close m cleanup =
    m.always_cleanup
    || (has_flag cleanup Clean.internal_pinned && (not m.external_map && is_pinned m))
    || (has_flag cleanup Clean.internal_not_pinned && (not m.external_map && not (is_pinned m)))
    || (has_flag cleanup Clean.external_pinned
        && (m.external_map && is_pinned m && not m.edited_map))
    || (has_flag cleanup Clean.external_edited
        && (m.external_map && not (is_pinned m) && m.edited_map))
    || (has_flag cleanup Clean.external_pinned_and_edited
        && (m.external_map && is_pinned m && m.edited_map))

unfoldable pub reset_map : ManagedMap → ManagedMap
reset_map m = record m {
  array = none;
  array_spec = none;
  has_manager = false;
  state = reset;
  external_map = false;
  edited_map = false;
}

module _ (sys : System) where
  remove_pin : String → sys.World → Fault × sys.World
  remove_pin path w = if str_eq path "" then (none, w) else sys.remove path w

  -- `close`: the error, the map and the world after it
  unfoldable pub close : ManagedMap → ℕ → sys.World → Fault × ManagedMap × sys.World
  unfolding remove_pin should_close reset_map
  close m cleanup w =
      let (e1, w1) = remove_pin m.pin_path w in
      let (e2, w2) = sys.close_map m.array w1 in
      let err = concat_errors e1 e2 in
      if should_close m cleanup
      then elim err [ none ↦ (none, reset_map m, w2) | some e ↦ (some e, m, w2) ]
      else (none, m, w)

  unfoldable pub close_checked : ManagedMap → ℕ → sys.World → Fault × ManagedMap × sys.World
  unfolding close
  close_checked m cleanup w =
      if before m.state initialized then (some map_initialized, m, w) else close m cleanup w

  unfoldable pub pin_new : ManagedMap → ℕ → sys.World → Fault × ManagedMap × sys.World
  pin_new m array w =
      let (e, w') = sys.pin_map array m.pin_path w in
      if str_eq m.pin_path ""
      then (none, record m { array = some array; state = initialized }, w)
      else elim e [
        | none ↦ (none, record m { array = some array; state = initialized }, w')
        | some err ↦ (some (quoting err), record m { array = some array }, w')
      ]

  unfoldable pub init_array :
      ManagedMap → Option ℕ → Option ℕ → sys.World → Fault × ManagedMap × sys.World
  unfolding pin_new
  init_array m (some array) found w = (none, record m { state = initialized }, w)
  init_array m none none w = (some (quoting unknown_section), m, w)
  init_array m none (some array) w = pin_new m array w

  -- `Init`; `found` is what the collection of the manager holds under the name of the map
  unfoldable pub init : ManagedMap → Option ℕ → sys.World → Fault × ManagedMap × sys.World
  unfolding init_array
  init m found w =
      if reached m.state initialized
      then (some map_initialized, m, w)
      else init_array (record m { has_manager = true }) m.array found w
