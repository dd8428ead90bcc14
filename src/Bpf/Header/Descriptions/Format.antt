-- ===== src/Bpf/Header/Descriptions/Format.antt =====
-- The form of a helper's description in the comment of bpf.h.
use ebpfmanager.Common.{
  not, Bool, String, str_eq, List, [], ◌∷◌, Option, none, some, any, if◌then◌else◌,
}

pub data ResultType : Type 0 where
  pointer int u32 u64 s64 nothing : ResultType

-- What a helper returns, its parameters, its purpose, a note on each parameter, and what its
-- result means where the comment says so.
pub record Description : Type 0 where
  pub result : ResultType
  pub name : String
  pub parameters : List String
  pub variadic : Bool
  pub purpose : String
  pub notes : List (String × String)
  pub returns : Option String

abbrev pub describe :
    ResultType
    → String
    → List String
    → Bool
    → String
    → List (String × String)
    → Option String
    → Description
describe result name parameters variadic purpose notes returns = record {
  result = result;
  name = name;
  parameters = parameters;
  variadic = variadic;
  purpose = purpose;
  notes = notes;
  returns = returns;
}

-- The notes speak of parameters of the helper.
abbrev pub notes_fit : Description → Bool
notes_fit d = not (any (λ n. not (any (λ p. str_eq p n.0) d.parameters)) d.notes)

abbrev pub find_description : String → List Description → Option Description
find_description name [] = none
find_description name (d ∷ ds) = if str_eq d.name name then some d else find_description name ds
