-- ===== src/Policy/Context.antt =====
-- lineagetx/datahub_context.py: the frozen result of an impact discovery, as policy.py reads it, and
-- `_degree` of policy.py. A dict is the list of its entries; a float stands as its text.
use Prim.Native.Char.{Char}
use data_lineage_fix_agent.Prelude.{
  ℕ, ◌+◌, ◌*◌, String, Bool, Option, none, some, List, [], ◌∷◌, Result, ok, err, policy_violation,
  ◌==◌, if◌then◌else◌,
}
use data_lineage_fix_agent.Models.Runtime.{Scalar, Mapping}

pub record SchemaFieldSnapshot : Type 0 where
  pub field_path : String
  pub native_type : String
  pub nullable : Option Bool
  pub description : String

pub record GovernanceSnapshot : Type 0 where
  pub owner_urns : List String
  pub tag_urns : List String
  pub structured_properties : List (String × List String)

pub record AssetSnapshot : Type 0 where
  pub urn : String
  pub schema : List SchemaFieldSnapshot
  pub governance : GovernanceSnapshot

pub record ConsumerLineage : Type 0 where
  pub urn : String
  pub degree : String
  pub columns : List String
  pub path_evidence : List Mapping

pub record DataHubMigrationContext : Type 0 where
  pub source_urn : String
  pub source_column : String
  pub replacement_column : String
  pub source : AssetSnapshot
  pub consumers : List ConsumerLineage
  pub assets : List (String × AssetSnapshot)
  pub tool_traces : List Mapping
  pub transport : String
  pub discovery_complete : Bool
  pub impact_fingerprint : String

-- What the checks ask of Python: the decimal value of a character that `\d` matches, and `str(value)`.
pub record Interpreter : Type 0 where
  pub decimal : Char → Option ℕ
  pub str : Scalar → String

-- The run of digits after one more character.
abbrev digit_step : Option ℕ → Option ℕ → Option ℕ
digit_step run none = none
digit_step none (some d) = some d
digit_step (some n) (some d) = some (n * 10 + d)

-- `[int(x) for x in re.findall(r"\d+", value)]`, where `run` is the value of the run of digits that
-- has begun.
unfoldable pub findall_numbers : Interpreter → Option ℕ → String → List ℕ
findall_numbers py none String.[] = []
findall_numbers py (some n) String.[] = n ∷ []
findall_numbers py run (String.◌∷◌ c s) =
    let here = findall_numbers py (digit_step run (py.decimal c)) s in
    elim (py.decimal c) [ some d ↦ here | none ↦ elim run [ none ↦ here | some n ↦ n ∷ here ] ]

-- `_degree`
unfoldable pub degree : Interpreter → String → Result ℕ
degree py value = elim (findall_numbers py none value) [
  | [] ↦ err policy_violation
  | n ∷ [] ↦ ok n
  | _ ∷ _ ∷ _ ↦ err policy_violation
]

-- `context.assets.get(urn)`
unfoldable pub find_asset : String → List (String × AssetSnapshot) → Option AssetSnapshot
find_asset urn [] = none
find_asset urn ((k, a) ∷ rest) = if k == urn then some a else find_asset urn rest

-- `consumers_by_urn[urn]`, of consumers whose URNs are distinct
unfoldable pub find_consumer : String → List ConsumerLineage → Option ConsumerLineage
find_consumer urn [] = none
find_consumer urn (c ∷ cs) = if c.urn == urn then some c else find_consumer urn cs
