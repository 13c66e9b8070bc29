-- ===== src/Policy/Traces.antt =====
-- lineagetx/policy.py: the check of `validate_discovery` on the traces of the tool calls.
use data_lineage_fix_agent.Prelude.{
  String, Bool, true, false, not, Option, none, some, List, [], ◌∷◌, Result, policy_violation, ◌>>◌,
  guard, ◌==◌, ◌=ℕ◌, leb, count_where, subset,
}
use data_lineage_fix_agent.Models.Runtime.{Scalar, text, number, flag, texts, null, Mapping}
use data_lineage_fix_agent.Models.Intent.{get_item}
use data_lineage_fix_agent.Policy.Context.{Interpreter}

-- `bool(value)`
abbrev truthy : Scalar → Bool
truthy (text s) = not (s == "")
truthy (number n) = not (n =ℕ 0)
truthy (flag b) = b
truthy (texts []) = false
truthy (texts (_ ∷ _)) = true
truthy null = false

-- `str(value)`
abbrev as_text : Interpreter → Scalar → String
as_text py (text s) = s
as_text py v = py.str v

-- `item.get("tool")`
abbrev pub tool : Mapping → Option Scalar
tool = get_item "tool"

-- `{str(item.get("tool")) for item in traces if item.get("tool")}`
unfoldable pub tools : Interpreter → List Mapping → List String
tools py [] = []
tools py (t ∷ ts) = elim (tool t) [
  | none ↦ tools py ts
  | some v ↦ elim (truthy v) [ true ↦ as_text py v ∷ tools py ts | false ↦ tools py ts ]
]

-- `item.get("tool") == name`
abbrev is_call_of : String → Mapping → Bool
is_call_of name item = elim (tool item) [
  | none ↦ false
  | some v ↦ elim v [ text s ↦ s == name | _ ↦ false ]
]

abbrev required_tools : List String
required_tools =
    "list_schema_fields" ∷ "get_lineage" ∷ "get_entities" ∷ "get_lineage_paths_between" ∷ []

unfoldable pub check_traces : Interpreter → List Mapping → Result (Unit {0})
check_traces py traces = do
  guard (subset required_tools (tools py traces)) policy_violation
  guard (leb 4 (count_where (is_call_of "list_schema_fields") traces)) policy_violation
  guard (leb 3 (count_where (is_call_of "get_lineage_paths_between") traces)) policy_violation
