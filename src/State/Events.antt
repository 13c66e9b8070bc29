-- ===== src/State/Events.antt =====
-- lineagetx/state.py: `list_events`.
use data_lineage_fix_agent.Prelude.{
  String, true, false, List, [], ◌∷◌, Result, ok, migration_not_found, ◌>>◌, require, ◌==◌, leb,
  filter,
}
use data_lineage_fix_agent.State.Tables.{StateEvent, Store, find_migration}

unfoldable pub insert_event : StateEvent → List StateEvent → List StateEvent
insert_event e [] = e ∷ []
insert_event e (f ∷ fs) = elim (leb e.sequence f.sequence) [
  | true ↦ e ∷ f ∷ fs
  | false ↦ f ∷ insert_event e fs
]

-- ORDER BY sequence
unfoldable pub order_by_sequence : List StateEvent → List StateEvent
order_by_sequence [] = []
order_by_sequence (e ∷ es) = insert_event e (order_by_sequence es)

unfoldable pub list_events : String → Store → Result (List StateEvent)
list_events id s = do
  require (find_migration id s.migrations) migration_not_found
  ok (order_by_sequence (filter (λ e. e.migration_id == id) s.events))
