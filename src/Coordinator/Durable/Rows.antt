-- ===== src/Coordinator/Durable/Rows.antt =====
-- lineagetx/coordinator.py: the row that a statement has read or written, kept by those that follow.
use data_lineage_fix_agent.State.Migrations.{get_migration}
use data_lineage_fix_agent.Coordinator.Runs.{query, lift}
use data_lineage_fix_agent.State.Calls.{IsPermitted}
use data_lineage_fix_agent.State.Terminal.{perform-terminal}
use data_lineage_fix_agent.Coordinator.Gains.{lift-Gains, Gains}
use data_lineage_fix_agent.State.Participants.{is_terminal}
use data_lineage_fix_agent.Coordinator.World.{History, Services}
use data_lineage_fix_agent.Coordinator.Safety.Sound.{IsSound-map, query-Gains, IsSound, IsStable}
use data_lineage_fix_agent.Models.Status.{same_status_eq, same_status, MigrationStatus}
use data_lineage_fix_agent.State.Tables.{find_migration, MigrationRecord, Store}
use data_lineage_fix_agent.Prelude.{
  guard, String, ◌≡◌, refl, ap, ◌∙◌, true, some, Exception, All, arith,
}

-- The row is on record, at a status.
abbrev pub IsAt : String → MigrationStatus → MigrationRecord → Store → Type 0
IsAt id status m s = (find_migration id s.migrations ≡ some m) × (m.status ≡ status)

IsAt-IsStable :
    (id : String) (status : MigrationStatus) (m : MigrationRecord)
    → is_terminal status ≡ true
    → IsStable (IsAt id status m)
IsAt-IsStable id status m terminal c s h =
    (perform-terminal id m (ap is_terminal h.1 ∙ terminal) c s h.0, h.1)

module _ (id : String) (R : Store → Type 0) (stable : IsStable R) (sv : Services)
    (permitted : (h : History) → All IsPermitted (sv.others h)) where
  -- `get_migration` returns the row on record.
  pub get_row-Gains :
      Gains
        (IsSound id R)
        (λ m. IsSound id (λ s. find_migration id s.migrations ≡ some m))
        (query sv (get_migration id))
  unfolding get_migration
  get_row-Gains =
      query-Gains id R stable sv permitted (λ m s. find_migration id s.migrations ≡ some m) _
        (λ s m h. ground (arith, h))

-- A check of the status of a row.
pub check_row-Gains :
    (id : String) (status : MigrationStatus) (m : MigrationRecord) (e : Exception)
    → Gains
        (IsSound id (λ s. find_migration id s.migrations ≡ some m))
        (λ _. IsSound id (IsAt id status m))
        (lift (guard (same_status m.status status) e))
check_row-Gains id status m e = lift-Gains _ (λ a passed w h.
    IsSound-map id _ (IsAt id status m) w
      (λ s found. (found, same_status_eq m.status status (ground (arith, passed)))) h)

-- COMMITTED and ABORTED stay.
pub committed-IsStable :
    (id : String) (m : MigrationRecord) → IsStable (IsAt id MigrationStatus.committed m)
unfolding is_terminal same_status
committed-IsStable id m = IsAt-IsStable id MigrationStatus.committed m refl

pub aborted-IsStable :
    (id : String) (m : MigrationRecord) → IsStable (IsAt id MigrationStatus.aborted m)
unfolding is_terminal same_status
aborted-IsStable id m = IsAt-IsStable id MigrationStatus.aborted m refl
