-- ===== src/State/Changes/Inversion.antt =====
-- lineagetx/state.py: every operation of the store, returning or raising, leaves the store as it was
-- or makes the step of its call.
use data_lineage_fix_agent.Prelude.{◌≡◌, ◌⊎◌, inl, inr}
use data_lineage_fix_agent.State.Tables.{Store}
use data_lineage_fix_agent.State.Migrations.{
  arm_body, arm_publication_gate, reserve_body, reserve_abort_cleanup,
}
use data_lineage_fix_agent.State.Calls.{
  Call, create, arm, reserve, move_migration, abort, move_participant, approve, perform,
}
use data_lineage_fix_agent.State.Changes.{IsArmed, IsReserved, Effect}
use data_lineage_fix_agent.State.Changes.MigrationSteps.{
  from_body, transition_migration-IsMoved, arm_body-IsArmed, reserve_body-IsReserved,
  create_migration-IsCreated, abort_migration-IsAborted,
}
use data_lineage_fix_agent.State.Changes.ParticipantSteps.{
  transition_participant-IsParticipantMoved, record_approval-IsApproved,
}

pub perform-Effect : (c : Call) (s : Store) → (perform c s ≡ s) ⊎ Effect c s (perform c s)
unfolding perform
perform-Effect (create intent ps) s = create_migration-IsCreated intent ps s
perform-Effect (arm id version now) s =
    unfold arm_publication_gate in
    from_body (IsArmed id version now) (arm_body id version now) s (λ a t h.
      elim (arm_body-IsArmed id version now s a t h) [
        | inl (kept, _) ↦ inl kept
        | inr step ↦ inr step
      ])
perform-Effect (reserve id status version now) s =
    unfold reserve_abort_cleanup in
    from_body (IsReserved id status version now) (reserve_body id status version now) s (λ a t h.
      elim (reserve_body-IsReserved id status version now s a t h) [
        | inl (kept, _) ↦ inl kept
        | inr step ↦ inr step
      ])
perform-Effect (move_migration id m) s = transition_migration-IsMoved id m s
perform-Effect (abort id receipt status version now) s =
    abort_migration-IsAborted id receipt status version now s
perform-Effect (move_participant id m) s = transition_participant-IsParticipantMoved id m s
perform-Effect (approve receipt) s = record_approval-IsApproved receipt s
