-- ===== src/State/Changes/ParticipantSteps.antt =====
-- lineagetx/state.py: an operation on a participant that changes the store makes its step.
use data_lineage_fix_agent.Prelude.{
  String, ◌≡◌, refl, sym, ◌∙◌, ◌⊎◌, inl, inr, some, Result, ok, err, arith, eq_of_==, Option-cases,
}
use data_lineage_fix_agent.Models.Status.{
  ParticipantStatus, ParticipantKind, same_participant_status_eq, same_kind_eq,
}
use data_lineage_fix_agent.Models.Participants.{Participant, new-keeps}
use data_lineage_fix_agent.Models.Receipts.{ApprovalReceipt}
use data_lineage_fix_agent.State.Tables.{ParticipantRow, Store, find_migration, find_participant}
use data_lineage_fix_agent.State.Participants.{
  transition_participant, join_participant, participant_from_row,
}
use data_lineage_fix_agent.State.Participants as P
use data_lineage_fix_agent.State.Approvals.{approval_body, record_approval}
use data_lineage_fix_agent.State.Changes.{IsParticipantMoved, IsApproved}
use data_lineage_fix_agent.State.Changes.MigrationSteps.{from_body}

from_row-keeps :
    (row : ParticipantRow) {p : Participant}
    → participant_from_row row ≡ ok p
    → (p.kind ≡ row.participant_json.kind) × (p.owner_urns ≡ row.participant_json.owner_urns)
unfolding participant_from_row
from_row-keeps row h = let kept = new-keeps _ h in (kept.0, kept.1)

module _ (id : String) (s : Store) where
  join_participant-some :
      (j : P.Joined)
      → join_participant id s ≡ some j
      → (find_participant id s.participants ≡ some j.row)
        × (find_migration j.row.migration_id s.migrations ≡ some j.migration)
  unfolding join_participant
  join_participant-some j h = elim (Option-cases (find_participant id s.participants)) [
    | inl e ↦ absurd (ground arith)
    | inr (row, found) ↦ elim (Option-cases (find_migration row.migration_id s.migrations)) [
      | inl e ↦ absurd (ground arith)
      | inr (migration, parent) ↦ (ground arith, ground arith)
    ]
  ]

module _ (id : String) (m : P.Move) (s : Store) where
  move_body-IsParticipantMoved :
      (p : Participant) (t : Store) → P.move_body id m s ≡ ok (p, t) → IsParticipantMoved id m s t
  unfolding P.move_body
  move_body-IsParticipantMoved p t h = elim (Option-cases (join_participant id s)) [
    | inl e ↦ absurd (ground arith)
    | inr (j, joined) ↦
        go j joined (P.next_sha m.candidate_commit_sha j.row.participant_json.candidate_commit_sha)
          refl
  ]
    where
      go :
          (j : P.Joined)
          → join_participant id s ≡ some j
          → (r : Result String)
          → P.next_sha m.candidate_commit_sha j.row.participant_json.candidate_commit_sha ≡ r
          → IsParticipantMoved id m s t
      go j joined (err e) c = absurd (ground arith)
      go j joined (ok sha) c = record {
        row = j.row;
        migration = j.migration;
        sha = sha;
        found = (join_participant-some id s j joined).0;
        parent = (join_participant-some id s j joined).1;
        live = ground arith;
        expected = same_participant_status_eq _ _ (ground arith);
        fresh = ground arith;
        allowed = ground arith;
        chosen = c;
        proved = ground arith;
        after = ground arith;
      }

  pub transition_participant-IsParticipantMoved :
      ((transition_participant id m s).1 ≡ s)
      ⊎ IsParticipantMoved id m s (transition_participant id m s).1
  unfolding transition_participant
  transition_participant-IsParticipantMoved =
      from_body (IsParticipantMoved id m) (P.move_body id m) s
        (λ p t h. inr (move_body-IsParticipantMoved p t h))

approval_body-IsApproved :
    (receipt : ApprovalReceipt) (s : Store) (a : Unit {0}) (t : Store)
    → approval_body receipt s ≡ ok (a, t)
    → IsApproved receipt s t
unfolding approval_body
approval_body-IsApproved receipt s a t h =
    elim (Option-cases (join_participant receipt.participant_id s)) [
      | inl e ↦ absurd (ground arith)
      | inr (j, joined) ↦ go j joined (participant_from_row j.row) refl
    ]
  where
    go :
        (j : P.Joined)
        → join_participant receipt.participant_id s ≡ some j
        → (r : Result Participant) → participant_from_row j.row ≡ r
        → IsApproved receipt s t
    go j joined (err e) c = absurd (ground arith)
    go j joined (ok p) c =
        let parts = join_participant-some receipt.participant_id s j joined in
        let kept = from_row-keeps j.row c in
        let belongs : j.row.migration_id ≡ receipt.migration_id = eq_of_== _ _ (ground arith) in
        record {
          row = j.row;
          migration = j.migration;
          found = parts.0;
          parent = rw (← belongs) parts.1;
          belongs = belongs;
          live = ground arith;
          waiting = same_participant_status_eq _ ParticipantStatus.needs_approval (ground arith);
          semantic =
              sym kept.0 ∙ same_kind_eq p.kind ParticipantKind.semantic_approval (ground arith);
          owner = rw (← kept.1) (ground arith);
          mapping = eq_of_== _ _ (ground arith);
          new_approval = ground arith;
          after = ground arith;
        }

pub record_approval-IsApproved :
    (receipt : ApprovalReceipt) (s : Store)
    → ((record_approval receipt s).1 ≡ s) ⊎ IsApproved receipt s (record_approval receipt s).1
unfolding record_approval
record_approval-IsApproved receipt s =
    from_body (IsApproved receipt) (approval_body receipt) s
      (λ a t h. inr (approval_body-IsApproved receipt s a t h))
