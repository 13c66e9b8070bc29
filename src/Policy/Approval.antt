-- ===== src/Policy/Approval.antt =====
-- lineagetx/policy.py: `validate_owner_approval` on an `OwnerApproval` of
-- lineagetx/participants/semantic_approval.py.
use data_lineage_fix_agent.Prelude.{
  String, not, ◌&&◌, Result, ok, err, policy_violation, ◌>>◌, guard, ◌==◌, elem,
}
use data_lineage_fix_agent.Models.Runtime.{Runtime, require_https_url}
use data_lineage_fix_agent.Models.Status.{semantic_approval, same_kind}
use data_lineage_fix_agent.Models.Intent.{ChangeIntent}
use data_lineage_fix_agent.Models.Participants.{Participant}

pub record OwnerApproval : Type 0 where
  pub migration_id : String
  pub participant_id : String
  pub owner_urn : String
  pub old_field : String
  pub new_field : String
  pub approved_at : String
  pub evidence_url : String
  pub decision : String

-- `raise PolicyViolation(str(error)) from error`
abbrev as_violation : Result (Unit {0}) → Result (Unit {0})
as_violation (ok u) = ok u
as_violation (err _) = err policy_violation

unfoldable pub validate_owner_approval :
    Runtime → ChangeIntent → Participant → OwnerApproval → Result (Unit {0})
validate_owner_approval rt intent participant approval = do
  guard (same_kind participant.kind semantic_approval) policy_violation
  guard
      (approval.migration_id == intent.migration_id
        && approval.participant_id == participant.participant_id
        && approval.old_field == intent.old_field
        && approval.new_field == intent.new_field)
      policy_violation
  guard (elem approval.owner_urn participant.owner_urns) policy_violation
  guard (approval.decision == "APPROVED") policy_violation
  as_violation (require_https_url rt approval.evidence_url)
  guard (not (approval.approved_at == "")) policy_violation
