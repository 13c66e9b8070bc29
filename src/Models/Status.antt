-- ===== src/Models/Status.antt =====
-- lineagetx/models.py: the enumerations and the two transition tables.
use data_lineage_fix_agent.Prelude.{
  String, ◌≡◌, Bool, true, false, List, [], ◌∷◌, Result, ok, err, value_error, ◌==◌, any,
  if◌then◌else◌, arith,
}

pub data MigrationStatus : Type 0 where
  detected preparing needs_approval prepared committed aborted : MigrationStatus

pub data ParticipantKind : Type 0 where
  dbt_sql airflow_mapping semantic_approval : ParticipantKind

pub data ParticipantStatus : Type 0 where
  discovered preparing needs_approval verified failed committed aborted : ParticipantStatus

pub data RolloutPhase : Type 0 where
  contract : RolloutPhase

pub data CoordinationReceiptKind : Type 0 where
  candidate_commit coordinated_pr producer_gate_released : CoordinationReceiptKind

-- `is` on the members of an enumeration.
unfoldable pub same_status : MigrationStatus → MigrationStatus → Bool
same_status detected detected = true
same_status preparing preparing = true
same_status needs_approval needs_approval = true
same_status prepared prepared = true
same_status committed committed = true
same_status aborted aborted = true
same_status _ _ = false

unfoldable pub same_participant_status : ParticipantStatus → ParticipantStatus → Bool
same_participant_status discovered discovered = true
same_participant_status preparing preparing = true
same_participant_status needs_approval needs_approval = true
same_participant_status verified verified = true
same_participant_status failed failed = true
same_participant_status committed committed = true
same_participant_status aborted aborted = true
same_participant_status _ _ = false

unfoldable pub same_kind : ParticipantKind → ParticipantKind → Bool
same_kind dbt_sql dbt_sql = true
same_kind airflow_mapping airflow_mapping = true
same_kind semantic_approval semantic_approval = true
same_kind _ _ = false

unfoldable pub same_receipt_kind : CoordinationReceiptKind → CoordinationReceiptKind → Bool
same_receipt_kind candidate_commit candidate_commit = true
same_receipt_kind coordinated_pr coordinated_pr = true
same_receipt_kind producer_gate_released producer_gate_released = true
same_receipt_kind _ _ = false

-- The `str` values of the members.
unfoldable pub status_value : MigrationStatus → String
status_value detected = "DETECTED"
status_value preparing = "PREPARING"
status_value needs_approval = "NEEDS_APPROVAL"
status_value prepared = "PREPARED"
status_value committed = "COMMITTED"
status_value aborted = "ABORTED"

unfoldable pub kind_value : ParticipantKind → String
kind_value dbt_sql = "DBT_SQL"
kind_value airflow_mapping = "AIRFLOW_MAPPING"
kind_value semantic_approval = "SEMANTIC_APPROVAL"

unfoldable pub participant_status_value : ParticipantStatus → String
participant_status_value discovered = "DISCOVERED"
participant_status_value preparing = "PREPARING"
participant_status_value needs_approval = "NEEDS_APPROVAL"
participant_status_value verified = "VERIFIED"
participant_status_value failed = "FAILED"
participant_status_value committed = "COMMITTED"
participant_status_value aborted = "ABORTED"

unfoldable pub phase_value : RolloutPhase → String
phase_value contract = "CONTRACT"

-- `ParticipantKind(value)`, `ParticipantStatus(value)`, `RolloutPhase(value)`
unfoldable pub kind_of_value : String → Result ParticipantKind
kind_of_value v =
    if v == "DBT_SQL"
    then ok dbt_sql
    else if v == "AIRFLOW_MAPPING"
    then ok airflow_mapping
    else if v == "SEMANTIC_APPROVAL"
    then ok semantic_approval
    else err value_error

unfoldable pub participant_status_of_value : String → Result ParticipantStatus
participant_status_of_value v =
    if v == "DISCOVERED"
    then ok discovered
    else if v == "PREPARING"
    then ok preparing
    else if v == "NEEDS_APPROVAL"
    then ok needs_approval
    else if v == "VERIFIED"
    then ok verified
    else if v == "FAILED"
    then ok failed
    else if v == "COMMITTED"
    then ok committed
    else if v == "ABORTED"
    then ok aborted
    else err value_error

unfoldable pub phase_of_value : String → Result RolloutPhase
phase_of_value v = if v == "CONTRACT" then ok contract else err value_error

-- ALLOWED_MIGRATION_TRANSITIONS
unfoldable pub allowed_migration_transitions : MigrationStatus → List MigrationStatus
allowed_migration_transitions detected = preparing ∷ aborted ∷ []
allowed_migration_transitions preparing = needs_approval ∷ prepared ∷ aborted ∷ []
allowed_migration_transitions needs_approval = prepared ∷ aborted ∷ []
allowed_migration_transitions prepared = committed ∷ aborted ∷ []
allowed_migration_transitions committed = []
allowed_migration_transitions aborted = []

-- ALLOWED_PARTICIPANT_TRANSITIONS
unfoldable pub allowed_participant_transitions : ParticipantStatus → List ParticipantStatus
allowed_participant_transitions discovered = preparing ∷ failed ∷ aborted ∷ []
allowed_participant_transitions preparing = needs_approval ∷ verified ∷ failed ∷ aborted ∷ []
allowed_participant_transitions needs_approval = preparing ∷ failed ∷ aborted ∷ []
allowed_participant_transitions verified = committed ∷ aborted ∷ []
allowed_participant_transitions failed = preparing ∷ aborted ∷ []
allowed_participant_transitions committed = []
allowed_participant_transitions aborted = []

-- `target in ALLOWED_…[current]`
unfoldable pub can_transition : MigrationStatus → MigrationStatus → Bool
unfolding same_status allowed_migration_transitions
can_transition current target = any (same_status target) (allowed_migration_transitions current)

unfoldable pub can_transition_participant : ParticipantStatus → ParticipantStatus → Bool
unfolding same_participant_status allowed_participant_transitions
can_transition_participant current target =
    any (same_participant_status target) (allowed_participant_transitions current)

pub same_status_eq : (a b : MigrationStatus) → same_status a b ≡ true → a ≡ b
unfolding same_status
same_status_eq a b h = ground arith

pub same_status_refl : (a : MigrationStatus) → same_status a a ≡ true
unfolding same_status
same_status_refl a = ground arith

pub same_participant_status_eq :
    (a b : ParticipantStatus) → same_participant_status a b ≡ true → a ≡ b
unfolding same_participant_status
same_participant_status_eq a b h = ground arith

pub same_participant_status_refl : (a : ParticipantStatus) → same_participant_status a a ≡ true
unfolding same_participant_status
same_participant_status_refl a = ground arith

pub same_kind_eq : (a b : ParticipantKind) → same_kind a b ≡ true → a ≡ b
unfolding same_kind
same_kind_eq a b h = ground arith
