-- ===== src/Coordinator/Safety/Reached.antt =====
-- lineagetx/coordinator.py: what `arm_publication_gate` and `reserve_abort_cleanup` leave in the store
-- when they return, for the statements that come after them.
use data_lineage_fix_agent.State.Changes.MigrationSteps.{
  arm_body-IsArmed, write_transaction-ok, reserve_body-IsReserved,
}
use data_lineage_fix_agent.Coordinator.World.{Settings, Services}
use data_lineage_fix_agent.State.Tables.Queries.{has_event-append_event}
use data_lineage_fix_agent.State.Gate.Quiet.{is_armed, is_reserved}
use data_lineage_fix_agent.State.Migrations.{
  reserve_body, arm_body, reserve_abort_cleanup, arm_publication_gate,
}
use data_lineage_fix_agent.State.Tables.{
  append_event, has_event, Payload, Status, abort_reserved_event, gate_armed_event, Store,
}
use data_lineage_fix_agent.Coordinator.Gains.{IsRaising}
use data_lineage_fix_agent.Coordinator.Runs.{raise}
use data_lineage_fix_agent.Coordinator.Commit.{not_armed}
use data_lineage_fix_agent.Prelude.{
  inr, ◌∙◌, ap, inl, Option, ℕ, String, ◌≡◌, refl, true, ok, arith, eq_iff, Exception,
  publication_reconciliation_required,
}
use data_lineage_fix_agent.Models.Status.{MigrationStatus}
use data_lineage_fix_agent.State.Gate.Quiet.{is_armed, is_reserved}

-- The log has the event that was just appended to it.
has_event-appended :
    (id ty : String) (from : Option Status) (to : Status) (v : ℕ) (p : Payload) (now : String)
    (s : Store)
    → has_event id ty (append_event id "" ty from to v p now s).events ≡ true
has_event-appended id ty from to v p now s =
    rw has_event-append_event (ground (arith, (eq_iff id id).1 refl, (eq_iff ty ty).1 refl))

module _ (id : String) (v : ℕ) (now : String) (s : Store) where
  arm_body-is_armed :
      (a : Unit {0}) (t : Store) → arm_body id v now s ≡ ok (a, t) → is_armed id t ≡ true
  arm_body-is_armed a t h = elim (arm_body-IsArmed id v now s a t h) [
    | inl (kept, old) ↦ ap (is_armed id) kept ∙ old
    | inr step ↦ ap (is_armed id) step.after ∙ has_event-appended id gate_armed_event _ _ _ _ now s
  ]

  pub arm-is_armed :
      (arm_publication_gate id v now s).0 ≡ ok tt
      → is_armed id (arm_publication_gate id v now s).1 ≡ true
  unfolding arm_publication_gate
  arm-is_armed h = arm_body-is_armed tt _ (write_transaction-ok (arm_body id v now) s tt h)

  reserve_body-is_reserved :
      (status : MigrationStatus) (a : Unit {0}) (t : Store)
      → reserve_body id status v now s ≡ ok (a, t)
      → is_reserved id t ≡ true
  reserve_body-is_reserved status a t h = elim (reserve_body-IsReserved id status v now s a t h) [
    | inl (kept, old) ↦ ap (is_reserved id) kept ∙ old
    | inr step ↦
        ap (is_reserved id) step.after ∙ has_event-appended id abort_reserved_event _ _ _ _ now s
  ]

  pub reserve-is_reserved :
      (status : MigrationStatus)
      → (reserve_abort_cleanup id status v now s).0 ≡ ok tt
      → is_reserved id (reserve_abort_cleanup id status v now s).1 ≡ true
  unfolding reserve_abort_cleanup
  reserve-is_reserved status h =
      reserve_body-is_reserved status tt _
        (write_transaction-ok (reserve_body id status v now) s tt h)

-- The handler of the arming passes every exception on, or another one.
pub not_armed-IsRaising :
    (sv : Services) (cfg : Settings) (id : String) {A : Type 0} (e : Exception)
    → IsRaising (not_armed sv cfg id {A = A} e)
unfolding not_armed raise
not_armed-IsRaising sv cfg id publication_reconciliation_required w = (_, refl)
not_armed-IsRaising sv cfg id e w = (_, refl)
