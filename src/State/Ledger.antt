-- ===== src/State/Ledger.antt =====
-- lineagetx/state.py: the approvals on record.
use data_lineage_fix_agent.Prelude.{
  String, ◌≡◌, refl, sym, ◌∙◌, subst, Bool, false, List, [], ◌∷◌, ◌++◌, ok, any, arith, eq_iff,
}
use data_lineage_fix_agent.Models.Receipts.{ApprovalReceipt, AbortCleanupReceipt}
use data_lineage_fix_agent.State.Tables.{MigrationRecord, ParticipantRow, Store, empty}
use data_lineage_fix_agent.State.Tables.Queries.{approvals-append_event}
use data_lineage_fix_agent.State.Migrations as M
use data_lineage_fix_agent.State.Approvals.{same_approval}
use data_lineage_fix_agent.State.Calls.{
  Call, create, arm, reserve, move_migration, abort, move_participant, approve, perform_all,
}
use data_lineage_fix_agent.State.Changes.{Effect, mark_aborted}
use data_lineage_fix_agent.State.Changes.Invariants.{perform_all-always}
use data_lineage_fix_agent.State.AbortLoop.{abort_participants-keeps}

-- No two approvals have the same migration, participant and owner.
abbrev pub AreApart : List ApprovalReceipt → Type 0
AreApart [] = Unit
AreApart (a ∷ as') = (any (same_approval a) as' ≡ false) × AreApart as'

same_approval-swap : (a b : ApprovalReceipt) → same_approval a b ≡ same_approval b a
unfolding same_approval
same_approval-swap a b = ground (
  arith,
  eq_iff a.migration_id b.migration_id,
  eq_iff b.migration_id a.migration_id,
  eq_iff a.participant_id b.participant_id,
  eq_iff b.participant_id a.participant_id,
  eq_iff a.owner_urn b.owner_urn,
  eq_iff b.owner_urn a.owner_urn,
)

any-snoc :
    (p : ApprovalReceipt → Bool) (xs : List ApprovalReceipt) (x : ApprovalReceipt)
    → any p xs ≡ false
    → p x ≡ false
    → any p (xs ++ x ∷ []) ≡ false
any-snoc p [] x h e = ground arith
any-snoc p (y ∷ ys) x h e = ground (arith, any-snoc p ys x)

AreApart-snoc :
    (xs : List ApprovalReceipt) (r : ApprovalReceipt)
    → AreApart xs
    → any (same_approval r) xs ≡ false
    → AreApart (xs ++ r ∷ [])
AreApart-snoc [] r h e = (refl, tt)
AreApart-snoc (x ∷ xs) r (h, rest) e = (
  any-snoc (same_approval x) xs r h (same_approval-swap x r ∙ ground arith),
  AreApart-snoc xs r rest (ground arith),
)

abort-approvals :
    (k now : String) (ps : List ParticipantRow) (u t : Store)
    → M.abort_participants k now ps u ≡ ok t
    → t.approvals ≡ u.approvals
abort-approvals k now ps u t =
    abort_participants-keeps (λ x. x.approvals ≡ u.approvals) k now
      (λ p x _ _ e. unfold M.abort_step in approvals-append_event _ _ _ _ _ _ _ _ _ ∙ e) ps u t refl

mark_aborted-approvals :
    (id : String) (row : MigrationRecord) (receipt : AbortCleanupReceipt) (now : String) (s : Store)
    → (mark_aborted id row receipt now s).approvals ≡ s.approvals
unfolding mark_aborted
mark_aborted-approvals id row receipt now s = approvals-append_event _ _ _ _ _ _ _ _ _

Effect-AreApart :
    (c : Call) (s t : Store) → Effect c s t → AreApart s.approvals → AreApart t.approvals
Effect-AreApart (create intent ps) s t h x = rw h.after (rw approvals-append_event x)
Effect-AreApart (arm k v now) s t h x = rw h.after (rw approvals-append_event x)
Effect-AreApart (reserve k status v now) s t h x = rw h.after (rw approvals-append_event x)
Effect-AreApart (move_migration k m) s t h x = rw h.after (rw approvals-append_event x)
Effect-AreApart (abort k receipt status v now) s t h x =
    subst AreApart
      (sym (abort-approvals k now _ _ t h.after ∙ mark_aborted-approvals k h.row receipt now s)) x
Effect-AreApart (move_participant k m) s t h x = rw h.after (rw approvals-append_event x)
Effect-AreApart (approve r) s t h x =
    rw h.after (rw approvals-append_event (AreApart-snoc s.approvals r x h.new_approval))

-- After any calls on a new store, no two approvals on record have the same migration, participant and
-- owner.
pub approvals_unique : (cs : List Call) → AreApart (perform_all cs empty).approvals
approvals_unique cs = perform_all-always (λ s. AreApart s.approvals) Effect-AreApart cs empty tt
