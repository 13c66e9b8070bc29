-- ===== src/State/Gate/Quiet.antt =====
-- lineagetx/state.py: the exclusion of the gate release and the abort cleanup, and the parts of the
-- operations that do not touch it.
use data_lineage_fix_agent.Models.Receipts.{AbortCleanupReceipt}
use data_lineage_fix_agent.Prelude.{
  ap, sym, ◌∙◌, ℕ, String, refl, sym, ap, ◌∙◌, ◌≡◌, ◌≢◌, ◌⊎◌, inl, inr, Bool, true, false, Option,
  some, List, ok, arith, eq_iff, ==-ne, ◌==◌,
}
use data_lineage_fix_agent.Models.Status.{
  same_status, MigrationStatus, prepared, committed, aborted, can_transition,
}
use data_lineage_fix_agent.State.Tables.{
  ParticipantRow, MigrationRecord, Store, Status, Payload, find_migration, has_event, append_event,
  gate_armed_event, abort_reserved_event,
}
use data_lineage_fix_agent.State.Tables.Queries.{find-update_ne, has_event-append_event}
use data_lineage_fix_agent.State.Migrations.{
  abort_step, abort_participants, new_migration, check_move,
}
use data_lineage_fix_agent.State.Calls.{IsOpenType}
use data_lineage_fix_agent.State.Migrations as M
use data_lineage_fix_agent.State.Changes.{mark_aborted}
use data_lineage_fix_agent.State.AbortLoop.{abort_participants-keeps, migrations-abort_step}

abbrev pub is_armed : String → Store → Bool
is_armed id s = has_event id gate_armed_event s.events

abbrev pub is_reserved : String → Store → Bool
is_reserved id s = has_event id abort_reserved_event s.events

-- The migration is there, and stands at PREPARED or COMMITTED.
pub record IsHeld (id : String) (s : Store) : Type 0 where
  pub row : MigrationRecord
  pub found : find_migration id s.migrations ≡ some row
  pub status : (row.status ≡ prepared) ⊎ (row.status ≡ committed)

pub record IsExclusive (id : String) (s : Store) : Type 0 where
  pub apart : is_armed id s ≡ true → is_reserved id s ≡ false
  pub held : is_armed id s ≡ true → IsHeld id s

-- What a step leaves as it was, as far as the exclusion goes.
pub record IsQuiet (id : String) (s t : Store) : Type 0 where
  pub armed : is_armed id t ≡ is_armed id s
  pub reserved : is_reserved id t ≡ is_reserved id s

module _ (id : String) where
  IsQuiet-trans : {s t u : Store} → IsQuiet id s t → IsQuiet id t u → IsQuiet id s u
  IsQuiet-trans p q = record { armed = q.armed ∙ p.armed; reserved = q.reserved ∙ p.reserved }

  -- The exclusion survives a quiet step, if the row of an armed migration is held after it.
  pub IsExclusive-quiet :
      (s t : Store)
      → IsQuiet id s t
      → (is_armed id s ≡ true → IsHeld id s → IsHeld id t)
      → IsExclusive id s
      → IsExclusive id t
  IsExclusive-quiet s t q held x = record {
    apart = λ a. q.reserved ∙ x.apart (sym q.armed ∙ a);
    held = λ a. held (sym q.armed ∙ a) (x.held (sym q.armed ∙ a));
  }

  pub IsHeld-keeps :
      (s t : Store)
      → find_migration id t.migrations ≡ find_migration id s.migrations
      → IsHeld id s
      → IsHeld id t
  IsHeld-keeps s t e h = record { row = h.row; found = e ∙ h.found; status = h.status }

  -- An event of an open type, or of another migration, answers neither query.
  pub has_event-open :
      (wanted k pid ty : String) (from : Option Status) (to : Status) (v : ℕ) (p : Payload)
      (now : String) (s : Store)
      → (ty ≢ wanted) ⊎ (k ≢ id)
      → has_event id wanted (append_event k pid ty from to v p now s).events
        ≡ has_event id wanted s.events
  has_event-open wanted k pid ty from to v p now s (inl ne) =
      rw has_event-append_event (ground (arith, ==-ne ty wanted ne))
  has_event-open wanted k pid ty from to v p now s (inr ne) =
      rw has_event-append_event (ground (arith, ==-ne k id ne))

  -- `u` is `s` with other rows.
  pub IsQuiet-append :
      (k pid ty : String) (from : Option Status) (to : Status) (v : ℕ) (p : Payload) (now : String)
      (s u : Store)
      → u.events ≡ s.events
      → IsOpenType ty ⊎ (k ≢ id)
      → IsQuiet id s (append_event k pid ty from to v p now u)
  IsQuiet-append k pid ty from to v p now s u same (inl open_type) = record {
    armed =
        has_event-open gate_armed_event k pid ty from to v p now u (inl open_type.0)
        ∙ ap (has_event id gate_armed_event) same;
    reserved =
        has_event-open abort_reserved_event k pid ty from to v p now u (inl open_type.1)
        ∙ ap (has_event id abort_reserved_event) same;
  }
  IsQuiet-append k pid ty from to v p now s u same (inr ne) = record {
    armed =
        has_event-open gate_armed_event k pid ty from to v p now u (inr ne)
        ∙ ap (has_event id gate_armed_event) same;
    reserved =
        has_event-open abort_reserved_event k pid ty from to v p now u (inr ne)
        ∙ ap (has_event id abort_reserved_event) same;
  }

  -- From a held migration the table of transitions leads to COMMITTED only, ABORTED being refused.
  pub held_moves :
      (a b : MigrationStatus)
      → (a ≡ prepared) ⊎ (a ≡ committed)
      → can_transition a b ≡ true
      → same_status b aborted ≡ false
      → (b ≡ prepared) ⊎ (b ≡ committed)
  unfolding can_transition
  held_moves a b h c n = ground arith

-- `transition_migration` refuses ABORTED.
pub check_move-target :
    (k : String) (m : M.Move) → check_move k m ≡ ok tt → same_status m.target aborted ≡ false
unfolding check_move
check_move-target k m h = ground arith

pub literal_ne : (s t : String) → (s == t) ≡ false → s ≢ t
literal_ne s t h e = ground (arith, eq_iff s t)

pub literal_open :
    (ty : String)
    → (ty == gate_armed_event) ≡ false
    → (ty == abort_reserved_event) ≡ false
    → IsOpenType ty
literal_open ty g r = (literal_ne _ _ g, literal_ne _ _ r)

module _ (id k now : String) where
  -- The rounds of the ABORT loop are quiet, and touch no migration.
  pub loop-IsQuiet :
      (s t : Store) (ps : List ParticipantRow)
      → abort_participants k now ps s ≡ ok t
      → IsQuiet id s t × (find_migration id t.migrations ≡ find_migration id s.migrations)
  loop-IsQuiet s t ps =
      abort_participants-keeps
        (λ u. IsQuiet id s u × (find_migration id u.migrations ≡ find_migration id s.migrations)) k
        now
        (λ p u _ _ x. (
          unfold abort_step in
              IsQuiet-trans id x.0
                (IsQuiet-append id k _ _ _ _ _ _ now u _ refl (inl (literal_open _ refl refl))),
          ap (find_migration id) (migrations-abort_step k now p u) ∙ x.1,
        ))
        ps s t (record { armed = refl; reserved = refl }, refl)

  pub abort-IsQuiet :
      (row : MigrationRecord) (receipt : AbortCleanupReceipt) (s t : Store)
      (ps : List ParticipantRow)
      → abort_participants k now ps (mark_aborted k row receipt now s) ≡ ok t
      → IsQuiet id s t
  abort-IsQuiet row receipt s t ps h =
      IsQuiet-trans id {t = mark_aborted k row receipt now s}
        (unfold mark_aborted in
          IsQuiet-append id k _ _ _ _ _ _ now s _ refl (inl (literal_open _ refl refl)))
        (loop-IsQuiet (mark_aborted k row receipt now s) t ps h).0

  pub find-mark_aborted :
      (row : MigrationRecord) (receipt : AbortCleanupReceipt) (s : Store)
      → row.intent.migration_id ≡ k
      → id ≢ k
      → find_migration id (mark_aborted k row receipt now s).migrations
        ≡ find_migration id s.migrations
  unfolding mark_aborted append_event
  find-mark_aborted row receipt s e ne = find-update_ne k id s.migrations row aborted now e ne
