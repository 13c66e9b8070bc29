-- ===== src/State/AbortLoop.antt =====
-- lineagetx/state.py: the rule for invariants of the loop in `abort_migration`.
use data_lineage_fix_agent.Prelude.{
  inr, inl, String, ◌≡◌, refl, subst, Bool, true, false, List, [], ◌∷◌, ok, ◌=ℕ◌, count_where,
  arith, Bool-cases,
}
use data_lineage_fix_agent.State.Tables.{append_event, ParticipantRow, Store, participant_matches}
use data_lineage_fix_agent.State.Migrations.{abort_participants, abort_step, is_settled}

abbrev pub matching : ParticipantRow → Store → Bool
matching p s =
    count_where (participant_matches p.participant_id p.status p.version) s.participants =ℕ 1

-- What every round keeps, the whole loop keeps.
pub abort_participants-keeps :
    (P : Store → Type 0) (id now : String)
    → ((p : ParticipantRow) (s : Store)
        → is_settled p.status ≡ false
        → matching p s ≡ true
        → P s
        → P (abort_step id now p s))
    → (ps : List ParticipantRow) (s t : Store) → P s
    → abort_participants id now ps s ≡ ok t
    → P t
unfolding abort_participants
abort_participants-keeps P id now step [] s t h e = subst P (ground arith) h
abort_participants-keeps P id now step (p ∷ ps) s t h e = elim (Bool-cases (is_settled p.status)) [
  | inl settled ↦ abort_participants-keeps P id now step ps s t h (ground arith)
  | inr open_still ↦ elim (Bool-cases (matching p s)) [
    | inl one ↦
        abort_participants-keeps P id now step ps (abort_step id now p s) t
          (step p s open_still one h) (ground arith)
    | inr other ↦ absurd (ground arith)
  ]
]

-- A round touches no migration.
pub migrations-abort_step :
    (id now : String) (p : ParticipantRow) (s : Store)
    → (abort_step id now p s).migrations ≡ s.migrations
unfolding abort_step append_event
migrations-abort_step id now p s = refl
