-- ===== src/State/Changes/Invariants.antt =====
-- lineagetx/state.py: the rule for invariants of the store under any sequence of calls.
use data_lineage_fix_agent.Prelude.{inl, inr, List, [], ◌∷◌, All}
use data_lineage_fix_agent.State.Tables.{Store}
use data_lineage_fix_agent.State.Calls.{Call, perform, perform_all, IsPermitted}
use data_lineage_fix_agent.State.Changes.{Effect}
use data_lineage_fix_agent.State.Changes.Inversion.{perform-Effect}

-- What the step of every permitted call keeps, every sequence of permitted calls keeps.
pub perform_all-keeps :
    (P : Store → Type 0)
    → ((c : Call) (s t : Store) → IsPermitted c → Effect c s t → P s → P t)
    → (cs : List Call) (s : Store) → All IsPermitted cs
    → P s
    → P (perform_all cs s)
unfolding perform_all
perform_all-keeps P step [] s permitted h = h
perform_all-keeps P step (c ∷ cs) s permitted h =
    perform_all-keeps P step cs (perform c s) permitted.1 (elim (perform-Effect c s) [
      | inl kept ↦ rw kept h
      | inr e ↦ step c s (perform c s) permitted.0 e h
    ])

-- What the step of every call keeps, every sequence of calls keeps.
pub perform_all-always :
    (P : Store → Type 0)
    → ((c : Call) (s t : Store) → Effect c s t → P s → P t)
    → (cs : List Call) (s : Store) → P s
    → P (perform_all cs s)
unfolding perform_all
perform_all-always P step [] s h = h
perform_all-always P step (c ∷ cs) s h =
    perform_all-always P step cs (perform c s)
      (elim (perform-Effect c s) [ inl kept ↦ rw kept h | inr e ↦ step c s (perform c s) e h ])
