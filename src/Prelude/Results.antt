-- ===== src/Prelude/Results.antt =====
-- Exceptions as values: every exception class that the modelled code raises or lets through.
use Prim.Native.String.{String}
use mathlib.Core.Bool.{Bool, true, false}
use mathlib.Core.Option.{Option, none, some}

pub data Exception : Type 0 where
  value_error : Exception
  key_error : Exception
  integrity_error : Exception
  migration_not_found : Exception
  migration_already_exists : Exception
  participant_not_found : Exception
  state_conflict : Exception
  illegal_state_transition : Exception
  preparation_guard_failed : Exception
  commit_guard_failed : Exception
  approval_guard_failed : Exception
  verification_guard_failed : Exception
  parent_migration_terminal : Exception
  abort_cleanup_failed : Exception
  publication_reconciliation_required : Exception
  policy_violation : Exception
  publication_error : Exception
  candidate_rejected : Exception
  coordination_error : Exception
  resume_snapshot_error : Exception
  approval_verification_error : Exception
  proposal_error : Exception
  evidence_error : Exception
  index_error : Exception
  -- An exception of another class, by the name of the class.
  other_error : String → Exception

pub data Result {ℓ} (A : Type ℓ) : Type ℓ where
  ok : A → Result A
  err : Exception → Result A

infixl 5 ◌>>=◌ ◌>>◌
abbrev pub ◌>>=◌ {ℓ κ} : {A : Type ℓ} {B : Type κ} → Result A → (A → Result B) → Result B
ok a >>= f = f a
err e >>= f = err e

abbrev pub ◌>>◌ {ℓ κ} : {A : Type ℓ} {B : Type κ} → Result A → Result B → Result B
m >> k = m >>= λ _. k

-- `if not test: raise e`
abbrev pub guard : Bool → Exception → Result (Unit {0})
guard true e = ok tt
guard false e = err e

-- `if value is None: raise e`
abbrev pub require {ℓ} : {A : Type ℓ} → Option A → Exception → Result A
require (some a) e = ok a
require none e = err e
