-- ===== src/Publisher/Retry.antt =====
-- lineagetx/publisher.py: publishing again, after a success or with another request.
use data_lineage_fix_agent.Prelude.{
  Bool, true, false, Option, none, some, Result, ok, err, ◌≡◌, refl, ap, ◌∙◌, lookup,
  lookup-set_entry, arith,
}
use data_lineage_fix_agent.Publisher.Equality.{PublicationRequest-discrete}
use data_lineage_fix_agent.Publisher.Requests.{
  PublicationRequest, PublicationStage, PublicationResult, validate_stage, validate_result,
}
use data_lineage_fix_agent.Publisher.Local.{
  PublisherState, World, migration_of, new_stage, is_other_request, keep_stage, stage, is_staged,
  new_result, keep_result, release_gate, reconcile, reconcile_or_release, publish,
}

is_other_request_self : (q : PublicationRequest) → is_other_request (some q) q ≡ false
unfolding is_other_request
is_other_request_self q = elim (PublicationRequest-discrete q q) [
  | yes e ↦ ground arith
  | no ne ↦ absurd (ne refl)
]

-- The publisher holds a stage for a request.
record IsStaged (q : PublicationRequest) (s : PublicationStage) (st : PublisherState) : Type 0 where
  same_request : is_other_request (lookup (migration_of q) st.requests) q ≡ false
  staged : lookup (migration_of q) st.stages ≡ some s

-- It holds a result, which is valid.
record IsPublished (q : PublicationRequest) (r : PublicationResult) (st : PublisherState)
    : Type 0 where
  valid : validate_result q r ≡ ok tt
  kept : lookup (migration_of q) st.results ≡ some r

keep_stage-IsStaged :
    (q : PublicationRequest) (n : Result PublicationStage) (st : PublisherState)
    (s : PublicationStage)
    → (keep_stage q n st).0 ≡ ok s
    → IsStaged q s (keep_stage q n st).1
unfolding keep_stage
keep_stage-IsStaged q (err e) st s h = absurd (ground arith)
keep_stage-IsStaged q (ok made) st s h = record {
  same_request =
      ap (λ o. is_other_request o q) (lookup-set_entry (migration_of q) q st.requests)
      ∙ is_other_request_self q;
  staged = lookup-set_entry (migration_of q) made st.stages ∙ ap some (ground arith);
}

module _ (w : World) (q : PublicationRequest) where
  stage-IsStaged :
      (st : PublisherState) (s : PublicationStage)
      → (stage w q st).0 ≡ ok s
      → IsStaged q s (stage w q st).1
  stage-IsStaged st s =
      go (is_other_request (lookup (migration_of q) st.requests) q)
        (lookup (migration_of q) st.stages) refl refl
    where
      go :
          (b : Bool) (o : Option PublicationStage)
          → is_other_request (lookup (migration_of q) st.requests) q ≡ b
          → lookup (migration_of q) st.stages ≡ o
          → (stage w q st).0 ≡ ok s
          → IsStaged q s (stage w q st).1
      go true o e f = unfold stage in rw (e, stage) (λ h. absurd (ground arith))
      go false none e f =
          unfold stage in rw (e, f, stage) (keep_stage-IsStaged q (new_stage w q) st s)
      go false (some known) e f =
          unfold stage in
          rw (e, f, stage) (λ h. record { same_request = e; staged = f ∙ ap some (ground arith) })

  stage-again :
      (st : PublisherState) (s : PublicationStage) → IsStaged q s st → stage w q st ≡ (ok s, st)
  stage-again st s held = unfold stage in rw (held.same_request, held.staged, stage) refl

  reconcile_or_release-again :
      (st : PublisherState) (s : PublicationStage) (r : PublicationResult)
      → validate_stage q s ≡ ok tt
      → IsPublished q r st
      → reconcile_or_release w q s st ≡ (ok r, st)
  unfolding reconcile_or_release reconcile
  reconcile_or_release-again st s r valid held = ground (arith, held.valid, held.kept)

-- What a release or a reconciliation leaves when it gives a result.
record IsReleased (q : PublicationRequest) (s : PublicationStage) (r : PublicationResult)
    (st st' : PublisherState) : Type 0 where
  stage_valid : validate_stage q s ≡ ok tt
  published : IsPublished q r st'
  same_requests : st'.requests ≡ st.requests
  same_stages : st'.stages ≡ st.stages

new_result-valid :
    (w : World) (q : PublicationRequest) (s : PublicationStage) (r : PublicationResult)
    → new_result w q s ≡ ok r
    → validate_result q r ≡ ok tt
unfolding new_result
new_result-valid w q s r h = ground arith

module _ (w : World) (q : PublicationRequest) (s : PublicationStage) (st : PublisherState)
    (r : PublicationResult) where
  keep_result-IsReleased :
      (n : Result PublicationResult)
      → new_result w q s ≡ n
      → validate_stage q s ≡ ok tt
      → (keep_result q n st).0 ≡ ok r
      → IsReleased q s r st (keep_result q n st).1
  unfolding keep_result
  keep_result-IsReleased (err e) made valid h = absurd (ground arith)
  keep_result-IsReleased (ok x) made valid h = record {
    stage_valid = valid;
    published = record {
      valid = new_result-valid w q s r (ground arith);
      kept = lookup-set_entry (migration_of q) x st.results ∙ ap some (ground arith);
    };
    same_requests = refl;
    same_stages = refl;
  }

  release_gate-IsReleased :
      lookup (migration_of q) st.results ≡ none
      → (release_gate w q s st).0 ≡ ok r
      → IsReleased q s r st (release_gate w q s st).1
  release_gate-IsReleased absent =
      go (validate_stage q s) (is_staged (lookup (migration_of q) st.stages) s) refl refl
    where
      go :
          (v : Result (Unit {0})) (b : Bool)
          → validate_stage q s ≡ v
          → is_staged (lookup (migration_of q) st.stages) s ≡ b
          → (release_gate w q s st).0 ≡ ok r
          → IsReleased q s r st (release_gate w q s st).1
      go (err e) b v i = unfold release_gate in rw (v, release_gate) (λ h. absurd (ground arith))
      go (ok u) false v i =
          unfold release_gate in rw (v, i, release_gate) (λ h. absurd (ground arith))
      go (ok u) true v i =
          unfold release_gate in
          rw (v, i, absent, release_gate) (keep_result-IsReleased (new_result w q s) refl v)

  reconcile_or_release-IsReleased :
      (reconcile_or_release w q s st).0 ≡ ok r
      → IsReleased q s r st (reconcile_or_release w q s st).1
  reconcile_or_release-IsReleased =
      go (validate_stage q s) (lookup (migration_of q) st.results) refl refl
    where
      held :
          (x : PublicationResult) (n : Result (Unit {0}))
          → validate_stage q s ≡ ok tt
          → lookup (migration_of q) st.results ≡ some x
          → validate_result q x ≡ n
          → (reconcile_or_release w q s st).0 ≡ ok r
          → IsReleased q s r st (reconcile_or_release w q s st).1
      held x (err e) v f n =
          unfold reconcile_or_release reconcile in
          rw (v, f, n, reconcile_or_release, reconcile) (λ h. absurd (ground arith))
      held x (ok u) v f n =
          unfold reconcile_or_release reconcile in
          rw (v, f, n, reconcile_or_release, reconcile)
            (λ h. record {
              stage_valid = v;
              published = record { valid = ground arith; kept = f ∙ ap some (ground arith) };
              same_requests = refl;
              same_stages = refl;
            })

      go :
          (v : Result (Unit {0})) (o : Option PublicationResult)
          → validate_stage q s ≡ v
          → lookup (migration_of q) st.results ≡ o
          → (reconcile_or_release w q s st).0 ≡ ok r
          → IsReleased q s r st (reconcile_or_release w q s st).1
      go (err e) o v f =
          unfold reconcile_or_release reconcile in
          rw (v, reconcile_or_release, reconcile) (λ h. absurd (ground arith))
      go (ok u) none v f =
          unfold reconcile_or_release reconcile in
          rw (v, f, reconcile_or_release, reconcile) (release_gate-IsReleased f)
      go (ok u) (some x) v f = held x (validate_result q x) v f refl

-- What a successful publication leaves: the stage and the valid result of the request.
record IsDone (q : PublicationRequest) (r : PublicationResult) (st : PublisherState) : Type 0 where
  stage : PublicationStage
  staged : IsStaged q stage st
  stage_valid : validate_stage q stage ≡ ok tt
  published : IsPublished q r st

publish-IsDone :
    (w : World) (q : PublicationRequest) (st : PublisherState) (r : PublicationResult)
    → (publish w q st).0 ≡ ok r
    → IsDone q r (publish w q st).1
publish-IsDone w q st r = go (stage w q st).0 refl
  where
    go :
        (n : Result PublicationStage)
        → (stage w q st).0 ≡ n
        → (publish w q st).0 ≡ ok r
        → IsDone q r (publish w q st).1
    go (err e) n = unfold publish in rw (n, publish) (λ h. absurd (ground arith))
    go (ok s) n =
        unfold publish in
        rw (n, publish)
          (λ h.
            let held = stage-IsStaged w q st s n in
            let released = reconcile_or_release-IsReleased w q s (stage w q st).1 r h in
            record {
              stage = s;
              staged = record {
                same_request = rw released.same_requests held.same_request;
                staged = rw released.same_stages held.staged;
              };
              stage_valid = released.stage_valid;
              published = released.published;
            })

publish-again :
    (v : World) (q : PublicationRequest) (r : PublicationResult) (t : PublisherState)
    → IsDone q r t
    → publish v q t ≡ (ok r, t)
publish-again v q r t done =
    let again = stage-again v q t done.stage done.staged in
    unfold publish in
    rw (ap (λ x. x.0) again, ap (λ x. x.1) again, publish)
      (reconcile_or_release-again v q t done.stage r done.stage_valid done.published)

-- A publication that succeeded can be repeated: publishing the same request again gives the same
-- result and changes nothing, at any later time and whatever the file system then answers.
pub publish_idempotent :
    (w v : World) (q : PublicationRequest) (st : PublisherState) (r : PublicationResult)
    → (publish w q st).0 ≡ ok r
    → publish v q (publish w q st).1 ≡ (ok r, (publish w q st).1)
publish_idempotent w v q st r h = publish-again v q r (publish w q st).1 (publish-IsDone w q st r h)

-- What a publication returns has passed the checks on a result.
pub publish-valid :
    (w : World) (q : PublicationRequest) (st : PublisherState) (r : PublicationResult)
    → (publish w q st).0 ≡ ok r
    → validate_result q r ≡ ok tt
publish-valid w q st r h = (publish-IsDone w q st r h).published.valid
