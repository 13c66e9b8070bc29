-- ===== src/Coordinator/Requests.antt =====
-- lineagetx/coordinator.py: what `commit` computes between its calls: the candidates, the text of the
-- coordinated pull request and the request of the publication.
use Prim.Native.String.{◌++◌ as append}
use data_lineage_fix_agent.Prelude.{
  String, true, false, not, ◌&&◌, Option, none, some, List, [], ◌∷◌, map, Result, ok,
  coordination_error, ◌>>=◌, ◌>>◌, guard, require, ◌==◌, ◌=ℕ◌, length,
}
use data_lineage_fix_agent.Models.Status.{ParticipantStatus, same_participant_status}
use data_lineage_fix_agent.Models.Intent.{ChangeIntent}
use data_lineage_fix_agent.Models.Participants.{Participant}
use data_lineage_fix_agent.Policy.Context.{DataHubMigrationContext}
use data_lineage_fix_agent.Publisher.Requests.{
  CandidateCommit, check_candidate, PublicationRequest, check_request,
}
use data_lineage_fix_agent.Coordinator.World.{
  RepositorySession, Keyed, Memory, Refreshed, GitHubApprovalExpectation, VerifiedGitHubApproval,
}

-- self._sessions.get((migration_id, participant_id)), and the same of self._results
unfoldable pub find_keyed {ℓ} : {A : Type ℓ} → String → String → List (Keyed A) → Option A
find_keyed migration participant [] = none
find_keyed migration participant (k ∷ ks) =
    elim (k.migration == migration && k.participant == participant) [
      | true ↦ some k.value
      | false ↦ find_keyed migration participant ks
    ]

-- The check on what `assert_impact_unchanged` has returned.
unfoldable pub check_refreshed : DataHubMigrationContext → Refreshed → Result (Unit {0})
check_refreshed context r =
    guard
      (not r.is_frozen_object
        && r.context.discovery_complete
        && r.context.impact_fingerprint == context.impact_fingerprint)
      coordination_error

unfoldable pub expectation_of :
    String → ChangeIntent → VerifiedGitHubApproval → GitHubApprovalExpectation
expectation_of id intent verified = record {
  migration_id = id;
  participant_id = verified.participant_id;
  owner_urn = verified.owner_urn;
  old_field = intent.old_field;
  new_field = intent.new_field;
}

-- The approval that GitHub gives now is the one that was verified.
unfoldable pub check_same_approval :
    VerifiedGitHubApproval → VerifiedGitHubApproval → Result (Unit {0})
check_same_approval verified current =
    guard
      (current.evidence_sha256 == verified.evidence_sha256
        && current.resource_id =ℕ verified.resource_id
        && current.resource_node_id == verified.resource_node_id)
      coordination_error

pub record Candidate : Type 0 where
  pub commit : CandidateCommit
  pub participant : Participant
  pub session : RepositorySession

-- One round of the loop over the participants.
unfoldable pub candidate_of : Memory → String → Participant → Result Candidate
candidate_of m id p = do
  guard
      (same_participant_status p.status ParticipantStatus.verified
        && not (p.candidate_commit_sha == ""))
      coordination_error
  session ← require (find_keyed id p.participant_id m.sessions) coordination_error
  result ← require (find_keyed id p.participant_id m.results) coordination_error
  let commit : CandidateCommit = record {
    participant_id = p.participant_id;
    repository = p.repository;
    branch = session.branch;
    commit_sha = p.candidate_commit_sha;
    changed_files = result.changed_files;
    merged = false;
  }
  check_candidate commit
  ok (record { commit = commit; participant = p; session = session })

unfoldable pub candidates_of : Memory → String → List Participant → Result (List Candidate)
unfolding candidate_of
candidates_of m id [] = ok []
candidates_of m id (p ∷ ps) = do c ← candidate_of m id p; cs ← candidates_of m id ps; ok (c ∷ cs)

-- "\n".join(lines)
unfoldable pub join_lines : List String → String
join_lines [] = ""
join_lines (line ∷ []) = line
join_lines (line ∷ next ∷ rest) = append line (append "\n" (join_lines (next ∷ rest)))

-- f"- {item.participant_id}: `{item.commit_sha}` on `{item.branch}`"
unfoldable pub candidate_line : Candidate → String
candidate_line c = append "- " (
    append c.commit.participant_id
      (append ": `" (append c.commit.commit_sha (append "` on `" (append c.commit.branch "`")))))

unfoldable pub body_of : List Candidate → String
unfolding join_lines candidate_line
body_of cs = join_lines (
    "LineageTX verified all downstream consumers."
    ∷ ""
    ∷ "Candidate changes remain unmerged; human merge control is preserved."
    ∷ ""
    ∷ map candidate_line cs)

unfoldable pub request_of : String → ChangeIntent → List Candidate → PublicationRequest
unfolding body_of
request_of id intent cs = record {
  intent = intent;
  candidates = map (λ c. c.commit) cs;
  title =
      append "LineageTX "
        (append id (append ": " (append intent.old_field (append " to " intent.new_field))));
  body = body_of cs;
  coordinated_head_branch = append "lineagetx/" (append id "/coordination");
  coordinated_base_branch = "main";
  auto_merge = false;
}

unfoldable pub new_request : String → ChangeIntent → List Candidate → Result PublicationRequest
unfolding request_of
new_request id intent cs = do
  guard (length cs =ℕ 3) coordination_error
  check_request (request_of id intent cs)
  ok (request_of id intent cs)
