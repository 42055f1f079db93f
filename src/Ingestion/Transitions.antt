-- ===== src/Ingestion/Transitions.antt =====
-- The helpers of `IngestionService`: committed compare-and-sets, and the ways a delivery ends.
use researchmind_mcp.Prelude.{Bool, Option, none, some, if◌then◌else◌}
use researchmind_mcp.Models.{DocumentStatus, IngestionJob, IngestionOutcome, IngestionResult}
use researchmind_mcp.Models.Reason.{IngestionReason}
use researchmind_mcp.Exec.{Exc, cancelled, transient, pure, raise, handle, ◌>>=◌, ◌>>◌}
use researchmind_mcp.Runtime.{Runtime}
use researchmind_mcp.Database.Session.{M, commit, rollback}
use researchmind_mcp.Repositories.Documents.{transition_status_for_user}

-- except Exception: h
unfoldable pub on_exception : {A : Type 0} → M A → Exc → M A
on_exception h cancelled = raise cancelled
on_exception h _ = h

abbrev pub rejected : IngestionJob → IngestionReason → IngestionResult
rejected job reason = record {
  outcome = IngestionOutcome.rejected;
  document_id = some job.document_id;
  reason = some reason;
}

abbrev pub skipped : IngestionJob → IngestionOutcome → IngestionResult
skipped job outcome = record {
  outcome = outcome;
  document_id = some job.document_id;
  reason = none;
}

abbrev pub claim_lost : IngestionJob → IngestionResult
claim_lost job = skipped job IngestionOutcome.claim_lost

module _ (rt : Runtime) where
  -- except Exception: rollback; raise
  unfoldable pub rolling_back : {A : Type 0} → Exc → M A
  rolling_back cancelled = raise cancelled
  rolling_back e = do rollback rt; raise e

  -- `_transition`
  unfoldable pub transition :
      IngestionJob → DocumentStatus → DocumentStatus → Option IngestionReason → M Bool
  transition job expected new failure_reason =
      handle
        (do
          moved ←
              transition_status_for_user rt job.document_id job.owner_id expected new failure_reason
                none
          commit rt
          pure moved)
        (rolling_back) pure

  -- `_fail`
  unfoldable pub fail : IngestionJob → IngestionReason → M IngestionResult
  fail job reason = do
    moved ← transition job DocumentStatus.processing DocumentStatus.failed (some reason)
    pure (
        if moved
        then record {
          outcome = IngestionOutcome.failed;
          document_id = some job.document_id;
          reason = some reason;
        }
        else claim_lost job)

  -- `_transient`
  unfoldable pub retry_later :
      IngestionJob → IngestionReason → Bool → DocumentStatus → M IngestionResult
  retry_later job reason final_attempt release_to = if final_attempt then fail job reason else do
    released ← transition job DocumentStatus.processing release_to none
    if released then raise (transient reason) else pure (claim_lost job)

  -- `_release_after_interruption`
  unfoldable pub release_after_interruption : IngestionJob → DocumentStatus → M (Unit {0})
  release_after_interruption job release_to =
      handle (transition job DocumentStatus.processing release_to none) (on_exception (pure tt))
        (λ _. pure tt)
