-- ===== src/Ingestion/Delivery.antt =====
-- A delivery: `ingest`, `_run` and `_job_disagrees_with` of `IngestionService`.
use researchmind_mcp.Prelude.{
  String, Bool, true, false, Option, none, some, not, option_eq, str_eq, if◌then◌else◌,
}
use researchmind_mcp.Models.{
  DocumentStatus, IngestionJob, IngestionOutcome, IngestionResult, IngestionTarget,
}
use researchmind_mcp.Models.Reason.{IngestionReason}
use researchmind_mcp.Exec.{Exc, cancelled, pure, raise, handle, ◌>>=◌, ◌>>◌}
use researchmind_mcp.Runtime.{Runtime}
use researchmind_mcp.Lifecycle.{Stage, parse, chunk, embed, starts_at}
use researchmind_mcp.StorageKey.{document_storage_key}
use researchmind_mcp.Database.Session.{M, rollback}
use researchmind_mcp.Repositories.Documents.{get_ingestion_target_for_user, live_document_exists}
use researchmind_mcp.Ingestion.{IngestionService}
use researchmind_mcp.Ingestion.Transitions.{
  rejected, skipped, transition, release_after_interruption,
}
use researchmind_mcp.Ingestion.ParseStage.{process_claimed}
use researchmind_mcp.Ingestion.ChunkStage.{chunk_claimed}
use researchmind_mcp.Ingestion.EmbedStage.{embed_claimed}

-- `_job_disagrees_with`
unfoldable pub job_disagrees_with : IngestionJob → IngestionTarget → Option IngestionReason
job_disagrees_with job target =
    if not (str_eq target.owner_id job.owner_id)
    then some IngestionReason.ownership_mismatch
    else if not (option_eq str_eq target.content_hash (some job.content_hash))
    then some IngestionReason.content_hash_mismatch
    else if not (option_eq str_eq target.storage_key (some job.storage_key))
    then some IngestionReason.storage_key_mismatch
    else if not (option_eq str_eq target.mime_type (some job.mime_type))
    then some IngestionReason.mime_type_mismatch
    else none

-- `r.outcome is IngestionOutcome.PARSED`, and CHUNKED
abbrev pub is_parsed : IngestionOutcome → Bool
is_parsed IngestionOutcome.parsed = true
is_parsed _ = false

abbrev pub is_chunked : IngestionOutcome → Bool
is_chunked IngestionOutcome.chunked = true
is_chunked _ = false

module _ (rt : Runtime) (self : IngestionService) (job : IngestionJob) (final_attempt : Bool) where
  unfoldable pub claimed : Stage → IngestionTarget → M IngestionResult
  claimed parse target = process_claimed rt self job target final_attempt
  claimed chunk target = chunk_claimed rt self job final_attempt
  claimed embed target = embed_claimed rt self job final_attempt

  -- except asyncio.CancelledError: release; raise
  unfoldable pub on_cancelled : DocumentStatus → Exc → M IngestionResult
  on_cancelled release_to cancelled = do
    release_after_interruption rt job release_to
    raise cancelled
  on_cancelled release_to e = raise e

  -- `_run`
  unfoldable pub run : Stage → IngestionTarget → M IngestionResult
  run stage target = do
    won ← transition rt job (starts_at stage) DocumentStatus.processing none
    if won
        then handle (claimed stage target) (on_cancelled (starts_at stage)) pure
        else pure (skipped job IngestionOutcome.skipped_in_progress)

  unfoldable pub from_chunked : IngestionTarget → M IngestionResult
  from_chunked target = run embed target

  unfoldable pub from_parsed : IngestionTarget → M IngestionResult
  from_parsed target = do
    r ← run chunk target
    if is_chunked r.outcome then from_chunked target else pure r

  unfoldable pub from_pending : IngestionTarget → M IngestionResult
  from_pending target = do
    r ← run parse target
    if is_parsed r.outcome then from_parsed target else pure r

  abbrev pub rolled : IngestionResult → M IngestionResult
  rolled r = do rollback rt; pure r

  unfoldable pub by_status : DocumentStatus → IngestionTarget → M IngestionResult
  by_status DocumentStatus.processing target =
      rolled (skipped job IngestionOutcome.skipped_in_progress)
  by_status DocumentStatus.ready target = rolled (skipped job IngestionOutcome.skipped_terminal)
  by_status DocumentStatus.failed target = rolled (skipped job IngestionOutcome.skipped_terminal)
  by_status DocumentStatus.pending target = from_pending target
  by_status DocumentStatus.parsed target = from_parsed target
  by_status DocumentStatus.chunked target = from_chunked target

  unfoldable pub on_target : Option IngestionTarget → M IngestionResult
  on_target none = do
    exists ← live_document_exists rt job.document_id
    rolled (
        rejected job (
          if exists
          then IngestionReason.ownership_mismatch
          else IngestionReason.document_not_found))
  on_target (some target) = elim (job_disagrees_with job target) [
    | some mismatch ↦ rolled (rejected job mismatch)
    | none ↦ by_status target.status target
  ]

  unfoldable pub on_key : Option String → M IngestionResult
  on_key none = pure (rejected job IngestionReason.invalid_job)
  on_key (some derived) =
      if not (str_eq derived job.storage_key)
      then pure (rejected job IngestionReason.storage_key_mismatch)
      else (do
        target ← get_ingestion_target_for_user rt job.document_id job.owner_id
        on_target target)

  -- `ingest`
  unfoldable pub ingest : M IngestionResult
  ingest = on_key (document_storage_key rt job.owner_id job.content_hash)
