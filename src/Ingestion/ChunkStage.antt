-- ===== src/Ingestion/ChunkStage.antt =====
-- The chunk stage of `IngestionService`: `_chunk_claimed` and `_store_chunks`.
use researchmind_mcp.Prelude.{Bool, true, false, none, some, is_empty, length, if◌then◌else◌}
use researchmind_mcp.Models.{
  DocumentStatus, ChunkingResult, IngestionJob, IngestionOutcome, IngestionResult,
}
use researchmind_mcp.Models.Reason.{IngestionReason}
use researchmind_mcp.Exec.{other, pure, handle, finally, ◌>>=◌, ◌>>◌}
use researchmind_mcp.Runtime.{Runtime}
use researchmind_mcp.Database.Session.{M, commit, rollback, call}
use researchmind_mcp.Repositories.Documents.{transition_status_for_user}
use researchmind_mcp.Repositories.Pages
use researchmind_mcp.Repositories.Chunks
use researchmind_mcp.Ingestion.{IngestionService}
use researchmind_mcp.Ingestion.Transitions.{
  on_exception, skipped, claim_lost, rolling_back, fail, retry_later,
}

module _ (rt : Runtime) where
  -- `_store_chunks`: the chunks and `processing → chunked`, both or neither.
  unfoldable pub store_chunks : IngestionJob → ChunkingResult → M Bool
  store_chunks job chunking =
      handle
        (do
          moved ←
              transition_status_for_user rt job.document_id job.owner_id DocumentStatus.processing
                DocumentStatus.chunked none (some (length chunking.chunks))
          if moved
              then (do
                Chunks.add_many rt job.document_id job.owner_id chunking
                commit rt
                pure true)
              else (do rollback rt; pure false))
        (rolling_back rt) pure

  module _ (job : IngestionJob) (final_attempt : Bool) where
    abbrev pub chunking_failed : DocumentStatus → M IngestionResult
    chunking_failed release_to =
        retry_later rt job IngestionReason.chunking_failure final_attempt release_to

    unfoldable pub after_chunking : ChunkingResult → M IngestionResult
    after_chunking chunking =
        if is_empty chunking.chunks
        then fail rt job IngestionReason.no_chunks_produced
        else handle (store_chunks job chunking)
            (on_exception (chunking_failed DocumentStatus.parsed))
            (λ stored.
              pure (if stored then skipped job IngestionOutcome.chunked else claim_lost job))

  -- `_chunk_claimed`
  unfoldable pub chunk_claimed : IngestionService → IngestionJob → Bool → M IngestionResult
  chunk_claimed self job final_attempt = do
    pages ← finally (Pages.list_for_document rt job.document_id job.owner_id) (rollback rt)
    if is_empty pages
        then fail rt job IngestionReason.no_extracted_pages
        else handle (call (λ _. other) (λ t. self.chunk t pages))
            (on_exception (chunking_failed job final_attempt DocumentStatus.parsed))
            (after_chunking job final_attempt)
