-- ===== src/Ingestion/EmbedStage.antt =====
-- The embed stage of `IngestionService`: `_embed_claimed`, `_rechunk`, `_replace_chunks`,
-- `_store_ready`, `_payload_for`, and the two writes of `VectorStore`.
use researchmind_mcp.Prelude.{
  Bool, true, false, Option, none, some, List, ◌==◌, not, is_empty, length, any, map, if◌then◌else◌,
}
use researchmind_mcp.Models.{
  DocumentStatus, DocumentChunk, ChunkingResult, Vector, VectorRecord, IngestionJob,
  IngestionOutcome, IngestionResult,
}
use researchmind_mcp.Models.Reason.{IngestionReason}
use researchmind_mcp.Exec.{
  Exc, other, embedding, vector_store, pure, raise, handle, finally, ◌>>=◌, ◌>>◌,
}
use researchmind_mcp.Runtime.{Runtime}
use researchmind_mcp.Database.Session.{M, commit, rollback, call}
use researchmind_mcp.Repositories.Documents.{transition_status_for_user}
use researchmind_mcp.Repositories.Pages
use researchmind_mcp.Repositories.Chunks
use researchmind_mcp.Repositories.Chunks.{Version, version_eq}
use researchmind_mcp.Ingestion.{IngestionService}
use researchmind_mcp.Ingestion.Transitions.{
  on_exception, skipped, claim_lost, rolling_back, fail, retry_later,
}
use researchmind_mcp.Ingestion.ChunkStage.{chunking_failed}
use researchmind_mcp.Ingestion.VectorWrites.{delete_document, is_current, records_for, upsert}

-- The delivery is over, with this result.
abbrev pub over : M IngestionResult → M (Option IngestionResult)
over m = do r ← m; pure (some r)

module _ (rt : Runtime) where
  -- `_replace_chunks`: the old chunks go and the new ones come, both or neither.
  unfoldable pub replace_chunks : IngestionJob → ChunkingResult → M Bool
  replace_chunks job chunking =
      handle
        (do
          moved ←
              transition_status_for_user rt job.document_id job.owner_id DocumentStatus.processing
                DocumentStatus.processing none (some (length chunking.chunks))
          if moved
              then (do
                Chunks.delete_for_document rt job.document_id job.owner_id
                Chunks.add_many rt job.document_id job.owner_id chunking
                commit rt
                pure true)
              else (do rollback rt; pure false))
        (rolling_back rt) pure

module _ (rt : Runtime) (self : IngestionService) where
  -- `_store_ready`: `processing → ready`, and the model on every chunk, both or neither.
  unfoldable pub store_ready : IngestionJob → M Bool
  store_ready job =
      handle
        (do
          moved ←
              transition_status_for_user rt job.document_id job.owner_id DocumentStatus.processing
                DocumentStatus.ready none none
          if moved
              then (do
                Chunks.mark_embedded rt job.document_id job.owner_id self.model_id self.dimension
                commit rt
                pure true)
              else (do rollback rt; pure false))
        (rolling_back rt) pure

  module _ (job : IngestionJob) (final_attempt : Bool) where
    abbrev pub store_failed : M IngestionResult
    store_failed =
        retry_later rt job IngestionReason.vector_store_failure final_attempt DocumentStatus.chunked

    -- `except VectorStoreError`; any other exception leaves the method.
    unfoldable pub on_store_error : Exc → M IngestionResult
    on_store_error vector_store = store_failed
    on_store_error e = raise e

    -- `except EmbeddingError`
    unfoldable pub on_embedding_error : Exc → M IngestionResult
    on_embedding_error embedding =
        retry_later rt job IngestionReason.embedding_failure final_attempt DocumentStatus.chunked
    on_embedding_error e = raise e

    unfoldable pub after_upsert : Unit {0} → M IngestionResult
    after_upsert _ =
        handle (store_ready job)
          (on_exception (
            retry_later rt job IngestionReason.processing_failure final_attempt
              DocumentStatus.chunked))
          (λ stored. pure (if stored then skipped job IngestionOutcome.ready else claim_lost job))

    unfoldable pub upsert_records : Option (List VectorRecord) → M IngestionResult
    upsert_records none = fail rt job IngestionReason.processing_failure
    upsert_records (some records) = handle (upsert self records) on_store_error after_upsert

    unfoldable pub after_embedding : List DocumentChunk → List Vector → M IngestionResult
    after_embedding chunks vectors =
        if any (λ vector. not (length vector == self.dimension)) vectors
        then fail rt job IngestionReason.embedding_dimension_mismatch
        else upsert_records (records_for self job chunks vectors)

    -- From "one pair, and ours" to the end of `_embed_claimed`.
    unfoldable pub embed_current : M IngestionResult
    embed_current = do
      chunks ← finally (Chunks.list_for_document rt job.document_id job.owner_id) (rollback rt)
      if is_empty chunks
          then fail rt job IngestionReason.no_chunks_to_embed
          else handle
              (call (λ _. embedding)
                (λ t. self.embed_documents t (map (λ (c : DocumentChunk). c.content) chunks)))
              on_embedding_error (after_embedding chunks)

    unfoldable pub after_delete : ChunkingResult → Unit {0} → M (Option IngestionResult)
    after_delete chunking _ =
        handle (replace_chunks rt job chunking)
          (λ e. over (on_exception (chunking_failed rt job final_attempt DocumentStatus.chunked) e))
          (λ replaced. pure (if replaced then none else some (claim_lost job)))

    unfoldable pub after_rechunking : ChunkingResult → M (Option IngestionResult)
    after_rechunking chunking =
        if is_empty chunking.chunks
        then over (fail rt job IngestionReason.no_chunks_produced)
        else handle (delete_document self job.document_id job.owner_id)
            (λ e. over (on_store_error e)) (after_delete chunking)

    -- `_rechunk`
    unfoldable pub rechunk : M (Option IngestionResult)
    rechunk = do
      pages ← finally (Pages.list_for_document rt job.document_id job.owner_id) (rollback rt)
      if is_empty pages
          then over (fail rt job IngestionReason.no_chunks_to_embed)
          else handle (call (λ _. other) (λ t. self.chunk t pages))
              (λ e.
                over (on_exception (chunking_failed rt job final_attempt DocumentStatus.chunked) e))
              after_rechunking

    unfoldable pub after_rechunk : Option IngestionResult → M IngestionResult
    after_rechunk (some r) = pure r
    after_rechunk none = embed_current

    -- `_embed_claimed`
    unfoldable pub embed_claimed : M IngestionResult
    embed_claimed = do
      provenance ←
          finally (Chunks.provenance_for_document rt job.document_id job.owner_id) (rollback rt)
      if is_empty provenance
          then fail rt job IngestionReason.no_chunks_to_embed
          else if is_current self provenance
          then embed_current
          else (rechunk >>= after_rechunk)
