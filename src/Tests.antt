-- ===== src/Tests.antt =====
-- Runs of the service in the world of Samples.antt, and the theorems at these runs.
use researchmind_mcp.Prelude.{◌≡◌, refl, false, List, [], ◌∷◌, map}
use researchmind_mcp.Models.{DocumentStatus}
use researchmind_mcp.Database.{DocumentRow, Db}
use researchmind_mcp.Exec.{pure, raise, handle, ◌>>=◌, finally}
use researchmind_mcp.Database.{
  check_document, accepts_page, accepts_chunk, update_documents, insert_pages, insert_chunks,
}
use researchmind_mcp.Database.Session.{execute, commit, rollback, call, run_sync}
use researchmind_mcp.Repositories.Documents.{
  select_target, get_ingestion_target_for_user, select_live, live_document_exists, update_status,
  transition_status_for_user,
}
use researchmind_mcp.Repositories.Pages
use researchmind_mcp.Repositories.Pages.{select_owned, insert_extracted, select_pages, add_for_user}
use researchmind_mcp.Repositories.Chunks
use researchmind_mcp.Repositories.Chunks.{
  delete_chunks, update_embedded, insert_chunking, add_many, select_chunks, select_provenance,
  provenance_for_document, delete_for_document, mark_embedded,
}
use researchmind_mcp.StorageKey.{is_sha256_hex, document_storage_key}
use researchmind_mcp.Ingestion.Transitions.{
  on_exception, rolling_back, transition, fail, retry_later, release_after_interruption,
}
use researchmind_mcp.Ingestion.ParseStage.{
  store_parsed, after_extraction, on_extraction_error, on_fetch_error, after_fetch, process_claimed,
}
use researchmind_mcp.Ingestion.ChunkStage.{store_chunks, after_chunking, chunk_claimed}
use researchmind_mcp.Ingestion.EmbedStage.{
  replace_chunks, store_ready, on_store_error, on_embedding_error, after_upsert, upsert_records,
  after_embedding, embed_current, after_delete, after_rechunking, rechunk, after_rechunk,
  embed_claimed,
}
use researchmind_mcp.Ingestion.VectorWrites.{
  write_points, upsert, delete_document, payload_for, records_for, is_current,
}
use researchmind_mcp.Ingestion.Delivery.{
  job_disagrees_with, claimed, on_cancelled, run, from_chunked, from_parsed, from_pending,
  by_status, on_target, on_key, ingest,
}
use researchmind_mcp.Models.{has_text}
use researchmind_mcp.Samples.{calm, service, pdf_job, uploaded}

abbrev statuses : Db → List DocumentStatus
statuses d = map (λ (row : DocumentRow). row.status) d.documents

-- A pending document goes through the three stages in one delivery.
runs_to_ready :
    statuses (ingest calm service pdf_job false (uploaded DocumentStatus.pending)).1.db
    ≡ DocumentStatus.ready ∷ []
unfolding pure raise handle ◌>>=◌ finally check_document accepts_page accepts_chunk update_documents
    insert_pages insert_chunks execute commit rollback call run_sync select_target
    get_ingestion_target_for_user select_live live_document_exists update_status
    transition_status_for_user select_owned insert_extracted select_pages add_for_user
    Pages.list_for_document delete_chunks update_embedded insert_chunking add_many select_chunks
    Chunks.list_for_document select_provenance provenance_for_document delete_for_document
    mark_embedded is_sha256_hex document_storage_key on_exception rolling_back transition fail
    retry_later release_after_interruption store_parsed after_extraction on_extraction_error
    on_fetch_error after_fetch process_claimed store_chunks after_chunking chunk_claimed
    write_points upsert delete_document payload_for records_for is_current replace_chunks
    store_ready on_store_error on_embedding_error after_upsert upsert_records after_embedding
    embed_current after_delete after_rechunking rechunk after_rechunk embed_claimed
    job_disagrees_with claimed on_cancelled run from_chunked from_parsed from_pending by_status
    on_target on_key ingest has_text
runs_to_ready = refl
