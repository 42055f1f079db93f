-- ===== src/Ingestion/ParseStage.antt =====
-- The parse stage of `IngestionService`: `_process_claimed` and `_store_parsed`.
use researchmind_mcp.Prelude.{
  ℕ, String, Bool, true, false, Option, none, some, not, ltb, ◌==◌, option_eq, str_eq,
  if◌then◌else◌,
}
use researchmind_mcp.Models.{
  Bytes, DocumentStatus, ExtractedText, has_text, IngestionJob, IngestionOutcome, IngestionResult,
  IngestionTarget,
}
use researchmind_mcp.Models.Reason.{
  IngestionReason, StorageFault, object_missing, reason_of, is_transient,
}
use researchmind_mcp.Exec.{Exc, storage, extraction, pure, handle, ◌>>=◌, ◌>>◌}
use researchmind_mcp.Runtime.{Runtime}
use researchmind_mcp.Database.Session.{M, commit, rollback, call, run_sync}
use researchmind_mcp.Repositories.Documents.{transition_status_for_user}
use researchmind_mcp.Repositories.Pages
use researchmind_mcp.Ingestion.{IngestionService}
use researchmind_mcp.Ingestion.Transitions.{
  on_exception, skipped, claim_lost, rolling_back, fail, retry_later,
}

-- `PDF_MIME_TYPE` of document_processing/validation.py.
abbrev pub pdf_mime_type : String
pdf_mime_type = "application/pdf"

-- target.page_count is not None and target.page_count > max_pages
abbrev pub over_limit : Option ℕ → ℕ → Bool
over_limit none max_pages = false
over_limit (some n) max_pages = ltb max_pages n

-- target.page_count is not None and counted != target.page_count
abbrev pub miscounted : Option ℕ → ℕ → Bool
miscounted none counted = false
miscounted (some n) counted = not (counted == n)

module _ (rt : Runtime) where
  -- `_store_parsed`: the pages and `processing → parsed`, both or neither.
  unfoldable pub store_parsed : IngestionJob → ExtractedText → M Bool
  store_parsed job extracted =
      handle
        (do
          moved ←
              transition_status_for_user rt job.document_id job.owner_id DocumentStatus.processing
                DocumentStatus.parsed none none
          if moved
              then (do
                Pages.add_for_user rt job.document_id job.owner_id extracted.pages
                commit rt
                pure true)
              else (do rollback rt; pure false))
        (rolling_back rt) pure

  module _ (job : IngestionJob) (target : IngestionTarget) (final_attempt : Bool) where
    abbrev pub processing_failed : M IngestionResult
    processing_failed =
        retry_later rt job IngestionReason.processing_failure final_attempt DocumentStatus.pending

    unfoldable pub after_extraction : ExtractedText → M IngestionResult
    after_extraction extracted =
        if miscounted target.page_count extracted.page_count
        then fail rt job IngestionReason.page_count_mismatch
        else if not (has_text extracted)
        then fail rt job IngestionReason.no_extractable_text
        else handle (store_parsed job extracted) (on_exception processing_failed) (λ stored.
          pure (if stored then skipped job IngestionOutcome.parsed else claim_lost job))

    unfoldable pub on_extraction_error : Exc → M IngestionResult
    on_extraction_error (extraction failure) =
        if is_transient failure
        then retry_later rt job (reason_of failure) final_attempt DocumentStatus.pending
        else fail rt job (reason_of failure)
    on_extraction_error e = on_exception processing_failed e

    unfoldable pub on_fetch_error : Exc → M IngestionResult
    on_fetch_error (storage object_missing) = fail rt job IngestionReason.storage_missing
    on_fetch_error (storage StorageFault.failed) =
        retry_later rt job IngestionReason.storage_read_failure final_attempt DocumentStatus.pending
    on_fetch_error e = on_exception processing_failed e

  module _ (self : IngestionService) (job : IngestionJob) (target : IngestionTarget)
      (final_attempt : Bool) where
    unfoldable pub after_fetch : Bytes → M IngestionResult
    after_fetch content = do
      actual ← run_sync rt (rt.sha256 content)
      if not (option_eq str_eq (some actual) target.content_hash)
          then fail rt job IngestionReason.content_hash_mismatch
          else handle (call extraction (λ t. self.extract t content self.max_pages))
              (on_extraction_error job target final_attempt)
              (after_extraction job target final_attempt)

    -- `_process_claimed`
    unfoldable pub process_claimed : M IngestionResult
    process_claimed =
        if not (option_eq str_eq target.mime_type (some pdf_mime_type))
        then fail rt job IngestionReason.unsupported_mime_type
        else if over_limit target.page_count self.max_pages
        then fail rt job IngestionReason.page_limit_exceeded
        else handle (call storage (λ t. self.storage_get t job.storage_key))
            (on_fetch_error job target final_attempt) after_fetch
