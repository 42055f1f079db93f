-- ===== src/Models/Reason.antt =====
-- Why a job was rejected, a document failed, or a collaborator refused:
-- `IngestionReason`, `ExtractionFailure`, and the exceptions of shared/interfaces/storage.py.
use researchmind_mcp.Prelude.{Bool, true, false}

pub data IngestionReason : Type 0 where
  invalid_job document_not_found ownership_mismatch storage_key_mismatch content_hash_mismatch
        mime_type_mismatch :
      IngestionReason
  storage_missing storage_read_failure unsupported_mime_type processing_failure stale_processing :
      IngestionReason
  pdf_open_failed pdf_encrypted page_limit_exceeded pdf_parse_failed pdf_timeout
        parser_unavailable :
      IngestionReason
  page_count_mismatch no_extractable_text no_extracted_pages no_chunks_produced chunking_failure :
      IngestionReason
  no_chunks_to_embed embedding_failure vector_store_failure embedding_dimension_mismatch unknown :
      IngestionReason

pub data ExtractionFailure : Type 0 where
  open_failed encrypted page_limit_exceeded parse_failed timeout parser_unavailable :
      ExtractionFailure

-- `StorageObjectMissing`, and any other `StorageError`.
pub data StorageFault : Type 0 where
  object_missing failed : StorageFault

-- `IngestionReason(exc.reason.value)`: the two enumerations share their values.
unfoldable pub reason_of : ExtractionFailure → IngestionReason
reason_of open_failed = pdf_open_failed
reason_of encrypted = pdf_encrypted
reason_of ExtractionFailure.page_limit_exceeded = IngestionReason.page_limit_exceeded
reason_of parse_failed = pdf_parse_failed
reason_of timeout = pdf_timeout
reason_of ExtractionFailure.parser_unavailable = IngestionReason.parser_unavailable

-- `PdfExtractionError.transient`
unfoldable pub is_transient : ExtractionFailure → Bool
is_transient ExtractionFailure.parser_unavailable = true
is_transient _ = false

-- `RejectionReason` of document_processing/validation.py.
pub data RejectionReason : Type 0 where
  empty too_large unsupported_type malformed encrypted too_many_pages invalid_filename :
      RejectionReason
