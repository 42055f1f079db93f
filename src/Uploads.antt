-- ===== src/Uploads.antt =====
-- backend/services/document_service.py.
pub mod Validation
pub mod Blobs
pub mod Calm
pub mod Once
use researchmind_mcp.Prelude.{
  ℕ, String, Bool, true, false, not, Option, none, some, List, [], if◌then◌else◌,
}
use researchmind_mcp.Models.{Text, Bytes, DocumentType, IngestionJob}
use researchmind_mcp.Models.User.{Principal}
use researchmind_mcp.Exec.{
  Exc, Result, ok, err, pure, raise, lift, handle, ◌>>=◌, ◌>>◌, cancelled, duplicate,
  content_per_owner, integrity, storage, not_configured, persistence_failed, ingestion_unavailable,
  other,
}
use researchmind_mcp.Runtime.{Runtime, Reply}
use researchmind_mcp.Database.Session.{M, commit, rollback, call, run_sync}
use researchmind_mcp.Repositories.Documents.{soft_delete_for_user}
use researchmind_mcp.Repositories.Documents.Recording.{
  Document, Upload, create, get_for_user, find_live_by_content_hash_for_user, list_for_user,
}
use researchmind_mcp.Storage.{Disk, put, delete}
use researchmind_mcp.StorageKey.{document_storage_key}
use researchmind_mcp.Uploads.Validation.{
  FileRules, ValidatedPdf, display_filename, read_capped, validate_pdf,
}

-- `UploadOutcome` (shared/models/document.py)
pub record UploadOutcome : Type 0 where
  pub document : Document
  pub created : Bool

-- `DocumentService`, with the settings that an upload reads.
pub record DocumentService : Type 0 where
  -- whether it was given storage and a queue
  pub configured : Bool
  pub disk : Disk
  pub enqueue : ℕ → IngestionJob → Reply (Unit {0}) (Unit {0})
  pub rules : FileRules
  pub max_upload_bytes : ℕ
  pub max_pdf_pages : ℕ

module _ (rt : Runtime) (self : DocumentService) where
  abbrev pub unless_stored : Exc → M (Unit {0})
  unless_stored (storage fault) = pure tt
  unless_stored e = raise e

  -- `_discard`: only what this upload has stored; a StorageError is logged.
  unfoldable pub discard : String → Bool → M (Unit {0})
  discard key created_blob =
      if not created_blob then pure tt else handle (delete rt self.disk key) unless_stored pure

  unfoldable pub discarded : String → Bool → M UploadOutcome
  discarded key created_blob = discard key created_blob >> raise persistence_failed

  -- The row of a concurrent upload of the same content.
  abbrev pub after_winner : String → Bool → Option Document → M UploadOutcome
  after_winner key created_blob none = discarded key created_blob
  after_winner key created_blob (some winner) = pure (record { document = winner; created = false })

  -- with `_is_duplicate_content`
  unfoldable pub not_recorded : String → String → String → Bool → Exc → M UploadOutcome
  not_recorded content_hash owner_id key created_blob cancelled = raise cancelled
  not_recorded content_hash owner_id key created_blob (duplicate content_per_owner) =
      rollback rt
      >> find_live_by_content_hash_for_user rt content_hash owner_id
      >>= after_winner key created_blob
  not_recorded content_hash owner_id key created_blob e = rollback rt >> discarded key created_blob

  unfoldable pub undo_failed : Exc → M Bool
  undo_failed cancelled = raise cancelled
  undo_failed e = rollback rt >> pure false

  -- `_undo_unqueued_upload`
  unfoldable pub undo_unqueued_upload : String → String → String → Bool → M (Unit {0})
  undo_unqueued_upload document_id owner_id key created_blob =
      handle (soft_delete_for_user rt document_id owner_id >> commit rt) undo_failed
        (λ _. pure true)
      >>= λ undone. if undone then discard key created_blob else pure tt

  unfoldable pub not_queued : String → String → String → Bool → Exc → M UploadOutcome
  not_queued document_id owner_id key created_blob cancelled = raise cancelled
  not_queued document_id owner_id key created_blob e =
      undo_unqueued_upload document_id owner_id key created_blob >> raise ingestion_unavailable

  abbrev pub job_for : Document → String → String → ValidatedPdf → IngestionJob
  job_for document owner_id key validated = record {
    document_id = document.id;
    owner_id = owner_id;
    storage_key = key;
    content_hash = validated.content_hash;
    mime_type = validated.mime_type;
  }

  unfoldable pub queue : String → String → ValidatedPdf → Bool → Document → M UploadOutcome
  queue owner_id key validated created_blob document =
      handle (call (λ _. other) (λ t. self.enqueue t (job_for document owner_id key validated)))
        (not_queued document.id owner_id key created_blob)
        (λ _. pure (record { document = document; created = true }))

  abbrev pub upload_of : Text → String → ValidatedPdf → Upload
  upload_of name key validated = record {
    filename = name;
    doc_type = DocumentType.pdf;
    storage_key = key;
    content_hash = validated.content_hash;
    size_bytes = validated.size_bytes;
    mime_type = validated.mime_type;
    page_count = validated.page_count;
  }

  unfoldable pub record_upload : Text → String → String → ValidatedPdf → Bool → M UploadOutcome
  record_upload name owner_id key validated created_blob =
      handle
        (create rt owner_id (upload_of name key validated) >>= λ document.
          commit rt >> pure document)
        (not_recorded validated.content_hash owner_id key created_blob)
        (queue owner_id key validated created_blob)

  -- A key that cannot be derived is the ValueError.
  abbrev pub store_under : Option String → Text → Bytes → String → ValidatedPdf → M UploadOutcome
  store_under none name content owner_id validated = raise other
  store_under (some key) name content owner_id validated =
      put rt self.disk key content >>= record_upload name owner_id key validated

  abbrev pub unless_existing :
      Option Document → Text → Bytes → String → ValidatedPdf → M UploadOutcome
  unless_existing (some existing) name content owner_id validated =
      pure (record { document = existing; created = false })
  unless_existing none name content owner_id validated =
      store_under (document_storage_key rt owner_id validated.content_hash) name content owner_id
        validated

  unfoldable pub upload_and_process : Option Text → List Bytes → Principal → M UploadOutcome
  upload_and_process filename stream principal =
      if not self.configured then raise not_configured else do
        name ← lift (display_filename self.rules filename)
        read ← run_sync rt (read_capped self.max_upload_bytes [] stream)
        content ← lift read
        checked ← run_sync rt (validate_pdf rt self.rules content self.max_pdf_pages)
        validated ← lift checked
        existing ← find_live_by_content_hash_for_user rt validated.content_hash principal.user_id
        unless_existing existing name content principal.user_id validated

  unfoldable pub get_document : String → Principal → M (Option Document)
  get_document document_id principal = get_for_user rt document_id principal.user_id

  unfoldable pub list_user_documents : Principal → M (List Document)
  list_user_documents principal = list_for_user rt principal.user_id

  unfoldable pub not_deleted : Exc → M Bool
  not_deleted cancelled = raise cancelled
  not_deleted e = rollback rt >> raise e

  unfoldable pub delete_document : String → Principal → M Bool
  delete_document document_id principal =
      handle
        (soft_delete_for_user rt document_id principal.user_id >>= λ deleted.
          if deleted then commit rt >> pure true else pure false)
        not_deleted pure
