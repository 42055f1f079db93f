-- ===== src/Uploads/Blobs.antt =====
-- No upload changes or removes an object that was stored before, however it ends.
use researchmind_mcp.Prelude.{
  ℕ, ◌≡◌, refl, sym, String, Bool, true, false, not, Option, none, some, List, [], Option-cases,
  inl, inr, str_eq,
}
use researchmind_mcp.Models.{Text, Bytes}
use researchmind_mcp.Models.User.{Principal}
use researchmind_mcp.Exec.{
  Exc, pure, ◌>>◌, cancelled, duplicate, content_per_owner, email_address, storage, not_configured,
  persistence_failed, ingestion_unavailable, other,
}
use researchmind_mcp.Exec.Keeps.{
  Triple-bind, Triple-handle, Triple-raise, Triple-if, Triple-pure, Triple-given,
}
use researchmind_mcp.Runtime.{Runtime}
use researchmind_mcp.Database.Session.{M, execute, rollback}
use researchmind_mcp.Repositories.{parse_id, with_ids}
use researchmind_mcp.Repositories.Documents.{soft_delete_for_user, stamp_deleted}
use researchmind_mcp.Repositories.Documents.Recording.{
  Document, Upload, create, refreshed, insert_new, insert_document, document_violation,
  select_document, select_content, find_live_by_content_hash_for_user,
}
use researchmind_mcp.Storage.Stored.{Stored}
use researchmind_mcp.Storage.Safe.{
  Safe, bind_Safe, Safe-execute, Safe-execute_naming, Safe-commit, Safe-rollback, Safe-call,
  Safe-run_sync, Safe-lift, Undisturbed, put-Stored, delete-Stored,
}
use researchmind_mcp.StorageKey.{document_storage_key}
use researchmind_mcp.Uploads.Validation.{ValidatedPdf, display_filename, read_capped, validate_pdf}
use researchmind_mcp.Uploads.{
  DocumentService, unless_stored, discard, discarded, after_winner, not_recorded, undo_failed,
  undo_unqueued_upload, not_queued, queue, upload_of, record_upload, store_under, unless_existing,
  upload_and_process, job_for,
}

module _ (rt : Runtime) (self : DocumentService) (key : String) (content : Bytes)
    (undisturbed : Undisturbed self.disk key content) where
  abbrev KeepsIt : {A : Type 0} → M A → Type 0
  KeepsIt m = Safe (Stored key content) m

  unless_stored-KeepsIt : (e : Exc) → KeepsIt (unless_stored rt self e)
  unless_stored-KeepsIt (storage fault) = Triple-pure tt (λ w h. h)
  unless_stored-KeepsIt e = Triple-raise e (λ w h. h)

  -- What an upload may take for its own.
  abbrev Own : String → Bool → Type 0
  Own k created_blob = created_blob ≡ true → str_eq k key ≡ false

  created_then : (b : Bool) → not b ≡ false → b ≡ true
  created_then true h = refl
  created_then false h = sym h

  discard-KeepsIt : (k : String) (b : Bool) → Own k b → KeepsIt (discard rt self k b)
  unfolding discard
  discard-KeepsIt k b own =
      Triple-if (not b) _ _ (λ _. Triple-pure tt (λ w h. h))
        (λ created.
          Triple-handle
            (delete-Stored rt self.disk key content undisturbed k (own (created_then b created)))
            unless_stored-KeepsIt (λ _. Triple-pure tt (λ w h. h)))

  discarded-KeepsIt : (k : String) (b : Bool) → Own k b → KeepsIt (discarded rt self k b)
  unfolding discarded
  discarded-KeepsIt k b own =
      bind_Safe _ (discard-KeepsIt k b own) (λ _. Triple-raise persistence_failed (λ w h. h))

  find-KeepsIt :
      (content_hash user_id : String)
      → KeepsIt (find_live_by_content_hash_for_user rt content_hash user_id)
  unfolding find_live_by_content_hash_for_user
  find-KeepsIt content_hash user_id = elim (Option-cases (parse_id rt user_id)) [
    | inl nobody ↦ rw (find_live_by_content_hash_for_user, nobody) (Triple-pure none (λ w h. h))
    | inr (owner, there) ↦
        rw (find_live_by_content_hash_for_user, there)
          (Safe-execute rt _ (select_content rt owner content_hash))
  ]

  winner-KeepsIt :
      (k : String) (b : Bool) (o : Option Document) → Own k b → KeepsIt (after_winner rt self k b o)
  winner-KeepsIt k b none own = discarded-KeepsIt k b own
  winner-KeepsIt k b (some winner) own = Triple-pure _ (λ w h. h)

  rolled-KeepsIt :
      (k : String) (b : Bool) → Own k b → KeepsIt (rollback rt >> discarded rt self k b)
  rolled-KeepsIt k b own = bind_Safe _ (Safe-rollback rt _) (λ _. discarded-KeepsIt k b own)

  not_recorded-KeepsIt :
      (content_hash owner_id k : String) (b : Bool) (e : Exc)
      → Own k b
      → KeepsIt (not_recorded rt self content_hash owner_id k b e)
  unfolding not_recorded
  not_recorded-KeepsIt content_hash owner_id k b cancelled own = Triple-raise cancelled (λ w h. h)
  not_recorded-KeepsIt content_hash owner_id k b (duplicate content_per_owner) own =
      bind_Safe _ (bind_Safe _ (Safe-rollback rt _) (λ _. find-KeepsIt content_hash owner_id))
        (λ o. winner-KeepsIt k b o own)
  not_recorded-KeepsIt content_hash owner_id k b (duplicate email_address) own =
      rolled-KeepsIt k b own
  not_recorded-KeepsIt content_hash owner_id k b e own = rolled-KeepsIt k b own

  soft_delete-KeepsIt :
      (document_id user_id : String) → KeepsIt (soft_delete_for_user rt document_id user_id)
  unfolding soft_delete_for_user
  soft_delete-KeepsIt document_id user_id = stamped (parse_id rt document_id) (parse_id rt user_id)
    where
      stamped :
          (target owner : Option ℕ)
          → KeepsIt (with_ids target owner (pure false) (λ t o. execute rt (stamp_deleted rt t o)))
      stamped none owner = Triple-pure false (λ w h. h)
      stamped (some t) none = Triple-pure false (λ w h. h)
      stamped (some t) (some o) = Safe-execute rt _ (stamp_deleted rt t o)

  undo_failed-KeepsIt : (e : Exc) → KeepsIt (undo_failed rt self e)
  unfolding undo_failed
  undo_failed-KeepsIt cancelled = Triple-raise cancelled (λ w h. h)
  undo_failed-KeepsIt e = bind_Safe _ (Safe-rollback rt _) (λ _. Triple-pure false (λ w h. h))

  undo-KeepsIt :
      (document_id owner_id k : String) (b : Bool)
      → Own k b
      → KeepsIt (undo_unqueued_upload rt self document_id owner_id k b)
  unfolding undo_unqueued_upload
  undo-KeepsIt document_id owner_id k b own =
      bind_Safe _
        (Triple-handle
          (bind_Safe _ (soft_delete-KeepsIt document_id owner_id) (λ _. Safe-commit rt _))
          undo_failed-KeepsIt (λ _. Triple-pure true (λ w h. h)))
        (λ undone.
          Triple-if undone _ _ (λ _. discard-KeepsIt k b own) (λ _. Triple-pure tt (λ w h. h)))

  not_queued-KeepsIt :
      (document_id owner_id k : String) (b : Bool) (e : Exc)
      → Own k b
      → KeepsIt (not_queued rt self document_id owner_id k b e)
  unfolding not_queued
  not_queued-KeepsIt document_id owner_id k b cancelled own = Triple-raise cancelled (λ w h. h)
  not_queued-KeepsIt document_id owner_id k b e own =
      bind_Safe _ (undo-KeepsIt document_id owner_id k b own)
        (λ _. Triple-raise ingestion_unavailable (λ w h. h))

  create-KeepsIt : (owner_id : String) (upload : Upload) → KeepsIt (create rt owner_id upload)
  unfolding create
  create-KeepsIt owner_id upload = record {
    at = λ w h. (inserted (parse_id rt owner_id) (rt.uuid4 w.tick)).at w h;
  }
    where
      inserted : (o : Option ℕ) (id : ℕ) → KeepsIt (insert_new rt o upload id)
      inserted none id = Triple-raise other (λ w h. h)
      inserted (some owner) id =
          bind_Safe _
            (Safe-execute_naming rt _ (document_violation id owner upload)
              (insert_document id owner upload))
            (λ _.
              bind_Safe _ (Safe-execute rt _ (select_document rt id))
                (λ document. Safe-lift rt _ (refreshed rt document)))

  record_upload-KeepsIt :
      (name : Text) (owner_id k : String) (validated : ValidatedPdf) (b : Bool)
      → Own k b
      → KeepsIt (record_upload rt self name owner_id k validated b)
  unfolding record_upload queue
  record_upload-KeepsIt name owner_id k validated b own =
      Triple-handle
        (bind_Safe _ (create-KeepsIt owner_id (upload_of rt self name k validated))
          (λ document. bind_Safe _ (Safe-commit rt _) (λ _. Triple-pure document (λ w h. h))))
        (λ e. not_recorded-KeepsIt validated.content_hash owner_id k b e own)
        (λ document.
          Triple-handle
            (Safe-call rt _ (λ _. other)
              (λ t. self.enqueue t (job_for rt self document owner_id k validated)))
            (λ e. not_queued-KeepsIt document.id owner_id k b e own)
            (λ _. Triple-pure _ (λ w h. h)))

  unless_existing-KeepsIt :
      (o : Option Document) (name : Text) (bytes : Bytes) (owner_id : String)
      (validated : ValidatedPdf)
      → KeepsIt (unless_existing rt self o name bytes owner_id validated)
  unless_existing-KeepsIt (some existing) name bytes owner_id validated = Triple-pure _ (λ w h. h)
  unless_existing-KeepsIt none name bytes owner_id validated =
      stored (document_storage_key rt owner_id validated.content_hash)
    where
      stored : (o : Option String) → KeepsIt (store_under rt self o name bytes owner_id validated)
      stored none = Triple-raise other (λ w h. h)
      stored (some k) =
          Triple-bind (put-Stored rt self.disk key content undisturbed k bytes) (λ e w h. h)
            (λ b. Triple-given (λ own. record_upload-KeepsIt name owner_id k validated b own))

  -- However an upload ends, and whatever faults and cancellations meet it, an object that was stored before is there after it with the same content, as long as nobody else removes it: an upload takes back only what it has itself created.
  pub upload_and_process-Stored :
      (filename : Option Text) (stream : List Bytes) (principal : Principal)
      → Safe (Stored key content) (upload_and_process rt self filename stream principal)
  unfolding upload_and_process
  upload_and_process-Stored filename stream principal =
      Triple-if (not self.configured) _ _ (λ _. Triple-raise not_configured (λ w h. h))
        (λ _. bind_Safe _ (Safe-lift rt _ (display_filename self.rules filename)) (λ name.
          bind_Safe _ (Safe-run_sync rt _ (read_capped self.max_upload_bytes [] stream)) (λ read.
            bind_Safe _ (Safe-lift rt _ read) (λ bytes.
              bind_Safe _ (Safe-run_sync rt _ (validate_pdf rt self.rules bytes self.max_pdf_pages))
                (λ checked. bind_Safe _ (Safe-lift rt _ checked) (λ validated.
                  bind_Safe _ (find-KeepsIt validated.content_hash principal.user_id) (λ existing.
                    unless_existing-KeepsIt existing name bytes principal.user_id validated)))))))
