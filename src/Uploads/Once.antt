-- ===== src/Uploads/Once.antt =====
-- One live document for each owner and content, however uploads and deletions end.
use researchmind_mcp.Prelude.{ℕ, refl, String, Bool, true, false, not, Option, none, some, List, []}
use researchmind_mcp.Models.{Text, Bytes}
use researchmind_mcp.Models.User.{Principal}
use researchmind_mcp.Exec.{
  Exc, pure, cancelled, duplicate, content_per_owner, email_address, storage, not_configured,
  persistence_failed, ingestion_unavailable, other,
}
use researchmind_mcp.Exec.Keeps.{
  Triple, Triple-bind, Triple-handle, Triple-raise, Triple-if, Triple-pure, Triple_mono,
}
use researchmind_mcp.Runtime.{Runtime}
use researchmind_mcp.Database.Session.{idle, active, invalid, Session, execute}
use researchmind_mcp.Database.Session.Rules.{Holds, Stable, Written, Quiet, Next, execute_first}
use researchmind_mcp.Database.Session.Closing.{
  commit_same, commit-Begun, Begun, Unsettled, Broken_unsettled, Keeps-call,
}
use researchmind_mcp.Repositories.{parse_id, with_ids}
use researchmind_mcp.Repositories.Documents.{soft_delete_for_user, stamp_deleted}
use researchmind_mcp.Repositories.Documents.Recording.{Document}
use researchmind_mcp.Repositories.Documents.Recording.Unique.{
  Unique, stamp_deleted-Writes, stamp_deleted-Unique,
}
use researchmind_mcp.StorageKey.{document_storage_key}
use researchmind_mcp.Uploads.Validation.{ValidatedPdf, display_filename, read_capped, validate_pdf}
use researchmind_mcp.Uploads.{
  DocumentService, unless_stored, discard, discarded, after_winner, not_recorded, undo_failed,
  undo_unqueued_upload, not_queued, queue, upload_of, record_upload, store_under, unless_existing,
  upload_and_process, job_for,
}
use researchmind_mcp.Uploads.Calm.{
  Calm, bind_Calm, lift-Calm, run_sync-Calm, find_Calm, rolled, create-Recorded, put-Calm,
  delete-Calm,
}

module _ (rt : Runtime) (stable : Stable rt Unique) where
  module _ (self : DocumentService) where
    unless_stored-Calm : (e : Exc) → Calm rt stable (unless_stored rt self e)
    unless_stored-Calm (storage fault) = Triple-pure tt (λ w h. h)
    unless_stored-Calm e = Triple-raise e (λ w h. h)

    discard-Calm : (key : String) (b : Bool) → Calm rt stable (discard rt self key b)
    unfolding discard
    discard-Calm key b =
        Triple-if (not b) _ _ (λ _. Triple-pure tt (λ w h. h))
          (λ _.
            Triple-handle (delete-Calm rt stable self.disk key) unless_stored-Calm
              (λ _. Triple-pure tt (λ w h. h)))

    discarded-Calm : (key : String) (b : Bool) → Calm rt stable (discarded rt self key b)
    unfolding discarded
    discarded-Calm key b =
        bind_Calm rt stable (discard-Calm key b) (λ _. Triple-raise persistence_failed (λ w h. h))

    winner_Calm :
        (key : String) (b : Bool) (o : Option Document)
        → Calm rt stable (after_winner rt self key b o)
    winner_Calm key b none = discarded-Calm key b
    winner_Calm key b (some winner) = Triple-pure _ (λ w h. h)

    not_recorded-Calm :
        (hash owner_id key : String) (b : Bool) (e : Exc)
        → Triple
            (Unsettled Unique e)
            (not_recorded rt self hash owner_id key b e)
            (λ _. Holds Unique)
            (λ _. Holds Unique)
    unfolding not_recorded
    not_recorded-Calm hash owner_id key b cancelled =
        Triple-raise cancelled (λ w h. (h.0, h.1 refl))
    not_recorded-Calm hash owner_id key b (duplicate content_per_owner) =
        Triple-bind
          (rolled rt stable (duplicate content_per_owner) _ (find_Calm rt stable hash owner_id))
          (λ e w h. h) (winner_Calm key b)
    not_recorded-Calm hash owner_id key b (duplicate email_address) =
        rolled rt stable (duplicate email_address) _ (discarded-Calm key b)
    not_recorded-Calm hash owner_id key b e = rolled rt stable e _ (discarded-Calm key b)

    -- A soft delete may have begun to write.
    soft_delete-Begun :
        (document_id user_id : String)
        → Triple
            (Holds Unique)
            (soft_delete_for_user rt document_id user_id)
            (λ _ w. Unique w.db × Begun Unique w.session)
            (Unsettled Unique)
    unfolding soft_delete_for_user
    soft_delete-Begun document_id user_id = stamped (parse_id rt document_id) (parse_id rt user_id)
      where
        quiet : (σ : Session) → Quiet σ → Begun Unique σ
        quiet idle h = tt
        quiet (active d) h = elim h [ ]
        quiet invalid h = tt

        begun :
            (target owner : ℕ) (b : Bool) (σ : Session)
            → Written (Next Unique (stamp_deleted rt target owner) Unique b) σ
            → Begun Unique σ
        begun target owner b idle h = tt
        begun target owner b (active d) (before, unique, ran) =
            stamp_deleted-Unique rt target owner unique ran
        begun target owner b invalid h = tt

        stamped :
            (target owner : Option ℕ)
            → Triple
                (Holds Unique)
                (with_ids target owner (pure false) (λ t o. execute rt (stamp_deleted rt t o)))
                (λ _ w. Unique w.db × Begun Unique w.session)
                (Unsettled Unique)
        stamped none owner = Triple-pure false (λ w h. (h.0, quiet w.session h.1))
        stamped (some t) none = Triple-pure false (λ w h. (h.0, quiet w.session h.1))
        stamped (some t) (some o) =
            Triple_mono (λ w h. h) (λ b w h. (h.0.0, begun t o b w.session h.1))
              (Broken_unsettled Unique)
              (execute_first rt Unique stable (stamp_deleted rt t o) (stamp_deleted-Writes rt t o))

    undo_failed-Calm :
        (e : Exc)
        → Triple
            (Unsettled Unique e)
            (undo_failed rt self e)
            (λ _. Holds Unique)
            (λ _. Holds Unique)
    unfolding undo_failed
    undo_failed-Calm cancelled = Triple-raise cancelled (λ w h. (h.0, h.1 refl))
    undo_failed-Calm e = rolled rt stable e _ (Triple-pure false (λ w h. h))

    undo_Calm :
        (document_id owner_id key : String) (b : Bool)
        → Calm rt stable (undo_unqueued_upload rt self document_id owner_id key b)
    unfolding undo_unqueued_upload
    undo_Calm document_id owner_id key b =
        bind_Calm rt stable
          (Triple-handle
            (Triple-bind (soft_delete-Begun document_id owner_id) (λ e w h. h)
              (λ _. commit-Begun rt Unique))
            undo_failed-Calm (λ _. Triple-pure true (λ w h. h)))
          (λ undone.
            Triple-if undone _ _ (λ _. discard-Calm key b) (λ _. Triple-pure tt (λ w h. h)))

    not_queued-Calm :
        (document_id owner_id key : String) (b : Bool) (e : Exc)
        → Calm rt stable (not_queued rt self document_id owner_id key b e)
    unfolding not_queued
    not_queued-Calm document_id owner_id key b cancelled = Triple-raise cancelled (λ w h. h)
    not_queued-Calm document_id owner_id key b e =
        bind_Calm rt stable (undo_Calm document_id owner_id key b)
          (λ _. Triple-raise ingestion_unavailable (λ w h. h))

    record_upload-Calm :
        (name : Text) (owner_id key : String) (validated : ValidatedPdf) (b : Bool)
        → Calm rt stable (record_upload rt self name owner_id key validated b)
    unfolding record_upload queue
    record_upload-Calm name owner_id key validated b =
        Triple-handle
          (Triple-bind (create-Recorded rt stable owner_id (upload_of rt self name key validated))
            (λ e w h. h)
            (λ document.
              Triple-bind (commit_same rt Unique) (Broken_unsettled Unique)
                (λ _. Triple-pure document (λ w h. h))))
          (not_recorded-Calm validated.content_hash owner_id key b)
          (λ document.
            Triple-handle
              (Triple_mono (λ w h. h) (λ a w h. h) (λ e w h. h.1)
                (Keeps-call rt Unique (λ _. other)
                  (λ t. self.enqueue t (job_for rt self document owner_id key validated))
                  (λ _. tt)))
              (not_queued-Calm document.id owner_id key b) (λ _. Triple-pure _ (λ w h. h)))

    unless_existing-Calm :
        (o : Option Document) (name : Text) (bytes : Bytes) (owner_id : String)
        (validated : ValidatedPdf)
        → Calm rt stable (unless_existing rt self o name bytes owner_id validated)
    unless_existing-Calm (some existing) name bytes owner_id validated = Triple-pure _ (λ w h. h)
    unless_existing-Calm none name bytes owner_id validated =
        stored (document_storage_key rt owner_id validated.content_hash)
      where
        stored :
            (o : Option String)
            → Calm rt stable (store_under rt self o name bytes owner_id validated)
        stored none = Triple-raise other (λ w h. h)
        stored (some key) =
            bind_Calm rt stable (put-Calm rt stable self.disk key bytes)
              (record_upload-Calm name owner_id key validated)

    -- However an upload ends, concurrent ones and failures included, no two live documents of one owner have the same content, and nothing is left uncommitted.
    pub upload_and_process-Unique :
        (filename : Option Text) (stream : List Bytes) (principal : Principal)
        → Calm rt stable (upload_and_process rt self filename stream principal)
    unfolding upload_and_process
    upload_and_process-Unique filename stream principal =
        Triple-if (not self.configured) _ _ (λ _. Triple-raise not_configured (λ w h. h))
          (λ _.
            bind_Calm rt stable (lift-Calm rt stable (display_filename self.rules filename))
              (λ name.
                bind_Calm rt stable
                  (run_sync-Calm rt stable (read_capped self.max_upload_bytes [] stream))
                  (λ read. bind_Calm rt stable (lift-Calm rt stable read) (λ bytes.
                    bind_Calm rt stable
                      (run_sync-Calm rt stable
                        (validate_pdf rt self.rules bytes self.max_pdf_pages))
                      (λ checked. bind_Calm rt stable (lift-Calm rt stable checked) (λ validated.
                        bind_Calm rt stable
                          (find_Calm rt stable validated.content_hash principal.user_id)
                          (λ existing.
                            unless_existing-Calm existing name bytes principal.user_id
                              validated)))))))
