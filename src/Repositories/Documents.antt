-- ===== src/Repositories/Documents.antt =====
-- `DocumentRepository` (backend/db/repositories/document.py).
pub mod CompareAndSet
pub mod Reaping
pub mod Recording
use researchmind_mcp.Prelude.{
  ℕ, zero, suc, ◌+◌, String, Bool, true, false, Option, none, some, List, ◌&&◌, ◌||◌, ◌==◌, ltb,
  not, is_none, is_some, find, any, map, map_option, get_or, select, take, order_by, option_eq,
  str_eq, if◌then◌else◌,
}
use researchmind_mcp.Models.{
  Text, DocumentStatus, DocumentType, status_eq, status_in, IngestionTarget,
}
use researchmind_mcp.Models.Reason.{IngestionReason}
use researchmind_mcp.Exec.{pure, raise, other}
use researchmind_mcp.Runtime.{Runtime}
use researchmind_mcp.Database.{DocumentRow, Db, update_documents}
use researchmind_mcp.Database.Session.{M, Statement, execute}
use researchmind_mcp.Repositories.{parse_id, with_ids, owned_live}

-- The row of a SELECT as an `IngestionTarget`.
abbrev pub to_target : Runtime → DocumentRow → IngestionTarget
to_target rt row = record {
  document_id = rt.print_uuid row.id;
  owner_id = rt.print_uuid row.user_id;
  status = row.status;
  storage_key = row.storage_key;
  content_hash = row.content_hash;
  mime_type = row.mime_type;
  page_count = row.page_count;
}

module _ (rt : Runtime) where
  -- SELECT ... WHERE id AND user_id AND deleted_at IS NULL
  unfoldable pub select_target : ℕ → ℕ → Statement (Option IngestionTarget)
  select_target target owner now db =
      some (map_option (to_target rt) (find (owned_live target owner) db.documents), none)

  unfoldable pub get_ingestion_target_for_user : String → String → M (Option IngestionTarget)
  get_ingestion_target_for_user document_id user_id =
      with_ids (parse_id rt document_id) (parse_id rt user_id) (pure none)
        (λ target owner. execute rt (select_target target owner))

  unfoldable pub select_live : ℕ → Statement Bool
  select_live target now db =
      some
        (any (λ (row : DocumentRow). row.id == target && is_none row.deleted_at) db.documents, none)

  unfoldable pub live_document_exists : String → M Bool
  live_document_exists document_id = elim (parse_id rt document_id) [
    | none ↦ pure false
    | some target ↦ execute rt (select_live target)
  ]

  -- UPDATE ... WHERE id AND user_id AND deleted_at IS NULL
  unfoldable pub stamp_deleted : ℕ → ℕ → Statement Bool
  stamp_deleted target owner now db =
      map_option (λ (r : ℕ × Db). (ltb 0 r.0, some r.1))
        (update_documents (owned_live target owner)
          (λ (row : DocumentRow). record row { deleted_at = some now }) db)

  unfoldable pub soft_delete_for_user : String → String → M Bool
  soft_delete_for_user document_id user_id =
      with_ids (parse_id rt document_id) (parse_id rt user_id) (pure false)
        (λ target owner. execute rt (stamp_deleted target owner))

-- What the compare-and-set matches.
abbrev pub stands_at : ℕ → ℕ → DocumentStatus → DocumentRow → Bool
stands_at target owner expected row = owned_live target owner row && status_eq row.status expected

-- What it writes. `chunk_count` is written only when given.
abbrev pub moved_to :
    DocumentStatus → Option IngestionReason → Option ℕ → ℕ → DocumentRow → DocumentRow
moved_to new failure_reason chunk_count now row = record row {
  status = new;
  failure_reason = failure_reason;
  updated_at = now;
  chunk_count = get_or row.chunk_count chunk_count;
}

-- UPDATE ... WHERE id AND user_id AND deleted_at IS NULL AND status = :expected
unfoldable pub update_status :
    ℕ → ℕ → DocumentStatus → DocumentStatus → Option IngestionReason → Option ℕ → Statement Bool
update_status target owner expected new failure_reason chunk_count now db =
    map_option (λ (r : ℕ × Db). (ltb 0 r.0, some r.1))
      (update_documents (stands_at target owner expected)
        (moved_to new failure_reason chunk_count now) db)

-- A claim is stale when nothing has moved it for `stale_after` seconds.
abbrev pub is_stale : ℕ → ℕ → DocumentRow → Bool
is_stale stale_after now row =
    status_eq row.status DocumentStatus.processing
    && is_none row.deleted_at
    && ltb (row.updated_at + stale_after) now

module _ (rt : Runtime) where
  unfoldable pub transition_status_for_user :
      String → String → DocumentStatus → DocumentStatus → Option IngestionReason → Option ℕ → M Bool
  transition_status_for_user document_id user_id expected new failure_reason chunk_count =
      with_ids (parse_id rt document_id) (parse_id rt user_id) (pure false) (λ target owner.
        execute rt (update_status target owner expected new failure_reason chunk_count))

  -- UPDATE ... RETURNING id
  unfoldable pub update_stale : ℕ → IngestionReason → Statement (List String)
  update_stale stale_after failure_reason now db =
      let reaped =
        map (λ (row : DocumentRow). rt.print_uuid row.id)
          (select (is_stale stale_after now) db.documents) in
      map_option (λ (r : ℕ × Db). (reaped, some r.1))
        (update_documents (is_stale stale_after now)
          (λ (row : DocumentRow). record row {
            status = DocumentStatus.failed;
            failure_reason = some failure_reason;
            updated_at = now;
          })
          db)

  unfoldable pub fail_stale_processing : ℕ → IngestionReason → M (List String)
  fail_stale_processing stale_after failure_reason =
      execute rt (update_stale stale_after failure_reason)

-- Rows with stored content, in one of the statuses.
abbrev pub is_recoverable : List DocumentStatus → DocumentRow → Bool
is_recoverable statuses row =
    status_in row.status statuses
    && is_none row.deleted_at
    && is_some row.storage_key
    && is_some row.content_hash
    && is_some row.mime_type

-- ORDER BY updated_at, id
abbrev pub is_older : DocumentRow → DocumentRow → Bool
is_older a b = ltb a.updated_at b.updated_at || (a.updated_at == b.updated_at && ltb a.id b.id)

module _ (rt : Runtime) where
  unfoldable pub select_recoverable : List DocumentStatus → ℕ → Statement (List IngestionTarget)
  select_recoverable statuses limit now db = some (
    map (to_target rt)
        (take limit (order_by is_older (select (is_recoverable statuses) db.documents))),
    none,
  )

  -- A claimed document is the reaper's: `ValueError`.
  unfoldable pub list_for_recovery : List DocumentStatus → ℕ → M (List IngestionTarget)
  list_for_recovery statuses limit =
      if status_in DocumentStatus.processing statuses
      then raise other
      else execute rt (select_recoverable statuses limit)
