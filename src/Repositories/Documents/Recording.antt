-- ===== src/Repositories/Documents/Recording.antt =====
-- Documents that an upload records, and the reads of their owner: `create`, `get_for_user`,
-- `find_live_by_content_hash_for_user`, `list_for_user`.
pub mod Contents
pub mod Unique
use researchmind_mcp.Prelude.{
  ℕ, String, Bool, true, false, Option, none, some, List, [], ◌∷◌, ◌++◌, ◌&&◌, ◌==◌, not, ltb,
  is_none, any, find, map, map_option, select, order_by, str_eq, if◌then◌else◌,
}
use researchmind_mcp.Models.{Text, DocumentStatus, DocumentType}
use researchmind_mcp.Exec.{
  Exc, Result, ok, err, pure, raise, lift, ◌>>=◌, integrity, duplicate, content_per_owner, other,
}
use researchmind_mcp.Runtime.{Runtime}
use researchmind_mcp.Database.{DocumentRow, UserRow, Db, check_document}
use researchmind_mcp.Database.Session.{M, World, Statement, execute, execute_naming}
use researchmind_mcp.Repositories.{parse_id, with_ids, owned_live}

-- `Document` (shared/models/document.py). Its metadata, which uploads leave empty, is left out.
pub record Document : Type 0 where
  pub id : String
  pub user_id : String
  pub filename : Text
  pub doc_type : DocumentType
  pub status : DocumentStatus
  pub chunk_count : ℕ
  pub content_hash : Option String
  pub size_bytes : Option ℕ
  pub mime_type : Option String
  pub page_count : Option ℕ
  pub created_at : ℕ
  pub updated_at : ℕ

abbrev pub to_document : Runtime → DocumentRow → Document
to_document rt row = record {
  id = rt.print_uuid row.id;
  user_id = rt.print_uuid row.user_id;
  filename = row.filename;
  doc_type = row.doc_type;
  status = row.status;
  chunk_count = row.chunk_count;
  content_hash = row.content_hash;
  size_bytes = row.size_bytes;
  mime_type = row.mime_type;
  page_count = row.page_count;
  created_at = row.created_at;
  updated_at = row.updated_at;
}

-- What an upload records.
pub record Upload : Type 0 where
  pub filename : Text
  pub doc_type : DocumentType
  pub storage_key : String
  pub content_hash : String
  pub size_bytes : ℕ
  pub mime_type : String
  pub page_count : ℕ

abbrev pub new_document : ℕ → ℕ → Upload → ℕ → DocumentRow
new_document id owner upload now = record {
  id = id;
  user_id = owner;
  filename = upload.filename;
  doc_type = upload.doc_type;
  status = DocumentStatus.pending;
  chunk_count = 0;
  storage_key = some upload.storage_key;
  content_hash = some upload.content_hash;
  size_bytes = some upload.size_bytes;
  mime_type = some upload.mime_type;
  page_count = some upload.page_count;
  failure_reason = none;
  created_at = now;
  updated_at = now;
  deleted_at = none;
}

abbrev pub has_hash : String → Option String → Bool
has_hash content_hash none = false
has_hash content_hash (some h) = str_eq h content_hash

-- WHERE content_hash AND user_id AND deleted_at IS NULL
abbrev pub live_content : ℕ → String → DocumentRow → Bool
live_content owner content_hash row =
    has_hash content_hash row.content_hash && row.user_id == owner && is_none row.deleted_at

abbrev pub has_row : ℕ → Db → Bool
has_row id db = any (λ (row : DocumentRow). row.id == id) db.documents

-- The foreign key of the owner.
abbrev pub has_user : ℕ → Db → Bool
has_user owner db = any (λ (row : UserRow). row.id == owner) db.users

-- The row's CHECKs and primary key.
abbrev pub admissible : ℕ → ℕ → Upload → ℕ → Db → Bool
admissible id owner upload now db =
    check_document (new_document id owner upload now) && not (has_row id db)

-- INSERT INTO documents; then `uq_documents_user_id_content_hash` and the foreign key.
unfoldable pub insert_document : ℕ → ℕ → Upload → Statement (Unit {0})
insert_document id owner upload now db =
    if admissible id owner upload now db
    then if any (live_content owner upload.content_hash) db.documents
      then none
      else if has_user owner db
      then some (
        tt,
        some (record db { documents = db.documents ++ new_document id owner upload now ∷ [] }),
      )
      else none
    else none

-- Which constraint an INSERT violates; a row's CHECKs do not depend on the time.
abbrev pub document_violation : ℕ → ℕ → Upload → Db → Exc
document_violation id owner upload db =
    if admissible id owner upload 0 db && any (live_content owner upload.content_hash) db.documents
    then duplicate content_per_owner
    else integrity

module _ (rt : Runtime) where
  -- session.refresh(row); without a row it raises InvalidRequestError.
  unfoldable pub select_document : ℕ → Statement (Option Document)
  select_document id now db =
      some (
        map_option (to_document rt) (find (λ (row : DocumentRow). row.id == id) db.documents),
        none,
      )

  abbrev pub refreshed : Option Document → Result Document
  refreshed none = err other
  refreshed (some document) = ok document

  abbrev pub insert_new : Option ℕ → Upload → ℕ → M Document
  insert_new none upload id = raise other
  insert_new (some owner) upload id =
      execute_naming rt (document_violation id owner upload) (insert_document id owner upload)
      >>= λ _. execute rt (select_document id) >>= λ document. lift (refreshed document)

  unfoldable pub create : String → Upload → M Document
  create user_id upload w = insert_new (parse_id rt user_id) upload (rt.uuid4 w.tick) w

  unfoldable pub select_owned_document : ℕ → ℕ → Statement (Option Document)
  select_owned_document target owner now db =
      some (map_option (to_document rt) (find (owned_live target owner) db.documents), none)

  unfoldable pub get_for_user : String → String → M (Option Document)
  get_for_user document_id user_id =
      with_ids (parse_id rt document_id) (parse_id rt user_id) (pure none)
        (λ target owner. execute rt (select_owned_document target owner))

  unfoldable pub select_content : ℕ → String → Statement (Option Document)
  select_content owner content_hash now db =
      some (map_option (to_document rt) (find (live_content owner content_hash) db.documents), none)

  unfoldable pub find_live_by_content_hash_for_user : String → String → M (Option Document)
  find_live_by_content_hash_for_user content_hash user_id = elim (parse_id rt user_id) [
    | none ↦ pure none
    | some owner ↦ execute rt (select_content owner content_hash)
  ]

  -- ORDER BY created_at DESC
  unfoldable pub select_owned_documents : ℕ → Statement (List Document)
  select_owned_documents owner now db = some (
    map (to_document rt) (
        order_by (λ (a b : DocumentRow). ltb b.created_at a.created_at)
          (select (λ (row : DocumentRow). row.user_id == owner && is_none row.deleted_at)
            db.documents)),
    none,
  )

  unfoldable pub list_for_user : String → M (List Document)
  list_for_user user_id = elim (parse_id rt user_id) [
    | none ↦ pure []
    | some owner ↦ execute rt (select_owned_documents owner)
  ]
