-- ===== src/Database.antt =====
-- The tables of backend/db/models/{document,document_page,document_chunk}.py, and their
-- constraints. An id is the 128-bit number of its UUID, a time a number of seconds.
pub mod Session
use researchmind_mcp.Prelude.{
  ℕ, String, Bool, true, Option, none, some, List, [], ◌∷◌, ◌&&◌, ◌||◌, not, is_none, is_some,
  option_eq, all, any, map, select, length, ltb, leb, if◌then◌else◌, ◌==◌, str_eq,
}
use researchmind_mcp.Models.{Text, TextBlock, DocumentStatus, DocumentType, status_eq}
use researchmind_mcp.Models.Reason.{IngestionReason}
use researchmind_mcp.Models.User.{UserRole}

pub record DocumentRow : Type 0 where
  pub id : ℕ
  pub user_id : ℕ
  pub filename : Text
  pub doc_type : DocumentType
  pub status : DocumentStatus
  pub chunk_count : ℕ
  pub storage_key : Option String
  pub content_hash : Option String
  pub size_bytes : Option ℕ
  pub mime_type : Option String
  pub page_count : Option ℕ
  pub failure_reason : Option IngestionReason
  pub created_at : ℕ
  pub updated_at : ℕ
  pub deleted_at : Option ℕ

pub record PageRow : Type 0 where
  pub document_id : ℕ
  pub page_number : ℕ
  pub blocks : List TextBlock

pub record ChunkRow : Type 0 where
  pub id : ℕ
  pub document_id : ℕ
  pub chunk_index : ℕ
  pub content : Text
  pub section : Option Text
  pub page_start : ℕ
  pub page_end : ℕ
  pub token_count : ℕ
  pub strategy_version : String
  pub tokenizer_id : String
  pub embedding_model_id : Option String
  pub dimension : Option ℕ

-- A user's email is what `WHERE email = :email` compares.
pub record UserRow : Type 0 where
  pub id : ℕ
  pub email : String
  pub full_name : String
  pub role : UserRole
  pub is_active : Bool
  pub password_hash : Option String
  pub created_at : ℕ

pub record Db : Type 0 where
  pub users : List UserRow
  pub documents : List DocumentRow
  pub pages : List PageRow
  pub chunks : List ChunkRow

-- A NULL passes a CHECK.
abbrev pub positive : Option ℕ → Bool
positive none = true
positive (some n) = ltb 0 n

abbrev pub same_truth : Bool → Bool → Bool
same_truth true b = b
same_truth _ b = not b

-- The CHECK constraints of `documents`: size_bytes_positive, page_count_positive,
-- failure_reason_iff_failed.
unfoldable pub check_document : DocumentRow → Bool
check_document row =
    same_truth (status_eq row.status DocumentStatus.failed) (is_some row.failure_reason)
    && positive row.size_bytes
    && positive row.page_count

-- The primary key and page_number_positive.
unfoldable pub accepts_page : List PageRow → PageRow → Bool
accepts_page table row =
    ltb 0 row.page_number
    && not (
        any (λ (r : PageRow). r.document_id == row.document_id && r.page_number == row.page_number)
          table)

-- The primary key, UNIQUE (document_id, chunk_index), and the CHECK constraints of
-- `document_chunks`.
unfoldable pub accepts_chunk : List ChunkRow → ChunkRow → Bool
accepts_chunk table row =
    ltb 0 row.page_start
    && leb row.page_start row.page_end
    && ltb 0 row.token_count
    && positive row.dimension
    && not (any (λ (r : ChunkRow). r.id == row.id) table)
    && not (
        any (λ (r : ChunkRow). r.document_id == row.document_id && r.chunk_index == row.chunk_index)
          table)

-- UPDATE documents SET f WHERE p. Returns the rowcount.
unfoldable pub update_documents :
    (DocumentRow → Bool) → (DocumentRow → DocumentRow) → Db → Option (ℕ × Db)
update_documents p f db =
    if all (λ row. check_document (f row)) (select p db.documents)
    then some (
      length (select p db.documents),
      record db { documents = map (λ row. if p row then f row else row) db.documents },
    )
    else none

-- INSERT INTO document_pages, row by row.
unfoldable pub insert_pages : List PageRow → List PageRow → Option (List PageRow)
insert_pages table [] = some table
insert_pages table (row ∷ rows) =
    let rest = insert_pages (row ∷ table) rows in if accepts_page table row then rest else none

-- INSERT INTO document_chunks, row by row.
unfoldable pub insert_chunks : List ChunkRow → List ChunkRow → Option (List ChunkRow)
insert_chunks table [] = some table
insert_chunks table (row ∷ rows) =
    let rest = insert_chunks (row ∷ table) rows in if accepts_chunk table row then rest else none
