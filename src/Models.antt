-- ===== src/Models.antt =====
-- The shared data: shared/models/{document,ingestion,extraction,chunking}.py, the failures of
-- shared/interfaces/{storage,pdf_extraction}.py, and what a vector carries (vector_store.py).
-- A text whose characters the code looks at is a list of code points, any other is a `String`.
-- A font size is in tenths of a point (`round(size, 1)`), a vector's number its bit pattern.
mod Status
pub mod Reason
pub mod User
pub use Status.*
use researchmind_mcp.Prelude.{ℕ, String, Bool, Option, List, [], ◌∷◌, any, not, is_empty}
use Reason.{IngestionReason}

abbrev pub Text : Type 0
Text = List ℕ

abbrev pub Bytes : Type 0
Bytes = List ℕ

abbrev pub Vector : Type 0
Vector = List ℕ

-- What one delivery of a job did.
pub data IngestionOutcome : Type 0 where
  parsed skipped_in_progress chunked ready skipped_terminal rejected failed claim_lost :
      IngestionOutcome

pub record IngestionJob : Type 0 where
  pub document_id : String
  pub owner_id : String
  pub storage_key : String
  pub content_hash : String
  pub mime_type : String

pub record IngestionResult : Type 0 where
  pub outcome : IngestionOutcome
  pub document_id : Option String
  pub reason : Option IngestionReason

pub record IngestionTarget : Type 0 where
  pub document_id : String
  pub owner_id : String
  pub status : DocumentStatus
  pub storage_key : Option String
  pub content_hash : Option String
  pub mime_type : Option String
  pub page_count : Option ℕ

pub record RecoveryResult : Type 0 where
  pub requeued : List String
  pub already_queued : ℕ
  pub skipped : ℕ

pub record TextBlock : Type 0 where
  pub text : Text
  pub font_size : ℕ

pub record ExtractedPage : Type 0 where
  pub page_number : ℕ
  pub blocks : List TextBlock

pub record ExtractedText : Type 0 where
  pub page_count : ℕ
  pub pages : List ExtractedPage

-- `ExtractedText.has_text`
unfoldable pub has_text : ExtractedText → Bool
has_text extracted = any (λ (page : ExtractedPage). not (is_empty page.blocks)) extracted.pages

-- A chunk before it is stored.
pub record Chunk : Type 0 where
  pub chunk_index : ℕ
  pub content : Text
  pub section : Option Text
  pub page_start : ℕ
  pub page_end : ℕ
  pub token_count : ℕ

pub record ChunkingResult : Type 0 where
  pub chunks : List Chunk
  pub strategy_version : String
  pub tokenizer_id : String

-- A stored chunk, as reads return it. The embedding is always None, the metadata always empty.
pub record DocumentChunk : Type 0 where
  pub id : String
  pub document_id : String
  pub content : Text
  pub chunk_index : ℕ
  pub section : Option Text
  pub page_start : Option ℕ
  pub page_end : Option ℕ

pub record VectorPayload : Type 0 where
  pub user_id : String
  pub document_id : String
  pub chunk_id : String
  pub chunk_index : ℕ
  pub section : Option Text
  pub page_start : ℕ
  pub page_end : ℕ
  pub strategy_version : String
  pub tokenizer_id : String
  pub embedding_model_id : String
  pub dimension : ℕ

pub record VectorRecord : Type 0 where
  pub id : String
  pub vector : Vector
  pub payload : VectorPayload
