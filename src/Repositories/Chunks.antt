-- ===== src/Repositories/Chunks.antt =====
-- `DocumentChunkRepository` (backend/db/repositories/document_chunk.py), and `chunk_id_for` of
-- shared/models/chunking.py.
pub mod Retrieval
use researchmind_mcp.Prelude.{
  ℕ, String, Bool, none, some, List, [], ◌∷◌, ◌&&◌, ◌||◌, ◌==◌, ltb, not, is_empty, any, map,
  select, order_by, map_option, str_eq, length, if◌then◌else◌,
}
use researchmind_mcp.Models.{Chunk, ChunkingResult, DocumentChunk}
use researchmind_mcp.Exec.{pure, raise, ◌>>=◌, lookup_error}
use researchmind_mcp.Runtime.{Runtime}
use researchmind_mcp.Database.{ChunkRow, Db, insert_chunks}
use researchmind_mcp.Database.Session.{M, Statement, execute}
use researchmind_mcp.Repositories.{parse_id, with_ids, owned_live}
use researchmind_mcp.Repositories.Pages.{select_owned}

abbrev pub chunks_of : ℕ → Db → List ChunkRow
chunks_of target db = select (λ (row : ChunkRow). row.document_id == target) db.chunks

-- (strategy_version, tokenizer_id)
abbrev pub Version : Type 0
Version = String × String

abbrev pub version_eq : Version → Version → Bool
version_eq a b = str_eq a.0 b.0 && str_eq a.1 b.1

-- A set: each pair once.
abbrev pub distinct : List Version → List Version
distinct [] = []
distinct (v ∷ vs) = let rest = distinct vs in if any (version_eq v) rest then rest else v ∷ rest

abbrev pub without_document : ℕ → List ChunkRow → List ChunkRow
without_document target = select (λ (row : ChunkRow). not (row.document_id == target))

-- DELETE ... WHERE document_id = (the owned document, or NULL)
unfoldable pub delete_chunks : ℕ → ℕ → Statement ℕ
delete_chunks target owner now db =
    if any (owned_live target owner) db.documents
    then some (
      length (chunks_of target db),
      some (record db { chunks = without_document target db.chunks }),
    )
    else some (0, none)

abbrev pub marked : ℕ → String → ℕ → ChunkRow → ChunkRow
marked target model_id dimension row =
    if row.document_id == target
    then record row { embedding_model_id = some model_id; dimension = some dimension }
    else row

-- UPDATE ... SET embedding_model_id, dimension; a dimension of 0 violates dimension_positive.
unfoldable pub update_embedded : ℕ → ℕ → String → ℕ → Statement ℕ
update_embedded target owner model_id dimension now db =
    if any (owned_live target owner) db.documents
    then if ltb 0 dimension || is_empty (chunks_of target db)
      then some (
        length (chunks_of target db),
        some (record db { chunks = map (marked target model_id dimension) db.chunks }),
      )
      else none
    else some (0, none)

module _ (rt : Runtime) where
  -- `chunk_id_for(document_id=str(owned), ...)`, and the columns from the chunk.
  abbrev pub chunk_row : ℕ → ChunkingResult → Chunk → ChunkRow
  chunk_row target chunking chunk = record {
    id =
        rt.chunk_uuid (rt.print_uuid target) chunk.chunk_index chunking.strategy_version
          chunking.tokenizer_id;
    document_id = target;
    chunk_index = chunk.chunk_index;
    content = chunk.content;
    section = chunk.section;
    page_start = chunk.page_start;
    page_end = chunk.page_end;
    token_count = chunk.token_count;
    strategy_version = chunking.strategy_version;
    tokenizer_id = chunking.tokenizer_id;
    embedding_model_id = none;
    dimension = none;
  }

  unfoldable pub insert_chunking : ℕ → ChunkingResult → Statement (Unit {0})
  insert_chunking target chunking now db =
      map_option (λ rows. (tt, some (record db { chunks = rows })))
        (insert_chunks db.chunks (map (chunk_row target chunking) chunking.chunks))

  -- The rows that the caller gets back are not used by any caller, and are left out.
  unfoldable pub add_many : String → String → ChunkingResult → M (Unit {0})
  add_many document_id user_id chunking =
      with_ids (parse_id rt document_id) (parse_id rt user_id) (raise lookup_error) (λ target owner.
        do
          owned ← execute rt (select_owned target owner)
          if owned then execute rt (insert_chunking target chunking) else raise lookup_error)

  abbrev pub to_chunk : ChunkRow → DocumentChunk
  to_chunk row = record {
    id = rt.print_uuid row.id;
    document_id = rt.print_uuid row.document_id;
    content = row.content;
    chunk_index = row.chunk_index;
    section = row.section;
    page_start = some row.page_start;
    page_end = some row.page_end;
  }

  unfoldable pub select_chunks : ℕ → ℕ → Statement (List DocumentChunk)
  select_chunks target owner now db = some (
    (if any (owned_live target owner) db.documents
        then map to_chunk
            (order_by (λ (a b : ChunkRow). ltb a.chunk_index b.chunk_index) (chunks_of target db))
        else []),
    none,
  )

  unfoldable pub list_for_document : String → String → M (List DocumentChunk)
  list_for_document document_id user_id =
      with_ids (parse_id rt document_id) (parse_id rt user_id) (pure [])
        (λ target owner. execute rt (select_chunks target owner))

  unfoldable pub select_provenance : ℕ → ℕ → Statement (List Version)
  select_provenance target owner now db = some (
    (if any (owned_live target owner) db.documents
        then distinct (
            map (λ (row : ChunkRow). (row.strategy_version, row.tokenizer_id))
              (chunks_of target db))
        else []),
    none,
  )

  unfoldable pub provenance_for_document : String → String → M (List Version)
  provenance_for_document document_id user_id =
      with_ids (parse_id rt document_id) (parse_id rt user_id) (pure [])
        (λ target owner. execute rt (select_provenance target owner))

  unfoldable pub delete_for_document : String → String → M ℕ
  delete_for_document document_id user_id =
      with_ids (parse_id rt document_id) (parse_id rt user_id) (pure 0)
        (λ target owner. execute rt (delete_chunks target owner))

  unfoldable pub mark_embedded : String → String → String → ℕ → M ℕ
  mark_embedded document_id user_id model_id dimension =
      with_ids (parse_id rt document_id) (parse_id rt user_id) (pure 0)
        (λ target owner. execute rt (update_embedded target owner model_id dimension))
