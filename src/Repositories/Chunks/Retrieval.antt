-- ===== src/Repositories/Chunks/Retrieval.antt =====
-- `get_for_user` and `validate_for_retrieval`: the reads that join a chunk with its document.
use researchmind_mcp.Prelude.{
  ℕ, String, Bool, Option, none, some, List, [], ◌∷◌, ◌&&◌, ◌==◌, any, find, select, is_empty,
  option_eq, str_eq, map_option, if◌then◌else◌,
}
use researchmind_mcp.Models.{Text, DocumentStatus, status_eq, DocumentChunk}
use researchmind_mcp.Exec.{pure}
use researchmind_mcp.Runtime.{Runtime}
use researchmind_mcp.Database.{ChunkRow, DocumentRow, Db}
use researchmind_mcp.Database.Session.{M, Statement, execute}
use researchmind_mcp.Repositories.{parse_id, with_ids, owned_live}
use researchmind_mcp.Repositories.Chunks.{to_chunk}

-- `ValidatedChunk` (shared/models/retrieval.py)
pub record ValidatedChunk : Type 0 where
  pub chunk_id : String
  pub document_id : String
  pub content : Text
  pub chunk_index : ℕ
  pub section : Option Text
  pub page_start : ℕ
  pub page_end : ℕ
  pub embedding_model_id : String

-- JOIN documents ON document_chunks.document_id = documents.id WHERE user_id, deleted_at, status
abbrev pub searchable : ℕ → ℕ → DocumentRow → Bool
searchable target owner row =
    owned_live target owner row && status_eq row.status DocumentStatus.ready

-- The conditions on a chunk other than its id.
abbrev pub retrievable : ℕ → String → ℕ → Db → ChunkRow → Bool
retrievable owner model_id dimension db row =
    any (searchable row.document_id owner) db.documents
    && option_eq str_eq row.embedding_model_id (some model_id)
    && option_eq (λ (a b : ℕ). a == b) row.dimension (some dimension)

-- id IN targets
abbrev pub among : List ℕ → ℕ → Bool
among targets id = any (λ target. target == id) targets

abbrev pub select_retrievable : ℕ → String → ℕ → List ℕ → Statement (List ChunkRow)
select_retrievable owner model_id dimension targets now db = some (
  select (λ (row : ChunkRow). among targets row.id && retrievable owner model_id dimension db row)
      db.chunks,
  none,
)

-- A dict: the last value that a key was given comes first.
abbrev pub Validated : Type 0
Validated = List (String × ValidatedChunk)

abbrev pub with_target : Option ℕ → List ℕ → List ℕ
with_target none targets = targets
with_target (some target) targets = target ∷ targets

module _ (rt : Runtime) where
  unfoldable pub select_chunk : ℕ → ℕ → Statement (Option DocumentChunk)
  select_chunk target owner now db = some (
    map_option (to_chunk rt) (
        find
          (λ (row : ChunkRow).
            row.id == target && any (owned_live row.document_id owner) db.documents)
          db.chunks),
    none,
  )

  unfoldable pub get_for_user : String → String → M (Option DocumentChunk)
  get_for_user chunk_id user_id =
      with_ids (parse_id rt chunk_id) (parse_id rt user_id) (pure none)
        (λ target owner. execute rt (select_chunk target owner))

  -- [parsed for parsed in wanted.values() if parsed is not None]
  abbrev pub parsed_ids : List String → List ℕ
  parsed_ids [] = []
  parsed_ids (id ∷ ids) = with_target (parse_id rt id) (parsed_ids ids)

  abbrev pub validated_chunk : String → ChunkRow → ValidatedChunk
  validated_chunk model_id row = record {
    chunk_id = rt.print_uuid row.id;
    document_id = rt.print_uuid row.document_id;
    content = row.content;
    chunk_index = row.chunk_index;
    section = row.section;
    page_start = row.page_start;
    page_end = row.page_end;
    embedding_model_id = model_id;
  }

  -- validated[str(row.id)] = ValidatedChunk(...), for each row
  abbrev pub collect : String → List ChunkRow → Validated → Validated
  collect model_id [] validated = validated
  collect model_id (row ∷ rows) validated =
      collect model_id rows ((rt.print_uuid row.id, validated_chunk model_id row) ∷ validated)

  abbrev pub as_dict : String → Statement (List ChunkRow) → Statement Validated
  as_dict model_id s now db =
      map_option (λ (r : List ChunkRow × Option Db). (collect model_id r.0 [], r.1)) (s now db)

  unfoldable pub validate_for_retrieval : List String → String → String → ℕ → M Validated
  validate_for_retrieval chunk_ids user_id model_id dimension = elim (parse_id rt user_id) [
    | none ↦ pure []
    | some owner ↦
        if is_empty (parsed_ids chunk_ids)
        then pure []
        else execute rt
            (as_dict model_id (select_retrievable owner model_id dimension (parsed_ids chunk_ids)))
  ]
