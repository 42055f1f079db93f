-- ===== src/Ingestion/VectorWrites.antt =====
-- The writes of the vector store, and the records that the embed stage writes there.
use researchmind_mcp.Prelude.{
  ℕ, suc, String, Bool, true, Option, none, some, List, [], ◌∷◌, ◌&&◌, not, is_empty, all, select,
  map_option, str_eq, if◌then◌else◌,
}
use researchmind_mcp.Models.{DocumentChunk, Vector, VectorPayload, VectorRecord, IngestionJob}
use researchmind_mcp.Exec.{vector_store, pure}
use researchmind_mcp.Runtime.{Reply, reply}
use researchmind_mcp.Database.Session.{M, replied}
use researchmind_mcp.Repositories.Chunks.{Version, version_eq}
use researchmind_mcp.Ingestion.{IngestionService}

-- A point with the id of a record is replaced.
abbrev pub put_point : VectorRecord → List VectorRecord → List VectorRecord
put_point r points = r ∷ select (λ (p : VectorRecord). not (str_eq p.id r.id)) points

abbrev pub put_points : List VectorRecord → List VectorRecord → List VectorRecord
put_points [] points = points
put_points (r ∷ rs) points = put_points rs (put_point r points)

-- The filter `must: user_id = owner, document_id = document`.
abbrev pub belongs_to : String → String → VectorRecord → Bool
belongs_to document_id owner_id p =
    str_eq p.payload.user_id owner_id && str_eq p.payload.document_id document_id

-- A failed write may have taken effect all the same.
abbrev pub took_effect : Reply (Unit {0}) (Unit {0}) → Bool → Bool
took_effect (reply _) applied = true
took_effect _ applied = applied

module _ (self : IngestionService) where
  unfoldable pub write_points : (List VectorRecord → List VectorRecord) → M (Unit {0})
  write_points f w = (
    replied (λ _. vector_store) (self.vectors w.tick),
    record w {
      points =
          if took_effect (self.vectors w.tick) (self.vectors_applied w.tick)
          then f w.points
          else w.points;
      tick = suc w.tick;
    },
  )

  -- `VectorStore.upsert`; nothing to write is nothing to send.
  unfoldable pub upsert : List VectorRecord → M (Unit {0})
  upsert records = if is_empty records then pure tt else write_points (put_points records)

  -- `VectorStore.delete_document`
  unfoldable pub delete_document : String → String → M (Unit {0})
  delete_document document_id owner_id =
      write_points (select (λ p. not (belongs_to document_id owner_id p)))

  -- `_payload_for`; a chunk without pages is the ValueError.
  abbrev pub payload_of : IngestionJob → DocumentChunk → Option ℕ → Option ℕ → Option VectorPayload
  payload_of job chunk (some first) (some last) = some (record {
    user_id = job.owner_id;
    document_id = job.document_id;
    chunk_id = chunk.id;
    chunk_index = chunk.chunk_index;
    section = chunk.section;
    page_start = first;
    page_end = last;
    strategy_version = self.strategy_version;
    tokenizer_id = self.tokenizer_id;
    embedding_model_id = self.model_id;
    dimension = self.dimension;
  })
  payload_of job chunk (some first) none = none
  payload_of job chunk none last = none

  unfoldable pub payload_for : IngestionJob → DocumentChunk → Option VectorPayload
  payload_for job chunk = payload_of job chunk chunk.page_start chunk.page_end

  -- [VectorRecord(...) for chunk, vector in zip(chunks, vectors)]
  unfoldable pub records_for :
      IngestionJob → List DocumentChunk → List Vector → Option (List VectorRecord)
  records_for job [] vectors = some []
  records_for job (chunk ∷ chunks) [] = some []
  records_for job (chunk ∷ chunks) (vector ∷ vectors) =
      let rest = records_for job chunks vectors in
      elim (payload_for job chunk) [
        | none ↦ none
        | some payload ↦
            map_option (λ rs. (record { id = chunk.id; vector = vector; payload = payload }) ∷ rs)
              rest
      ]

  -- provenance == {self._version}, for a set that is not empty
  unfoldable pub is_current : List Version → Bool
  is_current provenance = all (version_eq (self.strategy_version, self.tokenizer_id)) provenance
