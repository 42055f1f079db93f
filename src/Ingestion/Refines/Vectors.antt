-- ===== src/Ingestion/Refines/Vectors.antt =====
-- Embedding the chunks that a document has, under a claim.
use researchmind_mcp.Prelude.{ℕ, refl, Option, none, some, List, is_empty, map}
use researchmind_mcp.Models.{DocumentChunk, Vector, VectorRecord}
use researchmind_mcp.Exec.{Exc, embedding, vector_store}
use researchmind_mcp.Exec.Keeps.{Plain, Keeps, Keeps-finally, Triple-if, Triple-pure, Ends}
use researchmind_mcp.Runtime.{Reply, reply, refusal, crash, cancel}
use researchmind_mcp.Lifecycle.{embed}
use researchmind_mcp.Database.{Db}
use researchmind_mcp.Database.Session.{World, Reads, replied}
use researchmind_mcp.Database.Session.Rules.{Holds, Keeps-execute}
use researchmind_mcp.Database.Session.Closing.{Keeps-rollback, Keeps-call}
use researchmind_mcp.Repositories.Chunks
use researchmind_mcp.Repositories.Chunks.{select_chunks, select_provenance}
use researchmind_mcp.Ingestion.{IngestionService}
use researchmind_mcp.Ingestion.EmbedStage.{
  on_store_error, on_embedding_error, after_upsert, upsert_records, after_embedding, embed_current,
}
use researchmind_mcp.Ingestion.VectorWrites.{write_points, upsert}
use researchmind_mcp.Ingestion.Refines.Endings.{
  Delivery, Tr, Tr-Stable, EndsStage, raise-EndsStage, store-EndsStage, fail-EndsStage,
  retry_later-EndsStage, bind-EndsStage,
}
use researchmind_mcp.Ingestion.Refines.Outputs.{store_ready-StoresStage}
use researchmind_mcp.Ingestion.Refines.Stages.{stage_rules}

-- The vector store is not the database.
module _ (self : IngestionService) (I : Db → Type 0) where
  pub write_points-Keeps :
      (f : List VectorRecord → List VectorRecord) → Keeps (Holds I) (write_points self f)
  unfolding write_points
  write_points-Keeps f = record { at = λ w h. ends (self.vectors w.tick) _ h }
    where
      ends :
          (r : Reply (Unit {0}) (Unit {0})) (w : World)
          → Holds I w
          → Ends (λ _. Holds I) (λ e w'. Plain e × Holds I w') (replied (λ _. vector_store) r, w)
      ends (reply a) w h = h
      ends (refusal e) w h = (tt, h)
      ends crash w h = (tt, h)
      ends cancel w h = (tt, h)

  upsert-Keeps : (records : List VectorRecord) → Keeps (Holds I) (upsert self records)
  unfolding upsert
  upsert-Keeps records =
      Triple-if (is_empty records) _ _ (λ _. Triple-pure tt (λ w h. h)) (λ _. write_points-Keeps _)

select_chunks-Reads : (δ : Delivery) (target owner : ℕ) → Reads (select_chunks δ.rt target owner)
unfolding select_chunks
select_chunks-Reads δ target owner now d = (_, refl)

select_provenance-Reads :
    (δ : Delivery) (target owner : ℕ) → Reads (select_provenance δ.rt target owner)
unfolding select_provenance
select_provenance-Reads δ target owner now d = (_, refl)

module _ (δ : Delivery) where
  open δ use {rt, self, job, target, owner, names, final_attempt}

  read_chunks-Keeps :
      Keeps (Holds (Tr δ (some embed))) (Chunks.list_for_document rt job.document_id job.owner_id)
  unfolding Chunks.list_for_document
  read_chunks-Keeps =
      rw (names.document, names.user)
        (Keeps-execute rt (Tr δ (some embed)) (Tr-Stable δ (some embed))
          (select_chunks rt target owner) (select_chunks-Reads δ target owner))

  pub read_provenance-Keeps :
      Keeps
        (Holds (Tr δ (some embed)))
        (Chunks.provenance_for_document rt job.document_id job.owner_id)
  unfolding Chunks.provenance_for_document
  read_provenance-Keeps =
      rw (names.document, names.user)
        (Keeps-execute rt (Tr δ (some embed)) (Tr-Stable δ (some embed))
          (select_provenance rt target owner) (select_provenance-Reads δ target owner))

  pub on_store_error-EndsStage :
      (e : Exc) → Plain e → EndsStage δ embed (on_store_error rt self job final_attempt e)
  unfolding on_store_error
  on_store_error-EndsStage vector_store p = retry_later-EndsStage δ embed _
  on_store_error-EndsStage e p = raise-EndsStage δ embed e p

  on_embedding_error-EndsStage :
      (e : Exc) → Plain e → EndsStage δ embed (on_embedding_error rt self job final_attempt e)
  unfolding on_embedding_error
  on_embedding_error-EndsStage embedding p = retry_later-EndsStage δ embed _
  on_embedding_error-EndsStage e p = raise-EndsStage δ embed e p

  after_upsert-EndsStage :
      (u : Unit {0}) → EndsStage δ embed (after_upsert rt self job final_attempt u)
  unfolding after_upsert
  after_upsert-EndsStage u =
      search (stage_rules, store-EndsStage, store_ready-StoresStage, retry_later-EndsStage δ embed)
        depth 8

  upsert_records-EndsStage :
      (records : Option (List VectorRecord))
      → EndsStage δ embed (upsert_records rt self job final_attempt records)
  unfolding upsert_records
  upsert_records-EndsStage none = fail-EndsStage δ embed _
  upsert_records-EndsStage (some records) = search (
    stage_rules,
    upsert-Keeps self (Tr δ (some embed)) records,
    on_store_error-EndsStage,
    after_upsert-EndsStage,
  )

  after_embedding-EndsStage :
      (chunks : List DocumentChunk) (vectors : List Vector)
      → EndsStage δ embed (after_embedding rt self job final_attempt chunks vectors)
  unfolding after_embedding
  after_embedding-EndsStage chunks vectors = search (stage_rules, upsert_records-EndsStage)

  pub embed_current-EndsStage : EndsStage δ embed (embed_current rt self job final_attempt)
  unfolding embed_current
  embed_current-EndsStage =
      bind-EndsStage δ embed
        (Keeps-finally read_chunks-Keeps (Keeps-rollback rt (Tr δ (some embed))))
        (λ chunks.
          search
            (
              stage_rules,
              Keeps-call rt (Tr δ (some embed)) (λ _. embedding)
                  (λ t. self.embed_documents t (map (λ (c : DocumentChunk). c.content) chunks))
                  (λ e. tt),
              on_embedding_error-EndsStage,
              after_embedding-EndsStage,
            )
            depth 8)
