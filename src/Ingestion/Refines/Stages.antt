-- ===== src/Ingestion/Refines/Stages.antt =====
-- The parse and chunk stages, run under a claim, keep to the lifecycle.
use researchmind_mcp.Prelude.{ℕ, ◌≡◌, refl, false, not, some, List, [], ◌∷◌, is_empty, any}
use researchmind_mcp.Models.{
  Bytes, ExtractedPage, ExtractedText, has_text, ChunkingResult, IngestionTarget,
}
use researchmind_mcp.Models.Reason.{IngestionReason, StorageFault, object_missing}
use researchmind_mcp.Exec.{Exc, storage, extraction, other}
use researchmind_mcp.Exec.Keeps.{Plain, Keeps, Keeps-finally, Triple-if}
use researchmind_mcp.Lifecycle.{Stage, parse, chunk}
use researchmind_mcp.Database.Session.{Reads}
use researchmind_mcp.Database.Session.Rules.{Holds, Keeps-execute}
use researchmind_mcp.Database.Session.Closing.{Keeps-rollback, Keeps-run_sync, Keeps-call}
use researchmind_mcp.Repositories.Pages
use researchmind_mcp.Repositories.Pages.{select_pages}
use researchmind_mcp.Ingestion.ParseStage.{
  processing_failed, after_extraction, on_extraction_error, on_fetch_error, after_fetch,
  process_claimed,
}
use researchmind_mcp.Ingestion.ChunkStage.{after_chunking, chunk_claimed}
use researchmind_mcp.Ingestion.Refines.Endings.{
  Delivery, Tr, Tr-Stable, EndsStage, handle-EndsStage, bind-EndsStage, store-EndsStage,
  on_exception-EndsStage, fail-EndsStage, retry_later-EndsStage,
}
use researchmind_mcp.Ingestion.Refines.Outputs.{store_parsed-StoresStage, store_chunks-StoresStage}

-- A document with text has pages.
pages_of_text :
    (extracted : ExtractedText)
    → not (has_text extracted) ≡ false
    → is_empty extracted.pages ≡ false
unfolding has_text
pages_of_text extracted h = by_pages extracted.pages h
  where
    by_pages :
        (pages : List ExtractedPage)
        → not (any (λ (page : ExtractedPage). not (is_empty page.blocks)) pages) ≡ false
        → is_empty pages ≡ false
    by_pages [] h = cc
    by_pages (page ∷ pages) h = refl

select_pages-Reads : (target owner : ℕ) → Reads (select_pages target owner)
unfolding select_pages
select_pages-Reads target owner now d = (_, refl)

pub ruleset stage_rules =
    (Triple-if, fail-EndsStage, on_exception-EndsStage, handle-EndsStage, bind-EndsStage)

module _ (δ : Delivery) where
  open δ use {rt, self, job, target, owner, names, final_attempt}

  module _ (s : Stage) where
    pub read_pages-Keeps :
        Keeps (Holds (Tr δ (some s))) (Pages.list_for_document rt job.document_id job.owner_id)
    unfolding Pages.list_for_document
    read_pages-Keeps =
        rw (names.document, names.user)
          (Keeps-execute rt (Tr δ (some s)) (Tr-Stable δ (some s)) (select_pages target owner)
            (select_pages-Reads target owner))

  module _ (found : IngestionTarget) where
    processing_failed-EndsStage : EndsStage δ parse (processing_failed rt job found final_attempt)
    processing_failed-EndsStage = retry_later-EndsStage δ parse IngestionReason.processing_failure

    after_extraction-EndsStage :
        (extracted : ExtractedText)
        → EndsStage δ parse (after_extraction rt job found final_attempt extracted)
    unfolding after_extraction
    after_extraction-EndsStage extracted =
        search
          (
            stage_rules, store-EndsStage, store_parsed-StoresStage, pages_of_text,
            processing_failed-EndsStage,
          )
          depth 8

    on_extraction_error-EndsStage :
        (e : Exc) → Plain e → EndsStage δ parse (on_extraction_error rt job found final_attempt e)
    unfolding on_extraction_error
    on_extraction_error-EndsStage (extraction failure) p =
        search (stage_rules, retry_later-EndsStage δ parse)
    on_extraction_error-EndsStage e p =
        on_exception-EndsStage δ parse processing_failed-EndsStage e p

    on_fetch_error-EndsStage :
        (e : Exc) → Plain e → EndsStage δ parse (on_fetch_error rt job found final_attempt e)
    unfolding on_fetch_error
    on_fetch_error-EndsStage (storage object_missing) p = fail-EndsStage δ parse _
    on_fetch_error-EndsStage (storage StorageFault.failed) p = retry_later-EndsStage δ parse _
    on_fetch_error-EndsStage e p = on_exception-EndsStage δ parse processing_failed-EndsStage e p

    after_fetch-EndsStage :
        (content : Bytes) → EndsStage δ parse (after_fetch rt self job found final_attempt content)
    unfolding after_fetch
    after_fetch-EndsStage content = search (
      stage_rules,
      Keeps-run_sync rt (Tr δ (some parse)) (rt.sha256 content),
      Keeps-call rt (Tr δ (some parse)) extraction (λ t. self.extract t content self.max_pages)
          (λ e. tt),
      on_extraction_error-EndsStage,
      after_extraction-EndsStage,
    )

    pub process_claimed-EndsStage :
        EndsStage δ parse (process_claimed rt self job found final_attempt)
    unfolding process_claimed
    process_claimed-EndsStage = search (
      stage_rules,
      Keeps-call rt (Tr δ (some parse)) storage (λ t. self.storage_get t job.storage_key) (λ e. tt),
      on_fetch_error-EndsStage,
      after_fetch-EndsStage,
    )

  after_chunking-EndsStage :
      (chunking : ChunkingResult) → EndsStage δ chunk (after_chunking rt job final_attempt chunking)
  unfolding after_chunking
  after_chunking-EndsStage chunking =
      search (stage_rules, store-EndsStage, store_chunks-StoresStage, retry_later-EndsStage δ chunk)
        depth 8

  pub chunk_claimed-EndsStage : EndsStage δ chunk (chunk_claimed rt self job final_attempt)
  unfolding chunk_claimed
  chunk_claimed-EndsStage =
      bind-EndsStage δ chunk
        (Keeps-finally (read_pages-Keeps chunk) (Keeps-rollback rt (Tr δ (some chunk))))
        (λ pages.
          search
            (
              stage_rules,
              Keeps-call rt (Tr δ (some chunk)) (λ _. other) (λ t. self.chunk t pages) (λ e. tt),
              retry_later-EndsStage δ chunk,
              after_chunking-EndsStage,
            )
            depth 8)
