-- ===== src/Lifecycle.antt =====
-- The lifecycle of a document under one delivery (ADR-0009 §4, and the docstrings of
-- backend/services/ingestion_service.py): the steps that a delivery may commit, one after
-- another, between what others commit. It holds a claim on the document from the step that takes
-- it to the step that gives it up.
pub mod Isolation
pub mod Claims
use researchmind_mcp.Prelude.{
  ℕ, String, ◌≡◌, Bool, true, false, Option, none, some, List, is_empty, length, get_or, any,
}
use researchmind_mcp.Models.{DocumentStatus, ExtractedPage, ChunkingResult}
use researchmind_mcp.Models.Reason.{IngestionReason}
use researchmind_mcp.Runtime.{Runtime}
use researchmind_mcp.Database.{Db}
use researchmind_mcp.Database.Session.{Ran}
use researchmind_mcp.Repositories.Documents.{update_status, stands_at}
use researchmind_mcp.Repositories.Pages.{insert_extracted}
use researchmind_mcp.Repositories.Chunks.{insert_chunking, delete_chunks, update_embedded}

-- `_PARSE`, `_CHUNK` and `_EMBED`
pub data Stage : Type 0 where
  parse chunk embed : Stage

abbrev pub starts_at : Stage → DocumentStatus
starts_at parse = DocumentStatus.pending
starts_at chunk = DocumentStatus.parsed
starts_at embed = DocumentStatus.chunked

module _ (rt : Runtime) (target owner : ℕ) (model_id : String) (dimension : ℕ) (d₀ : Db) where
  -- The compare-and-set, where it found the document as expected.
  abbrev pub Moves :
      DocumentStatus → DocumentStatus → Option IngestionReason → Option ℕ → Db → Db → Type 0
  Moves expected new reason count d d' =
      Ran (update_status target owner expected new reason count) d true d'

  -- The tables that a delivery can lead to from d₀, with the stage that it holds a claim for.
  pub data Trace : Option Stage → Db → Type 0 where
    start : Trace none d₀
    elsewhere : {c : Option Stage} {d : Db} → Trace c d → (t : ℕ) → Trace c (rt.others t d)
    claim :
        {d d' : Db}
        → Trace none d
        → (s : Stage) → Moves (starts_at s) DocumentStatus.processing none none d d'
        → Trace (some s) d'
    release :
        {d d' : Db} {s : Stage}
        → Trace (some s) d
        → Moves DocumentStatus.processing (starts_at s) none none d d'
        → Trace none d'
    fail :
        {d d' : Db} {s : Stage}
        → Trace (some s) d
        → (reason : IngestionReason)
        → Moves DocumentStatus.processing DocumentStatus.failed (some reason) none d d'
        → Trace none d'
    -- The document is not `processing` any more: another actor took the claim away.
    lose :
        {d : Db} {s : Stage}
        → Trace (some s) d
        → any (stands_at target owner DocumentStatus.processing) d.documents ≡ false
        → Trace none d
    store_pages :
        {d d₁ d₂ : Db}
        → Trace (some parse) d
        → (pages : List ExtractedPage) → is_empty pages ≡ false
        → Moves DocumentStatus.processing DocumentStatus.parsed none none d d₁
        → Ran (insert_extracted target pages) d₁ tt d₂
        → Trace none d₂
    store_chunks :
        {d d₁ d₂ : Db}
        → Trace (some chunk) d
        → (chunking : ChunkingResult) → is_empty chunking.chunks ≡ false
        → Moves DocumentStatus.processing DocumentStatus.chunked none
            (some (length chunking.chunks))
            d
            d₁
        → Ran (insert_chunking rt target chunking) d₁ tt d₂
        → Trace none d₂
    replace_chunks :
        {d d₁ d₂ d₃ : Db}
        → Trace (some embed) d
        → (chunking : ChunkingResult) → is_empty chunking.chunks ≡ false
        → Moves DocumentStatus.processing DocumentStatus.processing none
            (some (length chunking.chunks))
            d
            d₁
        → (n : ℕ) → Ran (delete_chunks target owner) d₁ n d₂
        → Ran (insert_chunking rt target chunking) d₂ tt d₃
        → Trace (some embed) d₃
    finish :
        {d d₁ d₂ : Db}
        → Trace (some embed) d
        → Moves DocumentStatus.processing DocumentStatus.ready none none d d₁
        → (n : ℕ) → Ran (update_embedded target owner model_id dimension) d₁ n d₂
        → Trace none d₂
