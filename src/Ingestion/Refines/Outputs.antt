-- ===== src/Ingestion/Refines/Outputs.antt =====
-- The transactions that store what a stage made, as steps of the lifecycle.
use researchmind_mcp.Prelude.{ℕ, ◌≡◌, Bool, true, false, Option, none, some, is_empty, length}
use researchmind_mcp.Models.{DocumentStatus, ExtractedText, ChunkingResult}
use researchmind_mcp.Exec.Keeps.{Plain, Triple, Triple-bind}
use researchmind_mcp.Lifecycle.{Stage, parse, chunk, embed, Trace}
use researchmind_mcp.Database.{Db}
use researchmind_mcp.Database.Session.Rules.{Holds, Found}
use researchmind_mcp.Repositories.Documents.{update_status}
use researchmind_mcp.Repositories.Documents.CompareAndSet.{update_status_missed}
use researchmind_mcp.Ingestion.ParseStage.{store_parsed}
use researchmind_mcp.Ingestion.ChunkStage.{store_chunks}
use researchmind_mcp.Ingestion.EmbedStage.{replace_chunks, store_ready}
use researchmind_mcp.Ingestion.Refines.Endings.{Delivery, Tr, Tr-Stable, StoresStage}
use researchmind_mcp.Ingestion.Refines.Stores.{
  add_chunks, add_pages, commit_true, mark_chunks, remove_chunks, stores,
}

module _ (δ : Delivery) where
  open δ use {rt, self, job, target, owner, names}

  lost :
      (s : Stage) (new : DocumentStatus) (count : Option ℕ) (d : Db)
      → Found
          (Tr δ (some s))
          (update_status target owner DocumentStatus.processing new none count)
          false
          d
      → Tr δ none d
  lost s new count d (h, d', ran) =
      Trace.lose h
        (update_status_missed target owner DocumentStatus.processing new none count ran).1

  pub store_parsed-StoresStage :
      (extracted : ExtractedText)
      → is_empty extracted.pages ≡ false
      → StoresStage δ parse (store_parsed rt job extracted)
  unfolding store_parsed
  store_parsed-StoresStage extracted full =
      stores rt (Tr δ (some parse)) (Tr-Stable δ (some parse)) job names DocumentStatus.parsed none
        (λ _. Tr δ none)
        (Triple-bind (add_pages rt _ _ job names extracted.pages) (λ e w p. p)
          (λ _.
            commit_true rt (Tr δ (some parse)) (Tr-Stable δ (some parse)) job names
              DocumentStatus.parsed none (λ _. Tr δ none)
              (λ d (d₁, (d₀, h, moves), ran). Trace.store_pages h extracted.pages full moves ran)))
        (lost parse DocumentStatus.parsed none)

  pub store_chunks-StoresStage :
      (chunking : ChunkingResult)
      → is_empty chunking.chunks ≡ false
      → StoresStage δ chunk (store_chunks rt job chunking)
  unfolding store_chunks
  store_chunks-StoresStage chunking full =
      stores rt (Tr δ (some chunk)) (Tr-Stable δ (some chunk)) job names DocumentStatus.chunked
        (some (length chunking.chunks)) (λ _. Tr δ none)
        (Triple-bind (add_chunks rt _ _ job names chunking) (λ e w p. p)
          (λ _.
            commit_true rt (Tr δ (some chunk)) (Tr-Stable δ (some chunk)) job names
              DocumentStatus.chunked (some (length chunking.chunks)) (λ _. Tr δ none)
              (λ d (d₁, (d₀, h, moves), ran). Trace.store_chunks h chunking full moves ran)))
        (lost chunk DocumentStatus.chunked (some (length chunking.chunks)))

  pub store_ready-StoresStage : StoresStage δ embed (store_ready rt self job)
  unfolding store_ready
  store_ready-StoresStage =
      stores rt (Tr δ (some embed)) (Tr-Stable δ (some embed)) job names DocumentStatus.ready none
        (λ _. Tr δ none)
        (Triple-bind (mark_chunks rt _ _ job names self.model_id self.dimension) (λ e w p. p)
          (λ n.
            commit_true rt (Tr δ (some embed)) (Tr-Stable δ (some embed)) job names
              DocumentStatus.ready none (λ _. Tr δ none)
              (λ d (d₁, (d₀, h, moves), ran). Trace.finish h moves n ran)))
        (lost embed DocumentStatus.ready none)

  -- Re-chunking keeps the claim, unless it was lost.
  abbrev pub Kept : Bool → Db → Type 0
  Kept true d = Tr δ (some embed) d
  Kept false d = Tr δ none d

  pub replace_chunks_Triple :
      (chunking : ChunkingResult)
      → is_empty chunking.chunks ≡ false
      → Triple
          (Holds (Tr δ (some embed)))
          (replace_chunks rt job chunking)
          (λ b. Holds (Kept b))
          (λ e w. Plain e × Holds (Tr δ (some embed)) w)
  unfolding replace_chunks
  replace_chunks_Triple chunking full =
      stores rt (Tr δ (some embed)) (Tr-Stable δ (some embed)) job names DocumentStatus.processing
        (some (length chunking.chunks)) Kept
        (Triple-bind (remove_chunks rt _ _ job names) (λ e w p. p)
          (λ n.
            Triple-bind (add_chunks rt _ _ job names chunking) (λ e w p. p)
              (λ _.
                commit_true rt (Tr δ (some embed)) (Tr-Stable δ (some embed)) job names
                  DocumentStatus.processing (some (length chunking.chunks)) Kept
                  (λ d (d₂, (d₁, (d₀, h, moves), gone), ran).
                    Trace.replace_chunks h chunking full moves n gone ran))))
        (lost embed DocumentStatus.processing (some (length chunking.chunks)))
