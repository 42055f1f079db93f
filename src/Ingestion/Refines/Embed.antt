-- ===== src/Ingestion/Refines/Embed.antt =====
-- The embed stage, run under a claim, keeps to the lifecycle.
use researchmind_mcp.Prelude.{◌≡◌, Bool, true, false, Option, none, some, is_empty, if◌then◌else◌}
use researchmind_mcp.Models.{DocumentStatus, ChunkingResult, IngestionResult}
use researchmind_mcp.Exec.{Exc, other, pure, handle}
use researchmind_mcp.Exec.Keeps.{
  Plain, Keeps, Keeps-finally, Triple, Triple-if, Triple-pure, Triple-handle, Triple-bind,
}
use researchmind_mcp.Lifecycle.{embed}
use researchmind_mcp.Database.Session.{World, M}
use researchmind_mcp.Database.Session.Rules.{Holds}
use researchmind_mcp.Database.Session.Closing.{Keeps-rollback, Keeps-call}
use researchmind_mcp.Ingestion.Transitions.{on_exception}
use researchmind_mcp.Ingestion.ChunkStage.{chunking_failed}
use researchmind_mcp.Ingestion.EmbedStage.{
  over, after_delete, after_rechunking, rechunk, after_rechunk, embed_claimed,
}
use researchmind_mcp.Ingestion.VectorWrites.{delete_document, is_current}
use researchmind_mcp.Ingestion.Refines.Endings.{
  Delivery, Tr, Left, EndsStage, fail-EndsStage, retry_later-EndsStage, Plain-Left, bind-EndsStage,
  on_exception-EndsStage,
}
use researchmind_mcp.Ingestion.Refines.Outputs.{replace_chunks_Triple, Kept}
use researchmind_mcp.Ingestion.Refines.Stages.{read_pages-Keeps}
use researchmind_mcp.Ingestion.Refines.Vectors.{
  embed_current-EndsStage, on_store_error-EndsStage, read_provenance-Keeps, write_points-Keeps,
}

module _ (δ : Delivery) where
  open δ use {rt, self, job, target, owner, names, final_attempt}

  -- How re-chunking ends: with a result the claim is given up, without one it is kept.
  abbrev Continues : Option IngestionResult → World → Type 0
  Continues none w = Holds (Tr δ (some embed)) w
  Continues (some r) w = Holds (Tr δ none) w

  abbrev EndsRechunk : M (Option IngestionResult) → Type 0
  EndsRechunk m = Triple (Holds (Tr δ (some embed))) m Continues (Left δ embed)

  over-EndsRechunk : (m : M IngestionResult) → EndsStage δ embed m → EndsRechunk (over m)
  over-EndsRechunk m t = Triple-bind t (λ e w h. h) (λ r. Triple-pure (some r) (λ w h. h))

  handle-EndsRechunk :
      {A : Type 0} {m : M A} {h : Exc → M (Option IngestionResult)}
      {k : A → M (Option IngestionResult)}
      → Keeps (Holds (Tr δ (some embed))) m
      → ((e : Exc) → Plain e → EndsRechunk (h e))
      → ((a : A) → EndsRechunk (k a))
      → EndsRechunk (handle m h k)
  handle-EndsRechunk tm th tk =
      Triple-handle tm (λ e. record { at = λ w p. (th e p.0).at w p.1 }) tk

  after_replacing :
      (replaced : Bool) (r : IngestionResult)
      → Triple
          (Holds (Kept δ replaced))
          (pure (if replaced then none else some r))
          Continues
          (Left δ embed)
  after_replacing true r = Triple-pure none (λ w h. h)
  after_replacing false r = Triple-pure (some r) (λ w h. h)

  chunking_failed-EndsRechunk :
      (e : Exc)
      → Plain e
      → EndsRechunk
          (over (on_exception (chunking_failed rt job final_attempt DocumentStatus.chunked) e))
  chunking_failed-EndsRechunk e p =
      over-EndsRechunk _ (on_exception-EndsStage δ embed (retry_later-EndsStage δ embed _) e p)

  after_delete-EndsRechunk :
      (chunking : ChunkingResult)
      → is_empty chunking.chunks ≡ false
      → (u : Unit {0}) → EndsRechunk (after_delete rt self job final_attempt chunking u)
  unfolding after_delete
  after_delete-EndsRechunk chunking full u =
      Triple-handle (replace_chunks_Triple δ chunking full)
        (λ e. record { at = λ w p. (chunking_failed-EndsRechunk e p.0).at w p.1 })
        (λ replaced. after_replacing replaced _)

  after_rechunking-EndsRechunk :
      (chunking : ChunkingResult)
      → EndsRechunk (after_rechunking rt self job final_attempt chunking)
  unfolding after_rechunking delete_document
  after_rechunking-EndsRechunk chunking =
      Triple-if (is_empty chunking.chunks) _ _ (λ _. over-EndsRechunk _ (fail-EndsStage δ embed _))
        (λ full.
          handle-EndsRechunk (write_points-Keeps self (Tr δ (some embed)) _)
            (λ e p. over-EndsRechunk _ (on_store_error-EndsStage δ e p))
            (after_delete-EndsRechunk chunking full))

  rechunk-EndsRechunk : EndsRechunk (rechunk rt self job final_attempt)
  unfolding rechunk
  rechunk-EndsRechunk =
      Triple-bind (Keeps-finally (read_pages-Keeps δ embed) (Keeps-rollback rt (Tr δ (some embed))))
        (Plain-Left δ embed)
        (λ pages.
          Triple-if (is_empty pages) _ _ (λ _. over-EndsRechunk _ (fail-EndsStage δ embed _))
            (λ _.
              handle-EndsRechunk
                (Keeps-call rt (Tr δ (some embed)) (λ _. other) (λ t. self.chunk t pages) (λ e. tt))
                chunking_failed-EndsRechunk after_rechunking-EndsRechunk))

  after_rechunk-EndsStage :
      (rechunked : Option IngestionResult)
      → Triple
          (Continues rechunked)
          (after_rechunk rt self job final_attempt rechunked)
          (λ _. Holds (Tr δ none))
          (Left δ embed)
  unfolding after_rechunk
  after_rechunk-EndsStage none = embed_current-EndsStage δ
  after_rechunk-EndsStage (some r) = Triple-pure r (λ w h. h)

  pub embed_claimed-EndsStage : EndsStage δ embed (embed_claimed rt self job final_attempt)
  unfolding embed_claimed
  embed_claimed-EndsStage =
      bind-EndsStage δ embed
        (Keeps-finally (read_provenance-Keeps δ) (Keeps-rollback rt (Tr δ (some embed))))
        (λ provenance.
          Triple-if (is_empty provenance) _ _ (λ _. fail-EndsStage δ embed _)
            (λ _.
              Triple-if (is_current self provenance) _ _ (λ _. embed_current-EndsStage δ)
                (λ _. Triple-bind rechunk-EndsRechunk (λ e w h. h) after_rechunk-EndsStage)))
