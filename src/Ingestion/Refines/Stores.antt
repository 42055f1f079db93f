-- ===== src/Ingestion/Refines/Stores.antt =====
-- The transactions that store what a stage made: `_store_parsed`, `_store_chunks`,
-- `_replace_chunks` and `_store_ready`. Each commits the whole of its step of the lifecycle or
-- nothing.
use researchmind_mcp.Prelude.{ℕ, String, refl, Bool, true, false, Option, none, List, if◌then◌else◌}
use researchmind_mcp.Models.{DocumentStatus, ExtractedPage, ChunkingResult, IngestionJob}
use researchmind_mcp.Exec.{lookup_error, pure, raise, handle, ◌>>=◌, ◌>>◌}
use researchmind_mcp.Exec.Keeps.{
  Plain, Triple, Triple-pure, Triple-raise, Triple-if, Triple-bind, Triple_mono,
}
use researchmind_mcp.Runtime.{Runtime}
use researchmind_mcp.Database.{Db}
use researchmind_mcp.Database.Session.{M, Statement, Reads, commit, rollback, execute}
use researchmind_mcp.Database.Session.Rules.{
  Holds, Within, Broken, Stable, Found, Next, execute_next,
}
use researchmind_mcp.Database.Session.Closing.{
  Broken_plain, read_within, commit_known, rollback_settles,
}
use researchmind_mcp.Repositories.Documents.{update_status, transition_status_for_user}
use researchmind_mcp.Repositories.Pages
use researchmind_mcp.Repositories.Pages.{select_owned, insert_extracted}
use researchmind_mcp.Repositories.Chunks
use researchmind_mcp.Repositories.Chunks.{insert_chunking, delete_chunks, update_embedded}
use researchmind_mcp.Ingestion.Transitions.{rolling_back}
use researchmind_mcp.Ingestion.Refines.{transaction, Holds_mono}
use researchmind_mcp.Ingestion.Refines.Transition.{Setting, cas_first}

select_owned-Reads : (target owner : ℕ) → Reads (select_owned target owner)
unfolding select_owned
select_owned-Reads target owner now d = (_, refl)

module _ (rt : Runtime) (I K : Db → Type 0) (job : IngestionJob) {target owner : ℕ}
    (names : Setting rt job target owner) where
  owned_then :
      {A : Type 0} (s : Statement A) (owned : Bool)
      → Triple
          (Within I K)
          (if owned then execute rt s else raise lookup_error)
          (λ a. Within I (Next I s K a))
          (Broken I)
  owned_then s owned =
      Triple-if owned _ _ (λ _. execute_next rt I s K) (λ _. Triple-raise lookup_error (λ w h. h.0))

  pub add_pages :
      (pages : List ExtractedPage)
      → Triple
          (Within I K)
          (Pages.add_for_user rt job.document_id job.owner_id pages)
          (λ a. Within I (Next I (insert_extracted target pages) K a))
          (Broken I)
  unfolding Pages.add_for_user
  add_pages pages =
      rw (names.document, names.user)
        (Triple-bind
          (read_within rt I (select_owned target owner) K (select_owned-Reads target owner))
          (λ e w h. h) (owned_then (insert_extracted target pages)))

  pub add_chunks :
      (chunking : ChunkingResult)
      → Triple
          (Within I K)
          (Chunks.add_many rt job.document_id job.owner_id chunking)
          (λ a. Within I (Next I (insert_chunking rt target chunking) K a))
          (Broken I)
  unfolding Chunks.add_many
  add_chunks chunking =
      rw (names.document, names.user)
        (Triple-bind
          (read_within rt I (select_owned target owner) K (select_owned-Reads target owner))
          (λ e w h. h) (owned_then (insert_chunking rt target chunking)))

  pub remove_chunks :
      Triple
        (Within I K)
        (Chunks.delete_for_document rt job.document_id job.owner_id)
        (λ n. Within I (Next I (delete_chunks target owner) K n))
        (Broken I)
  unfolding Chunks.delete_for_document
  remove_chunks = rw (names.document, names.user) (execute_next rt I (delete_chunks target owner) K)

  pub mark_chunks :
      (model_id : String) (dimension : ℕ)
      → Triple
          (Within I K)
          (Chunks.mark_embedded rt job.document_id job.owner_id model_id dimension)
          (λ n. Within I (Next I (update_embedded target owner model_id dimension) K n))
          (Broken I)
  unfolding Chunks.mark_embedded
  mark_chunks model_id dimension =
      rw (names.document, names.user)
        (execute_next rt I (update_embedded target owner model_id dimension) K)

-- A transaction that begins with a compare-and-set, and goes on where that matched. L says what
-- is committed, by what the transaction returns.
module _ (rt : Runtime) (I : Db → Type 0) (stable : Stable rt I) (job : IngestionJob)
    {target owner : ℕ} (names : Setting rt job target owner) (new : DocumentStatus)
    (count : Option ℕ) (L : Bool → Db → Type 0) where
  abbrev Matched : Statement Bool
  Matched = update_status target owner DocumentStatus.processing new none count

  pub commit_true :
      {K : Db → Type 0}
      → ((d : Db) → K d → L true d)
      → Triple (Within I K) (do commit rt; pure true) (λ b. Holds (L b)) (Broken I)
  commit_true {K} h =
      Triple-bind (commit_known rt I names.known K) (λ e w p. p)
        (λ _. Triple-pure true (Holds_mono h))

  drop_false :
      ((d : Db) → Found I Matched false d → L false d)
      → Triple
          (λ w. Found I Matched false w.db)
          (do rollback rt; pure false)
          (λ b. Holds (L b))
          (Broken I)
  drop_false h =
      Triple-bind (rollback_settles rt (Found I Matched false))
        (λ e w p. Broken_plain rt I e w p.0 (p.1.0.0, p.1.1))
        (λ _. Triple-pure false (Holds_mono h))

  stored :
      (moved : Bool) {rest : M Bool}
      → Triple (Within I (Next I Matched I true)) rest (λ b. Holds (L b)) (Broken I)
      → ((d : Db) → Found I Matched false d → L false d)
      → Triple
          (Within (Found I Matched moved) (Next I Matched I moved))
          (if moved then rest else do rollback rt; pure false)
          (λ b. Holds (L b))
          (Broken I)
  stored true t h = Triple_mono (λ w p. (p.0.0, p.1)) (λ a w p. p) (λ e w p. p) t
  stored false t h = Triple_mono (λ w p. p.0) (λ a w p. p) (λ e w p. p) (drop_false h)

  pub stores :
      {rest : M Bool}
      → Triple (Within I (Next I Matched I true)) rest (λ b. Holds (L b)) (Broken I)
      → ((d : Db) → Found I Matched false d → L false d)
      → Triple
          (Holds I)
          (handle
            (do
              moved ←
                  transition_status_for_user rt job.document_id job.owner_id
                    DocumentStatus.processing new none count
              if moved then rest else (do rollback rt; pure false))
            (rolling_back rt)
            pure)
          (λ b. Holds (L b))
          (λ e w. Plain e × Holds I w)
  stores t h = transaction rt I L (
      Triple-bind (cas_first rt I stable job names DocumentStatus.processing new none count)
        (λ e w p. p) (λ moved. stored moved t h))
