-- ===== src/Witnesses.antt =====
-- Each theorem with hypotheses, at a concrete input where they hold.
mod Accounts
mod Search
mod Uploads
mod Parser
use researchmind_mcp.Prelude.{
  String, ◌≡◌, ◌≢◌, ◌≤◌, arith, refl, true, false, none, some, List, [], ◌∷◌, all,
}
use researchmind_mcp.Models.{DocumentStatus, IngestionTarget}
use researchmind_mcp.Models.Reason.{IngestionReason}
use researchmind_mcp.Exec.{err, transient}
use researchmind_mcp.Exec.Keeps.{Ends, Triple, Plain}
use researchmind_mcp.Runtime.{reply}
use researchmind_mcp.StorageKey.{document_storage_key, is_sha256_hex}
use researchmind_mcp.Database.{Db, check_document, update_documents}
use researchmind_mcp.Database.Session.{World}
use researchmind_mcp.Database.Session.Rules.{Holds}
use researchmind_mcp.Repositories.Documents.{update_status, update_stale, to_target, moved_to}
use researchmind_mcp.Ingestion.Recovery.Reaper.{Cleared, Unreaped, reap_stale_processing-Cleared}
use researchmind_mcp.Lifecycle.Isolation.{foreign}
use researchmind_mcp.Lifecycle.Claims.{settled, update_status-excludes}
use researchmind_mcp.Ingestion.Delivery.{ingest, job_disagrees_with}
use researchmind_mcp.Ingestion.Maintenance.{job_from_row, recover_pending, reap_stale_processing}
use researchmind_mcp.Ingestion.Refines.Endings.{Tr}
use researchmind_mcp.Ingestion.Refines.Whole.{Raised}
use researchmind_mcp.Ingestion.Guarantees.{
  delivery, ingest_refines, ingest_isolates, ingest_terminal,
}
use researchmind_mcp.Ingestion.Recovery.{job_from_row-agrees}
use researchmind_mcp.Ingestion.Recovery.Sweep.{Recovered, Stopped, recover_pending-accounts}
use researchmind_mcp.Ingestion.Transitions.{rejected}
use researchmind_mcp.Models.{IngestionJob}
use researchmind_mcp.Exec.{ok}
use researchmind_mcp.Worker.{ingest_document}
use researchmind_mcp.Worker.Attempts.{Allowed, RetriesIn, ingest_document-RetriesIn}
use researchmind_mcp.Chunker.{nth, windows, window_ranges}
use researchmind_mcp.Chunker.Windows.{
  Covered, within_budget, window_ranges-Covered, window_ranges-budget,
}
use researchmind_mcp.Chunker.Sections.{
  all_blocks, as_block, paged, detect_sections, detect_sections-keeps, body_font_size, split_blocks,
  is_heading,
}
use researchmind_mcp.Chunker.Chunks.{
  chunk_pages, add_sections, add_ranges, place_blocks, pages_covering, reference_ranges,
}
use researchmind_mcp.Chunker.Budget.{Sound, chunk_pages-Sound}
use researchmind_mcp.Models.{Chunk}
use researchmind_mcp.Prelude.{ℕ, map}
use researchmind_mcp.Samples.{
  chunker, plain_rules, four_letters, letters_page, spans-Ordered, spans, calm, service, pdf_job,
  pdf_row, uploaded, pdf_names,
}

abbrev pending_world : World
pending_world = uploaded DocumentStatus.pending

ingest_refines_example :
    Ends
      (λ r. Holds (Tr (delivery calm service pdf_job 7 3 pdf_names false pending_world tt) none))
      (Raised (delivery calm service pdf_job 7 3 pdf_names false pending_world tt))
      (ingest calm service pdf_job false pending_world)
ingest_refines_example = ingest_refines calm service pdf_job 7 3 pdf_names false pending_world tt

ingest_isolates_example :
    Ends
      (λ r w. foreign 7 3 w.db ≡ foreign 7 3 pending_world.db)
      (λ e w. foreign 7 3 w.db ≡ foreign 7 3 pending_world.db)
      (ingest calm service pdf_job false pending_world)
ingest_isolates_example =
    ingest_isolates calm service pdf_job 7 3 pdf_names false pending_world tt (λ t d. refl)

ingest_terminal_example :
    Ends
      (λ r w. settled 7 3 w.db.documents ≡ true)
      (λ e w. settled 7 3 w.db.documents ≡ true)
      (ingest calm service pdf_job false (uploaded DocumentStatus.ready))
ingest_terminal_example =
    ingest_terminal calm service pdf_job 7 3 pdf_names false (uploaded DocumentStatus.ready) tt refl
      (λ t d h. h)

-- The document claimed for its first stage, and a second worker's try.
abbrev claimed_db : Db
claimed_db = record pending_world.db {
  documents =
      moved_to DocumentStatus.processing none none 100 (pdf_row DocumentStatus.pending) ∷ [];
}

update_status-excludes_example : (false ≡ false) × (claimed_db ≡ claimed_db)
unfolding update_status update_documents check_document
update_status-excludes_example =
    update_status-excludes calm 7 3 DocumentStatus.pending DocumentStatus.processing
      DocumentStatus.processing none none none none pending_world.db claimed_db claimed_db false
      refl (100, some claimed_db, refl, refl) (101, some claimed_db, refl, refl)

abbrev pdf_target : IngestionTarget
pdf_target = to_target calm (pdf_row DocumentStatus.pending)

job_from_row-agrees_example :
    (document_storage_key calm pdf_job.owner_id pdf_job.content_hash ≡ some pdf_job.storage_key)
    × (job_disagrees_with pdf_job pdf_target ≡ none)
    × (pdf_job.document_id ≡ pdf_target.document_id)
unfolding job_from_row document_storage_key is_sha256_hex
job_from_row-agrees_example = job_from_row-agrees calm pdf_target pdf_job refl

window_ranges-Covered_example :
    Covered chunker four_letters (nth (spans 0 four_letters) 3) (window_ranges chunker four_letters)
window_ranges-Covered_example =
    window_ranges-Covered chunker four_letters (spans-Ordered four_letters) 3 (omega arith)

window_ranges-budget_example :
    all (within_budget chunker four_letters) (window_ranges chunker four_letters) ≡ true
window_ranges-budget_example = window_ranges-budget chunker four_letters

detect_sections-keeps_example :
    all_blocks (detect_sections plain_rules letters_page) ≡ map as_block (paged letters_page)
detect_sections-keeps_example = detect_sections-keeps plain_rules letters_page

abbrev letter_chunk : ℕ → List ℕ → ℕ → Chunk
letter_chunk index content tokens = record {
  chunk_index = index;
  content = content;
  section = none;
  page_start = 1;
  page_end = 1;
  token_count = tokens;
}

abbrev letter_chunks : List Chunk
letter_chunks = letter_chunk 0 (97 ∷ 98 ∷ 99 ∷ []) 3 ∷ letter_chunk 1 (99 ∷ 100 ∷ []) 2 ∷ []

chunk_pages-Sound_example : Sound chunker letter_chunks
unfolding chunk_pages add_sections add_ranges place_blocks pages_covering reference_ranges windows
    window_ranges detect_sections body_font_size split_blocks is_heading
chunk_pages-Sound_example = chunk_pages-Sound chunker plain_rules letters_page letter_chunks refl

ingest_document-RetriesIn_example :
    RetriesIn
      (Allowed calm service pdf_job 2 4)
      (ingest_document calm service pdf_job 2 4 pending_world).0
ingest_document-RetriesIn_example =
    ingest_document-RetriesIn calm service pdf_job 2 4 7 3 pdf_names pending_world

recover_pending-accounts_example :
    Triple
      (Holds (λ d. d ≡ pending_world.db))
      (recover_pending calm (λ t job. reply true) 5)
      (λ r w. Recovered calm 5 (λ t job. reply true) r w.db × Holds (λ d. d ≡ pending_world.db) w)
      (λ e w. Stopped e × Holds (λ d. d ≡ pending_world.db) w)
recover_pending-accounts_example =
    recover_pending-accounts calm (λ d. d ≡ pending_world.db) (λ t d h. h) (λ t job. reply true) 5

-- The rows are those of the uploaded document, claimed.
abbrev Claimed : Db → Type 0
Claimed d = d ≡ (uploaded DocumentStatus.processing).db

Claimed-checked : (d : Db) → Claimed d → all check_document d.documents ≡ true
unfolding check_document
Claimed-checked d e = rw e refl

reap_stale_processing-Cleared_example :
    Ends
      (λ ids. Holds (Cleared calm Claimed (λ t d h. h) Claimed-checked 5 ids))
      (Unreaped calm Claimed (λ t d h. h) Claimed-checked 5)
      (reap_stale_processing calm 5 (uploaded DocumentStatus.processing))
reap_stale_processing-Cleared_example =
    (reap_stale_processing-Cleared calm Claimed (λ t d h. h) Claimed-checked 5).at
      (uploaded DocumentStatus.processing) (refl, tt)
