-- ===== src/Repositories/Documents/Reaping.antt =====
-- The reaper's UPDATE, `fail_stale_processing`.
use researchmind_mcp.Prelude.{
  ℕ, suc, ◌+◌, ◌≡◌, refl, ap, String, true, false, some, List, [], ◌∷◌, arith, length, select, any,
  all, map, count, Bool-cases, inl, inr, if◌then◌else◌,
}
use researchmind_mcp.Models.{DocumentStatus, status_eq, status_eq→≡}
use researchmind_mcp.Models.Reason.{IngestionReason}
use researchmind_mcp.Runtime.{Runtime}
use researchmind_mcp.Database.{DocumentRow, Db, update_documents, check_document}
use researchmind_mcp.Repositories.Documents.{update_stale, is_stale}
use researchmind_mcp.Repositories.Documents.CompareAndSet.{all-updated}

-- The rows at a status.
abbrev pub standing : DocumentStatus → List DocumentRow → ℕ
standing s = count (λ (row : DocumentRow). status_eq row.status s)

module _ (stale_after now : ℕ) (reason : IngestionReason) where
  abbrev reaped_row : DocumentRow → DocumentRow
  reaped_row row = record row {
    status = DocumentStatus.failed;
    failure_reason = some reason;
    updated_at = now;
  }

  abbrev reaped_rows : List DocumentRow → List DocumentRow
  reaped_rows = map (λ row. if is_stale stale_after now row then reaped_row row else row)

  -- A row of the table may always be reaped.
  reaped_row-checks :
      (row : DocumentRow) → check_document row ≡ true → check_document (reaped_row row) ≡ true
  unfolding check_document
  reaped_row-checks row h = ground arith

  reaped_all-check :
      (rows : List DocumentRow)
      → all check_document rows ≡ true
      → all (λ row. check_document (reaped_row row)) (select (is_stale stale_after now) rows) ≡ true
  reaped_all-check [] h = refl
  reaped_all-check (row ∷ rows) h = ground (arith, reaped_row-checks row, reaped_all-check rows)

  none_stale : (rows : List DocumentRow) → any (is_stale stale_after now) (reaped_rows rows) ≡ false
  none_stale [] = refl
  none_stale (row ∷ rows) = elim (Bool-cases (is_stale stale_after now row)) [
    | inl h ↦ rw (h, none_stale rows) refl
    | inr h ↦ rw (h, h, none_stale rows) refl
  ]

  stale_processing :
      (row : DocumentRow)
      → is_stale stale_after now row ≡ true
      → row.status ≡ DocumentStatus.processing
  stale_processing row h = status_eq→≡ row.status DocumentStatus.processing (ground arith)

  failed_more :
      (rows : List DocumentRow)
      → standing DocumentStatus.failed (reaped_rows rows)
        ≡ standing DocumentStatus.failed rows + length (select (is_stale stale_after now) rows)
  failed_more [] = omega arith
  failed_more (row ∷ rows) = elim (Bool-cases (is_stale stale_after now row)) [
    | inl h ↦ rw (h, stale_processing row h) (omega (arith, failed_more rows))
    | inr h ↦ ground (arith, failed_more rows)
  ]

  processing_fewer :
      (rows : List DocumentRow)
      → standing DocumentStatus.processing (reaped_rows rows)
          + length (select (is_stale stale_after now) rows)
        ≡ standing DocumentStatus.processing rows
  processing_fewer [] = omega arith
  processing_fewer (row ∷ rows) = elim (Bool-cases (is_stale stale_after now row)) [
    | inl h ↦ rw (h, stale_processing row h) (omega (arith, processing_fewer rows))
    | inr h ↦ ground (arith, processing_fewer rows)
  ]

length-map : {A B : Type 0} (f : A → B) (xs : List A) → length (map f xs) ≡ length xs
length-map f [] = refl
length-map f (x ∷ xs) = ap suc (length-map f xs)

module _ (rt : Runtime) (stale_after now : ℕ) (reason : IngestionReason) where
  -- How the UPDATE takes the rows of the first list to those of the second, with the identifiers
  -- that it returns: a stale row has failed for the reason, and the document's is the next
  -- identifier; any other row is as before, and its document's identifier is not returned.
  pub data Swept : List DocumentRow → List DocumentRow → List String → Type 0 where
    nothing : Swept [] [] []
    failed :
        {rows rows' : List DocumentRow} {ids : List String} (row : DocumentRow)
        → is_stale stale_after now row ≡ true
        → Swept rows rows' ids
        → Swept
            (row ∷ rows)
            (reaped_row stale_after now reason row ∷ rows')
            (rt.print_uuid row.id ∷ ids)
    kept :
        {rows rows' : List DocumentRow} {ids : List String} (row : DocumentRow)
        → is_stale stale_after now row ≡ false
        → Swept rows rows' ids
        → Swept (row ∷ rows) (row ∷ rows') ids

  abbrev stale_ids : List DocumentRow → List String
  stale_ids rows =
      map (λ (row : DocumentRow). rt.print_uuid row.id) (select (is_stale stale_after now) rows)

  reaped_rows-Swept :
      (rows : List DocumentRow)
      → Swept rows (reaped_rows stale_after now reason rows) (stale_ids rows)
  reaped_rows-Swept [] = Swept.nothing
  reaped_rows-Swept (row ∷ rows) = elim (Bool-cases (is_stale stale_after now row)) [
    | inl h ↦ rw h (Swept.failed row h (reaped_rows-Swept rows))
    | inr h ↦ rw h (Swept.kept row h (reaped_rows-Swept rows))
  ]

  -- What a pass of the reaper did, from the tables d.
  pub record Reaped (d : Db) (ids : List String) (d' : Db) : Type 0 where
    pub swept : Swept d.documents d'.documents ids
    pub settled : any (is_stale stale_after now) d'.documents ≡ false
    pub failed :
        standing DocumentStatus.failed d'.documents
        ≡ standing DocumentStatus.failed d.documents + length ids
    pub processing :
        standing DocumentStatus.processing d'.documents + length ids
        ≡ standing DocumentStatus.processing d.documents
    pub checked : all check_document d'.documents ≡ true
    pub kept : (d'.pages ≡ d.pages) × (d'.chunks ≡ d.chunks) × (d'.users ≡ d.users)

  -- Where the rows of `documents` meet the CHECK constraints, the reaper's UPDATE runs: exactly the documents whose claim is stale have failed for the reason, and they are, in order, the ones whose identifiers it returns; every other row is as before. Then no claim is stale, as many more documents are `failed` and fewer are `processing` as it lists, the rows still meet the constraints, and pages, chunks and users are as before.
  pub update_stale-reaps :
      (d : Db)
      → all check_document d.documents ≡ true
      → (ids : List String) × (d' : Db) × (update_stale rt stale_after reason now d
          ≡ some (ids, some d'))
        × Reaped d ids d'
  unfolding update_stale update_documents
  update_stale-reaps d h =
      let go = reaped_all-check stale_after now reason d.documents h in
      let n =
        length-map (λ (row : DocumentRow). rt.print_uuid row.id)
          (select (is_stale stale_after now) d.documents) in
      (
        stale_ids d.documents,
        record d { documents = reaped_rows stale_after now reason d.documents },
        rw go refl,
        record {
          swept = reaped_rows-Swept d.documents;
          settled = none_stale stale_after now reason d.documents;
          failed = rw n (failed_more stale_after now reason d.documents);
          processing = rw n (processing_fewer stale_after now reason d.documents);
          checked =
              all-updated (is_stale stale_after now) check_document
                (reaped_row stale_after now reason) d.documents go h;
          kept = (refl, refl, refl);
        },
      )
