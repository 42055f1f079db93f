-- ===== src/Lifecycle/Isolation.antt =====
-- What a delivery leaves alone: the rows of every other document, page and chunk.
use researchmind_mcp.Prelude.{
  ℕ, ◌≡◌, refl, ◌∙◌, ap, String, Bool, true, false, Option, none, some, List, [], ◌∷◌, ◌&&◌, ◌||◌,
  ◌==◌, not, is_empty, any, map, map_option, select, ltb, arith, if◌then◌else◌, Bool-cases, inl,
  inr,
}
use researchmind_mcp.Models.{DocumentStatus, ExtractedPage, Chunk, ChunkingResult}
use researchmind_mcp.Models.Reason.{IngestionReason}
use researchmind_mcp.Runtime.{Runtime}
use researchmind_mcp.Database.{DocumentRow, PageRow, ChunkRow, Db, insert_pages, insert_chunks}
use researchmind_mcp.Database.Session.{Ran}
use researchmind_mcp.Repositories.{owned_live}
use researchmind_mcp.Repositories.Documents.{update_status, stands_at, moved_to}
use researchmind_mcp.Repositories.Documents.CompareAndSet.{update_status_moved}
use researchmind_mcp.Repositories.Pages.{insert_extracted, page_row}
use researchmind_mcp.Repositories.Chunks.{
  insert_chunking, chunk_row, delete_chunks, update_embedded, without_document, chunks_of,
}
use researchmind_mcp.Lifecycle.{Stage, Trace}

module _ (target owner : ℕ) where
  -- A document of another id or another user.
  abbrev other_document : DocumentRow → Bool
  other_document row = not (row.id == target && row.user_id == owner)

  abbrev other_page : PageRow → Bool
  other_page row = not (row.document_id == target)

  -- The users, and the tables without the document, its pages and its chunks.
  abbrev pub foreign : Db → Db
  foreign d = record {
    users = d.users;
    documents = select other_document d.documents;
    pages = select other_page d.pages;
    chunks = without_document target d.chunks;
  }

-- Rows that a filter drops, before an update of them and after it.
module _ {A : Type 0} (p q : A → Bool) (f : A → A)
    (drops : (x : A) → p x ≡ true → (q x ≡ false) × (q (f x) ≡ false)) where
  select-updated : (xs : List A) → select q (map (λ x. if p x then f x else x) xs) ≡ select q xs
  select-updated [] = refl
  select-updated (x ∷ xs) = elim (Bool-cases (p x)) [
    | inl h ↦ let (a, b) = drops x h in rw (h, a, b) (select-updated xs)
    | inr h ↦ rw (h, select-updated xs) refl
  ]

select_twice : {A : Type 0} (q : A → Bool) (xs : List A) → select q (select q xs) ≡ select q xs
select_twice q [] = refl
select_twice q (x ∷ xs) = ground (arith, select_twice q xs)

module _ (target owner : ℕ) where
  moves_foreign :
      (expected new : DocumentStatus) (reason : Option IngestionReason) (count : Option ℕ)
      {d d' : Db}
      → Ran (update_status target owner expected new reason count) d true d'
      → foreign target owner d' ≡ foreign target owner d
  moves_foreign expected new reason count {d} ran =
      let (now, e, _) = update_status_moved target owner expected new reason count ran in
      rw e (
        ap (λ (rows : List DocumentRow). record (foreign target owner d) { documents = rows })
          (select-updated (stands_at target owner expected) (other_document target owner)
            (moved_to new reason count now) (λ row h. (ground arith, ground arith)) d.documents))

  inserted_pages :
      (pages : List ExtractedPage) (table rows : List PageRow)
      → insert_pages table (map (page_row target) pages) ≡ some rows
      → select (other_page target owner) rows ≡ select (other_page target owner) table
  unfolding insert_pages
  inserted_pages [] table rows h = ground arith
  inserted_pages (page ∷ pages) table rows h =
      ground (arith, inserted_pages pages (page_row target page ∷ table) rows)

  module _ (rt : Runtime) (chunking : ChunkingResult) where
    inserted_chunks :
        (chunks : List Chunk) (table rows : List ChunkRow)
        → insert_chunks table (map (chunk_row rt target chunking) chunks) ≡ some rows
        → without_document target rows ≡ without_document target table
    unfolding insert_chunks
    inserted_chunks [] table rows h = ground arith
    inserted_chunks (c ∷ cs) table rows h =
        ground (arith, inserted_chunks cs (chunk_row rt target chunking c ∷ table) rows)

pub stored_inv :
    {A : Type 0} (o : Option A) (g : A → Db) (r : Option Db)
    → map_option {B = Unit {0} × Option Db} (λ x. (tt, some (g x))) o ≡ some (tt, r)
    → (x : A) × (o ≡ some x) × (r ≡ some (g x))
stored_inv none g r h = cc
stored_inv (some x) g r h = (x, refl, cc)

-- A row count beside what a statement wrote.
pub counted :
    (n m : ℕ) (d : Db) (r : Option Db)
    → ◌≡◌ {A = Option (ℕ × Option Db)} (some (n, some d)) (some (m, r))
    → r ≡ some d
counted n m d r h = cc

pub uncounted :
    (n m : ℕ) (r : Option Db)
    → ◌≡◌ {A = Option (ℕ × Option Db)} (some (n, none)) (some (m, r))
    → r ≡ none
uncounted n m r h = cc

module _ (rt : Runtime) (target owner : ℕ) where
  pages_foreign :
      (pages : List ExtractedPage) {d d' : Db}
      → Ran (insert_extracted target pages) d tt d'
      → foreign target owner d' ≡ foreign target owner d
  unfolding insert_extracted
  pages_foreign pages {d} (now, r, e, e') =
      let (rows, f, g) = stored_inv (insert_pages d.pages (map (page_row target) pages)) _ r e in
      rw (e', g)
        (ap (λ (rs : List PageRow). record (foreign target owner d) { pages = rs })
          (inserted_pages target owner pages d.pages rows f))

  chunks_foreign :
      (chunking : ChunkingResult) {d d' : Db}
      → Ran (insert_chunking rt target chunking) d tt d'
      → foreign target owner d' ≡ foreign target owner d
  unfolding insert_chunking
  chunks_foreign chunking {d} (now, r, e, e') =
      let (rows, f, g) =
        stored_inv (insert_chunks d.chunks (map (chunk_row rt target chunking) chunking.chunks)) _ r
          e in
      rw (e', g)
        (ap (λ (rs : List ChunkRow). record (foreign target owner d) { chunks = rs })
          (inserted_chunks target owner rt chunking chunking.chunks d.chunks rows f))

  delete_foreign :
      {n : ℕ} {d d' : Db}
      → Ran (delete_chunks target owner) d n d'
      → foreign target owner d' ≡ foreign target owner d
  unfolding delete_chunks
  delete_foreign {n} {d} (now, r, e, e') =
      elim (Bool-cases (any (owned_live target owner) d.documents)) [
        | inl h ↦
            rw (e', counted _ n _ r (rw h at e))
              (ap (λ (rs : List ChunkRow). record (foreign target owner d) { chunks = rs })
                (select_twice _ d.chunks))
        | inr h ↦ rw (e', uncounted _ n r (rw h at e)) refl
      ]

  marked_foreign :
      (model_id : String) (dimension : ℕ) {n : ℕ} {d d' : Db}
      → Ran (update_embedded target owner model_id dimension) d n d'
      → foreign target owner d' ≡ foreign target owner d
  unfolding update_embedded
  marked_foreign model_id dimension {n} {d} (now, r, e, e') =
      elim (Bool-cases (any (owned_live target owner) d.documents)) [
        | inl h ↦ elim (Bool-cases (ltb 0 dimension || is_empty (chunks_of target d))) [
          | inl k ↦
              rw (e', counted _ n _ r (rw (h, k) at e))
                (ap (λ (rs : List ChunkRow). record (foreign target owner d) { chunks = rs })
                  (select-updated (λ (row : ChunkRow). row.document_id == target)
                    (λ row. not (row.document_id == target))
                    (λ row. record row {
                      embedding_model_id = some model_id;
                      dimension = some dimension;
                    })
                    (λ row m. (ground arith, ground arith)) d.chunks))
          | inr k ↦ let absurd = rw (h, k) at e in cc
        ]
        | inr h ↦ rw (e', uncounted _ n r (rw h at e)) refl
      ]

module _ (rt : Runtime) (target owner : ℕ) (model_id : String) (dimension : ℕ) (d₀ : Db) where
  -- What the others commit leaves these rows alone too.
  abbrev pub Bystanders : Type 0
  Bystanders = (t : ℕ) (d : Db) → foreign target owner (rt.others t d) ≡ foreign target owner d

  pub Trace-foreign :
      Bystanders
      → {c : Option Stage} {d : Db} → Trace rt target owner model_id dimension d₀ c d
      → foreign target owner d ≡ foreign target owner d₀
  Trace-foreign keep Trace.start = refl
  Trace-foreign keep (Trace.elsewhere {d = d} h t) = keep t d ∙ Trace-foreign keep h
  Trace-foreign keep (Trace.claim h s m) =
      moves_foreign target owner _ _ _ _ m ∙ Trace-foreign keep h
  Trace-foreign keep (Trace.release h m) =
      moves_foreign target owner _ _ _ _ m ∙ Trace-foreign keep h
  Trace-foreign keep (Trace.fail h reason m) =
      moves_foreign target owner _ _ _ _ m ∙ Trace-foreign keep h
  Trace-foreign keep (Trace.lose h e) = Trace-foreign keep h
  Trace-foreign keep (Trace.store_pages h pages e m i) =
      pages_foreign rt target owner pages i
      ∙ moves_foreign target owner _ _ _ _ m
      ∙ Trace-foreign keep h
  Trace-foreign keep (Trace.store_chunks h chunking e m i) =
      chunks_foreign rt target owner chunking i
      ∙ moves_foreign target owner _ _ _ _ m
      ∙ Trace-foreign keep h
  Trace-foreign keep (Trace.replace_chunks h chunking e m n x i) =
      chunks_foreign rt target owner chunking i
      ∙ delete_foreign rt target owner x
      ∙ moves_foreign target owner _ _ _ _ m
      ∙ Trace-foreign keep h
  Trace-foreign keep (Trace.finish h m n u) =
      marked_foreign rt target owner model_id dimension u
      ∙ moves_foreign target owner _ _ _ _ m
      ∙ Trace-foreign keep h
