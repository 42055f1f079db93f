-- ===== src/Repositories/Pages.antt =====
-- `DocumentPageRepository` (backend/db/repositories/document_page.py).
use researchmind_mcp.Prelude.{
  ℕ, String, Bool, none, some, List, [], ◌==◌, ltb, any, map, select, order_by, map_option,
  if◌then◌else◌,
}
use researchmind_mcp.Models.{ExtractedPage}
use researchmind_mcp.Exec.{pure, raise, ◌>>=◌, lookup_error}
use researchmind_mcp.Runtime.{Runtime}
use researchmind_mcp.Database.{PageRow, Db, insert_pages}
use researchmind_mcp.Database.Session.{M, Statement, execute}
use researchmind_mcp.Repositories.{parse_id, with_ids, owned_live}

-- SELECT id ... WHERE id AND user_id AND deleted_at IS NULL, as "is there one".
unfoldable pub select_owned : ℕ → ℕ → Statement Bool
select_owned target owner now db = some (any (owned_live target owner) db.documents, none)

abbrev pub page_row : ℕ → ExtractedPage → PageRow
page_row document_id page = record {
  document_id = document_id;
  page_number = page.page_number;
  blocks = page.blocks;
}

unfoldable pub insert_extracted : ℕ → List ExtractedPage → Statement (Unit {0})
insert_extracted target pages now db =
    map_option (λ rows. (tt, some (record db { pages = rows })))
      (insert_pages db.pages (map (page_row target) pages))

-- The page rows of a document, if this user owns it and it is live; in order.
abbrev pub pages_of : ℕ → Db → List PageRow
pages_of target db = select (λ (row : PageRow). row.document_id == target) db.pages

abbrev pub to_page : PageRow → ExtractedPage
to_page row = record { page_number = row.page_number; blocks = row.blocks }

unfoldable pub select_pages : ℕ → ℕ → Statement (List ExtractedPage)
select_pages target owner now db = some (
  (if any (owned_live target owner) db.documents
      then map to_page
          (order_by (λ (a b : PageRow). ltb a.page_number b.page_number) (pages_of target db))
      else []),
  none,
)

module _ (rt : Runtime) where
  unfoldable pub add_for_user : String → String → List ExtractedPage → M (Unit {0})
  add_for_user document_id user_id pages =
      with_ids (parse_id rt document_id) (parse_id rt user_id) (raise lookup_error) (λ target owner.
        do
          owned ← execute rt (select_owned target owner)
          if owned then execute rt (insert_extracted target pages) else raise lookup_error)

  unfoldable pub list_for_document : String → String → M (List ExtractedPage)
  list_for_document document_id user_id =
      with_ids (parse_id rt document_id) (parse_id rt user_id) (pure [])
        (λ target owner. execute rt (select_pages target owner))
