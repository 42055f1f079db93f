-- ===== src/Witnesses/Parser.antt =====
-- The theorems on the PDF parser, on a page with two columns under a title.
use researchmind_mcp.Prelude.{
  ℕ, ◌≡◌, ◌<◌, ◌≤◌, refl, true, false, some, List, [], ◌∷◌, ◌==◌, ltb, count, map,
}
use researchmind_mcp.Models.{ExtractedPage, ExtractedText}
use researchmind_mcp.PdfParser.{
  LayoutBlock, LayoutRules, RawPage, RawPdf, reading_order, read_bands, page_of, pages_from,
  extract_pdf_text,
}
use researchmind_mcp.PdfParser.Order.{count-reading_order}
use researchmind_mcp.PdfParser.Pages.{extract_pdf_text-numbers, numbers}

-- Position 0 crosses the middle, an even one is left of it.
abbrev columns : LayoutRules
columns = record {
  nfc = λ raw. raw;
  is_space = λ c. c == 32;
  is_dropped = λ c. false;
  before = ltb;
  crosses = λ width position. position == 0;
  is_left = λ width position. position == 2;
}

abbrev block_at : ℕ → LayoutBlock
block_at position = record { position = position; text = 97 ∷ []; font_size = 100 }

abbrev blocks : List LayoutBlock
blocks = block_at 1 ∷ block_at 2 ∷ block_at 0 ∷ []

-- The title, the left column, the right column.
title_first : reading_order columns 600 blocks ≡ block_at 0 ∷ block_at 2 ∷ block_at 1 ∷ []
unfolding reading_order read_bands
title_first = refl

count-reading_order_example :
    count (λ b. b.position == 2) (reading_order columns 600 blocks)
    ≡ count (λ b. b.position == 2) blocks
count-reading_order_example = count-reading_order columns (λ b. b.position == 2) 600 blocks

abbrev raw_page : RawPage
raw_page = record {
  width = 600;
  blocks =
      record {
        is_text = true;
        lines = (record { text = 97 ∷ []; size = 100 } ∷ []) ∷ [];
        position = 0;
      }
      ∷ [];
}

abbrev two_pages : RawPdf
two_pages = record { needs_pass = false; page_count = 2; load_page = λ index. some raw_page }

abbrev both_pages : ExtractedText
both_pages = record {
  page_count = 2;
  pages = page_of columns 1 raw_page ∷ page_of columns 2 raw_page ∷ [];
}

extract_pdf_text-numbers_example :
    (0 < both_pages.page_count)
    × (both_pages.page_count ≤ 5)
    × (map (λ (p : ExtractedPage). p.page_number) both_pages.pages
        ≡ numbers 0 both_pages.page_count)
unfolding extract_pdf_text pages_from
extract_pdf_text-numbers_example =
    extract_pdf_text-numbers columns (some two_pages) 5 both_pages refl
