-- ===== src/PdfParser.antt =====
-- document_processing/pdf_parser.py: the text of a PDF, in reading order. What PyMuPDF,
-- `unicodedata` and floating point answer is a parameter; a font size is in tenths of a point.
pub mod Order
pub mod Pages
use researchmind_mcp.Prelude.{
  ℕ, zero, suc, ◌+◌, String, Bool, true, false, not, Option, none, some, List, [], ◌∷◌, ◌++◌, ◌&&◌,
  ◌||◌, ◌==◌, ltb, is_empty, select, order_by, length, map, if◌then◌else◌,
}
use researchmind_mcp.Models.{Text, Bytes, TextBlock, ExtractedPage, ExtractedText}
use researchmind_mcp.Models.Reason.{
  ExtractionFailure, open_failed, encrypted, page_limit_exceeded, parse_failed,
}
use researchmind_mcp.Exec.{Result, ok, err, extraction}

pub record LayoutBlock : Type 0 where
  -- the position, as the layout rules know it
  pub position : ℕ
  pub text : Text
  pub font_size : ℕ

pub record Span : Type 0 where
  pub text : Text
  pub size : ℕ

-- A block of `page.get_text("dict")`; `is_text` is `type == 0`.
pub record RawBlock : Type 0 where
  pub is_text : Bool
  pub lines : List (List Span)
  pub position : ℕ

-- What `unicodedata` and str say of characters, and how positions compare on a page.
pub record LayoutRules : Type 0 where
  -- unicodedata.normalize("NFC", raw)
  pub nfc : Text → Text
  pub is_space : ℕ → Bool
  -- U+FFFD, or a category of `_DROPPED_CATEGORIES`
  pub is_dropped : ℕ → Bool
  -- (a.y0, a.x0) < (b.y0, b.x0)
  pub before : ℕ → ℕ → Bool
  -- x0 < middle - slack and x1 > middle + slack, on a page of this width
  pub crosses : ℕ → ℕ → Bool
  -- x1 <= middle + slack
  pub is_left : ℕ → ℕ → Bool

module _ (rules : LayoutRules) where
  abbrev pub close_word : Text → List Text → List Text
  close_word [] words = words
  close_word (c ∷ word) words = (c ∷ word) ∷ words

  -- text.split(), after the word that has begun
  abbrev pub split_words : Text → Text → List Text
  split_words word [] = close_word word []
  split_words word (c ∷ text) =
      let next = split_words [] text in
      let longer = split_words (word ++ c ∷ []) text in
      if rules.is_space c then close_word word next else longer

  -- " ".join(words)
  abbrev pub join_words : List Text → Text
  join_words [] = []
  join_words (word ∷ []) = word
  join_words (word ∷ (next ∷ words)) = word ++ 32 ∷ join_words (next ∷ words)

  abbrev pub is_kept : ℕ → Bool
  is_kept c = rules.is_space c || not (rules.is_dropped c)

  unfoldable pub clean_text : Text → Text
  clean_text raw = join_words (split_words [] (select is_kept (rules.nfc raw)))

  abbrev pub earlier : LayoutBlock → LayoutBlock → Bool
  earlier a b = rules.before a.position b.position

  -- `close_band`
  abbrev pub close_band : List LayoutBlock → List LayoutBlock → List LayoutBlock → List LayoutBlock
  close_band ordered left right = ordered ++ (order_by earlier left ++ order_by earlier right)

  unfoldable pub read_bands :
      ℕ
      → List LayoutBlock
      → List LayoutBlock
      → List LayoutBlock
      → List LayoutBlock
      → List LayoutBlock
  read_bands width ordered left right [] = close_band ordered left right
  read_bands width ordered left right (block ∷ blocks) =
      let across = read_bands width (close_band ordered left right ++ block ∷ []) [] [] blocks in
      let in_left = read_bands width ordered (left ++ block ∷ []) right blocks in
      let in_right = read_bands width ordered left (right ++ block ∷ []) blocks in
      if rules.crosses width block.position
      then across
      else if rules.is_left width block.position
      then in_left
      else in_right

  unfoldable pub reading_order : ℕ → List LayoutBlock → List LayoutBlock
  reading_order page_width blocks = read_bands page_width [] [] [] (order_by earlier blocks)

-- sizes[size] = sizes.get(size, 0) + characters
abbrev pub add_size : ℕ → ℕ → List (ℕ × ℕ) → List (ℕ × ℕ)
add_size size characters [] = (size, characters) ∷ []
add_size size characters ((s, n) ∷ sizes) =
    let rest = add_size size characters sizes in
    if s == size then (s, n + characters) ∷ sizes else (s, n) ∷ rest

-- The greater by (characters, size).
abbrev pub larger : ℕ × ℕ → ℕ × ℕ → ℕ × ℕ
larger (s, n) (t, m) = if ltb n m then (t, m) else if n == m && ltb s t then (t, m) else (s, n)

-- `_dominant_size`, of sizes that are not empty
abbrev pub dominant_size : ℕ × ℕ → List (ℕ × ℕ) → ℕ
dominant_size best [] = best.0
dominant_size best (item ∷ sizes) = dominant_size (larger best item) sizes

abbrev pub dominant_of : List (ℕ × ℕ) → ℕ
dominant_of [] = 0
dominant_of (item ∷ sizes) = dominant_size item sizes

module _ (rules : LayoutRules) where
  abbrev pub line_text : List Span → Text
  line_text [] = []
  line_text (span ∷ spans) = span.text ++ line_text spans

  abbrev pub add_spans : List Span → List (ℕ × ℕ) → List (ℕ × ℕ)
  add_spans [] sizes = sizes
  add_spans (span ∷ spans) sizes =
      let characters = length (clean_text rules span.text) in
      add_spans spans (if characters == 0 then sizes else add_size span.size characters sizes)

  -- The lines with text, and the sizes of all.
  abbrev pub lines_of : List (List Span) → List Text
  lines_of [] = []
  lines_of (line ∷ lines) =
      let text = clean_text rules (line_text line) in
      let rest = lines_of lines in if is_empty text then rest else text ∷ rest

  abbrev pub sizes_of : List (List Span) → List (ℕ × ℕ) → List (ℕ × ℕ)
  sizes_of [] sizes = sizes
  sizes_of (line ∷ lines) sizes = sizes_of lines (add_spans line sizes)

  -- "\n".join(lines)
  abbrev pub join_lines : List Text → Text
  join_lines [] = []
  join_lines (line ∷ []) = line
  join_lines (line ∷ (next ∷ lines)) = line ++ 10 ∷ join_lines (next ∷ lines)

  abbrev pub layout_block : RawBlock → LayoutBlock
  layout_block raw = record {
    position = raw.position;
    text = join_lines (lines_of raw.lines);
    font_size = dominant_of (sizes_of raw.lines []);
  }

  -- `_page_blocks`
  unfoldable pub page_blocks : List RawBlock → List LayoutBlock
  page_blocks [] = []
  page_blocks (raw ∷ blocks) =
      let rest = page_blocks blocks in
      if not raw.is_text || is_empty (lines_of raw.lines) then rest else layout_block raw ∷ rest

-- A page, and a document that `pymupdf.open` has opened; None is an exception.
pub record RawPage : Type 0 where
  pub width : ℕ
  pub blocks : List RawBlock

pub record RawPdf : Type 0 where
  pub needs_pass : Bool
  pub page_count : ℕ
  pub load_page : ℕ → Option RawPage

module _ (rules : LayoutRules) where
  abbrev pub page_of : ℕ → RawPage → ExtractedPage
  page_of number page = record {
    page_number = number;
    blocks =
        map (λ (block : LayoutBlock). record { text = block.text; font_size = block.font_size })
          (reading_order rules page.width (page_blocks rules page.blocks));
  }

  abbrev pub add_page :
      ℕ → Option RawPage → Option (List ExtractedPage) → Option (List ExtractedPage)
  add_page number (some page) (some pages) = some (page_of number page ∷ pages)
  add_page number _ _ = none

  -- The pages from this index on, this many.
  unfoldable pub pages_from : RawPdf → ℕ → ℕ → Option (List ExtractedPage)
  pages_from document index zero = some []
  pages_from document index (suc n) =
      add_page (suc index) (document.load_page index) (pages_from document (suc index) n)

  abbrev pub extracted : ℕ → Option (List ExtractedPage) → Result ExtractedText
  extracted page_count none = err (extraction parse_failed)
  extracted page_count (some pages) = ok (record { page_count = page_count; pages = pages })

  -- The document is what `pymupdf.open` returned.
  unfoldable pub extract_pdf_text : Option RawPdf → ℕ → Result ExtractedText
  extract_pdf_text none max_pages = err (extraction open_failed)
  extract_pdf_text (some document) max_pages =
      if document.needs_pass
      then err (extraction encrypted)
      else if ltb document.page_count 1
      then err (extraction open_failed)
      else if ltb max_pages document.page_count
      then err (extraction page_limit_exceeded)
      else extracted document.page_count (pages_from document 0 document.page_count)
