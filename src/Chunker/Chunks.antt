-- ===== src/Chunker/Chunks.antt =====
-- `_reference_ranges`, `_section_text`, `_pages_covering` and `chunk` of `SectionAwareChunker`.
use researchmind_mcp.Prelude.{
  ℕ, ◌+◌, min, max, Option, none, some, List, [], ◌∷◌, ◌++◌, ◌&&◌, ltb, leb, not, length, map,
  select, is_empty, if◌then◌else◌,
}
use researchmind_mcp.Models.{Text, Chunk, ExtractedPage}
use researchmind_mcp.Chunker.{SectionAwareChunker, Range, slice, window_ranges}
use researchmind_mcp.Chunker.Sections.{
  TextRules, Section, SectionBlock, is_references, detect_sections,
}

-- `_Placed`
pub record Placed : Type 0 where
  pub start : ℕ
  pub end : ℕ
  pub page_number : ℕ

-- `_BLOCK_SEPARATOR`
abbrev pub block_separator : Text
block_separator = 10 ∷ 10 ∷ []

-- The loop of `_section_text`, with the text so far; its length is `cursor`.
unfoldable pub place_blocks : Text → List Placed → List SectionBlock → Text × List Placed
place_blocks text placed [] = (text, placed)
place_blocks text placed (b ∷ bs) =
    let before = if is_empty placed then text else text ++ block_separator in
    place_blocks (before ++ b.text)
      (placed
        ++ record {
          start = length before;
          end = length before + length b.text;
          page_number = b.page_number;
        }
          ∷ [])
      bs

abbrev pub section_text : Section → Text × List Placed
section_text section = place_blocks [] [] section.blocks

abbrev pub smallest : ℕ → List ℕ → ℕ
smallest n [] = n
smallest n (m ∷ ms) = smallest (min n m) ms

abbrev pub greatest : ℕ → List ℕ → ℕ
greatest n [] = n
greatest n (m ∷ ms) = greatest (max n m) ms

-- [placed[0].page_number] if placed else [1]
abbrev pub nearest : List Placed → ℕ
nearest [] = 1
nearest (p ∷ ps) = p.page_number

abbrev pub extremes : ℕ → List ℕ → ℕ × ℕ
extremes otherwise [] = (otherwise, otherwise)
extremes otherwise (n ∷ ns) = (smallest n ns, greatest n ns)

unfoldable pub pages_covering : List Placed → ℕ → ℕ → ℕ × ℕ
pages_covering placed start end = extremes (nearest placed) (
    map (λ (p : Placed). p.page_number)
      (select (λ (p : Placed). ltb p.start end && ltb start p.end) placed))

-- zip(starts, starts[1:] + [len(text)])
abbrev pub bounds_of : ℕ → List ℕ → List (ℕ × ℕ)
bounds_of n [] = []
bounds_of n (s ∷ []) = (s, n) ∷ []
bounds_of n (s ∷ t ∷ ts) = (s, t) ∷ bounds_of n (t ∷ ts)

-- if starts[0] > 0: starts.insert(0, 0)
abbrev pub with_preamble : List ℕ → List ℕ
with_preamble [] = []
with_preamble (s ∷ ss) = if ltb 0 s then 0 ∷ s ∷ ss else s ∷ ss

-- if open_start is not None: ranges.append(...)
abbrev pub flush : Option Range → List Range
flush none = []
flush (some r) = r ∷ []

module _ (self : SectionAwareChunker) where
  -- An entry within the budget: what it closes, and what is then open.
  abbrev pub join : Option Range → Range → List Range × Option Range
  join none entry = ([], some entry)
  join (some r) entry =
      if leb (r.token_count + entry.token_count) self.chunk_size
      then (
        [],
        some (record {
          start = r.start;
          end = entry.end;
          token_count = r.token_count + entry.token_count;
        }),
      )
      else (r ∷ [], some entry)

  abbrev pub shifted : ℕ → Range → Range
  shifted by r = record { start = r.start + by; end = r.end + by; token_count = r.token_count }

  -- One turn of the loop of `_reference_ranges`.
  abbrev pub pack_entry : Text → Option Range → ℕ × ℕ → List Range × Option Range
  pack_entry text pending (start, end) =
      let entry_tokens = self.tokenizer.count (slice text start end) in
      if ltb self.chunk_size entry_tokens
      then (flush pending ++ map (shifted start) (window_ranges self (slice text start end)), none)
      else join pending (record { start = start; end = end; token_count = entry_tokens })

  unfoldable pub pack : Text → Option Range → List (ℕ × ℕ) → List Range
  pack text pending [] = flush pending
  pack text pending (b ∷ bs) =
      let (closed, next) = pack_entry text pending b in closed ++ pack text next bs

  -- `_reference_ranges`
  unfoldable pub reference_ranges : Text → List Range
  reference_ranges text =
      let starts = self.tokenizer.entry_starts text in
      if ltb (length starts) 2
      then window_ranges self text
      else select (λ (r : Range). not (self.tokenizer.is_blank (slice text r.start r.end)))
          (pack text none (bounds_of (length text) (with_preamble starts)))

  -- What the constructor of `Chunk` refuses.
  abbrev pub accepted : Chunk → Option Chunk
  accepted c =
      if ltb 0 c.page_start && leb c.page_start c.page_end && ltb 0 c.token_count
      then some c
      else none

  -- The inner loop of `chunk`, over the ranges of a section; `none` where a chunk is refused.
  unfoldable pub add_ranges :
      Text → List Placed → Option Text → List Range → List Chunk → Option (List Chunk)
  add_ranges text placed title [] chunks = some chunks
  add_ranges text placed title (r ∷ rs) chunks =
      let content = slice text r.start r.end in
      let (first, last) = pages_covering placed r.start r.end in
      if self.tokenizer.is_blank content
      then add_ranges text placed title rs chunks
      else elim (accepted (record {
        chunk_index = length chunks;
        content = content;
        section = title;
        page_start = first;
        page_end = last;
        token_count = r.token_count;
      })) [ none ↦ none | some c ↦ add_ranges text placed title rs (chunks ++ c ∷ []) ]

  module _ (re : TextRules) where
    abbrev pub ranges_of : Section → Text → List Range
    ranges_of section text =
        if is_references re section.title then reference_ranges text else window_ranges self text

    unfoldable pub add_sections : List Section → List Chunk → Option (List Chunk)
    add_sections [] chunks = some chunks
    add_sections (s ∷ ss) chunks =
        let (text, placed) = section_text s in
        if self.tokenizer.is_blank text
        then add_sections ss chunks
        else elim (add_ranges text placed s.title (ranges_of s text) chunks) [
          | none ↦ none
          | some more ↦ add_sections ss more
        ]

    -- The chunks of `chunk`.
    unfoldable pub chunk_pages : List ExtractedPage → Option (List Chunk)
    chunk_pages pages = add_sections (detect_sections re pages) []
