-- ===== src/Chunker/Budget.antt =====
-- What every chunk of a document satisfies.
use researchmind_mcp.Prelude.{
  ℕ, suc, ◌+◌, ◌≡◌, refl, subst, arith, Bool, true, false, Option, some, List, [], ◌∷◌, ◌++◌, ◌&&◌,
  ◌==◌, ltb, leb, all, length, if◌then◌else◌, Bool-cases, Option-cases, inl, inr,
}
use researchmind_mcp.Models.{Text, Chunk, ExtractedPage}
use researchmind_mcp.Chunker.{SectionAwareChunker, Range, slice, window_ranges}
use researchmind_mcp.Chunker.Windows.{window_ranges-budget}
use researchmind_mcp.Chunker.Sections.{TextRules, Section, is_references, detect_sections}
use researchmind_mcp.Chunker.Chunks.{
  Placed, reference_ranges, add_ranges, add_sections, ranges_of, chunk_pages, pages_covering,
  accepted, section_text,
}
use researchmind_mcp.Chunker.References.{
  affordable, all-append, reference_ranges-affordable, weakest,
}

-- Numbered from n on.
abbrev pub numbered : ℕ → List Chunk → Bool
numbered n [] = true
numbered n (c ∷ cs) = (c.chunk_index == n) && numbered (suc n) cs

numbered-append :
    (n : ℕ) (cs : List Chunk) (c : Chunk)
    → numbered n cs ≡ true
    → c.chunk_index ≡ n + length cs
    → numbered n (cs ++ c ∷ []) ≡ true
numbered-append n [] c h k = ground arith
numbered-append n (d ∷ cs) c h k = ground (arith, numbered-append (suc n) cs c)

module _ (self : SectionAwareChunker) where
  -- At least one token, at most `chunk_size`, and its pages run forwards from 1.
  abbrev pub sound : Chunk → Bool
  sound c =
      ltb 0 c.token_count
      && leb c.token_count self.chunk_size
      && ltb 0 c.page_start
      && leb c.page_start c.page_end

  abbrev pub Sound : List Chunk → Type 0
  Sound cs = (all sound cs ≡ true) × (numbered 0 cs ≡ true)

  Sound-append :
      (cs : List Chunk) (c d : Chunk)
      → Sound cs
      → leb c.token_count self.chunk_size ≡ true
      → c.chunk_index ≡ length cs
      → accepted self c ≡ some d
      → Sound (cs ++ d ∷ [])
  Sound-append cs c d h fits index e =
      elim (Bool-cases (ltb 0 c.page_start && leb c.page_start c.page_end && ltb 0 c.token_count)) [
        | inl good ↦
            let same : c ≡ d = let e' = rw good at e in cc in
            subst (λ x. Sound (cs ++ x ∷ [])) same
              (
                all-append sound cs (c ∷ []) h.0 (ground arith),
                numbered-append 0 cs c h.1 (omega arith),
              )
        | inr bad ↦ let absurd = rw bad at e in cc
      ]

  module _ (text : Text) (placed : List Placed) (title : Option Text) where
    add_ranges-Sound :
        (rs : List Range) (chunks cs : List Chunk)
        → all (affordable self) rs ≡ true
        → Sound chunks
        → add_ranges self text placed title rs chunks ≡ some cs
        → Sound cs
    unfolding add_ranges
    add_ranges-Sound [] chunks cs a h e = let same : chunks ≡ cs = cc in subst Sound same h
    add_ranges-Sound (r ∷ rs) chunks cs a h e =
        let content = slice text r.start r.end in
        let pages = pages_covering placed r.start r.end in
        let made : Chunk = record {
          chunk_index = length chunks;
          content = content;
          section = title;
          page_start = pages.0;
          page_end = pages.1;
          token_count = r.token_count;
        } in
        elim (Bool-cases (self.tokenizer.is_blank content)) [
          | inl blank ↦ add_ranges-Sound rs chunks cs (ground arith) h (rw blank at e)
          | inr text_there ↦ elim (Option-cases (accepted self made)) [
            | inl refused ↦ let absurd = rw (text_there, refused) at e in cc
            | inr (c, taken) ↦
                add_ranges-Sound rs (chunks ++ c ∷ []) cs (ground arith)
                  (Sound-append chunks made c h (ground arith) refl taken)
                  (rw (text_there, taken) at e)
          ]
        ]

  module _ (re : TextRules) where
    ranges_of-affordable :
        (s : Section) (text : Text) (named : Bool)
        → all
            (affordable self)
            (if named then reference_ranges self text else window_ranges self text)
          ≡ true
    ranges_of-affordable s text true = reference_ranges-affordable self text
    ranges_of-affordable s text false = weakest self text _ (window_ranges-budget self text)

    add_sections-Sound :
        (ss : List Section) (chunks cs : List Chunk)
        → Sound chunks
        → add_sections self re ss chunks ≡ some cs
        → Sound cs
    unfolding add_sections
    add_sections-Sound [] chunks cs h e = let same : chunks ≡ cs = cc in subst Sound same h
    add_sections-Sound (s ∷ ss) chunks cs h e =
        let text = (section_text s).0 in
        let placed = (section_text s).1 in
        elim (Bool-cases (self.tokenizer.is_blank text)) [
          | inl blank ↦ add_sections-Sound ss chunks cs h (rw blank at e)
          | inr there ↦
              elim (Option-cases
                (add_ranges self text placed s.title (ranges_of self re s text) chunks)) [
                  | inl refused ↦ let absurd = rw (there, refused) at e in cc
                  | inr (more, added) ↦
                      add_sections-Sound ss more cs
                        (add_ranges-Sound text placed s.title (ranges_of self re s text) chunks more
                          (ranges_of-affordable s text (is_references re s.title)) h added)
                        (rw (there, added) at e)
                ]
        ]

    -- If a document's pages are chunked at all, its chunks are numbered from 0 without a gap, and
    -- each has at least one token and at most `chunk_size`, and pages that run forwards from 1.
    pub chunk_pages-Sound :
        (pages : List ExtractedPage) (cs : List Chunk)
        → chunk_pages self re pages ≡ some cs
        → Sound cs
    unfolding chunk_pages
    chunk_pages-Sound pages cs e =
        add_sections-Sound (detect_sections re pages) [] cs (refl, refl) e
