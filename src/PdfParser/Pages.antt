-- ===== src/PdfParser/Pages.antt =====
-- Every page of a PDF that is read, numbered from 1.
use researchmind_mcp.Prelude.{
  ℕ, zero, suc, ◌≤◌, ◌<◌, ◌≡◌, refl, ◌∙◌, sym, ap, Option, none, some, List, [], ◌∷◌, map, ltb,
  Bool-cases, inl, inr, arith,
}
use researchmind_mcp.Models.{ExtractedPage, ExtractedText}
use researchmind_mcp.Exec.{ok}
use researchmind_mcp.PdfParser.{
  LayoutRules, RawPage, RawPdf, page_of, add_page, pages_from, extracted, extract_pdf_text,
}

-- index + 1, index + 2, ...
abbrev pub numbers : ℕ → ℕ → List ℕ
numbers index zero = []
numbers index (suc n) = suc index ∷ numbers (suc index) n

module _ (rules : LayoutRules) where
  pages_from-numbers :
      (document : RawPdf) (index n : ℕ) (pages : List ExtractedPage)
      → pages_from rules document index n ≡ some pages
      → map (λ (p : ExtractedPage). p.page_number) pages ≡ numbers index n
  unfolding pages_from
  pages_from-numbers document index zero [] h = refl
  pages_from-numbers document index zero (p ∷ pages) h = cc
  pages_from-numbers document index (suc n) pages h =
      both (document.load_page index) (pages_from rules document (suc index) n)
        (pages_from-numbers document (suc index) n) pages h
    where
      both :
          (o : Option RawPage) (os : Option (List ExtractedPage))
          → ((pages : List ExtractedPage)
              → os ≡ some pages
              → map (λ (p : ExtractedPage). p.page_number) pages ≡ numbers (suc index) n)
          → (pages : List ExtractedPage) → add_page rules (suc index) o os ≡ some pages
          → map (λ (p : ExtractedPage). p.page_number) pages ≡ numbers index (suc n)
      both none os rest pages h = cc
      both (some page) none rest pages h = cc
      both (some page) (some more) rest pages h =
          let same : page_of rules (suc index) page ∷ more ≡ pages = cc in
          ap (map (λ (p : ExtractedPage). p.page_number)) (sym same)
          ∙ ap (λ ns. suc index ∷ ns) (rest more refl)

  -- A PDF that is read has from one page to the limit, and each of its pages, numbered from 1 without a gap.
  pub extract_pdf_text-numbers :
      (document : Option RawPdf) (max_pages : ℕ) (t : ExtractedText)
      → extract_pdf_text rules document max_pages ≡ ok t
      → (0 < t.page_count)
        × (t.page_count ≤ max_pages)
        × (map (λ (p : ExtractedPage). p.page_number) t.pages ≡ numbers 0 t.page_count)
  unfolding extract_pdf_text pages_from
  extract_pdf_text-numbers none max_pages t h = cc
  extract_pdf_text-numbers (some document) max_pages t h = elim (Bool-cases document.needs_pass) [
    | inl locked ↦ let absurd = rw locked at h in cc
    | inr free ↦ elim (Bool-cases (ltb document.page_count 1)) [
      | inl bare ↦ let absurd = rw (free, bare) at h in cc
      | inr some_pages ↦ elim (Bool-cases (ltb max_pages document.page_count)) [
        | inl many ↦ let absurd = rw (free, some_pages, many) at h in cc
        | inr few ↦
            let done = rw (free, some_pages, few) at h in
            let positive : 0 < document.page_count = ground arith in
            let bounded : document.page_count ≤ max_pages = ground arith in
            read (pages_from rules document 0 document.page_count) refl positive bounded done
      ]
    ]
  ]
    where
      read :
          (o : Option (List ExtractedPage))
          → pages_from rules document 0 document.page_count ≡ o
          → 0 < document.page_count
          → document.page_count ≤ max_pages
          → extracted rules document.page_count o ≡ ok t
          → (0 < t.page_count)
            × (t.page_count ≤ max_pages)
            × (map (λ (p : ExtractedPage). p.page_number) t.pages ≡ numbers 0 t.page_count)
      read none e a b h = cc
      read (some pages) e a b h =
          let count_same : document.page_count ≡ t.page_count = cc in
          let pages_same : pages ≡ t.pages = cc in
          rw (← count_same, ← pages_same)
            (a, b, pages_from-numbers document 0 document.page_count pages e)
