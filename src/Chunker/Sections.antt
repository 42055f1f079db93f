-- ===== src/Chunker/Sections.antt =====
-- document_processing/sections.py. A font size is in tenths of a point.
use researchmind_mcp.Prelude.{
  ℕ, ◌+◌, ◌≡◌, refl, ap, Bool, true, false, Option, none, some, List, [], ◌∷◌, ◌++◌, ◌&&◌, ◌||◌,
  ◌==◌, ltb, leb, not, length, any, is_empty, map, if◌then◌else◌, Bool-cases, inl, inr,
}
use researchmind_mcp.Models.{Text, TextBlock, ExtractedPage}

-- What `str`, `unicodedata`, `re` and floating point answer, for the patterns of this module.
pub record TextRules : Type 0 where
  pub strip : Text → Text
  -- len(text.split())
  pub words : Text → ℕ
  -- " ".join(unicodedata.normalize("NFC", text).split())
  pub normalised : Text → Text
  pub known : Text → Bool
  pub numbered : Text → Bool
  pub roman : Text → Bool
  pub references : Text → Bool
  -- font_size >= body_size * HEADING_SIZE_RATIO
  pub enlarged : ℕ → ℕ → Bool

pub record SectionBlock : Type 0 where
  pub text : Text
  pub page_number : ℕ

pub record Section : Type 0 where
  pub title : Option Text
  pub blocks : List SectionBlock

abbrev pub max_heading_words : ℕ
max_heading_words = 12

-- weights[size] = weights.get(size, 0) + n, in order of insertion
abbrev pub weigh : ℕ → ℕ → List (ℕ × ℕ) → List (ℕ × ℕ)
weigh size n [] = (size, n) ∷ []
weigh size n (w ∷ ws) =
    let rest = weigh size n ws in if w.0 == size then (w.0, w.1 + n) ∷ ws else w ∷ rest

abbrev pub weigh_blocks : List TextBlock → List (ℕ × ℕ) → List (ℕ × ℕ)
weigh_blocks [] ws = ws
weigh_blocks (b ∷ bs) ws = weigh_blocks bs (weigh b.font_size (length b.text) ws)

abbrev pub weigh_pages : List ExtractedPage → List (ℕ × ℕ) → List (ℕ × ℕ)
weigh_pages [] ws = ws
weigh_pages (p ∷ ps) ws = weigh_pages ps (weigh_blocks p.blocks ws)

-- max by (weight, -size): the first of the greatest
abbrev pub heavier : ℕ × ℕ → ℕ × ℕ → Bool
heavier a b = ltb b.1 a.1 || (a.1 == b.1 && ltb a.0 b.0)

abbrev pub heaviest : ℕ × ℕ → List (ℕ × ℕ) → ℕ × ℕ
heaviest best [] = best
heaviest best (w ∷ ws) = heaviest (if heavier w best then w else best) ws

abbrev pub heaviest_size : List (ℕ × ℕ) → ℕ
heaviest_size [] = 0
heaviest_size (w ∷ ws) = (heaviest w ws).0

unfoldable pub body_font_size : List ExtractedPage → ℕ
body_font_size pages = heaviest_size (weigh_pages pages [])

-- text[-1] in ".。!?！？"
abbrev pub last_is_stop : Text → Bool
last_is_stop [] = false
last_is_stop (c ∷ []) = any (λ stop. c == stop) (46 ∷ 12290 ∷ 33 ∷ 63 ∷ 65281 ∷ 65311 ∷ [])
last_is_stop (c ∷ d ∷ text) = last_is_stop (d ∷ text)

-- `close()`
abbrev pub closed : Option Text → List SectionBlock → List Section
closed title [] = []
closed title (b ∷ bs) = record { title = title; blocks = b ∷ bs } ∷ []

abbrev pub paged : List ExtractedPage → List (ℕ × TextBlock)
paged [] = []
paged (p ∷ ps) = map (λ b. (p.page_number, b)) p.blocks ++ paged ps

abbrev pub all_blocks : List Section → List SectionBlock
all_blocks [] = []
all_blocks (s ∷ ss) = s.blocks ++ all_blocks ss

abbrev pub as_block : ℕ × TextBlock → SectionBlock
as_block b = record { text = b.1.text; page_number = b.0 }

append_nil : {A : Type 0} (xs : List A) → xs ++ [] ≡ xs
append_nil [] = refl
append_nil (x ∷ xs) = ap (λ ys. x ∷ ys) (append_nil xs)

append_assoc : {A : Type 0} (xs ys zs : List A) → (xs ++ ys) ++ zs ≡ xs ++ (ys ++ zs)
append_assoc [] ys zs = refl
append_assoc (x ∷ xs) ys zs = ap (λ l. x ∷ l) (append_assoc xs ys zs)

all_blocks-closed :
    (title : Option Text) (blocks : List SectionBlock) (ss : List Section)
    → all_blocks (closed title blocks ++ ss) ≡ blocks ++ all_blocks ss
all_blocks-closed title [] ss = refl
all_blocks-closed title (b ∷ bs) ss = refl

module _ (re : TextRules) where
  abbrev pub ends_a_sentence : Text → Bool
  ends_a_sentence text = last_is_stop text && not (re.numbered text)

  -- `Section.is_references`
  abbrev pub is_references : Option Text → Bool
  is_references none = false
  is_references (some title) = re.references (re.strip title)

  unfoldable pub is_heading : Text → ℕ → ℕ → Bool
  is_heading text font_size body_size =
      let stripped = re.strip text in
      if is_empty stripped || any (λ c. c == 10) stripped
      then false
      else if ltb max_heading_words (re.words stripped)
      then false
      else if re.known stripped
      then true
      else if re.numbered stripped || re.roman stripped
      then true
      else if ltb 0 body_size && re.enlarged font_size body_size
      then leb (length stripped) 80 && not (ends_a_sentence stripped)
      else false

  -- The two loops, over the blocks with their pages; `blocks` is the open section.
  unfoldable pub split_blocks :
      ℕ → Option Text → List SectionBlock → List (ℕ × TextBlock) → List Section
  split_blocks body_size title blocks [] = closed title blocks
  split_blocks body_size title blocks ((page, block) ∷ rest) =
      let text = re.normalised block.text in
      let this : SectionBlock = record { text = block.text; page_number = page } in
      let same = split_blocks body_size title (blocks ++ this ∷ []) rest in
      let fresh = split_blocks body_size (some (re.strip text)) (this ∷ []) rest in
      if is_heading text block.font_size body_size then closed title blocks ++ fresh else same

  unfoldable pub detect_sections : List ExtractedPage → List Section
  detect_sections pages = split_blocks (body_font_size pages) none [] (paged pages)

  all_blocks-split_blocks :
      (body_size : ℕ) (title : Option Text) (blocks : List SectionBlock)
      (rest : List (ℕ × TextBlock))
      → all_blocks (split_blocks body_size title blocks rest) ≡ blocks ++ map as_block rest
  unfolding split_blocks
  all_blocks-split_blocks body_size title [] [] = refl
  all_blocks-split_blocks body_size title (b ∷ bs) [] = refl
  all_blocks-split_blocks body_size title blocks ((page, block) ∷ rest) =
      let this : SectionBlock = record { text = block.text; page_number = page } in
      let text = re.normalised block.text in
      elim (Bool-cases (is_heading text block.font_size body_size)) [
        | inl h ↦
            rw
              (
                h,
                all_blocks-closed title blocks
                    (split_blocks body_size (some (re.strip text)) (this ∷ []) rest),
                all_blocks-split_blocks body_size (some (re.strip text)) (this ∷ []) rest,
              )
              refl
        | inr h ↦
            rw (h, all_blocks-split_blocks body_size title (blocks ++ this ∷ []) rest)
              (append_assoc blocks (this ∷ []) (map as_block rest))
      ]

  -- Every block of the pages is in exactly one section, in reading order, its text untouched and
  -- its page with it: the blocks of the sections, one section after another, are those of the
  -- pages.
  pub detect_sections-keeps :
      (pages : List ExtractedPage) → all_blocks (detect_sections pages) ≡ map as_block (paged pages)
  unfolding detect_sections
  detect_sections-keeps pages = all_blocks-split_blocks (body_font_size pages) none [] (paged pages)
