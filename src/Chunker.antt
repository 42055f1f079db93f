-- ===== src/Chunker.antt =====
-- `SectionAwareChunker` (document_processing/chunker.py), from the sections of a document on.
pub mod Windows
pub mod Sections
pub mod Chunks
pub mod Budget
pub mod References
use researchmind_mcp.Prelude.{
  ℕ, zero, suc, ◌+◌, ◌-◌, ◌≤◌, ◌<◌, min, max, Bool, true, false, Option, none, some, List, [], ◌∷◌,
  ◌++◌, ◌&&◌, ◌==◌, ltb, not, String, length, map, select, is_empty, if◌then◌else◌,
}
use researchmind_mcp.Models.{Text, Chunk, ChunkingResult}

-- shared/interfaces/tokenization.py
pub record TokenSpan : Type 0 where
  pub start : ℕ
  pub end : ℕ

-- The tokenizer behind its protocol, and what `re` and `str.strip` answer: where
-- `_REFERENCE_ENTRY` matches in a text, and whether a text is blank.
pub record Tokenizer : Type 0 where
  pub id : String
  pub tokenize : Text → List TokenSpan
  pub count : Text → ℕ
  pub entry_starts : Text → List ℕ
  pub is_blank : Text → Bool

-- `__init__`, with what it refuses.
pub record SectionAwareChunker : Type 0 where
  pub tokenizer : Tokenizer
  pub chunk_size : ℕ
  pub chunk_overlap : ℕ
  pub advances : chunk_overlap < chunk_size

-- A range of text, and its number of tokens.
pub record Range : Type 0 where
  pub start : ℕ
  pub end : ℕ
  pub token_count : ℕ

abbrev pub nth : List TokenSpan → ℕ → TokenSpan
nth [] i = record { start = 0; end = 0 }
nth (t ∷ ts) zero = t
nth (t ∷ ts) (suc i) = nth ts i

-- text[start:end]
abbrev pub drop : ℕ → Text → Text
drop zero text = text
drop (suc n) [] = []
drop (suc n) (c ∷ text) = drop n text

abbrev pub keep : ℕ → Text → Text
keep zero text = []
keep (suc n) [] = []
keep (suc n) (c ∷ text) = c ∷ keep n text

abbrev pub slice : Text → ℕ → ℕ → Text
slice text start end = keep (end - start) (drop start text)

module _ (self : SectionAwareChunker) where
  -- The loop of `_window_ranges`, as ranges of tokens; one unit of fuel per window.
  unfoldable pub windows : ℕ → ℕ → ℕ → List (ℕ × ℕ)
  windows n zero start = []
  windows n (suc fuel) start =
      let rest = windows n fuel (start + (self.chunk_size - self.chunk_overlap)) in
      let end = min (start + self.chunk_size) n in
      if ltb start n then (start, end) ∷ (if end == n then [] else rest) else []

  abbrev pub range_of : List TokenSpan → ℕ × ℕ → Range
  range_of tokens w = record {
    start = (nth tokens w.0).start;
    end = (nth tokens (w.1 - 1)).end;
    token_count = w.1 - w.0;
  }

  -- `_window_ranges`
  unfoldable pub window_ranges : Text → List Range
  window_ranges text =
      let tokens = self.tokenizer.tokenize text in
      map (range_of tokens) (windows (length tokens) (length tokens) 0)
