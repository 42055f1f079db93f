-- ===== src/Chunker/References.antt =====
-- No range of a reference list is over the budget.
use researchmind_mcp.Prelude.{
  ℕ, ◌+◌, ◌≡◌, refl, arith, Bool, true, Option, none, some, List, [], ◌∷◌, ◌++◌, ltb, leb, all,
  length, map, select, Bool-cases, inl, inr,
}
use researchmind_mcp.Models.{Text}
use researchmind_mcp.Chunker.{SectionAwareChunker, Range, slice}
use researchmind_mcp.Chunker.Windows.{within_budget, window_ranges-budget}
use researchmind_mcp.Chunker.Chunks.{flush, join, pack, pack_entry, shifted, reference_ranges}

pub all-append :
    {A : Type 0} (p : A → Bool) (xs ys : List A)
    → all p xs ≡ true
    → all p ys ≡ true
    → all p (xs ++ ys) ≡ true
all-append p [] ys h k = k
all-append p (x ∷ xs) ys h k = ground (arith, all-append p xs ys)

all-select :
    {A : Type 0} (p q : A → Bool) (xs : List A) → all p xs ≡ true → all p (select q xs) ≡ true
all-select p q [] h = refl
all-select p q (x ∷ xs) h = ground (arith, all-select p q xs)

module _ (self : SectionAwareChunker) where
  abbrev pub affordable : Range → Bool
  affordable r = leb r.token_count self.chunk_size

  weaker :
      (by : ℕ) (text : Text) (rs : List Range)
      → all (within_budget self text) rs ≡ true
      → all affordable (map (shifted self by) rs) ≡ true
  weaker by text [] h = refl
  weaker by text (r ∷ rs) h = ground (arith, weaker by text rs)

  pub weakest :
      (text : Text) (rs : List Range)
      → all (within_budget self text) rs ≡ true
      → all affordable rs ≡ true
  weakest text [] h = refl
  weakest text (r ∷ rs) h = ground (arith, weakest text rs)

  join-affordable :
      (pending : Option Range) (entry : Range)
      → all affordable (flush pending) ≡ true
      → affordable entry ≡ true
      → (all affordable (join self pending entry).0 ≡ true)
        × (all affordable (flush (join self pending entry).1) ≡ true)
  join-affordable none entry h k = (refl, ground arith)
  join-affordable (some r) entry h k =
      elim (Bool-cases (leb (r.token_count + entry.token_count) self.chunk_size)) [
        | inl fits ↦ rw fits (refl, ground arith)
        | inr full ↦ rw full (h, ground arith)
      ]

  pack_entry-affordable :
      (text : Text) (pending : Option Range) (start end : ℕ)
      → all affordable (flush pending) ≡ true
      → (all affordable (pack_entry self text pending (start, end)).0 ≡ true)
        × (all affordable (flush (pack_entry self text pending (start, end)).1) ≡ true)
  pack_entry-affordable text pending start end h =
      elim (Bool-cases (ltb self.chunk_size (self.tokenizer.count (slice text start end)))) [
        | inl long ↦ rw long (
          all-append affordable (flush pending) _ h (
              weaker start (slice text start end) _
                (window_ranges-budget self (slice text start end))),
          refl,
        )
        | inr short ↦ rw short (join-affordable pending _ h (ground arith))
      ]

  pack-affordable :
      (text : Text) (pending : Option Range) (bounds : List (ℕ × ℕ))
      → all affordable (flush pending) ≡ true
      → all affordable (pack self text pending bounds) ≡ true
  unfolding pack
  pack-affordable text pending [] h = h
  pack-affordable text pending ((start, end) ∷ bs) h =
      let (a, b) = pack_entry-affordable text pending start end h in
      all-append affordable _ _ a
        (pack-affordable text (pack_entry self text pending (start, end)).1 bs b)

  pub reference_ranges-affordable :
      (text : Text) → all affordable (reference_ranges self text) ≡ true
  unfolding reference_ranges
  reference_ranges-affordable text =
      elim (Bool-cases (ltb (length (self.tokenizer.entry_starts text)) 2)) [
        | inl few ↦ rw few (weakest text _ (window_ranges-budget self text))
        | inr enough ↦ rw enough (all-select affordable _ _ (pack-affordable text none _ refl))
      ]
