-- ===== src/Chunker/Windows.antt =====
-- The token windows of a section.
use researchmind_mcp.Prelude.{
  ℕ, zero, suc, ◌+◌, ◌-◌, ◌≤◌, ◌<◌, min, ◌≡◌, refl, Bool, true, false, List, [], ◌∷◌, ◌&&◌, ◌==◌,
  ltb, leb, arith, ◌⊎◌, all, map, length, Bool-cases, inl, inr, subst, ltb→lt,
}
use researchmind_mcp.Models.{Text}
use researchmind_mcp.Chunker.{
  TokenSpan, SectionAwareChunker, Range, nth, windows, range_of, window_ranges,
}

module _ (self : SectionAwareChunker) (n : ℕ) where
  -- Windows over the tokens from s on: full ones, each starting `chunk_overlap` tokens before the
  -- end of the one before it, and a last one that ends with the tokens.
  pub data Tiles : ℕ → List (ℕ × ℕ) → Type 0 where
    last : {s : ℕ} → s < n → n ≤ s + self.chunk_size → Tiles s ((s, n) ∷ [])
    next :
        {s : ℕ} {ws : List (ℕ × ℕ)}
        → s + self.chunk_size < n
        → Tiles (s + self.chunk_size - self.chunk_overlap) ws
        → Tiles s ((s, s + self.chunk_size) ∷ ws)

  windows_from : (fuel s : ℕ) → s < n → n ≤ s + fuel → Tiles s (windows self n fuel s)
  unfolding windows
  windows_from zero s h k = let absurd : ⊥ = omega arith in elim absurd [ ]
  windows_from (suc fuel) s h k = elim (Bool-cases (ltb (s + self.chunk_size) n)) [
    | inl more ↦
        let below = ltb→lt (s + self.chunk_size) n more in
        let step = self.advances in
        let t =
          windows_from fuel (s + (self.chunk_size - self.chunk_overlap)) (omega arith)
            (omega arith) in
        let here : ltb s n ≡ true = ground arith in
        let full : min (s + self.chunk_size) n ≡ s + self.chunk_size = omega arith in
        let inner : (s + self.chunk_size == n) ≡ false = ground arith in
        let shift : s + (self.chunk_size - self.chunk_overlap)
            ≡ s + self.chunk_size - self.chunk_overlap =
          omega arith in
        rw (here, full, inner)
          (Tiles.next below (
            subst (λ x. Tiles x (windows self n fuel (s + (self.chunk_size - self.chunk_overlap))))
              shift t))
    | inr done ↦
        let here : ltb s n ≡ true = ground arith in
        let short : min (s + self.chunk_size) n ≡ n = ground arith in
        let ends : (n == n) ≡ true = ground arith in
        rw (here, short, ends) (Tiles.last h (ground arith))
  ]

  -- The token i is in one of the windows.
  abbrev pub Inside : ℕ → List (ℕ × ℕ) → Type 0
  Inside i [] = ⊥
  Inside i (w ∷ ws) = ((w.0 ≤ i) × (i < w.1) × (w.1 ≤ n)) ⊎ Inside i ws

  Tiles-Inside : {s : ℕ} {ws : List (ℕ × ℕ)} → Tiles s ws → (i : ℕ) → s ≤ i → i < n → Inside i ws
  Tiles-Inside (Tiles.last a b) i h k = inl (h, k, omega arith)
  Tiles-Inside (Tiles.next {s = s} a t) i h k = elim (Bool-cases (ltb i (s + self.chunk_size))) [
    | inl early ↦ inl (h, ltb→lt i (s + self.chunk_size) early, omega arith)
    | inr late ↦ inr (Tiles-Inside t i (ground arith) k)
  ]

  -- Neither empty nor over the budget.
  abbrev pub fits : ℕ × ℕ → Bool
  fits w = ltb w.0 w.1 && leb (w.1 - w.0) self.chunk_size

  Tiles-fits : {s : ℕ} {ws : List (ℕ × ℕ)} → Tiles s ws → all fits ws ≡ true
  Tiles-fits (Tiles.last a b) = ground arith
  Tiles-fits (Tiles.next {s = s} a t) =
      let step = self.advances in let rest = Tiles-fits t in ground arith

  -- The windows of n tokens, if there is one, tile them: there is one unit of fuel per window.
  pub windows-Tiles : 0 < n → Tiles 0 (windows self n n 0)
  windows-Tiles h = windows_from n 0 h (omega arith)

module _ (self : SectionAwareChunker) (text : Text) where
  abbrev tokens : List TokenSpan
  tokens = self.tokenizer.tokenize text

  -- One of the ranges has the whole token.
  abbrev pub Covered : TokenSpan → List Range → Type 0
  Covered token [] = ⊥
  Covered token (r ∷ rs) = ((r.start ≤ token.start) × (token.end ≤ r.end)) ⊎ Covered token rs

  -- Tokens come in the order of the text.
  abbrev pub Ordered : Type 0
  Ordered =
      (i j : ℕ)
      → i ≤ j
      → j < length tokens
      → ((nth tokens i).start ≤ (nth tokens j).start) × ((nth tokens i).end ≤ (nth tokens j).end)

  Inside-Covered :
      Ordered
      → (i : ℕ) → i < length tokens
      → (ws : List (ℕ × ℕ)) → Inside self (length tokens) i ws
      → Covered (nth tokens i) (map (range_of self tokens) ws)
  Inside-Covered o i h [] p = p
  Inside-Covered o i h (w ∷ ws) (inl (a, b, c)) =
      inl ((o w.0 i a h).0, (o i (w.1 - 1) (omega arith) (omega arith)).1)
  Inside-Covered o i h (w ∷ ws) (inr p) = inr (Inside-Covered o i h ws p)

  -- If the tokenizer lists tokens in the order of the text, every token of a section lies whole in
  -- one of its windows.
  pub window_ranges-Covered :
      Ordered → (i : ℕ) → i < length tokens → Covered (nth tokens i) (window_ranges self text)
  unfolding window_ranges
  window_ranges-Covered o i h =
      Inside-Covered o i h (windows self (length tokens) (length tokens) 0) (
        Tiles-Inside self (length tokens) (windows-Tiles self (length tokens) (omega arith)) i
          (omega arith) h)

  -- Of at least one token, and at most `chunk_size`.
  abbrev pub within_budget : Range → Bool
  within_budget r = ltb 0 r.token_count && leb r.token_count self.chunk_size

  map-fits :
      (ws : List (ℕ × ℕ))
      → all (fits self (length tokens)) ws ≡ true
      → all within_budget (map (range_of self tokens) ws) ≡ true
  map-fits [] h = refl
  map-fits (w ∷ ws) h = let rest = map-fits ws in ground arith

  windows-fits : (n : ℕ) → all (fits self n) (windows self n n 0) ≡ true
  unfolding windows
  windows-fits zero = refl
  windows-fits (suc n) = Tiles-fits self (suc n) (windows-Tiles self (suc n) (omega arith))

  -- Every window has at least one token, and at most `chunk_size`.
  pub window_ranges-budget : all within_budget (window_ranges self text) ≡ true
  unfolding window_ranges
  window_ranges-budget =
      map-fits (windows self (length tokens) (length tokens) 0) (windows-fits (length tokens))
