-- ===== src/PdfParser/Order.antt =====
-- Reading order only reorders.
use researchmind_mcp.Prelude.{
  ℕ, suc, ◌+◌, ◌≡◌, refl, ◌∙◌, Bool, List, [], ◌∷◌, ◌++◌, count, insert_by, order_by, Bool-cases,
  inl, inr, arith, if◌then◌else◌,
}
use researchmind_mcp.PdfParser.{
  LayoutBlock, LayoutRules, close_band, read_bands, reading_order, earlier,
}

module _ {A : Type 0} (p : A → Bool) where
  count-append : (xs ys : List A) → count p (xs ++ ys) ≡ count p xs + count p ys
  count-append [] ys = omega arith
  count-append (x ∷ xs) ys = ground (arith, count-append xs ys)

  count-insert_by :
      (before : A → A → Bool) (x : A) (xs : List A)
      → count p (insert_by before x xs) ≡ count p (x ∷ xs)
  count-insert_by before x [] = refl
  count-insert_by before x (y ∷ ys) = elim (Bool-cases (before y x)) [
    | inl later ↦
        let rest = count-insert_by before x ys in
        rw later (swap (count p (insert_by before x ys)) (count p ys) rest)
    | inr here ↦ rw here refl
  ]
    where
      swap :
          (n m : ℕ)
          → n ≡ (if p x then suc m else m)
          → (if p y then suc n else n)
            ≡ (if p x then suc (if p y then suc m else m) else (if p y then suc m else m))
      swap n m h = ground arith

  pub count-order_by :
      (before : A → A → Bool) (xs : List A) → count p (order_by before xs) ≡ count p xs
  count-order_by before [] = refl
  count-order_by before (x ∷ xs) =
      count-insert_by before x (order_by before xs) ∙ ground (arith, count-order_by before xs)

module _ (rules : LayoutRules) (p : LayoutBlock → Bool) (width : ℕ) where
  count-close_band :
      (ordered left right : List LayoutBlock)
      → count p (close_band rules ordered left right)
        ≡ count p ordered + (count p left + count p right)
  count-close_band ordered left right = omega (
    arith,
    count-append p ordered (order_by (earlier rules) left ++ order_by (earlier rules) right),
    count-append p (order_by (earlier rules) left) (order_by (earlier rules) right),
    count-order_by p (earlier rules) left,
    count-order_by p (earlier rules) right,
  )

  count-one : (xs : List LayoutBlock) (x : LayoutBlock) → count p (xs ++ x ∷ []) ≡ count p (x ∷ xs)
  count-one xs x = ground (arith, count-append p xs (x ∷ []))

  count-read_bands :
      (ordered left right blocks : List LayoutBlock)
      → count p (read_bands rules width ordered left right blocks)
        ≡ count p ordered + (count p left + (count p right + count p blocks))
  unfolding read_bands
  count-read_bands ordered left right [] = omega (arith, count-close_band ordered left right)
  count-read_bands ordered left right (block ∷ blocks) =
      elim (Bool-cases (rules.crosses width block.position)) [
        | inl across ↦ rw across (
            ground (
              arith,
              count-read_bands (close_band rules ordered left right ++ block ∷ []) [] [] blocks,
              count-one (close_band rules ordered left right) block,
              count-close_band ordered left right,
            ))
        | inr column ↦ elim (Bool-cases (rules.is_left width block.position)) [
          | inl here ↦
              rw (column, here)
                (ground (
                  arith,
                  count-read_bands ordered (left ++ block ∷ []) right blocks,
                  count-one left block,
                ))
          | inr there ↦
              rw (column, there)
                (ground (
                  arith,
                  count-read_bands ordered left (right ++ block ∷ []) blocks,
                  count-one right block,
                ))
        ]
      ]

  -- Of whatever kind, a page has as many blocks in reading order as it had: none is lost and none is read twice.
  pub count-reading_order :
      (blocks : List LayoutBlock) → count p (reading_order rules width blocks) ≡ count p blocks
  unfolding reading_order
  count-reading_order blocks = omega (
    arith,
    count-read_bands [] [] [] (order_by (earlier rules) blocks),
    count-order_by p (earlier rules) blocks,
  )
