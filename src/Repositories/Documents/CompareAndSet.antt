-- ===== src/Repositories/Documents/CompareAndSet.antt =====
-- The conditional UPDATE of `transition_status_for_user`: what it writes, and that it changes
-- nothing where it matches nothing.
use researchmind_mcp.Prelude.{
  ℕ, ◌≡◌, refl, ap, ◌∙◌, Bool, true, false, Option, none, some, List, [], ◌∷◌, inl, inr, arith, ltb,
  length, select, any, all, map, map_option, get_or, Bool-cases, if◌then◌else◌,
}
use researchmind_mcp.Models.{DocumentStatus}
use researchmind_mcp.Models.Reason.{IngestionReason}
use researchmind_mcp.Database.{DocumentRow, Db, update_documents, check_document}
use researchmind_mcp.Database.Session.{Ran, Writes}
use researchmind_mcp.Repositories.Documents.{stands_at, moved_to, update_status}

-- Rows that the test does not match stay.
map_unmatched :
    (p : DocumentRow → Bool) (f : DocumentRow → DocumentRow) (rows : List DocumentRow)
    → any p rows ≡ false
    → map (λ row. if p row then f row else row) rows ≡ rows
map_unmatched p f [] h = refl
map_unmatched p f (row ∷ rows) h = ground (arith, map_unmatched p f rows)

unmatched :
    (p : DocumentRow → Bool) (rows : List DocumentRow)
    → ltb 0 (length (select p rows)) ≡ false
    → any p rows ≡ false
unmatched p [] h = refl
unmatched p (row ∷ rows) h = ground (arith, unmatched p rows)

matched :
    (p : DocumentRow → Bool) (rows : List DocumentRow)
    → ltb 0 (length (select p rows)) ≡ true
    → any p rows ≡ true
matched p [] h = ground arith
matched p (row ∷ rows) h = ground (arith, matched p rows)

counted_inv :
    (ok : Bool) (n : ℕ) (w : Db) (b : Bool) (r : Option Db)
    → map_option {B = Bool × Option Db}
        (λ (x : ℕ × Db). (ltb 0 x.0, some x.1))
        (if ok then some (n, w) else none)
      ≡ some (b, r)
    → (ltb 0 n ≡ b) × (r ≡ some w)
counted_inv true n w b r h = (cc, cc)
counted_inv false n w b r h = cc

module _ (target owner : ℕ) (expected new : DocumentStatus) (reason : Option IngestionReason)
    (count : Option ℕ) where
  abbrev matches : DocumentRow → Bool
  matches = stands_at target owner expected

  pub update_status-Writes : Writes (update_status target owner expected new reason count)
  unfolding update_status update_documents
  update_status-Writes now d =
      elim (Bool-cases (
        all (λ row. check_document (moved_to new reason count now row))
          (select matches d.documents))) [
            | inl ok ↦ rw ok (inr (_, _, refl))
            | inr bad ↦ rw bad (inl refl)
          ]

  -- A compare-and-set that matched no row left the tables as they were.
  pub update_status_missed :
      {d d' : Db}
      → Ran (update_status target owner expected new reason count) d false d'
      → (d' ≡ d) × (any matches d.documents ≡ false)
  unfolding update_status update_documents
  update_status_missed {d} {d'} (now, r, e, e') =
      let (m, er) = counted_inv _ _ _ false r e in
      let none_matched : any matches d.documents ≡ false = unmatched matches d.documents m in
      (
        e'
            ∙ ap (get_or d) er
            ∙ ap (λ (rows : List DocumentRow). record d { documents = rows })
                (map_unmatched matches (moved_to new reason count now) d.documents none_matched),
        none_matched,
      )

  -- What the rows become.
  abbrev pub moved_rows : ℕ → List DocumentRow → List DocumentRow
  moved_rows now = map (λ row. if matches row then moved_to new reason count now row else row)

  -- One that matched wrote exactly the rows that stood at `expected`.
  pub update_status_moved :
      {d d' : Db}
      → Ran (update_status target owner expected new reason count) d true d'
      → (now : ℕ) × (d' ≡ record d { documents = moved_rows now d.documents })
        × (any matches d.documents ≡ true)
  unfolding update_status update_documents
  update_status_moved {d} {d'} (now, r, e, e') =
      let (m, er) = counted_inv _ _ _ true r e in
      (now, e' ∙ ap (get_or d) er, matched matches d.documents m)

-- Rows that pass a check pass it after an update that the check let through.
pub all-updated :
    {A : Type 0} (p c : A → Bool) (f : A → A) (xs : List A)
    → all (λ x. c (f x)) (select p xs) ≡ true
    → all c xs ≡ true
    → all c (map (λ x. if p x then f x else x) xs) ≡ true
all-updated p c f [] h k = refl
all-updated p c f (x ∷ xs) h k = ground (arith, all-updated p c f xs)
