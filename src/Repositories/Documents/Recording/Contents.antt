-- ===== src/Repositories/Documents/Recording/Contents.antt =====
-- One live document for each owner and content.
use researchmind_mcp.Prelude.{
  ℕ, ◌≡◌, refl, sym, String, Bool, true, false, Option, none, some, List, [], ◌∷◌, ◌++◌, ◌&&◌, ◌||◌,
  ◌==◌, ==_iff, not, any, map, is_none, any-append, str_eq, eq_iff, Bool-cases, inl, inr,
  if◌then◌else◌,
}
use researchmind_mcp.Database.{DocumentRow}
use researchmind_mcp.Repositories.Documents.Recording.{Upload, new_document, has_hash, live_content}

abbrev pub same_hash : ℕ → Option String → List DocumentRow → Bool
same_hash owner none rows = false
same_hash owner (some h) rows = any (live_content owner h) rows

-- A row that the partial unique index would not let stand beside this one.
abbrev pub clashes : DocumentRow → List DocumentRow → Bool
clashes row rows = is_none row.deleted_at && same_hash row.user_id row.content_hash rows

abbrev pub contents_differ : List DocumentRow → Bool
contents_differ [] = true
contents_differ (row ∷ rows) = not (clashes row rows) && contents_differ rows

and_inv : (a b : Bool) → (a && b) ≡ true → (a ≡ true) × (b ≡ true)
and_inv true b h = (refl, h)
and_inv false b h = cc

or_inv : (a b : Bool) → (a || b) ≡ false → (a ≡ false) × (b ≡ false)
or_inv true b h = cc
or_inv false b h = (refl, h)

not_inv : (b : Bool) → not b ≡ true → b ≡ false
not_inv true h = sym h
not_inv false h = refl

module _ (id owner : ℕ) (upload : Upload) (now : ℕ) where
  abbrev added : DocumentRow
  added = new_document id owner upload now

  -- The new row clashes with none that it did not clash with.
  live_new :
      (row : DocumentRow) (h : String)
      → row.content_hash ≡ some h
      → is_none row.deleted_at ≡ true
      → live_content owner upload.content_hash row ≡ false
      → live_content row.user_id h added ≡ false
  live_new row h e live differs = elim (Bool-cases (str_eq upload.content_hash h)) [
    | inr other ↦ rw other refl
    | inl same ↦ elim (Bool-cases (owner == row.user_id)) [
      | inr another ↦ rw (same, another) refl
      | inl mine ↦
          let hash_same : str_eq h upload.content_hash ≡ true =
            (eq_iff h upload.content_hash).1 (sym ((eq_iff upload.content_hash h).0 same)) in
          let user_same : row.user_id == owner ≡ true =
            (==_iff row.user_id owner).1 (sym ((==_iff owner row.user_id).0 mine)) in
          let q = rw (e, hash_same, user_same, live) at differs in cc
    ]
  ]

  clashes-append :
      (row : DocumentRow) (rows : List DocumentRow)
      → clashes row rows ≡ false
      → live_content owner upload.content_hash row ≡ false
      → clashes row (rows ++ added ∷ []) ≡ false
  clashes-append row rows h differs = elim (Bool-cases (is_none row.deleted_at)) [
    | inr dead ↦ rw dead refl
    | inl live ↦ rw live (same live row.content_hash refl (let q = rw live at h in q))
  ]
    where
      same :
          is_none row.deleted_at ≡ true
          → (o : Option String) → row.content_hash ≡ o
          → same_hash row.user_id o rows ≡ false
          → same_hash row.user_id o (rows ++ added ∷ []) ≡ false
      same live none e h = refl
      same live (some k) e h =
          rw
            (
              any-append (live_content row.user_id k) rows (added ∷ []),
              h,
              live_new row k e live differs,
            )
            refl

  pub contents_differ-append :
      (rows : List DocumentRow)
      → contents_differ rows ≡ true
      → any (live_content owner upload.content_hash) rows ≡ false
      → contents_differ (rows ++ added ∷ []) ≡ true
  contents_differ-append [] h k = refl
  contents_differ-append (row ∷ rows) h k =
      let (here, rest) = and_inv (not (clashes row rows)) (contents_differ rows) h in
      let (mine, others) = or_inv (live_content owner upload.content_hash row) _ k in
      rw
        (
          clashes-append row rows (not_inv (clashes row rows) here) mine,
          contents_differ-append rows rest others,
        )
        refl

-- Deleting rows leaves no clash that was not there.
module _ (p : DocumentRow → Bool) (now : ℕ) where
  abbrev pub deleted : DocumentRow → DocumentRow
  deleted row = if p row then record row { deleted_at = some now } else row

  live-deleted :
      (owner : ℕ) (h : String) (rows : List DocumentRow)
      → any (live_content owner h) rows ≡ false
      → any (live_content owner h) (map deleted rows) ≡ false
  live-deleted owner h [] k = refl
  live-deleted owner h (row ∷ rows) k =
      let (here, rest) = or_inv (live_content owner h row) _ k in
      elim (Bool-cases (p row)) [
        | inl gone ↦
            rw (gone, live-deleted owner h rows rest)
              (dead (has_hash h row.content_hash) (row.user_id == owner))
        | inr stays ↦ rw (stays, here, live-deleted owner h rows rest) refl
      ]
    where
      dead : (a b : Bool) → (((a && b) && false) || false) ≡ false
      dead true true = refl
      dead true false = refl
      dead false true = refl
      dead false false = refl

  clashes-deleted :
      (row : DocumentRow) (rows : List DocumentRow)
      → clashes row rows ≡ false
      → clashes (deleted row) (map deleted rows) ≡ false
  clashes-deleted row rows h = elim (Bool-cases (p row)) [
    | inl gone ↦ rw gone refl
    | inr stays ↦ elim (Bool-cases (is_none row.deleted_at)) [
      | inr dead ↦ rw (stays, dead) refl
      | inl live ↦ rw (stays, live) (same row.content_hash (let q = rw live at h in q))
    ]
  ]
    where
      same :
          (o : Option String)
          → same_hash row.user_id o rows ≡ false
          → same_hash row.user_id o (map deleted rows) ≡ false
      same none k = refl
      same (some hash) k = live-deleted row.user_id hash rows k

  pub contents_differ-deleted :
      (rows : List DocumentRow)
      → contents_differ rows ≡ true
      → contents_differ (map deleted rows) ≡ true
  contents_differ-deleted [] h = refl
  contents_differ-deleted (row ∷ rows) h =
      let (here, rest) = and_inv (not (clashes row rows)) (contents_differ rows) h in
      rw
        (
          clashes-deleted row rows (not_inv (clashes row rows) here),
          contents_differ-deleted rows rest,
        )
        refl
