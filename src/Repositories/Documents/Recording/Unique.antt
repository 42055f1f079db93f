-- ===== src/Repositories/Documents/Recording/Unique.antt =====
-- The statements on documents keep one live document for each owner and content.
use researchmind_mcp.Prelude.{
  ℕ, ◌≡◌, refl, ◌∙◌, ap, Bool, true, some, [], ◌∷◌, ◌++◌, any, all, map, select, length, ltb,
  Bool-cases, inl, inr,
}
use researchmind_mcp.Runtime.{Runtime}
use researchmind_mcp.Database.{DocumentRow, Db, check_document, update_documents}
use researchmind_mcp.Database.Session.{Ran, Writes}
use researchmind_mcp.Database.Session.Reading.{wrote_inv}
use researchmind_mcp.Repositories.{owned_live}
use researchmind_mcp.Repositories.Documents.{stamp_deleted}
use researchmind_mcp.Repositories.Documents.Recording.{
  Upload, new_document, live_content, has_user, admissible, insert_document,
}
use researchmind_mcp.Repositories.Documents.Recording.Contents.{
  contents_differ, contents_differ-append, contents_differ-deleted, deleted,
}

-- No two live documents of one owner have the same content.
abbrev pub Unique : Db → Type 0
Unique d = contents_differ d.documents ≡ true

module _ (id owner : ℕ) (upload : Upload) where
  pub insert_document-Writes : Writes (insert_document id owner upload)
  unfolding insert_document
  insert_document-Writes now d = elim (Bool-cases (admissible id owner upload now d)) [
    | inr bad ↦ inl (rw bad refl)
    | inl good ↦ elim (Bool-cases (any (live_content owner upload.content_hash) d.documents)) [
      | inl taken ↦ inl (rw (good, taken) refl)
      | inr fresh ↦ elim (Bool-cases (has_user owner d)) [
        | inr nobody ↦ inl (rw (good, fresh, nobody) refl)
        | inl there ↦ inr (
          tt,
          record d { documents = d.documents ++ new_document id owner upload now ∷ [] },
          rw (good, fresh, there) refl,
        )
      ]
    ]
  ]

  pub insert_document-Unique :
      {d d' : Db} {u : Unit {0}}
      → Unique d
      → Ran (insert_document id owner upload) d u d'
      → Unique d'
  unfolding insert_document
  insert_document-Unique {d} {d'} {u} unique (now, r, e, e') =
      elim (Bool-cases (admissible id owner upload now d)) [
        | inr bad ↦ let absurd = rw bad at e in cc
        | inl good ↦ elim (Bool-cases (any (live_content owner upload.content_hash) d.documents)) [
          | inl taken ↦ let absurd = rw (good, taken) at e in cc
          | inr fresh ↦ elim (Bool-cases (has_user owner d)) [
            | inr nobody ↦ let absurd = rw (good, fresh, nobody) at e in cc
            | inl there ↦
                let added = record d {
                  documents = d.documents ++ new_document id owner upload now ∷ [];
                } in
                let (a, b) = wrote_inv tt u d added r (rw (good, fresh, there) at e) in
                ap (λ (x : Db). contents_differ x.documents) (e' ∙ b)
                ∙ contents_differ-append id owner upload now d.documents unique fresh
          ]
        ]
      ]

module _ (rt : Runtime) (target owner : ℕ) where
  pub stamp_deleted-Writes : Writes (stamp_deleted rt target owner)
  unfolding stamp_deleted update_documents
  stamp_deleted-Writes now d =
      elim (Bool-cases (
        all (λ (row : DocumentRow). check_document (record row { deleted_at = some now }))
          (select (owned_live target owner) d.documents))) [
            | inl fine ↦ inr (
              ltb 0 (length (select (owned_live target owner) d.documents)),
              record d { documents = map (deleted (owned_live target owner) now) d.documents },
              rw fine refl,
            )
            | inr bad ↦ inl (rw bad refl)
          ]

  pub stamp_deleted-Unique :
      {d d' : Db} {b : Bool} → Unique d → Ran (stamp_deleted rt target owner) d b d' → Unique d'
  unfolding stamp_deleted update_documents
  stamp_deleted-Unique {d} {d'} {b} unique (now, r, e, e') =
      elim (Bool-cases (
        all (λ (row : DocumentRow). check_document (record row { deleted_at = some now }))
          (select (owned_live target owner) d.documents))) [
            | inr bad ↦ let absurd = rw bad at e in cc
            | inl fine ↦
                let (x, y) = wrote_inv _ b d _ r (rw fine at e) in
                ap (λ (x : Db). contents_differ x.documents) (e' ∙ y)
                ∙ contents_differ-deleted (owned_live target owner) now d.documents unique
          ]
