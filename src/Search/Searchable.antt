-- ===== src/Search/Searchable.antt =====
-- What makes a chunk retrievable, spelled out.
use researchmind_mcp.Prelude.{
  ℕ, ◌≡◌, refl, ap, String, Bool, true, false, ◌&&◌, Option, none, some, List, [], ◌∷◌, any,
  is_none, option_eq, str_eq, eq_iff, ◌==◌, ==_iff, Member, Bool-cases, inl, inr,
}
use researchmind_mcp.Models.{DocumentStatus, status_eq→≡}
use researchmind_mcp.Database.{ChunkRow, DocumentRow, Db}
use researchmind_mcp.Repositories.Chunks.Retrieval.{searchable, retrievable}

-- The chunk's document is there, the owner's, not deleted and ready, and this model embedded the chunk.
pub record Searchable (owner : ℕ) (model_id : String) (dimension : ℕ) (d : Db) (row : ChunkRow)
    : Type 0 where
  pub document : DocumentRow
  pub stands : Member document d.documents
  pub is_its : document.id ≡ row.document_id
  pub is_owned : document.user_id ≡ owner
  pub is_live : document.deleted_at ≡ none
  pub is_ready : document.status ≡ DocumentStatus.ready
  pub same_model : row.embedding_model_id ≡ some model_id
  pub has_dimension : row.dimension ≡ some dimension

and_inv : (a b : Bool) → (a && b) ≡ true → (a ≡ true) × (b ≡ true)
and_inv true b h = (refl, h)
and_inv false b h = cc

any_inv :
    {A : Type 0} (p : A → Bool) (xs : List A)
    → any p xs ≡ true
    → (x : A) × Member x xs × (p x ≡ true)
any_inv p [] h = cc
any_inv p (x ∷ xs) h = elim (Bool-cases (p x)) [
  | inl here ↦ (x, inl refl, here)
  | inr there ↦ let (y, m, k) = any_inv p xs (let q = rw there at h in q) in (y, inr m, k)
]

none_inv : (o : Option ℕ) → is_none o ≡ true → o ≡ none
none_inv none h = refl
none_inv (some n) h = cc

model_inv : (o : Option String) (s : String) → option_eq str_eq o (some s) ≡ true → o ≡ some s
model_inv none s h = cc
model_inv (some a) s h = ap some ((eq_iff a s).0 h)

dimension_inv :
    (o : Option ℕ) (n : ℕ) → option_eq (λ (a b : ℕ). a == b) o (some n) ≡ true → o ≡ some n
dimension_inv none n h = cc
dimension_inv (some a) n h = ap some ((==_iff a n).0 h)

pub retrievable-Searchable :
    (owner : ℕ) (model_id : String) (dimension : ℕ) (d : Db) (row : ChunkRow)
    → retrievable owner model_id dimension d row ≡ true
    → Searchable owner model_id dimension d row
retrievable-Searchable owner model_id dimension d row h =
    let (front, dims) = and_inv _ _ h in
    let (docs, model) = and_inv _ _ front in
    let (document, stands, fits) = any_inv (searchable row.document_id owner) d.documents docs in
    let (live, ready) = and_inv _ _ fits in
    let (mine, not_deleted) = and_inv _ _ live in
    let (its, owned) = and_inv _ _ mine in
    record {
      document = document;
      stands = stands;
      is_its = (==_iff document.id row.document_id).0 its;
      is_owned = (==_iff document.user_id owner).0 owned;
      is_live = none_inv document.deleted_at not_deleted;
      is_ready = status_eq→≡ document.status DocumentStatus.ready ready;
      same_model = model_inv row.embedding_model_id model_id model;
      has_dimension = dimension_inv row.dimension dimension dims;
    }
