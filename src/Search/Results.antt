-- ===== src/Search/Results.antt =====
-- What a search returns: the candidates that PostgreSQL confirms, in their order.
use researchmind_mcp.Prelude.{
  ℕ, ◌≡◌, refl, ◌∙◌, sym, ap, String, Bool, true, false, not, ◌&&◌, Option, none, some, List, [],
  ◌∷◌, ◌++◌, select, any-append, is_some, map, str_eq, eq_iff, Member, All, Bool-cases, inl, inr,
  arith,
}
use researchmind_mcp.Runtime.{Runtime}
use researchmind_mcp.Database.{Db}
use researchmind_mcp.Repositories.Chunks.Retrieval.{ValidatedChunk, Validated}
use researchmind_mcp.Vectors.{VectorMatch}
use researchmind_mcp.Search.{
  RetrievalResult, Ranked, has_key, set_defaults, look_up, result_of, results_of, ids_of,
}
use researchmind_mcp.Search.Valid.{FromRow, live, Fits, look_up-Entry}

-- No id comes twice.
abbrev pub ids_differ : Ranked → Bool
ids_differ [] = true
ids_differ (r ∷ ranked) = not (has_key r.0 ranked) && ids_differ ranked

ids_differ-append :
    (ranked : Ranked) (id : String) (score : ℕ)
    → ids_differ ranked ≡ true
    → has_key id ranked ≡ false
    → ids_differ (ranked ++ (id, score) ∷ []) ≡ true
ids_differ-append [] id score h k = refl
ids_differ-append (r ∷ ranked) id score h k = ground (
  arith,
  any-append (λ (x : String × ℕ). str_eq x.0 r.0) ranked ((id, score) ∷ []),
  eq_iff r.0 id,
  eq_iff id r.0,
  ids_differ-append ranked id score,
)

pub ids_differ-set_defaults :
    (ranked : Ranked) (candidates : List VectorMatch)
    → ids_differ ranked ≡ true
    → ids_differ (set_defaults ranked candidates) ≡ true
unfolding set_defaults
ids_differ-set_defaults ranked [] h = h
ids_differ-set_defaults ranked (c ∷ candidates) h = elim (Bool-cases (has_key c.id ranked)) [
  | inl known ↦ rw known (ids_differ-set_defaults ranked candidates h)
  | inr fresh ↦ rw fresh (
      ids_differ-set_defaults (ranked ++ (c.id, c.score) ∷ []) candidates
        (ids_differ-append ranked c.id c.score h fresh))
]

has_key-select :
    (p : String × ℕ → Bool) (id : String) (ranked : Ranked)
    → has_key id ranked ≡ false
    → has_key id (select p ranked) ≡ false
has_key-select p id [] h = refl
has_key-select p id (r ∷ ranked) h = ground (arith, has_key-select p id ranked)

pub ids_differ-select :
    (p : String × ℕ → Bool) (ranked : Ranked)
    → ids_differ ranked ≡ true
    → ids_differ (select p ranked) ≡ true
ids_differ-select p [] h = refl
ids_differ-select p (r ∷ ranked) h =
    ground (arith, has_key-select p r.0 ranked, ids_differ-select p ranked)

abbrev pub key : RetrievalResult → String × ℕ
key r = (r.chunk.chunk_id, r.score)

module _ (rt : Runtime) (owner : ℕ) (model_id : String) (dimension : ℕ) (d : Db) (ids : List String)
    (validated : Validated) (fits : Fits rt owner model_id dimension d ids validated) where
  abbrev pub is_live : String × ℕ → Bool
  is_live r = live rt owner model_id dimension d r.0

  pub results_of-order :
      (ranked : Ranked)
      → ((r : String × ℕ) → Member r ranked → Member r.0 ids)
      → map key (results_of validated ranked) ≡ select is_live ranked
  unfolding results_of
  results_of-order [] among = refl
  results_of-order ((id, score) ∷ ranked) among =
      here (look_up id validated) refl (results_of-order ranked (λ r m. among r (inr m)))
    where
      here :
          (o : Option ValidatedChunk)
          → look_up id validated ≡ o
          → map key (results_of validated ranked) ≡ select is_live ranked
          → map key (result_of o score (results_of validated ranked))
            ≡ select is_live ((id, score) ∷ ranked)
      here none e rest =
          let dead : live rt owner model_id dimension d id ≡ false =
            sym (fits.exact id (among (id, score) (inl refl))) ∙ ap is_some e in
          rw (dead, rest) refl
      here (some v) e rest =
          let alive : live rt owner model_id dimension d id ≡ true =
            sym (fits.exact id (among (id, score) (inl refl))) ∙ ap is_some e in
          let (same, from) =
            look_up-Entry rt owner model_id dimension d validated id v fits.entries e in
          rw (alive, same, rest) refl

  pub results_of-FromRow :
      (ranked : Ranked)
      → All
          (λ (r : RetrievalResult). FromRow rt owner model_id dimension d r.chunk)
          (results_of validated ranked)
  unfolding results_of
  results_of-FromRow [] = tt
  results_of-FromRow ((id, score) ∷ ranked) =
      here (look_up id validated) refl (results_of-FromRow ranked)
    where
      here :
          (o : Option ValidatedChunk)
          → look_up id validated ≡ o
          → All
              (λ (r : RetrievalResult). FromRow rt owner model_id dimension d r.chunk)
              (results_of validated ranked)
          → All
              (λ (r : RetrievalResult). FromRow rt owner model_id dimension d r.chunk)
              (result_of o score (results_of validated ranked))
      here none e rest = rest
      here (some v) e rest =
          ((look_up-Entry rt owner model_id dimension d validated id v fits.entries e).1, rest)

pub Member-ids_of :
    (ranked : Ranked) (r : String × ℕ) → Member r ranked → Member r.0 (ids_of ranked)
Member-ids_of [] r m = elim m [ ]
Member-ids_of (x ∷ ranked) r (inl same) = inl (ap (λ (y : String × ℕ). y.0) same)
Member-ids_of (x ∷ ranked) r (inr m) = inr (Member-ids_of ranked r m)
