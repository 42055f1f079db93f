-- ===== src/Search/Sound.antt =====
-- A search, from the query to its results.
use researchmind_mcp.Prelude.{
  Member, ℕ, ◌+◌, ltb, length, ◌≡◌, refl, ◌∙◌, ap, String, Bool, true, some, List, [], ◌∷◌, select,
  is_empty, map, get_or, All, Bool-cases, inl, inr,
}
use researchmind_mcp.Models.{Text, Vector}
use researchmind_mcp.Models.User.{Principal}
use researchmind_mcp.Exec.{
  Exc, Result, err, cancelled, database, invalid_query, search_unavailable, other,
}
use researchmind_mcp.Exec.Keeps.{
  Triple, Triple-bind, Triple-handle, Triple-pure, Triple-lift, Triple-raise, Triple-given,
  Triple-if, Triple_mono,
}
use researchmind_mcp.Runtime.{Runtime, reply}
use researchmind_mcp.Database.{ChunkRow, Db}
use researchmind_mcp.Database.Session.Rules.{Holds, Stable}
use researchmind_mcp.Database.Session.Reading.{Lost}
use researchmind_mcp.Database.Session.Closing.{call_replied, finally_rollback}
use researchmind_mcp.Repositories.{parse_id}
use researchmind_mcp.Repositories.Chunks.Retrieval.{Validated, validated_chunk}
use researchmind_mcp.Vectors.{VectorMatch}
use researchmind_mcp.Search.{
  special_tokens_per_sequence, RetrievalQuery, RetrievalResult, SearchService, Ranked, set_defaults,
  results_of, as_unavailable, nonzero_or, ids_of, acceptable, validated_results, search,
}
use researchmind_mcp.Search.Searchable.{Searchable, retrievable-Searchable}
use researchmind_mcp.Search.Valid.{FromRow, live, Fits, validate_for_retrieval-Fits}
use researchmind_mcp.Search.Results.{
  ids_differ, ids_differ-set_defaults, ids_differ-select, results_of-order, results_of-FromRow,
  Member-ids_of, key,
}

module _ (rt : Runtime) (self : SearchService) (owner : ℕ) where
  -- The result is a searchable chunk's row.
  abbrev pub Confirmed : Db → RetrievalResult → Type 0
  Confirmed d r =
      (row : ChunkRow) × Member row d.chunks
      × Searchable owner self.model_id self.dimension d row
      × (r.chunk ≡ validated_chunk rt self.model_id row)

  confirmed :
      (d : Db) (results : List RetrievalResult)
      → All
          (λ (r : RetrievalResult). FromRow rt owner self.model_id self.dimension d r.chunk)
          results
      → All (Confirmed d) results
  confirmed d [] h = tt
  confirmed d (r ∷ results) ((row, m, live_row, same), rest) = (
    (row, m, retrievable-Searchable owner self.model_id self.dimension d row live_row, same),
    confirmed d results rest,
  )

  -- From these candidates: exactly those whose id is a retrievable chunk's, in the order and with the score of the first occurrence, none twice, each with that chunk's row.
  pub record Retrieved (candidates : List VectorMatch) (d : Db) (results : List RetrievalResult)
      : Type 0 where
    pub exact :
        map key results
        ≡ select
            (λ (r : String × ℕ). live rt owner self.model_id self.dimension d r.0)
            (set_defaults [] candidates)
    pub differ : ids_differ (map key results) ≡ true
    pub rows : All (Confirmed d) results

  -- All that a search raises.
  abbrev pub Unsearched : Exc → Type 0
  Unsearched invalid_query = Unit {0}
  Unsearched search_unavailable = Unit {0}
  Unsearched database = Unit {0}
  Unsearched cancelled = Unit {0}
  Unsearched other = Unit {0}
  Unsearched _ = ⊥

  -- The rollback of a `finally` raises past the `except`.
  lost_or : (e : Exc) → Lost e → Unsearched e
  lost_or database h = tt
  lost_or cancelled h = tt
  lost_or _ h = elim h [ ]

  unavailable : (e : Exc) → Lost e → Unsearched (as_unavailable e)
  unavailable database h = tt
  unavailable cancelled h = tt
  unavailable _ h = elim h [ ]

  retrieved :
      (candidates : List VectorMatch) (d : Db) (validated : Validated)
      → Fits rt owner self.model_id self.dimension d (ids_of (set_defaults [] candidates)) validated
      → Retrieved candidates d (results_of validated (set_defaults [] candidates))
  retrieved candidates d validated fits =
      let ranked = set_defaults [] candidates in
      let exact =
        results_of-order rt owner self.model_id self.dimension d (ids_of ranked) validated fits
          ranked (Member-ids_of ranked) in
      record {
        exact = exact;
        differ =
            ap ids_differ exact
            ∙ ids_differ-select _ ranked (ids_differ-set_defaults [] candidates refl);
        rows = confirmed d _ (
            results_of-FromRow rt owner self.model_id self.dimension d (ids_of ranked) validated
              fits ranked);
      }

  none_ranked :
      (ranked : Ranked) (p : String × ℕ → Bool) → is_empty ranked ≡ true → [] ≡ select p ranked
  none_ranked [] p h = refl
  none_ranked (r ∷ ranked) p h = cc

  module _ (I : Db → Type 0) (stable : Stable rt I) (principal : Principal)
      (is_owner : parse_id rt principal.user_id ≡ some owner) where
    validated_results-Retrieved :
        (candidates : List VectorMatch)
        → Triple
            (Holds I)
            (validated_results rt self principal (set_defaults [] candidates))
            (λ results w. Retrieved candidates w.db results × Holds I w)
            (λ e w. Unsearched e × Holds I w)
    unfolding validated_results
    validated_results-Retrieved candidates =
        let ids = ids_of (set_defaults [] candidates) in
        Triple-bind
          (finally_rollback rt I (λ v d. Fits rt owner self.model_id self.dimension d ids v)
            Unsearched lost_or
            (Triple-handle
              (validate_for_retrieval-Fits rt I stable owner principal.user_id is_owner
                self.model_id self.dimension ids)
              (λ e. Triple-raise (as_unavailable e) (λ w h. (unavailable e h.0, h.1)))
              (λ v. Triple-pure v (λ w h. h))))
          (λ e w h. h) (λ v. Triple-pure _ (λ w h. (retrieved candidates w.db v h.0, h.1)))

    refused : (text : Text) (e : Exc) → acceptable rt self text ≡ err e → Unsearched e
    unfolding acceptable
    refused text e h = elim (Bool-cases (is_empty (self.normalised text))) [
      | inl empty ↦ invalid e (rw empty at h)
      | inr some_text ↦
          elim (Bool-cases (ltb self.max_query_chars (length (self.normalised text)))) [
            | inl long ↦ invalid e (rw (some_text, long) at h)
            | inr fits ↦
                elim (Bool-cases (
                  ltb self.max_input_tokens
                    (self.count (self.normalised text) + special_tokens_per_sequence))) [
                      | inl over ↦ invalid e (rw (some_text, fits, over) at h)
                      | inr within ↦ let absurd = rw (some_text, fits, within) at h in cc
                    ]
          ]
    ]
      where
        invalid : (e : Exc) → ◌≡◌ {A = Result Text} (err invalid_query) (err e) → Unsearched e
        invalid e h = let same : invalid_query ≡ e = cc in rw (← same) tt

    -- Whatever the embedding provider and the vector store reply, a search returns exactly those of the candidates whose id is that of a chunk embedded by this model, of a live and ready document of the principal, in the candidates' order, none twice, and with the chunk's own row; and every failure raises, never an empty result.
    pub search-Retrieved :
        (query : RetrievalQuery)
        → Triple
            (Holds I)
            (search rt self query principal)
            (λ results w.
              ((t : ℕ) × (vector : Vector) × (candidates : List VectorMatch) × (self.vector_search t
                    vector principal.user_id
                    (nonzero_or self.default_top_k query.top_k)
                    (get_or self.default_threshold query.score_threshold)
                    query.document_ids
                  ≡ reply candidates)
                × Retrieved candidates w.db results)
              × Holds I w)
            (λ e w. Unsearched e × Holds I w)
    unfolding search
    search-Retrieved query =
        Triple-bind
          (Triple-lift {P = Holds I} (acceptable rt self query.text) (λ text e w h. h)
            (λ e p w h. (refused query.text e p, h)))
          (λ e w h. h)
          (λ text.
            Triple-bind
              (Triple_mono (λ w h. h) (λ a w h. h.1) (λ e w h. h)
                (call_replied rt I (λ _. search_unavailable) (λ t. self.embed_query t text)
                  Unsearched (λ _. tt) tt tt))
              (λ e w h. h)
              (λ vector.
                Triple-bind
                  (call_replied rt I (λ _. search_unavailable) _ Unsearched (λ _. tt) tt tt)
                  (λ e w h. h)
                  (λ candidates. Triple-given (λ (t, replied).
                    Triple-if (is_empty (set_defaults [] candidates)) _ _
                      (λ nothing. Triple-pure [] (λ w h. (
                        (
                          t,
                          vector,
                          candidates,
                          replied,
                          record {
                            exact = none_ranked (set_defaults [] candidates) _ nothing;
                            differ = refl;
                            rows = tt;
                          },
                        ),
                        h,
                      )))
                      (λ _.
                        Triple_mono (λ w h. h)
                          (λ results w h. ((t, vector, candidates, replied, h.0), h.1)) (λ e w h. h)
                          (validated_results-Retrieved candidates))))))
