-- ===== src/Search.antt =====
-- backend/services/search_service.py. A float is its bit pattern.
pub mod Searchable
pub mod Valid
pub mod Results
pub mod Sound
use researchmind_mcp.Prelude.{
  ℕ, zero, ◌+◌, String, Bool, true, false, Option, none, some, List, [], ◌∷◌, ◌++◌, any, find,
  is_empty, length, get_or, ltb, map, map_option, str_eq, if◌then◌else◌,
}
use researchmind_mcp.Models.{Text, Vector}
use researchmind_mcp.Models.User.{Principal}
use researchmind_mcp.Exec.{
  Exc, Result, ok, err, pure, raise, lift, handle, finally, ◌>>=◌, cancelled, invalid_query,
  search_unavailable,
}
use researchmind_mcp.Runtime.{Runtime, Reply}
use researchmind_mcp.Database.Session.{M, call, rollback}
use researchmind_mcp.Repositories.Chunks.Retrieval.{
  ValidatedChunk, Validated, validate_for_retrieval,
}
use researchmind_mcp.Vectors.{VectorMatch}

-- `RetrievalQuery` and `RetrievalResult` (shared/models/retrieval.py)
pub record RetrievalQuery : Type 0 where
  pub text : Text
  pub top_k : Option ℕ
  pub score_threshold : Option ℕ
  pub document_ids : Option (List String)

pub record RetrievalResult : Type 0 where
  pub chunk : ValidatedChunk
  pub score : ℕ

-- `SearchService`, with what its embedding provider and vector store reply, whatever it is.
pub record SearchService : Type 0 where
  -- unicodedata.normalize("NFC", raw).strip()
  pub normalised : Text → Text
  -- the provider's tokenizer.count
  pub count : Text → ℕ
  pub embed_query : ℕ → Text → Reply (Unit {0}) Vector
  pub model_id : String
  pub dimension : ℕ
  pub max_input_tokens : ℕ
  -- vector, owner_id, limit, score_threshold, document_ids
  pub vector_search :
      ℕ → Vector → String → ℕ → ℕ → Option (List String) → Reply (Unit {0}) (List VectorMatch)
  pub default_top_k : ℕ
  pub default_threshold : ℕ
  pub max_query_chars : ℕ

abbrev pub special_tokens_per_sequence : ℕ
special_tokens_per_sequence = 2

-- `ranked.setdefault(candidate.id, candidate.score)`, for each candidate, after these.
abbrev pub Ranked : Type 0
Ranked = List (String × ℕ)

abbrev pub has_key : String → Ranked → Bool
has_key id ranked = any (λ (r : String × ℕ). str_eq r.0 id) ranked

unfoldable pub set_defaults : Ranked → List VectorMatch → Ranked
set_defaults ranked [] = ranked
set_defaults ranked (c ∷ candidates) =
    set_defaults (if has_key c.id ranked then ranked else ranked ++ (c.id, c.score) ∷ []) candidates

abbrev pub look_up : String → Validated → Option ValidatedChunk
look_up id validated =
    map_option (λ (e : String × ValidatedChunk). e.1)
      (find (λ (e : String × ValidatedChunk). str_eq e.0 id) validated)

abbrev pub result_of : Option ValidatedChunk → ℕ → List RetrievalResult → List RetrievalResult
result_of none score rest = rest
result_of (some chunk) score rest = record { chunk = chunk; score = score } ∷ rest

-- The candidates that are in `validated`, in the order of the candidates.
unfoldable pub results_of : Validated → Ranked → List RetrievalResult
results_of validated [] = []
results_of validated ((id, score) ∷ ranked) =
    result_of (look_up id validated) score (results_of validated ranked)

-- except Exception: raise SearchUnavailable
abbrev pub as_unavailable : Exc → Exc
as_unavailable cancelled = cancelled
as_unavailable _ = search_unavailable

-- `query.top_k or self._top_k`
abbrev pub nonzero_or : ℕ → Option ℕ → ℕ
nonzero_or default none = default
nonzero_or default (some zero) = default
nonzero_or default (some n) = n

abbrev pub ids_of : Ranked → List String
ids_of ranked = map (λ (r : String × ℕ). r.0) ranked

module _ (rt : Runtime) (self : SearchService) where
  -- `_acceptable`
  unfoldable pub acceptable : Text → Result Text
  acceptable raw =
      let text = self.normalised raw in
      if is_empty text
      then err invalid_query
      else if ltb self.max_query_chars (length text)
      then err invalid_query
      else if ltb self.max_input_tokens (self.count text + special_tokens_per_sequence)
      then err invalid_query
      else ok text

  unfoldable pub validated_results : Principal → Ranked → M (List RetrievalResult)
  validated_results principal ranked =
      finally
        (handle
          (validate_for_retrieval rt (ids_of ranked) principal.user_id self.model_id self.dimension)
          (λ e. raise (as_unavailable e)) pure)
        (rollback rt)
      >>= λ validated. pure (results_of validated ranked)

  unfoldable pub search : RetrievalQuery → Principal → M (List RetrievalResult)
  search query principal = do
    text ← lift (acceptable query.text)
    vector ← call (λ _. search_unavailable) (λ t. self.embed_query t text)
    candidates ←
        call (λ _. search_unavailable)
          (λ t.
            self.vector_search t vector principal.user_id
              (nonzero_or self.default_top_k query.top_k)
              (get_or self.default_threshold query.score_threshold) query.document_ids)
    let ranked = set_defaults [] candidates
    if is_empty ranked then pure [] else validated_results principal ranked
