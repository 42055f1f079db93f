-- ===== src/Vectors.antt =====
-- vector_db/qdrant/repository.py, and the payloads of shared/interfaces/vector_store.py. A float
-- is its bit pattern.
pub mod Payload
pub mod Owners
use researchmind_mcp.Prelude.{
  ℕ, zero, suc, String, Bool, true, false, not, Option, none, some, List, [], ◌∷◌, map, is_empty,
  length, get_or, str_eq, ltb, ◌==◌, if◌then◌else◌,
}
use researchmind_mcp.Models.{Vector, VectorPayload, VectorRecord}
use researchmind_mcp.Exec.{
  Exc, Result, ok, err, pure, raise, lift, handle, ◌>>=◌, ◌>>◌, cancelled, vector_store,
}
use researchmind_mcp.Runtime.{Reply}
use researchmind_mcp.Database.Session.{M, call}
use researchmind_mcp.Vectors.Payload.{Mapping, as_mapping, from_mapping}

-- `FieldCondition(key, MatchValue(value))` and `FieldCondition(key, MatchAny(any))`
pub data Condition : Type 0 where
  match_value : String → String → Condition
  match_any : String → List String → Condition

-- `models.Filter(must=conditions)`
abbrev pub Filter : Type 0
Filter = List Condition

pub record PointStruct : Type 0 where
  pub id : String
  pub vector : Vector
  pub payload : Mapping

pub record ScoredPoint : Type 0 where
  pub id : String
  pub score : ℕ
  pub payload : Option Mapping

pub record VectorMatch : Type 0 where
  pub id : String
  pub score : ℕ
  pub payload : VectorPayload

-- `AsyncQdrantClient`, for the one collection. A collection that does not hold a single unnamed
-- vector has no size.
pub record QdrantClient : Type 0 where
  pub collection_exists : ℕ → Reply (Unit {0}) Bool
  pub get_collection : ℕ → Reply (Unit {0}) (Option ℕ)
  pub create_collection : ℕ → ℕ → Reply (Unit {0}) (Unit {0})
  pub create_payload_index : ℕ → String → Reply (Unit {0}) (Unit {0})
  pub upsert : ℕ → List PointStruct → Reply (Unit {0}) (Unit {0})
  pub query_points : ℕ → Vector → Filter → ℕ → ℕ → Reply (Unit {0}) (List ScoredPoint)
  pub count : ℕ → Filter → Reply (Unit {0}) ℕ
  pub delete : ℕ → Filter → Reply (Unit {0}) (Unit {0})

-- `_owned_by`, or None for the VectorStoreError.
unfoldable pub owned_by : String → Option (List String) → Option Filter
owned_by owner_id none =
    if str_eq owner_id "" then none else some (match_value "user_id" owner_id ∷ [])
owned_by owner_id (some document_ids) =
    if str_eq owner_id ""
    then none
    else some (match_value "user_id" owner_id ∷ match_any "document_id" document_ids ∷ [])

-- except Exception: raise VectorStoreError
abbrev pub as_store_error : Exc → Exc
as_store_error cancelled = cancelled
as_store_error _ = vector_store

module _ {A : Type 0} where
  unfoldable pub ask : (ℕ → Reply (Unit {0}) A) → M A
  ask question = handle (call (λ _. vector_store) question) (λ e. raise (as_store_error e)) pure

  -- A call whose filter is built inside the `try`.
  abbrev pub filtered : Option Filter → (Filter → M A) → M A
  filtered none k = raise vector_store
  filtered (some filter) k = k filter

-- A point that the store returned: its payload's shape and owner are checked.
abbrev pub owned_match : String → ScoredPoint → Option VectorPayload → Option VectorMatch
owned_match owner_id point none = none
owned_match owner_id point (some payload) =
    if str_eq payload.user_id owner_id
    then some (record { id = point.id; score = point.score; payload = payload })
    else none

abbrev pub prepend : Option VectorMatch → Option (List VectorMatch) → Option (List VectorMatch)
prepend (some m) (some ms) = some (m ∷ ms)
prepend _ _ = none

abbrev pub match_of : String → ScoredPoint → Option VectorMatch
match_of owner_id point = owned_match owner_id point (from_mapping (get_or [] point.payload))

-- The matches, or None where a point is refused.
unfoldable pub matches_of : String → List ScoredPoint → Option (List VectorMatch)
matches_of owner_id [] = some []
matches_of owner_id (point ∷ points) =
    prepend (match_of owner_id point) (matches_of owner_id points)

abbrev pub accepted : {A : Type 0} → Option A → Result A
accepted none = err vector_store
accepted (some a) = ok a

module _ (client : QdrantClient) where
  abbrev pub point_of : VectorRecord → PointStruct
  point_of r = record { id = r.id; vector = r.vector; payload = as_mapping r.payload }

  unfoldable pub upsert : List VectorRecord → M (Unit {0})
  upsert records =
      if is_empty records then pure tt else ask (λ t. client.upsert t (map point_of records))

  unfoldable pub search : Vector → String → ℕ → ℕ → Option (List String) → M (List VectorMatch)
  search query_vector owner_id zero score_threshold document_ids = raise vector_store
  search query_vector owner_id (suc limit) score_threshold document_ids =
      filtered (owned_by owner_id document_ids)
        (λ filter. ask (λ t. client.query_points t query_vector filter (suc limit) score_threshold))
      >>= λ points. lift (accepted (matches_of owner_id points))

  unfoldable pub count_for_document : String → String → M ℕ
  count_for_document document_id owner_id =
      filtered (owned_by owner_id (some (document_id ∷ [])))
        (λ filter. ask (λ t. client.count t filter))

  unfoldable pub delete_document : String → String → M (Unit {0})
  delete_document document_id owner_id =
      filtered (owned_by owner_id (some (document_id ∷ [])))
        (λ filter. ask (λ t. client.delete t filter))

  abbrev pub same_dimension : ℕ → Option ℕ → M (Unit {0})
  same_dimension dimension none = raise vector_store
  same_dimension dimension (some existing) =
      if existing == dimension then pure tt else raise vector_store

  abbrev pub create_indexes : M (Unit {0})
  create_indexes =
      ask (λ t. client.create_payload_index t "user_id")
      >> ask (λ t. client.create_payload_index t "document_id")

  -- A collection that exists is checked, and its indexes are left as they are.
  unfoldable pub ensure_collection : ℕ → M (Unit {0})
  ensure_collection zero = raise vector_store
  ensure_collection (suc n) = ask client.collection_exists >>= λ exists.
      if exists
      then ask client.get_collection >>= same_dimension (suc n)
      else ask (λ t. client.create_collection t (suc n)) >> create_indexes
