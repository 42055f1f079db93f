-- ===== src/Vectors/Owners.antt =====
-- No match of another owner, whatever the vector store returns.
use researchmind_mcp.Prelude.{
  ℕ, zero, suc, ◌≡◌, refl, ◌∙◌, sym, ap, String, Bool, true, false, ◌&&◌, ◌||◌, Option, none, some,
  List, [], ◌∷◌, all, any, get_or, str_eq, eq_iff, Bool-cases, inl, inr,
}
use researchmind_mcp.Models.{Vector, VectorPayload, VectorRecord}
use researchmind_mcp.Exec.{Exc, ok, err, cancelled, vector_store, other}
use researchmind_mcp.Exec.Keeps.{
  Triple, Triple-bind, Triple-handle, Triple-pure, Triple-lift, Triple-raise, Triple_mono,
  Triple-given,
}
use researchmind_mcp.Runtime.{Runtime, Reply, reply}
use researchmind_mcp.Database.{Db}
use researchmind_mcp.Database.Session.Rules.{Holds}
use researchmind_mcp.Database.Session.Closing.{call_replied}
use researchmind_mcp.Ingestion.VectorWrites.{belongs_to}
use researchmind_mcp.Vectors.Payload.{Value, text, Mapping, get_item, as_mapping, from_mapping}
use researchmind_mcp.Vectors.{
  Condition, match_value, match_any, Filter, ScoredPoint, VectorMatch, QdrantClient, owned_by, ask,
  as_store_error, filtered, owned_match, match_of, matches_of, prepend, accepted, search,
}

-- What Qdrant documents of `must`: every condition holds of the payload.
abbrev text_in : (String → Bool) → Option Value → Bool
text_in p (some (text s)) = p s
text_in p _ = false

abbrev pub meets : Mapping → Condition → Bool
meets payload (match_value key value) = text_in (λ s. str_eq s value) (get_item payload key)
meets payload (match_any key values) = text_in (λ s. any (str_eq s) values) (get_item payload key)

abbrev pub admits : Filter → Mapping → Bool
admits filter payload = all (meets payload) filter

-- For one document, the filter admits of the payloads that are written exactly those of this owner and this document.
pub owned_by-admits :
    (owner_id document_id : String) (record_of : VectorRecord) (filter : Filter)
    → owned_by owner_id (some (document_id ∷ [])) ≡ some filter
    → admits filter (as_mapping record_of.payload) ≡ belongs_to document_id owner_id record_of
unfolding owned_by as_mapping
owned_by-admits owner_id document_id r filter h = elim (Bool-cases (str_eq owner_id "")) [
  | inl empty ↦ let absurd = rw empty at h in cc
  | inr full ↦
      let same : match_value "user_id" owner_id ∷ match_any "document_id" (document_id ∷ []) ∷ []
          ≡ filter =
        let e = rw full at h in cc in
      rw (← same)
        (one (str_eq r.payload.user_id owner_id) (str_eq r.payload.document_id document_id))
]
  where
    one : (a b : Bool) → (a && ((b || false) && true)) ≡ (a && b)
    one true true = refl
    one true false = refl
    one false b = refl

-- The match has the point's id, score and payload, and the payload is the owner's.
pub record FoundFor (owner_id : String) (point : ScoredPoint) (m : VectorMatch) : Type 0 where
  pub same_id : m.id ≡ point.id
  pub same_score : m.score ≡ point.score
  pub same_payload : from_mapping (get_or [] point.payload) ≡ some m.payload
  pub owner : m.payload.user_id ≡ owner_id

-- One for one, in order.
abbrev pub AllFound : String → List ScoredPoint → List VectorMatch → Type 0
AllFound owner_id [] [] = Unit {0}
AllFound owner_id (p ∷ ps) (m ∷ ms) = FoundFor owner_id p m × AllFound owner_id ps ms
AllFound owner_id (p ∷ ps) [] = ⊥
AllFound owner_id [] (m ∷ ms) = ⊥

match_of-FoundFor :
    (owner_id : String) (point : ScoredPoint) (m : VectorMatch)
    → match_of owner_id point ≡ some m
    → FoundFor owner_id point m
match_of-FoundFor owner_id point m h = found (from_mapping (get_or [] point.payload)) refl h
  where
    found :
        (o : Option VectorPayload)
        → from_mapping (get_or [] point.payload) ≡ o
        → owned_match owner_id point o ≡ some m
        → FoundFor owner_id point m
    found none e h = cc
    found (some payload) e h = elim (Bool-cases (str_eq payload.user_id owner_id)) [
      | inl mine ↦
          let q = rw mine at h in
          let same : record { id = point.id; score = point.score; payload = payload } ≡ m = cc in
          record {
            same_id = ap (λ (x : VectorMatch). x.id) (sym same);
            same_score = ap (λ (x : VectorMatch). x.score) (sym same);
            same_payload = e ∙ ap (λ (x : VectorMatch). some x.payload) same;
            owner =
                ap (λ (x : VectorMatch). x.payload.user_id) (sym same)
                ∙ (eq_iff payload.user_id owner_id).0 mine;
          }
      | inr foreign ↦ let absurd = rw foreign at h in cc
    ]

matches_of-AllFound :
    (owner_id : String) (points : List ScoredPoint) (ms : List VectorMatch)
    → matches_of owner_id points ≡ some ms
    → AllFound owner_id points ms
unfolding matches_of
matches_of-AllFound owner_id [] [] h = tt
matches_of-AllFound owner_id [] (m ∷ ms) h = cc
matches_of-AllFound owner_id (p ∷ ps) ms h =
    both (matches_of-AllFound owner_id ps) (match_of owner_id p) (matches_of owner_id ps) refl refl
      ms h
  where
    both :
        ((ms : List VectorMatch) → matches_of owner_id ps ≡ some ms → AllFound owner_id ps ms)
        → (o : Option VectorMatch) (os : Option (List VectorMatch)) → match_of owner_id p ≡ o
        → matches_of owner_id ps ≡ os
        → (ms : List VectorMatch) → prepend o os ≡ some ms
        → AllFound owner_id (p ∷ ps) ms
    both hs none os e es ms h = cc
    both hs (some m) none e es ms h = cc
    both hs (some m) (some rest) e es [] h = cc
    both hs (some m) (some rest) e es (m' ∷ ms) h =
        let same : m ≡ m' = cc in
        let same_rest : rest ≡ ms = cc in
        (match_of-FoundFor owner_id p m' (e ∙ ap some same), hs ms (es ∙ ap some same_rest))

-- All that a method of the store raises.
abbrev pub StoreFailure : Exc → Type 0
StoreFailure vector_store = Unit {0}
StoreFailure cancelled = Unit {0}
StoreFailure _ = ⊥

module _ (rt : Runtime) (I : Db → Type 0) where
  module _ {A : Type 0} (question : ℕ → Reply (Unit {0}) A) where
    -- What an exception is made into.
    abbrev Known : Exc → Type 0
    Known vector_store = Unit {0}
    Known cancelled = Unit {0}
    Known other = Unit {0}
    Known _ = ⊥

    as_failure : (e : Exc) → Known e → StoreFailure (as_store_error e)
    as_failure vector_store h = tt
    as_failure cancelled h = tt
    as_failure other h = tt
    as_failure _ h = elim h [ ]

    ask-reply :
        Triple
          (Holds I)
          (ask question)
          (λ a w. ((t : ℕ) × (question t ≡ reply a)) × Holds I w)
          (λ e w. StoreFailure e × Holds I w)
    unfolding ask
    ask-reply =
        Triple-handle (call_replied rt I (λ _. vector_store) question Known (λ _. tt) tt tt)
          (λ e. Triple-raise (as_store_error e) (λ w h. (as_failure e h.0, h.1)))
          (λ a. Triple-pure a (λ w h. h))

  module _ (client : QdrantClient) (query : Vector) (owner_id : String) (score_threshold : ℕ)
      (document_ids : Option (List String)) where
    -- The client was asked with the owner's filter, and these are its points, each of the owner.
    abbrev pub Searched : ℕ → List VectorMatch → Type 0
    Searched limit ms =
        (t : ℕ) × (filter : Filter) × (points : List ScoredPoint) × (owned_by owner_id document_ids
          ≡ some filter)
        × (client.query_points t query filter limit score_threshold ≡ reply points)
        × AllFound owner_id points ms

    Asked : ℕ → List ScoredPoint → Type 0
    Asked limit points =
        (t : ℕ) × (filter : Filter) × (owned_by owner_id document_ids ≡ some filter)
        × (client.query_points t query filter limit score_threshold ≡ reply points)

    -- A search asks only with a filter on the owner, and returns every point that the client replied, one match for each, with the point's id, score and payload, all of them the owner's; a point of another owner or with a malformed payload makes it fail, and each failure is VectorStoreError or the cancellation.
    pub search-Searched :
        (limit : ℕ)
        → Triple
            (Holds I)
            (search client query owner_id limit score_threshold document_ids)
            (λ ms w. Searched limit ms × Holds I w)
            (λ e w. StoreFailure e × Holds I w)
    unfolding search Asked
    search-Searched zero = Triple-raise vector_store (λ w h. (tt, h))
    search-Searched (suc limit) =
        Triple-bind (asked (owned_by owner_id document_ids) refl) (λ e w h. h)
          (λ points. Triple-given (λ (t, filter, owned, replied).
            Triple-lift (accepted (matches_of owner_id points))
              (λ ms e w h. (
                (
                  t,
                  filter,
                  points,
                  owned,
                  replied,
                  matches_of-AllFound owner_id points ms (taken (matches_of owner_id points) ms e),
                ),
                h,
              ))
              (λ e p w h. (refused (matches_of owner_id points) e p, h))))
      where
        taken :
            (o : Option (List VectorMatch)) (ms : List VectorMatch)
            → accepted o ≡ ok ms
            → o ≡ some ms
        taken none ms e = cc
        taken (some ms') ms e = cc

        refused : (o : Option (List VectorMatch)) (e : Exc) → accepted o ≡ err e → StoreFailure e
        refused none e h = let same : vector_store ≡ e = cc in rw (← same) tt
        refused (some ms) e h = cc

        asked :
            (o : Option Filter)
            → owned_by owner_id document_ids ≡ o
            → Triple
                (Holds I)
                (filtered o (λ filter.
                  ask (λ t. client.query_points t query filter (suc limit) score_threshold)))
                (λ points w. Asked (suc limit) points × Holds I w)
                (λ e w. StoreFailure e × Holds I w)
        asked none e = Triple-raise vector_store (λ w h. (tt, h))
        asked (some filter) e =
            Triple_mono (λ w h. h) (λ points w ((t, q), h). ((t, filter, e, q), h)) (λ e w h. h)
              (ask-reply (λ t. client.query_points t query filter (suc limit) score_threshold))
