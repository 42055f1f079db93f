-- ===== src/Vectors/Payload.antt =====
-- `VectorPayload.as_mapping` and `from_mapping` (shared/interfaces/vector_store.py).
use researchmind_mcp.Prelude.{
  ℕ, ◌≡◌, refl, String, Option, none, some, List, [], ◌∷◌, find, map_option, str_eq,
}
use researchmind_mcp.Models.{Text, VectorPayload}

-- A value of a payload. A section's text is code points, any other str a String; `other` is a
-- value of any other type.
pub data Value : Type 0 where
  text : String → Value
  code_points : Text → Value
  whole : ℕ → Value
  null : Value
  other : Value

abbrev pub Mapping : Type 0
Mapping = List (String × Value)

unfoldable pub as_mapping : VectorPayload → Mapping
as_mapping p =
    ("user_id", text p.user_id)
    ∷ ("document_id", text p.document_id)
    ∷ ("chunk_id", text p.chunk_id)
    ∷ ("chunk_index", whole p.chunk_index)
    ∷ ("section", written p.section)
    ∷ ("page_start", whole p.page_start)
    ∷ ("page_end", whole p.page_end)
    ∷ ("strategy_version", text p.strategy_version)
    ∷ ("tokenizer_id", text p.tokenizer_id)
    ∷ ("embedding_model_id", text p.embedding_model_id)
    ∷ ("dimension", whole p.dimension)
    ∷ []
  where
    written : Option Text → Value
    written none = null
    written (some s) = code_points s

-- payload[key]
abbrev pub get_item : Mapping → String → Option Value
get_item payload key =
    map_option (λ (e : String × Value). e.1) (find (λ (e : String × Value). str_eq e.0 key) payload)

-- Each is None where the field is missing or of another type.
abbrev as_text : Option Value → Option String
as_text (some (text s)) = some s
as_text _ = none

abbrev as_whole : Option Value → Option ℕ
as_whole (some (whole n)) = some n
as_whole _ = none

abbrev as_section : Option Value → Option (Option Text)
as_section (some (code_points s)) = some (some s)
as_section (some null) = some none
as_section _ = none

-- None is the VectorStoreError.
unfoldable pub from_mapping : Mapping → Option VectorPayload
from_mapping payload = do
  section ← as_section (get_item payload "section")
  user_id ← as_text (get_item payload "user_id")
  document_id ← as_text (get_item payload "document_id")
  chunk_id ← as_text (get_item payload "chunk_id")
  chunk_index ← as_whole (get_item payload "chunk_index")
  page_start ← as_whole (get_item payload "page_start")
  page_end ← as_whole (get_item payload "page_end")
  strategy_version ← as_text (get_item payload "strategy_version")
  tokenizer_id ← as_text (get_item payload "tokenizer_id")
  embedding_model_id ← as_text (get_item payload "embedding_model_id")
  dimension ← as_whole (get_item payload "dimension")
  some (record {
    user_id = user_id;
    document_id = document_id;
    chunk_id = chunk_id;
    chunk_index = chunk_index;
    section = section;
    page_start = page_start;
    page_end = page_end;
    strategy_version = strategy_version;
    tokenizer_id = tokenizer_id;
    embedding_model_id = embedding_model_id;
    dimension = dimension;
  })
  where
    infixl 10 ◌>>=◌
    ◌>>=◌ : {A B : Type 0} → Option A → (A → Option B) → Option B
    none >>= k = none
    (some a) >>= k = k a

-- A payload that was written is read back as it was.
pub from_mapping-as_mapping : (p : VectorPayload) → from_mapping (as_mapping p) ≡ some p
unfolding from_mapping as_mapping
from_mapping-as_mapping p = go p.section
  where
    go :
        (s : Option Text)
        → from_mapping (as_mapping (record p { section = s })) ≡ some (record p { section = s })
    go none = refl
    go (some s) = refl
