-- ===== src/Samples/Search.antt =====
-- A ready document with one embedded chunk, a search service over it, and a client of the vector
-- store that replies one point.
use researchmind_mcp.Prelude.{true, none, some, List, [], ◌∷◌, length}
use researchmind_mcp.Models.{DocumentStatus, VectorPayload}
use researchmind_mcp.Models.User.{researcher, Principal}
use researchmind_mcp.Runtime.{reply}
use researchmind_mcp.Database.{ChunkRow}
use researchmind_mcp.Database.Session.{World}
use researchmind_mcp.Vectors.Payload.{as_mapping}
use researchmind_mcp.Vectors.{ScoredPoint, VectorMatch, QdrantClient}
use researchmind_mcp.Search.{SearchService, RetrievalQuery}
use researchmind_mcp.Samples.{uploaded}

abbrev pub embedded_row : ChunkRow
embedded_row = record {
  id = 9;
  document_id = 7;
  chunk_index = 0;
  content = 104 ∷ [];
  section = none;
  page_start = 1;
  page_end = 1;
  token_count = 1;
  strategy_version = "v1";
  tokenizer_id = "t1";
  embedding_model_id = some "m1";
  dimension = some 1;
}

abbrev pub payload : VectorPayload
payload = record {
  user_id = "xxx";
  document_id = "xxxxxxx";
  chunk_id = "xxxxxxxxx";
  chunk_index = 0;
  section = none;
  page_start = 1;
  page_end = 1;
  strategy_version = "v1";
  tokenizer_id = "t1";
  embedding_model_id = "m1";
  dimension = 1;
}

abbrev pub point : ScoredPoint
point = record { id = "xxxxxxxxx"; score = 8; payload = some (as_mapping payload) }

abbrev pub client : QdrantClient
client = record {
  collection_exists = λ t. reply true;
  get_collection = λ t. reply (some 1);
  create_collection = λ t n. reply tt;
  create_payload_index = λ t field. reply tt;
  upsert = λ t points. reply tt;
  query_points = λ t vector filter limit threshold. reply (point ∷ []);
  count = λ t filter. reply 1;
  delete = λ t filter. reply tt;
}

-- The chunk's candidate twice, and one that no chunk has.
abbrev pub candidates : List VectorMatch
candidates =
    record { id = "xxxxxxxxx"; score = 8; payload = payload }
    ∷ record { id = "x"; score = 7; payload = payload }
    ∷ record { id = "xxxxxxxxx"; score = 6; payload = payload }
    ∷ []

abbrev pub search_service : SearchService
search_service = record {
  normalised = λ text. text;
  count = length;
  embed_query = λ t text. reply (5 ∷ []);
  model_id = "m1";
  dimension = 1;
  max_input_tokens = 8;
  vector_search = λ t vector owner limit threshold documents. reply candidates;
  default_top_k = 5;
  default_threshold = 0;
  max_query_chars = 10;
}

abbrev pub question : RetrievalQuery
question = record { text = 104 ∷ []; top_k = none; score_threshold = none; document_ids = none }

abbrev pub asker : Principal
asker = record { user_id = "xxx"; email = "ada@example.org"; role = researcher }

abbrev pub searched : World
searched = record (uploaded DocumentStatus.ready) {
  db = record (uploaded DocumentStatus.ready).db { chunks = embedded_row ∷ [] };
}
