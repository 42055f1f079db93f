-- ===== src/Ingestion.antt =====
-- `IngestionService` (backend/services/ingestion_service.py): what it is built from. The methods
-- are in the modules below.
pub mod Transitions
pub mod ParseStage
pub mod ChunkStage
pub mod EmbedStage
pub mod VectorWrites
pub mod Delivery
pub mod Maintenance
pub mod Refines
pub mod Guarantees
pub mod Recovery
use researchmind_mcp.Prelude.{ℕ, String, Bool, List}
use researchmind_mcp.Models.{Bytes, Text, Vector, ExtractedPage, ExtractedText, ChunkingResult}
use researchmind_mcp.Models.Reason.{StorageFault, ExtractionFailure}
use researchmind_mcp.Runtime.{Reply}

-- The collaborators behind `Storage`, `PdfTextExtractor`, `DocumentChunker`, `EmbeddingProvider`
-- and `VectorStore`, asked at a given wait, and the configuration.
pub record IngestionService : Type 0 where
  pub storage_get : ℕ → String → Reply StorageFault Bytes
  pub extract : ℕ → Bytes → ℕ → Reply ExtractionFailure ExtractedText
  pub chunk : ℕ → List ExtractedPage → Reply (Unit {0}) ChunkingResult
  pub embed_documents : ℕ → List Text → Reply (Unit {0}) (List Vector)
  -- how a write of the vector store ends, and whether it took effect although it failed
  pub vectors : ℕ → Reply (Unit {0}) (Unit {0})
  pub vectors_applied : ℕ → Bool
  pub model_id : String
  pub dimension : ℕ
  pub max_pages : ℕ
  pub strategy_version : String
  pub tokenizer_id : String
