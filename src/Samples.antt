-- ===== src/Samples.antt =====
-- A small world for the tests: a runtime in which nothing fails and nobody else works, a service
-- whose collaborators answer, and one uploaded document. A UUID is written in unary.
pub mod Accounts
pub mod Search
pub mod Uploads
use Prim.Native.String.{String}
use researchmind_mcp.Prelude.{
  ℕ, zero, suc, ◌+◌, ◌≡◌, refl, ap, true, none, some, List, [], ◌∷◌, is_empty, length, arith, false,
  ◌<◌,
}
use researchmind_mcp.Models.{
  DocumentType, DocumentStatus, IngestionJob, ExtractedPage, ChunkingResult,
}
use researchmind_mcp.Runtime.{Runtime, reply}
use researchmind_mcp.Database.{DocumentRow}
use researchmind_mcp.Database.Session.{World, idle}
use researchmind_mcp.Chunker.{TokenSpan, Tokenizer, SectionAwareChunker, nth}
use researchmind_mcp.Chunker.Windows.{Ordered}
use researchmind_mcp.Chunker.Sections.{TextRules}
use researchmind_mcp.StorageKey.{codes}
use researchmind_mcp.Ingestion.{IngestionService}
use researchmind_mcp.Ingestion.Refines.Transition.{Setting}

abbrev pub unary : ℕ → String
unary zero = ""
unary (suc n) = String.◌∷◌ "x" (unary n)

pub count_unary : (n : ℕ) → some (length (codes (unary n))) ≡ some n
count_unary n = ap some (counted n)
  where
    counted : (m : ℕ) → length (codes (unary m)) ≡ m
    counted zero = refl
    counted (suc m) = ap suc (counted m)

abbrev pub hash : String
hash = "aaaaaaaaaaaaaaaaaaaaaaaaaaaaaaaaaaaaaaaaaaaaaaaaaaaaaaaaaaaaaaaa"

abbrev pub calm : Runtime
calm = record {
  parse_uuid = λ s. some (length (codes s));
  print_uuid = unary;
  parse-print = count_unary;
  uuid4 = λ t. 500 + t;
  chunk_uuid = λ document index strategy tokenizer. 1000 + index;
  sha256 = λ content. hash;
  fault = λ t. none;
  landed = λ t. false;
  now = λ t. 100 + t;
  others = λ t d. d;
}

abbrev pub pdf_job : IngestionJob
pdf_job = record {
  document_id = "xxxxxxx";
  owner_id = "xxx";
  storage_key = "xxx/aaaaaaaaaaaaaaaaaaaaaaaaaaaaaaaaaaaaaaaaaaaaaaaaaaaaaaaaaaaaaaaa.pdf";
  content_hash = hash;
  mime_type = "application/pdf";
}

abbrev pub pdf_row : DocumentStatus → DocumentRow
pdf_row status = record {
  id = 7;
  user_id = 3;
  filename = 112 ∷ [];
  doc_type = DocumentType.pdf;
  status = status;
  chunk_count = 0;
  storage_key = some "xxx/aaaaaaaaaaaaaaaaaaaaaaaaaaaaaaaaaaaaaaaaaaaaaaaaaaaaaaaaaaaaaaaa.pdf";
  content_hash = some hash;
  size_bytes = some 9;
  mime_type = some "application/pdf";
  page_count = some 1;
  failure_reason = none;
  created_at = 1;
  updated_at = 2;
  deleted_at = none;
}

abbrev pub uploaded : DocumentStatus → World
uploaded status = record {
  db = record { users = []; documents = pdf_row status ∷ []; pages = []; chunks = [] };
  session = idle;
  points = [];
  blobs = [];
  tick = 0;
}

abbrev pub one_page : List ExtractedPage
one_page =
    record { page_number = 1; blocks = record { text = 104 ∷ []; font_size = 100 } ∷ [] } ∷ []

abbrev pub one_chunk : ChunkingResult
one_chunk = record {
  chunks =
      record {
        chunk_index = 0;
        content = 104 ∷ [];
        section = none;
        page_start = 1;
        page_end = 1;
        token_count = 1;
      }
      ∷ [];
  strategy_version = "v1";
  tokenizer_id = "t1";
}

abbrev pub service : IngestionService
service = record {
  storage_get = λ t key. reply (37 ∷ []);
  extract = λ t content limit. reply (record { page_count = 1; pages = one_page });
  chunk = λ t pages. reply one_chunk;
  embed_documents = λ t texts. reply ((5 ∷ []) ∷ []);
  vectors = λ t. reply tt;
  vectors_applied = λ t. true;
  model_id = "m1";
  dimension = 1;
  max_pages = 10;
  strategy_version = "v1";
  tokenizer_id = "t1";
}

pub pdf_names : Setting calm pdf_job 7 3
pdf_names = record { document = refl; user = refl; known = λ t. refl }

-- A tokenizer with a token at every character, and windows of three with one shared.
abbrev pub spans : ℕ → List ℕ → List TokenSpan
spans n [] = []
spans n (c ∷ text) = record { start = n; end = suc n } ∷ spans (suc n) text

abbrev pub by_character : Tokenizer
by_character = record {
  id = "character";
  tokenize = spans 0;
  count = length;
  entry_starts = λ text. [];
  is_blank = is_empty;
}

abbrev pub chunker : SectionAwareChunker
chunker = record {
  tokenizer = by_character;
  chunk_size = 3;
  chunk_overlap = 1;
  advances = omega arith;
}

-- No pattern fires, so a document is one section.
abbrev pub plain_rules : TextRules
plain_rules = record {
  strip = λ text. text;
  words = length;
  normalised = λ text. text;
  known = λ text. false;
  numbered = λ text. false;
  roman = λ text. false;
  references = λ text. false;
  enlarged = λ a b. false;
}

abbrev pub four_letters : List ℕ
four_letters = 97 ∷ 98 ∷ 99 ∷ 100 ∷ []

abbrev pub letters_page : List ExtractedPage
letters_page =
    record { page_number = 1; blocks = record { text = four_letters; font_size = 100 } ∷ [] } ∷ []

nth-spans :
    (n : ℕ) (text : List ℕ) (i : ℕ)
    → i < length (spans n text)
    → ((nth (spans n text) i).start ≡ n + i) × ((nth (spans n text) i).end ≡ n + suc i)
nth-spans n [] i h = let absurd : ⊥ = omega arith in elim absurd [ ]
nth-spans n (c ∷ text) zero h = (omega arith, omega arith)
nth-spans n (c ∷ text) (suc i) h =
    let (a, b) = nth-spans (suc n) text i (omega arith) in (omega arith, omega arith)

pub spans-Ordered : (text : List ℕ) → Ordered chunker text
spans-Ordered text i j h k =
    let (a, b) = nth-spans 0 text i (omega arith) in
    let (c, d) = nth-spans 0 text j k in (omega arith, omega arith)
