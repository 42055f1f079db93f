-- ===== src/Samples/Uploads.antt =====
-- A document service over a quiet disk, and a small PDF.
use researchmind_mcp.Prelude.{true, false, some, [], ◌∷◌}
use researchmind_mcp.Models.{Text, Bytes}
use researchmind_mcp.Runtime.{reply}
use researchmind_mcp.Database.Session.{World}
use researchmind_mcp.Storage.{Disk, done}
use researchmind_mcp.Uploads.Validation.{FileRules}
use researchmind_mcp.Uploads.{DocumentService}
use researchmind_mcp.Samples.Accounts.{one_user}

abbrev pub quiet_disk : Disk
quiet_disk = record { is_storage_key = λ key. true; end = λ t. done; others = λ t blobs. blobs }

abbrev pub plain_files : FileRules
plain_files = record {
  nfc = λ raw. raw;
  is_stripped = λ c. false;
  strip = λ text. text;
  all-strip = λ p text h. h;
  open_pdf = λ content. some (record { needs_pass = false; page_count = 1 });
}

abbrev pub document_service : DocumentService
document_service = record {
  configured = true;
  disk = quiet_disk;
  enqueue = λ t job. reply tt;
  rules = plain_files;
  max_upload_bytes = 9;
  max_pdf_pages = 2;
}

-- %PDF-1
abbrev pub small_pdf : Bytes
small_pdf = 37 ∷ 80 ∷ 68 ∷ 70 ∷ 45 ∷ 49 ∷ []

-- a/b.pdf
abbrev pub path_name : Text
path_name = 97 ∷ 47 ∷ 98 ∷ 46 ∷ 112 ∷ 100 ∷ 102 ∷ []

-- One user without documents; the directory holds an object of another key.
abbrev pub with_object : World
with_object = record one_user { blobs = ("k", small_pdf) ∷ [] }
