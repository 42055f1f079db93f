-- ===== src/Uploads/Validation.antt =====
-- document_processing/validation.py: the checks of an upload, before anything is stored.
pub mod Checked
pub mod Names
use researchmind_mcp.Prelude.{
  ℕ, ◌<◌, ◌≡◌, String, Bool, true, false, not, Option, none, some, List, [], ◌∷◌, ◌++◌, ◌&&◌, ◌||◌,
  ◌==◌, ltb, all, any, length, is_empty, select, str_eq, if◌then◌else◌,
}
use researchmind_mcp.Models.{Text, Bytes}
use researchmind_mcp.Models.Reason.{
  RejectionReason, empty, too_large, unsupported_type, malformed, encrypted, too_many_pages,
  invalid_filename,
}
use researchmind_mcp.Exec.{Result, ok, err, upload_rejected}
use researchmind_mcp.Runtime.{Runtime}

-- A document that PyMuPDF has opened.
pub record OpenedPdf : Type 0 where
  pub needs_pass : Bool
  pub page_count : ℕ

-- What `unicodedata`, `str.strip` and `pymupdf.open` answer.
pub record FileRules : Type 0 where
  -- unicodedata.normalize("NFC", raw)
  pub nfc : Text → Text
  -- unicodedata.category(ch) is Cc, Cf or Cs
  pub is_stripped : ℕ → Bool
  pub strip : Text → Text
  -- what is left are characters of the text
  pub all-strip : (p : ℕ → Bool) (text : Text) → all p text ≡ true → all p (strip text) ≡ true
  -- None for any exception
  pub open_pdf : Bytes → Option OpenedPdf

pub record ValidatedPdf : Type 0 where
  pub content_hash : String
  pub size_bytes : ℕ
  pub mime_type : String
  pub page_count : ℕ

abbrev pub refused : {A : Type 0} → RejectionReason → Result A
refused reason = err (upload_rejected reason)

-- What `stream.read` returns, one after the other; an empty chunk is the end.
unfoldable pub read_capped : ℕ → Bytes → List Bytes → Result Bytes
read_capped max_bytes received [] = ok received
read_capped max_bytes received ([] ∷ chunks) = ok received
read_capped max_bytes received ((b ∷ chunk) ∷ chunks) =
    let received' = received ++ b ∷ chunk in
    let rest = read_capped max_bytes received' chunks in
    if ltb max_bytes (length received') then refused too_large else rest

abbrev pub max_filename_length : ℕ
max_filename_length = 512

-- name.replace("\\", "/")
abbrev pub with_slashes : Text → Text
with_slashes [] = []
with_slashes (c ∷ text) = (if c == 92 then 47 else c) ∷ with_slashes text

abbrev pub is_slash : ℕ → Bool
is_slash c = c == 47

-- name.rsplit("/", 1)[-1]
abbrev pub last_component : Text → Text
last_component [] = []
last_component (c ∷ text) =
    let rest = last_component text in
    if any is_slash text then rest else if is_slash c then text else c ∷ text

abbrev pub is_dots : Text → Bool
is_dots (a ∷ []) = a == 46
is_dots (a ∷ b ∷ []) = a == 46 && b == 46
is_dots _ = false

module _ (rules : FileRules) where
  abbrev pub cleaned : Text → Text
  cleaned raw =
      rules.strip
        (select (λ c. not (rules.is_stripped c)) (last_component (with_slashes (rules.nfc raw))))

  abbrev pub usable_name : Text → Result Text
  usable_name name =
      if is_empty name || is_dots name
      then refused invalid_filename
      else if ltb max_filename_length (length name)
      then refused invalid_filename
      else ok name

  unfoldable pub display_filename : Option Text → Result Text
  display_filename none = refused invalid_filename
  display_filename (some raw) = usable_name (cleaned raw)

-- data.startswith(b"%PDF-")
abbrev pub starts_with : Bytes → Bytes → Bool
starts_with [] content = true
starts_with (m ∷ magic) [] = false
starts_with (m ∷ magic) (b ∷ content) = m == b && starts_with magic content

abbrev pub pdf_magic : Bytes
pdf_magic = 37 ∷ 80 ∷ 68 ∷ 70 ∷ 45 ∷ []

module _ (rt : Runtime) (rules : FileRules) (content : Bytes) where
  abbrev pub validated : ℕ → ValidatedPdf
  validated page_count = record {
    content_hash = rt.sha256 content;
    size_bytes = length content;
    mime_type = "application/pdf";
    page_count = page_count;
  }

  abbrev pub opened : Option OpenedPdf → ℕ → Result ValidatedPdf
  opened none max_pages = refused malformed
  opened (some document) max_pages =
      if document.needs_pass
      then refused encrypted
      else if ltb document.page_count 1
      then refused malformed
      else if ltb max_pages document.page_count
      then refused too_many_pages
      else ok (validated document.page_count)

  unfoldable pub validate_pdf : ℕ → Result ValidatedPdf
  validate_pdf max_pages =
      if is_empty content
      then refused empty
      else if not (starts_with pdf_magic content)
      then refused unsupported_type
      else opened (rules.open_pdf content) max_pages
