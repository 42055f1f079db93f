-- ===== src/Uploads/Validation/Checked.antt =====
-- What the checks of an upload let through.
use researchmind_mcp.Prelude.{
  ℕ, ◌<◌, ◌≤◌, ◌≡◌, refl, ◌∙◌, sym, ap, subst, true, false, Option, none, some, List, [], ◌∷◌, ◌++◌,
  ltb, length, length-append, is_empty, Bool-cases, inl, inr, arith, if◌then◌else◌,
}
use researchmind_mcp.Models.{Bytes}
use researchmind_mcp.Models.Reason.{too_large}
use researchmind_mcp.Exec.{Result, ok}
use researchmind_mcp.Runtime.{Runtime}
use researchmind_mcp.Uploads.Validation.{
  FileRules, OpenedPdf, ValidatedPdf, refused, read_capped, starts_with, pdf_magic, validated,
  opened, validate_pdf,
}

-- Everything up to the end of the stream.
abbrev pub whole : List Bytes → Bytes
whole [] = []
whole ([] ∷ chunks) = []
whole ((b ∷ chunk) ∷ chunks) = (b ∷ chunk) ++ whole chunks

append_nil : (xs : Bytes) → xs ++ [] ≡ xs
append_nil [] = refl
append_nil (x ∷ xs) = ap (λ ys. x ∷ ys) (append_nil xs)

append_assoc : (xs ys zs : Bytes) → (xs ++ ys) ++ zs ≡ xs ++ (ys ++ zs)
append_assoc [] ys zs = refl
append_assoc (x ∷ xs) ys zs = ap (λ l. x ∷ l) (append_assoc xs ys zs)

abbrev pub capped : ℕ → Bytes → Result Bytes
capped max_bytes content = if ltb max_bytes (length content) then refused too_large else ok content

capped_over :
    (max_bytes : ℕ) (start rest : Bytes)
    → ltb max_bytes (length start) ≡ true
    → capped max_bytes (start ++ rest) ≡ refused too_large
capped_over max_bytes start rest h =
    let over : ltb max_bytes (length (start ++ rest)) ≡ true =
      ground (arith, length-append start rest) in
    rw over refl

read_capped-from :
    (max_bytes : ℕ) (received : Bytes) (stream : List Bytes)
    → ltb max_bytes (length received) ≡ false
    → read_capped max_bytes received stream ≡ capped max_bytes (received ++ whole stream)
unfolding read_capped
read_capped-from max_bytes received [] h = rw (append_nil received, h) refl
read_capped-from max_bytes received ([] ∷ chunks) h = rw (append_nil received, h) refl
read_capped-from max_bytes received ((b ∷ chunk) ∷ chunks) h =
    elim (Bool-cases (ltb max_bytes (length (received ++ b ∷ chunk)))) [
      | inl over ↦ rw over (
          sym (
            ap (capped max_bytes) (sym (append_assoc received (b ∷ chunk) (whole chunks)))
            ∙ capped_over max_bytes (received ++ b ∷ chunk) (whole chunks) over))
      | inr within ↦ rw within (
          read_capped-from max_bytes (received ++ b ∷ chunk) chunks within
          ∙ ap (capped max_bytes) (append_assoc received (b ∷ chunk) (whole chunks)))
    ]

-- Reading with a cap, which stops at the first chunk over it, is to read the whole stream and then to refuse it if it is longer than the cap.
pub read_capped-whole :
    (max_bytes : ℕ) (stream : List Bytes)
    → read_capped max_bytes [] stream ≡ capped max_bytes (whole stream)
read_capped-whole max_bytes stream = read_capped-from max_bytes [] stream (ground arith)

module _ (rt : Runtime) (rules : FileRules) (content : Bytes) (max_pages : ℕ) where
  -- What an accepted upload is.
  pub record Accepted (v : ValidatedPdf) : Type 0 where
    pub document : OpenedPdf
    pub magic : starts_with pdf_magic content ≡ true
    pub opens : rules.open_pdf content ≡ some document
    pub readable : document.needs_pass ≡ false
    pub facts : v ≡ validated rt rules content document.page_count
    pub nonempty : 0 < v.size_bytes
    pub some_pages : 0 < v.page_count
    pub few_pages : v.page_count ≤ max_pages

  opened-Accepted :
      (o : Option OpenedPdf) (v : ValidatedPdf)
      → rules.open_pdf content ≡ o
      → starts_with pdf_magic content ≡ true
      → 0 < length content
      → opened rt rules content o max_pages ≡ ok v
      → Accepted v
  opened-Accepted none v e magic full h = cc
  opened-Accepted (some document) v e magic full h = elim (Bool-cases document.needs_pass) [
    | inl locked ↦ let absurd = rw locked at h in cc
    | inr free ↦ elim (Bool-cases (ltb document.page_count 1)) [
      | inl bare ↦ let absurd = rw (free, bare) at h in cc
      | inr pages ↦ elim (Bool-cases (ltb max_pages document.page_count)) [
        | inl many ↦ let absurd = rw (free, pages, many) at h in cc
        | inr few ↦
            let done = rw (free, pages, few) at h in
            let same : validated rt rules content document.page_count ≡ v = cc in
            subst Accepted same (record {
              document = document;
              magic = magic;
              opens = e;
              readable = free;
              facts = refl;
              nonempty = full;
              some_pages = ground arith;
              few_pages = ground arith;
            })
      ]
    ]
  ]

  full_length : (b : Bytes) → is_empty b ≡ false → 0 < length b
  full_length [] h = cc
  full_length (x ∷ b) h = omega arith

  -- An accepted upload begins with the PDF header, opens without a password, and has from one page to the limit; its size, hash and type are those of its bytes.
  pub validate_pdf-Accepted :
      (v : ValidatedPdf) → validate_pdf rt rules content max_pages ≡ ok v → Accepted v
  unfolding validate_pdf
  validate_pdf-Accepted v h = elim (Bool-cases (is_empty content)) [
    | inl bare ↦ let absurd = rw bare at h in cc
    | inr full ↦ elim (Bool-cases (starts_with pdf_magic content)) [
      | inr junk ↦ let absurd = rw (full, junk) at h in cc
      | inl magic ↦
          opened-Accepted (rules.open_pdf content) v refl magic (full_length content full)
            (rw (full, magic) at h)
    ]
  ]
