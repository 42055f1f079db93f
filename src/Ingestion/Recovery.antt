-- ===== src/Ingestion/Recovery.antt =====
-- The recovery sweep, `recover_pending`, and the jobs it builds from rows; the reaper.
pub mod Sweep
pub mod Reaper
use researchmind_mcp.Prelude.{
  ℕ, suc, ◌+◌, ◌≤◌, ◌≡◌, refl, ap, sym, ◌∙◌, subst, String, Bool, true, false, Option, none, some,
  List, [], ◌∷◌, arith, length, take, Option-cases, Bool-cases, inl, inr, str_eq, eq_iff, option_eq,
  if◌then◌else◌, not,
}
use researchmind_mcp.Models.{IngestionJob, IngestionTarget, RecoveryResult}
use researchmind_mcp.Models.Reason.{IngestionReason}
use researchmind_mcp.Runtime.{Runtime}
use researchmind_mcp.StorageKey.{document_storage_key}
use researchmind_mcp.Ingestion.Delivery.{job_disagrees_with}
use researchmind_mcp.Ingestion.Maintenance.{job_from_row}

str_eq_refl : (s : String) → str_eq s s ≡ true
str_eq_refl s = (eq_iff s s).1 refl

-- A job agrees with a row when the row has exactly its fields.
job_disagrees_with_agrees :
    (job : IngestionJob) (target : IngestionTarget)
    → target.owner_id ≡ job.owner_id
    → target.content_hash ≡ some job.content_hash
    → target.storage_key ≡ some job.storage_key
    → target.mime_type ≡ some job.mime_type
    → job_disagrees_with job target ≡ none
unfolding job_disagrees_with
job_disagrees_with_agrees job target o h k m =
    rw
      (
        o,
        h,
        k,
        m,
        str_eq_refl job.owner_id,
        str_eq_refl job.content_hash,
        str_eq_refl job.storage_key,
        str_eq_refl job.mime_type,
      )
      refl

-- The fields that a job needs.
record Stored (rt : Runtime) (target : IngestionTarget) (job : IngestionJob) : Type 0 where
  document : job.document_id ≡ target.document_id
  user : target.owner_id ≡ job.owner_id
  hash : target.content_hash ≡ some job.content_hash
  key : target.storage_key ≡ some job.storage_key
  mime : target.mime_type ≡ some job.mime_type
  derived : document_storage_key rt target.owner_id job.content_hash ≡ some job.storage_key

same_job :
    (rt : Runtime) (target : IngestionTarget) (made job : IngestionJob)
    → some made ≡ some job
    → Stored rt target made
    → Stored rt target job
same_job rt target made job h t = let p : made ≡ job = cc in subst (Stored rt target) p t

job_from_row-Stored :
    (rt : Runtime) (target : IngestionTarget) (job : IngestionJob)
    → job_from_row rt target ≡ some job
    → Stored rt target job
unfolding job_from_row
job_from_row-Stored rt target job h = elim (Option-cases target.storage_key) [
  | inl k ↦ let absurd = rw k at h in cc
  | inr (key, k) ↦ elim (Option-cases target.content_hash) [
    | inl c ↦ let absurd = rw (k, c) at h in cc
    | inr (hash, c) ↦ elim (Option-cases target.mime_type) [
      | inl m ↦ let absurd = rw (k, c, m) at h in cc
      | inr (mime, m) ↦ elim (Option-cases (document_storage_key rt target.owner_id hash)) [
        | inl e ↦ let absurd = rw (k, c, m, e) at h in cc
        | inr (derived, e) ↦ elim (Bool-cases (str_eq derived key)) [
          | inl s ↦ same_job rt target _ job (rw (k, c, m, e, s) at h) (record {
            document = refl;
            user = refl;
            hash = c;
            key = k;
            mime = m;
            derived = e ∙ ap some ((eq_iff derived key).0 s);
          })
          | inr s ↦ let absurd = rw (k, c, m, e, s) at h in cc
        ]
      ]
    ]
  ]
]

-- A job that the recovery sweep builds from a row passes the checks of `ingest` against that row:
-- its storage key is the one that its owner and hash give, and it disagrees with the row in no
-- field. It names the row's document.
pub job_from_row-agrees :
    (rt : Runtime) (target : IngestionTarget) (job : IngestionJob)
    → job_from_row rt target ≡ some job
    → (document_storage_key rt job.owner_id job.content_hash ≡ some job.storage_key)
      × (job_disagrees_with job target ≡ none)
      × (job.document_id ≡ target.document_id)
job_from_row-agrees rt target job h =
    let t = job_from_row-Stored rt target job h in
    (
      ap (λ o. document_storage_key rt o job.content_hash) (sym t.user) ∙ t.derived,
      job_disagrees_with_agrees job target t.user t.hash t.key t.mime,
      t.document,
    )
