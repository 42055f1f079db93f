-- ===== src/Ingestion/Maintenance.antt =====
-- The passes beside deliveries: `reap_stale_processing`, `recover_pending`, `record_given_up`,
-- and `_job_from_row`.
use researchmind_mcp.Prelude.{
  ℕ, suc, String, Bool, true, false, Option, none, some, List, [], ◌∷◌, ◌++◌, ◌||◌, str_eq,
  if◌then◌else◌,
}
use researchmind_mcp.Models.{
  DocumentStatus, status_eq, IngestionJob, IngestionTarget, RecoveryResult,
}
use researchmind_mcp.Models.Reason.{IngestionReason}
use researchmind_mcp.Exec.{other, pure, handle, finally, ◌>>=◌, ◌>>◌}
use researchmind_mcp.Runtime.{Runtime, Reply}
use researchmind_mcp.StorageKey.{document_storage_key}
use researchmind_mcp.Database.Session.{M, commit, rollback, call}
use researchmind_mcp.Repositories.Documents.{
  get_ingestion_target_for_user, fail_stale_processing, list_for_recovery,
}
use researchmind_mcp.Ingestion.Transitions.{rolling_back, transition}

-- `RECOVERABLE_STATUSES`
abbrev pub recoverable_statuses : List DocumentStatus
recoverable_statuses = DocumentStatus.pending ∷ DocumentStatus.parsed ∷ DocumentStatus.chunked ∷ []

-- `_job_from_row`. A field that a job could not hold has no other value here: only a missing one.
unfoldable pub job_from_row : Runtime → IngestionTarget → Option IngestionJob
job_from_row rt target = elim target.storage_key [
  | none ↦ none
  | some key ↦ elim target.content_hash [
    | none ↦ none
    | some hash ↦ elim target.mime_type [
      | none ↦ none
      | some mime ↦ elim (document_storage_key rt target.owner_id hash) [
        | none ↦ none
        | some derived ↦
            if str_eq derived key
            then some (record {
              document_id = target.document_id;
              owner_id = target.owner_id;
              storage_key = key;
              content_hash = hash;
              mime_type = mime;
            })
            else none
      ]
    ]
  ]
]

-- target is not None and target.status is PROCESSING
abbrev pub processing_target : Option IngestionTarget → Bool
processing_target none = false
processing_target (some target) = status_eq target.status DocumentStatus.processing

module _ (rt : Runtime) where
  -- `reap_stale_processing`
  unfoldable pub reap_stale_processing : ℕ → M (List String)
  reap_stale_processing stale_after =
      handle
        (do
          reaped ← fail_stale_processing rt stale_after IngestionReason.stale_processing
          commit rt
          pure reaped)
        (rolling_back rt) pure

  -- `IngestionQueue.enqueue`: whether this call queued the job.
  module _ (enqueue : ℕ → IngestionJob → Reply (Unit {0}) Bool) where
    unfoldable pub recover_each : RecoveryResult → List IngestionTarget → M RecoveryResult
    recover_each acc [] = pure acc
    recover_each acc (target ∷ targets) = elim (job_from_row rt target) [
      | none ↦ recover_each (record acc { skipped = suc acc.skipped }) targets
      | some job ↦ (do
        queued ← call (λ _. other) (λ t. enqueue t job)
        recover_each
            (if queued
              then record acc { requeued = acc.requeued ++ job.document_id ∷ [] }
              else record acc { already_queued = suc acc.already_queued })
            targets)
    ]

    -- `recover_pending`
    unfoldable pub recover_pending : ℕ → M RecoveryResult
    recover_pending limit = do
      candidates ← finally (list_for_recovery rt recoverable_statuses limit) (rollback rt)
      recover_each (record { requeued = []; already_queued = 0; skipped = 0 }) candidates

  unfoldable pub is_processing : IngestionJob → M Bool
  is_processing job = do
    target ← get_ingestion_target_for_user rt job.document_id job.owner_id
    rollback rt
    pure (processing_target target)

  -- any([await self._transition(...) for status in RECOVERABLE_STATUSES]): every one is tried.
  unfoldable pub claim_any : IngestionJob → List DocumentStatus → M Bool
  claim_any job [] = pure false
  claim_any job (status ∷ statuses) = do
    moved ← transition rt job status DocumentStatus.processing none
    rest ← claim_any job statuses
    pure (moved || rest)

  -- `record_given_up`
  unfoldable pub record_given_up : IngestionJob → M Bool
  record_given_up job = do
    claimed ← claim_any job recoverable_statuses
    held ← (if claimed then pure true else is_processing job)
    if held
        then transition rt job DocumentStatus.processing DocumentStatus.failed
            (some IngestionReason.processing_failure)
        else pure false
