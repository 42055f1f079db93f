-- ===== src/Worker.antt =====
-- The worker's task (backend/ingestion/worker.py): one attempt at a job. The payload is a valid
-- `IngestionJob`; the number of the attempt and the most attempts are ARQ's and the settings'.
pub mod Attempts
pub mod Startup
use researchmind_mcp.Prelude.{
  ℕ, zero, suc, ◌-◌, min, max, Bool, true, false, List, [], ◌∷◌, length, leb, if◌then◌else◌,
}
use researchmind_mcp.Models.{IngestionJob, IngestionResult}
use researchmind_mcp.Exec.{Exc, cancelled, transient, Result, ok, err}
use researchmind_mcp.Runtime.{Runtime}
use researchmind_mcp.Database.Session.{World, idle}
use researchmind_mcp.Ingestion.{IngestionService}
use researchmind_mcp.Ingestion.Delivery.{ingest}
use researchmind_mcp.Ingestion.Maintenance.{record_given_up}

-- `RETRY_DELAYS_SECONDS`
abbrev pub retry_delays_seconds : List ℕ
retry_delays_seconds = 2 ∷ 10 ∷ 30 ∷ 60 ∷ []

abbrev pub nth_delay : List ℕ → ℕ → ℕ
nth_delay [] n = 0
nth_delay (d ∷ ds) zero = d
nth_delay (d ∷ ds) (suc n) = nth_delay ds n

unfoldable pub retry_delay_seconds : ℕ → ℕ
retry_delay_seconds job_try =
    nth_delay retry_delays_seconds (min (max job_try 1) (length retry_delays_seconds) - 1)

-- How the task ends: with a result, `Retry(defer=...)`, or another exception.
pub data TaskEnd : Type 0 where
  returned : IngestionResult → TaskEnd
  retry : ℕ → TaskEnd
  raised : Exc → TaskEnd

-- `async with get_sessionmaker()() as session`: a session of its own, closed at the end.
abbrev pub fresh : World → World
fresh w = record w { session = idle }

module _ (rt : Runtime) (self : IngestionService) (job : IngestionJob) (job_try max_tries : ℕ) where
  -- `_record_given_up`: only a cancellation leaves it.
  abbrev pub after_giving_up : Exc → Result Bool × World → TaskEnd × World
  after_giving_up e (err cancelled, w) = (raised cancelled, fresh w)
  after_giving_up e (_, w) = (raised e, fresh w)

  abbrev pub final_attempt : Bool
  final_attempt = leb max_tries job_try

  abbrev pub after_ingest : Result IngestionResult × World → TaskEnd × World
  after_ingest (ok r, w) = (returned r, fresh w)
  after_ingest (err (transient reason), w) = (retry (retry_delay_seconds job_try), fresh w)
  after_ingest (err cancelled, w) = (raised cancelled, fresh w)
  after_ingest (err e, w) =
      if final_attempt
      then after_giving_up e (record_given_up rt job (fresh w))
      else (retry (retry_delay_seconds job_try), fresh w)

  -- `ingest_document`
  unfoldable pub ingest_document : World → TaskEnd × World
  ingest_document w = after_ingest (ingest rt self job final_attempt (fresh w))
