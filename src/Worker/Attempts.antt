-- ===== src/Worker/Attempts.antt =====
-- The attempts at a job are bounded.
use researchmind_mcp.Prelude.{
  ℕ, zero, suc, ◌-◌, ◌≤◌, ◌<◌, ◌≡◌, refl, arith, Bool, true, false, leb, if◌then◌else◌, min, max,
}
use researchmind_mcp.Models.{IngestionJob, IngestionResult}
use researchmind_mcp.Models.Reason.{IngestionReason}
use researchmind_mcp.Exec.{Exc, cancelled, transient, Result, ok, err}
use researchmind_mcp.Runtime.{Runtime}
use researchmind_mcp.Database.Session.{World}
use researchmind_mcp.Ingestion.{IngestionService}
use researchmind_mcp.Ingestion.Delivery.{ingest}
use researchmind_mcp.Ingestion.Maintenance.{record_given_up}
use researchmind_mcp.Ingestion.Refines.Transition.{Setting}
use researchmind_mcp.Ingestion.Guarantees.{ingest_final}
use researchmind_mcp.Worker.{
  TaskEnd, returned, retry, raised, fresh, ingest_document, after_ingest, after_giving_up,
  retry_delay_seconds,
}

delay_bounds : (n : ℕ) → (2 ≤ retry_delay_seconds n) × (retry_delay_seconds n ≤ 60)
unfolding retry_delay_seconds
delay_bounds zero = (omega arith, omega arith)
delay_bounds (suc zero) = (omega arith, omega arith)
delay_bounds (suc (suc zero)) = (omega arith, omega arith)
delay_bounds (suc (suc (suc zero))) = (omega arith, omega arith)
delay_bounds (suc (suc (suc (suc n)))) =
    let last : min (max (suc (suc (suc (suc n)))) 1) 4 - 1 ≡ 3 = omega arith in
    rw last (omega arith, omega arith)

-- Whether the task asked for a retry, and after how long.
abbrev pub RetriesIn : (ℕ → Type 0) → TaskEnd → Type 0
RetriesIn P (returned r) = Unit {0}
RetriesIn P (retry delay) = P delay
RetriesIn P (raised e) = Unit {0}

module _ (rt : Runtime) (self : IngestionService) (job : IngestionJob) (job_try max_tries : ℕ) where
  abbrev pub Allowed : ℕ → Type 0
  Allowed delay = (job_try < max_tries) × (2 ≤ delay) × (delay ≤ 60)

  gives_up :
      (e : Exc) (r : Result Bool × World)
      → RetriesIn Allowed (after_giving_up rt self job job_try max_tries e r).0
  gives_up e (err cancelled, w) = tt
  gives_up e (ok b, w) = tt
  gives_up e (err _, w) = tt

  plain_end :
      (e : Exc) (w : World) (final : Bool)
      → leb max_tries job_try ≡ final
      → RetriesIn Allowed
          (if final
            then after_giving_up rt self job job_try max_tries e (record_given_up rt job (fresh w))
            else (retry (retry_delay_seconds job_try), fresh w)).0
  plain_end e w true h = gives_up e (record_given_up rt job (fresh w))
  plain_end e w false h = let (low, high) = delay_bounds job_try in (ground arith, low, high)

  ends :
      (r : Result IngestionResult × World)
      → ((reason : IngestionReason) (w : World)
          → r ≡ (err (transient reason), w)
          → job_try < max_tries)
      → RetriesIn Allowed (after_ingest rt self job job_try max_tries r).0
  ends (ok a, w) h = tt
  ends (err (transient reason), w) h =
      let (low, high) = delay_bounds job_try in (h reason w refl, low, high)
  ends (err cancelled, w) h = tt
  ends (err e, w) h = plain_end e w (leb max_tries job_try) refl

  module _ (target owner : ℕ) (names : Setting rt job target owner) where
    transient_early :
        (final : Bool)
        → leb max_tries job_try ≡ final
        → (w w' : World) (reason : IngestionReason)
        → ingest rt self job final (fresh w) ≡ (err (transient reason), w')
        → job_try < max_tries
    transient_early true h w w' reason e =
        elim (ingest_final rt self job target owner names (fresh w) w' tt reason e) [ ]
    transient_early false h w w' reason e = ground arith

    -- Whatever happens in an attempt at a job with the identifiers of a document and a user, save
    -- that a COMMIT whose reply does not come has been carried out: where the worker asks for another one, this was not the last of `max_tries`, and the delay is
    -- between 2 and 60 seconds.
    pub ingest_document-RetriesIn :
        (w : World) → RetriesIn Allowed (ingest_document rt self job job_try max_tries w).0
    unfolding ingest_document
    ingest_document-RetriesIn w =
        ends (ingest rt self job (leb max_tries job_try) (fresh w))
          (λ reason w' e. transient_early (leb max_tries job_try) refl w w' reason e)
