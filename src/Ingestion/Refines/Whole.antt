-- ===== src/Ingestion/Refines/Whole.antt =====
-- A whole delivery, `IngestionService.ingest`, keeps to the lifecycle.
use researchmind_mcp.Prelude.{
  ℕ, String, ◌≡◌, refl, Bool, true, false, Option, none, some, if◌then◌else◌, not, str_eq,
}
use researchmind_mcp.Models.{DocumentStatus, IngestionOutcome, IngestionResult, IngestionTarget}
use researchmind_mcp.Exec.{Exc, cancelled, transient, pure, handle}
use researchmind_mcp.Exec.Keeps.{
  Plain, Keeps, Triple, Triple-if, Triple-pure, Triple-raise, Triple-handle, Triple-bind,
  Triple_mono,
}
use researchmind_mcp.Lifecycle.{Stage, parse, chunk, embed, starts_at, Trace}
use researchmind_mcp.StorageKey.{document_storage_key}
use researchmind_mcp.Database.Session.{World, M, Reads}
use researchmind_mcp.Database.Session.Rules.{Holds, Keeps-execute}
use researchmind_mcp.Database.Session.Closing.{Keeps-rollback}
use researchmind_mcp.Repositories.Documents.{
  select_target, select_live, get_ingestion_target_for_user, live_document_exists,
}
use researchmind_mcp.Ingestion.Transitions.{
  on_exception, rejected, skipped, release_after_interruption,
}
use researchmind_mcp.Ingestion.Delivery.{
  claimed, on_cancelled, run, from_chunked, from_parsed, from_pending, rolled, by_status, on_target,
  on_key, ingest, is_parsed, is_chunked, job_disagrees_with,
}
use researchmind_mcp.Ingestion.Refines.{Holds_mono}
use researchmind_mcp.Ingestion.Refines.Transition.{Cas, transition_Triple}
use researchmind_mcp.Ingestion.Refines.Endings.{
  Delivery, Tr, Tr-Stable, Reached, Left, EndsStage, let_go,
}
use researchmind_mcp.Ingestion.Refines.Stages.{process_claimed-EndsStage, chunk_claimed-EndsStage}
use researchmind_mcp.Ingestion.Refines.Embed.{embed_claimed-EndsStage}

select_target-Reads : (δ : Delivery) (target owner : ℕ) → Reads (select_target δ.rt target owner)
unfolding select_target
select_target-Reads δ target owner now d = (_, refl)

select_live-Reads : (δ : Delivery) (target : ℕ) → Reads (select_live δ.rt target)
unfolding select_live
select_live-Reads δ target now d = (_, refl)

module _ (δ : Delivery) where
  open δ use {rt, self, job, target, owner, names, final_attempt}

  -- How a delivery ends where it raises.
  abbrev pub Raised : Exc → World → Type 0
  Raised (transient r) w = (final_attempt ≡ false) × Holds (Tr δ none) w
  Raised e w = Holds (Reached δ) w

  abbrev pub Delivers : M IngestionResult → Type 0
  Delivers m = Triple (Holds (Tr δ none)) m (λ _. Holds (Tr δ none)) Raised

  Plain-Raised : (e : Exc) (w : World) → Plain e × Holds (Tr δ none) w → Raised e w
  Plain-Raised (transient r) w h = elim h.0 [ ]
  Plain-Raised _ w h = ((none, h.1.0), h.1.1)

  -- A claim given up, lost or still held.
  module _ (s : Stage) where
    release_after_interruption-Reached :
        Triple
          (Holds (Tr δ (some s)))
          (release_after_interruption rt job (starts_at s))
          (λ _. Holds (Reached δ))
          (λ e w. Plain e × Holds (Reached δ) w)
    unfolding release_after_interruption on_exception
    release_after_interruption-Reached =
        Triple-handle
          (transition_Triple rt (Tr δ (some s)) (Tr-Stable δ (some s)) job names
            DocumentStatus.processing (starts_at s) none)
          swallowed (λ moved. Triple-pure tt (Holds_mono (λ d h. (none, let_go δ s moved d h))))
      where
        still : (w : World) → Holds (Tr δ (some s)) w → Holds (Reached δ) w
        still = Holds_mono (λ d h. (some s, h))

        swallowed :
            (e : Exc)
            → Triple
                (λ w. Plain e × Holds (Tr δ (some s)) w)
                (on_exception (pure tt) e)
                (λ _. Holds (Reached δ))
                (λ e' w. Plain e' × Holds (Reached δ) w)
        swallowed cancelled = Triple-raise cancelled (λ w h. (tt, still w h.1))
        swallowed _ = Triple-pure tt (λ w h. still w h.1)

    on_cancelled-Raised :
        (e : Exc)
        → Triple
            (Left δ s e)
            (on_cancelled rt self job final_attempt (starts_at s) e)
            (λ _. Holds (Tr δ none))
            Raised
    unfolding on_cancelled
    on_cancelled-Raised cancelled =
        Triple-bind release_after_interruption-Reached reached
          (λ _. Triple-raise cancelled (λ w h. h))
      where
        reached : (e : Exc) (w : World) → Plain e × Holds (Reached δ) w → Raised e w
        reached (transient r) w h = elim h.0 [ ]
        reached _ w h = h.1
    on_cancelled-Raised (transient r) = Triple-raise (transient r) (λ w h. h)
    on_cancelled-Raised e = Triple-raise e (λ w h. h)

  claimed-EndsStage :
      (s : Stage) (t : IngestionTarget) → EndsStage δ s (claimed rt self job final_attempt s t)
  unfolding claimed
  claimed-EndsStage parse t = process_claimed-EndsStage δ t
  claimed-EndsStage chunk t = chunk_claimed-EndsStage δ
  claimed-EndsStage embed t = embed_claimed-EndsStage δ

  run-Delivers : (s : Stage) (t : IngestionTarget) → Delivers (run rt self job final_attempt s t)
  unfolding run
  run-Delivers s t =
      Triple-bind
        (transition_Triple rt (Tr δ none) (Tr-Stable δ none) job names (starts_at s)
          DocumentStatus.processing none)
        Plain-Raised after_claim
    where
      after_claim :
          (won : Bool)
          → Triple
              (Holds (
                Cas rt
                  (Tr δ none)
                  (Tr-Stable δ none)
                  job
                  names
                  (starts_at s)
                  DocumentStatus.processing
                  none
                  won))
              (if won
                then handle
                    (claimed rt self job final_attempt s t)
                    (on_cancelled rt self job final_attempt (starts_at s))
                    pure
                else pure (skipped job IngestionOutcome.skipped_in_progress))
              (λ _. Holds (Tr δ none))
              Raised
      after_claim true =
          Triple_mono (Holds_mono (λ d (d', h, ran). Trace.claim h s ran)) (λ a w h. h) (λ e w h. h)
            (Triple-handle (claimed-EndsStage s t) (on_cancelled-Raised s)
              (λ r. Triple-pure r (λ w h. h)))
      after_claim false = Triple-pure _ (Holds_mono (λ d h. h.0))

  from_chunked-Delivers :
      (t : IngestionTarget) → Delivers (from_chunked rt self job final_attempt t)
  unfolding from_chunked
  from_chunked-Delivers t = run-Delivers embed t

  from_parsed-Delivers : (t : IngestionTarget) → Delivers (from_parsed rt self job final_attempt t)
  unfolding from_parsed
  from_parsed-Delivers t =
      Triple-bind (run-Delivers chunk t) (λ e w h. h)
        (λ r.
          Triple-if (is_chunked r.outcome) _ _ (λ _. from_chunked-Delivers t)
            (λ _. Triple-pure r (λ w h. h)))

  from_pending-Delivers :
      (t : IngestionTarget) → Delivers (from_pending rt self job final_attempt t)
  unfolding from_pending
  from_pending-Delivers t =
      Triple-bind (run-Delivers parse t) (λ e w h. h)
        (λ r.
          Triple-if (is_parsed r.outcome) _ _ (λ _. from_parsed-Delivers t)
            (λ _. Triple-pure r (λ w h. h)))

  rolled-Delivers : (r : IngestionResult) → Delivers (rolled rt self job final_attempt r)
  rolled-Delivers r =
      Triple-bind (Keeps-rollback rt (Tr δ none)) Plain-Raised (λ _. Triple-pure r (λ w h. h))

  by_status-Delivers :
      (s : DocumentStatus) (t : IngestionTarget)
      → Delivers (by_status rt self job final_attempt s t)
  unfolding by_status
  by_status-Delivers DocumentStatus.processing t = rolled-Delivers _
  by_status-Delivers DocumentStatus.ready t = rolled-Delivers _
  by_status-Delivers DocumentStatus.failed t = rolled-Delivers _
  by_status-Delivers DocumentStatus.pending t = from_pending-Delivers t
  by_status-Delivers DocumentStatus.parsed t = from_parsed-Delivers t
  by_status-Delivers DocumentStatus.chunked t = from_chunked-Delivers t

  exists-Keeps : Keeps (Holds (Tr δ none)) (live_document_exists rt job.document_id)
  unfolding live_document_exists
  exists-Keeps =
      rw (live_document_exists, names.document)
        (Keeps-execute rt (Tr δ none) (Tr-Stable δ none) (select_live rt target)
          (select_live-Reads δ target))

  read_target-Keeps :
      Keeps (Holds (Tr δ none)) (get_ingestion_target_for_user rt job.document_id job.owner_id)
  unfolding get_ingestion_target_for_user
  read_target-Keeps =
      rw (names.document, names.user)
        (Keeps-execute rt (Tr δ none) (Tr-Stable δ none) (select_target rt target owner)
          (select_target-Reads δ target owner))

  on_target-Delivers :
      (t : Option IngestionTarget) → Delivers (on_target rt self job final_attempt t)
  unfolding on_target
  on_target-Delivers none = Triple-bind exists-Keeps Plain-Raised (λ exists. rolled-Delivers _)
  on_target-Delivers (some t) =
      elim (job_disagrees_with job t)
        as (λ m. Delivers (elim m [
          | some mismatch ↦ rolled rt self job final_attempt (rejected job mismatch)
          | none ↦ by_status rt self job final_attempt t.status t
        ])) [ none ↦ by_status-Delivers t.status t | some mismatch ↦ rolled-Delivers _ ]

  on_key-Delivers : (key : Option String) → Delivers (on_key rt self job final_attempt key)
  unfolding on_key
  on_key-Delivers none = Triple-pure _ (λ w h. h)
  on_key-Delivers (some derived) =
      Triple-if (not (str_eq derived job.storage_key)) _ _ (λ _. Triple-pure _ (λ w h. h))
        (λ _. Triple-bind read_target-Keeps Plain-Raised on_target-Delivers)

  pub ingest-Delivers : Delivers (ingest rt self job final_attempt)
  unfolding ingest
  ingest-Delivers = on_key-Delivers (document_storage_key rt job.owner_id job.content_hash)
