-- ===== src/Ingestion/Guarantees.antt =====
-- What every delivery, `IngestionService.ingest`, guarantees, whatever the database, the
-- collaborators and other workers do meanwhile.
use researchmind_mcp.Prelude.{ℕ, ◌≡◌, ◌≢◌, Bool, true, false, Option, none}
use researchmind_mcp.Models.{IngestionJob}
use researchmind_mcp.Models.Reason.{IngestionReason}
use researchmind_mcp.Exec.{Exc, transient, err}
use researchmind_mcp.Exec.Keeps.{Ends, Ends-mono}
use researchmind_mcp.Runtime.{Runtime}
use researchmind_mcp.Database.{Db}
use researchmind_mcp.Database.Session.{World}
use researchmind_mcp.Database.Session.Rules.{Holds, Quiet}
use researchmind_mcp.Lifecycle.{Stage, Trace}
use researchmind_mcp.Lifecycle.Isolation.{foreign, Bystanders, Trace-foreign}
use researchmind_mcp.Lifecycle.Claims.{settled, Trace-settled}
use researchmind_mcp.Ingestion.{IngestionService}
use researchmind_mcp.Ingestion.Delivery.{ingest}
use researchmind_mcp.Ingestion.Refines.Transition.{Setting}
use researchmind_mcp.Ingestion.Refines.Endings.{Delivery, Tr}
use researchmind_mcp.Ingestion.Refines.Whole.{Raised, ingest-Delivers}

module _ (rt : Runtime) (self : IngestionService) (job : IngestionJob) (target owner : ℕ)
    (names : Setting rt job target owner) (final_attempt : Bool) (w : World)
    (fresh : Quiet w.session) where
  abbrev pub delivery : Delivery
  delivery = record {
    rt = rt;
    self = self;
    job = job;
    target = target;
    owner = owner;
    names = names;
    final_attempt = final_attempt;
    before = w.db;
  }

  -- Where no COMMIT whose reply does not come has been carried out, a delivery to a session that
  -- has nothing open commits only steps of the lifecycle. Where it
  -- returns, it holds no claim and leaves nothing open; where it asks for a retry, the same, and
  -- the attempt is not the final one; with any other exception, it may still hold a claim.
  pub ingest_refines :
      Ends (λ r. Holds (Tr delivery none)) (Raised delivery) (ingest rt self job final_attempt w)
  ingest_refines = (ingest-Delivers delivery).at w (Trace.start, fresh)

  -- What every trace leads to is what the delivery leads to.
  along :
      (P : Db → Type 0)
      → ((c : Option Stage) (d : Db) → Tr delivery c d → P d)
      → Ends (λ r w'. P w'.db) (λ e w'. P w'.db) (ingest rt self job final_attempt w)
  along P h =
      Ends-mono (ingest rt self job final_attempt w) (λ r w' t. h none w'.db t.0) raised
        ingest_refines
    where
      raised : (e : Exc) (w' : World) → Raised delivery e w' → P w'.db
      raised (transient r) w' t = h none w'.db t.1.0
      raised _ w' t = h t.0.0 w'.db t.0.1

  -- If other transactions leave the rows of other documents alone, and no COMMIT whose reply does
  -- not come has been carried out, then however a delivery ends,
  -- every document of another id or user, and every page and chunk of another document, is as
  -- before.
  pub ingest_isolates :
      Bystanders rt target owner self.model_id self.dimension w.db
      → Ends
          (λ r w'. foreign target owner w'.db ≡ foreign target owner w.db)
          (λ e w'. foreign target owner w'.db ≡ foreign target owner w.db)
          (ingest rt self job final_attempt w)
  ingest_isolates keep =
      along (λ d. foreign target owner d ≡ foreign target owner w.db)
        (λ c d t. Trace-foreign rt target owner self.model_id self.dimension w.db keep t)

  -- If the job's document is `ready` or `failed`, other transactions do not take it out of these,
  -- and no COMMIT whose reply does not come has been carried out, then however a delivery ends, the document is `ready` or `failed`.
  pub ingest_terminal :
      settled target owner w.db.documents ≡ true
      → ((t : ℕ) (d : Db)
          → settled target owner d.documents ≡ true
          → settled target owner (rt.others t d).documents ≡ true)
      → Ends
          (λ r w'. settled target owner w'.db.documents ≡ true)
          (λ e w'. settled target owner w'.db.documents ≡ true)
          (ingest rt self job final_attempt w)
  ingest_terminal done keep =
      along (λ d. settled target owner d.documents ≡ true)
        (λ c d t. (Trace-settled rt target owner self.model_id self.dimension w.db done keep t).1)

-- The final attempt never asks for a retry.
pub ingest_final :
    (rt : Runtime) (self : IngestionService) (job : IngestionJob) (target owner : ℕ)
    → Setting rt job target owner
    → (w w' : World) → Quiet w.session
    → (reason : IngestionReason) → ingest rt self job true w ≢ (err (transient reason), w')
ingest_final rt self job target owner names w w' fresh reason e =
    let (last, h) : (true ≡ false)
        × Holds (Tr (delivery rt self job target owner names true w fresh) none) w' =
      rw e at (ingest_refines rt self job target owner names true w fresh) in
    cc
