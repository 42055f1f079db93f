-- ===== src/Ingestion/Refines/Transition.antt =====
-- The committed compare-and-set of `_transition`, over any property of the tables that what
-- others commit keeps.
use researchmind_mcp.Prelude.{ℕ, ◌≡◌, Bool, true, false, Option, none, some, any}
use researchmind_mcp.Models.{DocumentStatus, IngestionJob}
use researchmind_mcp.Models.Reason.{IngestionReason}
use researchmind_mcp.Exec.Keeps.{Plain, Triple, Triple-pure, Triple-bind, Triple_mono}
use researchmind_mcp.Runtime.{Runtime}
use researchmind_mcp.Database.{Db}
use researchmind_mcp.Database.Session.Rules.{
  Holds, Within, Broken, Stable, Found, Next, execute_first,
}
use researchmind_mcp.Database.Session.Closing.{commit_known}
use researchmind_mcp.Repositories.Documents.{transition_status_for_user, update_status, stands_at}
use researchmind_mcp.Repositories.Documents.CompareAndSet.{
  update_status-Writes, update_status_missed,
}
use researchmind_mcp.Ingestion.Transitions.{transition}
use researchmind_mcp.Ingestion.Refines.{transaction, Holds_mono}

-- The job's identifiers are those of a document and a user, and no COMMIT whose reply does not
-- come has been carried out.
pub record Setting (rt : Runtime) (job : IngestionJob) (target owner : ℕ) : Type 0 where
  pub document : rt.parse_uuid job.document_id ≡ some target
  pub user : rt.parse_uuid job.owner_id ≡ some owner
  pub known : (t : ℕ) → rt.landed t ≡ false

module _ (rt : Runtime) (I : Db → Type 0) (stable : Stable rt I) (job : IngestionJob)
    {target owner : ℕ} (names : Setting rt job target owner) where
  module _ (expected new : DocumentStatus) (reason : Option IngestionReason)
      (count : Option ℕ) where
    abbrev pub FirstMove : Type 0
    FirstMove =
        Triple (Holds I)
          (transition_status_for_user rt job.document_id job.owner_id expected new reason count)
          (λ moved.
            Within (Found I (update_status target owner expected new reason count) moved)
              (Next I (update_status target owner expected new reason count) I moved))
          (Broken I)

    pub cas_first : FirstMove
    unfolding transition_status_for_user
    cas_first =
        rw (names.document, names.user)
          (execute_first rt I stable (update_status target owner expected new reason count)
            (update_status-Writes target owner expected new reason count))

  -- What a compare-and-set leads to.
  abbrev pub Cas : DocumentStatus → DocumentStatus → Option IngestionReason → Bool → Db → Type 0
  Cas expected new reason true d =
      Next I (update_status target owner expected new reason none) I true d
  Cas expected new reason false d =
      I d × (any (stands_at target owner expected) d.documents ≡ false)

  Cas-result :
      (expected new : DocumentStatus) (reason : Option IngestionReason) (moved : Bool) (d : Db)
      → Next I (update_status target owner expected new reason none) I moved d
      → Cas expected new reason moved d
  Cas-result expected new reason true d h = h
  Cas-result expected new reason false d (d', hd, ran) =
      let (same, missed) = update_status_missed target owner expected new reason none ran in
      rw same (hd, missed)

  pub transition_Triple :
      (expected new : DocumentStatus) (reason : Option IngestionReason)
      → Triple
          (Holds I)
          (transition rt job expected new reason)
          (λ moved. Holds (Cas expected new reason moved))
          (λ e w. Plain e × Holds I w)
  unfolding transition
  transition_Triple expected new reason = transaction rt I (Cas expected new reason) (
      Triple-bind (cas_first expected new reason none) (λ e w h. h)
        (λ moved.
          Triple-bind
            (Triple_mono (λ w h. (h.0.0, h.1)) (λ a w h. h) (λ e w h. h)
              (commit_known rt I names.known _))
            (λ e w h. h)
            (λ _. Triple-pure moved (Holds_mono (Cas-result expected new reason moved)))))
