-- ===== src/Ingestion/Recovery/Reaper.antt =====
-- The reaper's transaction, `reap_stale_processing`.
use researchmind_mcp.Prelude.{ℕ, ◌≡◌, ◌∙◌, sym, String, true, some, List, all, ◌⊎◌, inl, inr}
use researchmind_mcp.Models.Reason.{IngestionReason}
use researchmind_mcp.Exec.{Exc, database, cancelled}
use researchmind_mcp.Exec.Keeps.{
  Ends, Ends-mono, Triple, Triple-bind, Triple-handle, Triple-pure, Triple-raise, Triple_mono,
}
use researchmind_mcp.Runtime.{Runtime}
use researchmind_mcp.Database.{Db, check_document}
use researchmind_mcp.Database.Session.{World}
use researchmind_mcp.Database.Session.Rules.{Holds, Stable, Broken, Next}
use researchmind_mcp.Database.Session.Reading.{Lost, Lost-Plain, execute_always, wrote_inv}
use researchmind_mcp.Database.Session.Closing.{Unknown, Broken_plain, commit_within, rollback_only}
use researchmind_mcp.Repositories.Documents.{update_stale, fail_stale_processing}
use researchmind_mcp.Repositories.Documents.Reaping.{Reaped, update_stale-reaps}
use researchmind_mcp.Ingestion.Transitions.{rolling_back}
use researchmind_mcp.Ingestion.Maintenance.{reap_stale_processing}

module _ (rt : Runtime) (I : Db → Type 0) (stable : Stable rt I)
    (checked : (d : Db) → I d → all check_document d.documents ≡ true) (stale_after : ℕ) where
  abbrev reason : IngestionReason
  reason = IngestionReason.stale_processing

  -- The tables are as the reaper left tables that fit I.
  pub record Cleared (ids : List String) (d : Db) : Type 0 where
    pub before : Db
    pub fits : I before
    pub now : ℕ
    pub reaped : Reaped rt stale_after now reason before ids d

  abbrev Updated : List String → Db → Type 0
  Updated = Next I (update_stale rt stale_after reason) I

  cleared : (ids : List String) (d : Db) → Updated ids d → Cleared ids d
  cleared ids d (before, fits, (now, r, e, e')) =
      let (ids', d', run, reaped) =
        update_stale-reaps rt stale_after now reason before (checked before fits) in
      let (same, left) = wrote_inv ids' ids before d' r (sym run ∙ e) in
      record { before = before; fits = fits; now = now; reaped = rw (same, e' ∙ left) reaped }

  -- A COMMIT that raised may have been carried out.
  abbrev pub Unreaped : Exc → World → Type 0
  Unreaped e w = Lost e × (Holds I w ⊎ ((ids : List String) × Holds (Cleared ids) w))

  rolling_back-Lost :
      (J : Db → Type 0) (e : Exc)
      → Lost e
      → Triple
          (Broken J e)
          (rolling_back rt {A = List String} e)
          (λ ids. Holds (Cleared ids))
          (λ e' w. Lost e' × Holds J w)
  unfolding rolling_back
  rolling_back-Lost J cancelled l = Triple-raise cancelled (λ w h. (tt, h))
  rolling_back-Lost J database l =
      Triple-bind
        (Triple_mono (λ w h. h) (λ a w (p, q). (p, rw q tt)) (λ e w (l, p, q). (l, (p, rw q tt)))
          (rollback_only rt J))
        (λ e w h. h) (λ _. Triple-raise database (λ w h. (tt, h)))
  rolling_back-Lost J _ l = elim l [ ]

  abbrev Dropped : Exc → World → Type 0
  Dropped e w = Lost e × (Broken I e w ⊎ ((ids : List String) × Broken (Cleared ids) e w))

  not_reaped :
      (e : Exc)
      → Triple
          (Dropped e)
          (rolling_back rt {A = List String} e)
          (λ ids. Holds (Cleared ids))
          Unreaped
  not_reaped e = record { at = ends }
    where
      ends :
          (w : World)
          → Dropped e w
          → Ends (λ ids. Holds (Cleared ids)) Unreaped (rolling_back rt e w)
      ends w (l, inl h) =
          Ends-mono (rolling_back rt e w) (λ ids w' q. q) (λ e' w' q. (q.0, inl q.1))
            ((rolling_back-Lost I e l).at w h)
      ends w (l, inr (ids, h)) =
          Ends-mono (rolling_back rt e w) (λ ids' w' q. q) (λ e' w' q. (q.0, inr (ids, q.1)))
            ((rolling_back-Lost (Cleared ids) e l).at w h)

  Broken_mono :
      {J K : Db → Type 0}
      → ((d : Db) → J d → K d)
      → (e : Exc) → Lost e
      → (w : World) → Broken J e w
      → Broken K e w
  Broken_mono f cancelled l w h = (f w.db h.0, h.1)
  Broken_mono f database l w h = f w.db h
  Broken_mono f _ l w h = elim l [ ]

  lost_commit :
      (ids : List String) (e : Exc) (w : World) → Unknown I (Updated ids) e w → Dropped e w
  lost_commit ids e w (l, inl h) = (l, inl h)
  lost_commit ids e w (l, inr h) = (l, inr (ids, Broken_mono (cleared ids) e l w h))

  update_always :
      (now : ℕ) (d : Db)
      → I d
      → (ids : List String) × (d' : Db) × (update_stale rt stale_after reason now d
          ≡ some (ids, some d'))
  update_always now d h =
      let (ids, d', run, reaped) = update_stale-reaps rt stale_after now reason d (checked d h) in
      (ids, d', run)

  -- Where the rows of `documents` always meet the CHECK constraints, a pass of the reaper that returns has committed its UPDATE to the rows as others had left them: exactly the documents with a stale claim have failed, they are, in order, the ones it lists, every other row is as before, and no claim is stale any more. It raises nothing but for a lost connection or a cancellation, and then either nothing of this is committed, or all of it.
  pub reap_stale_processing-Cleared :
      Triple (Holds I) (reap_stale_processing rt stale_after) (λ ids. Holds (Cleared ids)) Unreaped
  unfolding reap_stale_processing fail_stale_processing
  reap_stale_processing-Cleared =
      Triple-handle
        (Triple-bind (execute_always rt I stable (update_stale rt stale_after reason) update_always)
          (λ e w h. (h.0, inl (Broken_plain rt I e w (Lost-Plain e h.0) h.1)))
          (λ ids.
            Triple-bind (commit_within rt I (Updated ids)) (lost_commit ids)
              (λ _. Triple-pure ids (λ w h. (cleared ids w.db h.0, h.1)))))
        not_reaped (λ ids. Triple-pure ids (λ w h. h))
