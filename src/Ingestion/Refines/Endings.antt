-- ===== src/Ingestion/Refines/Endings.antt =====
-- How the code under a claim ends: it gives the claim up when it returns or asks for a retry, and
-- still holds it where it was cancelled.
use researchmind_mcp.Prelude.{ℕ, ◌≡◌, Bool, true, false, Option, none, some}
use researchmind_mcp.Models.{DocumentStatus, IngestionJob, IngestionResult}
use researchmind_mcp.Models.Reason.{IngestionReason}
use researchmind_mcp.Exec.{Exc, cancelled, transient, pure, raise, handle, ◌>>=◌}
use researchmind_mcp.Exec.Keeps.{
  Plain, Triple, Keeps, Triple-pure, Triple-raise, Triple-if, Triple-handle, Triple-bind,
  Triple_mono,
}
use researchmind_mcp.Runtime.{Runtime}
use researchmind_mcp.Lifecycle.{Stage, starts_at, Trace}
use researchmind_mcp.Database.{Db}
use researchmind_mcp.Database.Session.{World, M}
use researchmind_mcp.Database.Session.Rules.{Holds, Stable}
use researchmind_mcp.Ingestion.{IngestionService}
use researchmind_mcp.Ingestion.Transitions.{on_exception, claim_lost, fail, retry_later}
use researchmind_mcp.Ingestion.Refines.{Holds_mono}
use researchmind_mcp.Ingestion.Refines.Transition.{Setting, Cas, transition_Triple}

-- One delivery of a job to a service.
pub record Delivery : Type 0 where
  pub rt : Runtime
  pub self : IngestionService
  pub job : IngestionJob
  pub target : ℕ
  pub owner : ℕ
  pub names : Setting rt job target owner
  pub final_attempt : Bool
  pub before : Db

module _ (δ : Delivery) where
  open δ use {rt, self, job, target, owner, names, final_attempt, before}

  -- Where the delivery may have led, holding this claim; and holding any.
  abbrev pub Tr : Option Stage → Db → Type 0
  Tr = Trace rt target owner self.model_id self.dimension before

  abbrev pub Reached : Db → Type 0
  Reached d = (c : Option Stage) × Tr c d

  pub Tr-Stable : (c : Option Stage) → Stable rt (Tr c)
  Tr-Stable c t d h = Trace.elsewhere h t

  abbrev pub Left : Stage → Exc → World → Type 0
  Left s cancelled w = Holds (Tr (some s)) w
  Left s (transient r) w = (final_attempt ≡ false) × Holds (Tr none) w
  Left s e w = Holds Reached w

  abbrev pub EndsStage : Stage → M IngestionResult → Type 0
  EndsStage s m = Triple (Holds (Tr (some s))) m (λ _. Holds (Tr none)) (Left s)

  module _ (s : Stage) where
    pub Plain-Left : (e : Exc) (w : World) → Plain e × Holds (Tr (some s)) w → Left s e w
    Plain-Left cancelled w h = h.1
    Plain-Left (transient r) w h = elim h.0 [ ]
    Plain-Left _ w h = ((some s, h.1.0), h.1.1)

    pub raise-EndsStage : (e : Exc) → Plain e → EndsStage s (raise e)
    raise-EndsStage e p = Triple-raise e (λ w h. Plain-Left e w (p, h))

    pub handle-EndsStage :
        {A : Type 0} {m : M A} {h : Exc → M IngestionResult} {k : A → M IngestionResult}
        → Keeps (Holds (Tr (some s))) m
        → ((e : Exc) → Plain e → EndsStage s (h e))
        → ((a : A) → EndsStage s (k a))
        → EndsStage s (handle m h k)
    handle-EndsStage tm th tk =
        Triple-handle tm (λ e. record { at = λ w p. (th e p.0).at w p.1 }) tk

    pub bind-EndsStage :
        {A : Type 0} {m : M A} {k : A → M IngestionResult}
        → Keeps (Holds (Tr (some s))) m
        → ((a : A) → EndsStage s (k a))
        → EndsStage s (m >>= k)
    bind-EndsStage tm tk = Triple-bind tm Plain-Left tk

    -- A transaction that gives the claim up if it is committed.
    abbrev pub StoresStage : M Bool → Type 0
    StoresStage m =
        Triple (Holds (Tr (some s))) m (λ _. Holds (Tr none))
          (λ e w. Plain e × Holds (Tr (some s)) w)

    pub store-EndsStage :
        {m : M Bool} {h : Exc → M IngestionResult} (result : Bool → IngestionResult)
        → StoresStage m
        → ((e : Exc) → Plain e → EndsStage s (h e))
        → EndsStage s (handle m h (λ stored. pure (result stored)))
    store-EndsStage result tm th =
        Triple-handle tm (λ e. record { at = λ w p. (th e p.0).at w p.1 })
          (λ stored. Triple-pure (result stored) (λ w h. h))

    pub on_exception-EndsStage :
        {m : M IngestionResult}
        → EndsStage s m
        → (e : Exc) → Plain e
        → EndsStage s (on_exception m e)
    unfolding on_exception
    on_exception-EndsStage t cancelled p = raise-EndsStage cancelled p
    on_exception-EndsStage t _ p = t

    gave_up :
        (reason : IngestionReason) (moved : Bool) (d : Db)
        → Cas rt
            (Tr (some s))
            (Tr-Stable (some s))
            job
            names
            DocumentStatus.processing
            DocumentStatus.failed
            (some reason)
            moved
            d
        → Tr none d
    gave_up reason true d (d', h, ran) = Trace.fail h reason ran
    gave_up reason false d (h, missed) = Trace.lose h missed

    pub fail-EndsStage : (reason : IngestionReason) → EndsStage s (fail rt job reason)
    unfolding fail
    fail-EndsStage reason =
        Triple-bind
          (transition_Triple rt (Tr (some s)) (Tr-Stable (some s)) job names
            DocumentStatus.processing DocumentStatus.failed (some reason))
          Plain-Left (λ moved. Triple-pure _ (Holds_mono (gave_up reason moved)))

    pub let_go :
        (moved : Bool) (d : Db)
        → Cas rt
            (Tr (some s))
            (Tr-Stable (some s))
            job
            names
            DocumentStatus.processing
            (starts_at s)
            none
            moved
            d
        → Tr none d
    let_go true d (d', h, ran) = Trace.release h ran
    let_go false d (h, missed) = Trace.lose h missed

    pub retry_later-EndsStage :
        (reason : IngestionReason)
        → EndsStage s (retry_later rt job reason final_attempt (starts_at s))
    unfolding retry_later
    retry_later-EndsStage reason =
        Triple-if final_attempt _ _ (λ _. fail-EndsStage reason)
          (λ more.
            Triple-bind
              (transition_Triple rt (Tr (some s)) (Tr-Stable (some s)) job names
                DocumentStatus.processing (starts_at s) none)
              Plain-Left
              (λ moved.
                Triple_mono (Holds_mono (let_go moved)) (λ a w h. h) (λ e w h. h)
                  (Triple-if moved _ _ (λ _. Triple-raise (transient reason) (λ w h. (more, h)))
                    (λ _. Triple-pure (claim_lost job) (λ w h. h)))))
