-- ===== src/Ingestion/Refines.antt =====
-- The service implements the lifecycle of Lifecycle.antt: what this file and its children share.
pub mod Transition
pub mod Endings
pub mod Stores
pub mod Outputs
pub mod Stages
pub mod Embed
pub mod Vectors
pub mod Whole
use researchmind_mcp.Prelude.{ℕ, ◌≡◌, Bool, true, false, Option, none, some}
use researchmind_mcp.Exec.{Exc, cancelled, transient, Exec, raise, ◌>>◌, pure, handle}
use researchmind_mcp.Exec.Keeps.{
  Plain, Triple, Triple-raise, Triple-bind, Triple-handle, Triple-pure,
}
use researchmind_mcp.Runtime.{Runtime}
use researchmind_mcp.Database
use researchmind_mcp.Database.{Db}
use researchmind_mcp.Database.Session.{World, M, rollback, idle, active, invalid}
use researchmind_mcp.Database.Session.Rules.{Holds, Broken}
use researchmind_mcp.Database.Session.Closing.{rollback_settles}
use researchmind_mcp.Ingestion.Transitions.{rolling_back}

module _ {I J : Db → Type 0} (h : (d : Db) → I d → J d) where
  pub Holds_mono : (w : World) → Holds I w → Holds J w
  Holds_mono w p = (h w.db p.0, p.1)

module _ (rt : Runtime) (I : Db → Type 0) where
  -- What goes wrong inside a transaction before it is committed leaves nothing of it.
  rolling_back_Triple :
      {A : Type 0} {Q : A → World → Type 0} (e : Exc)
      → Triple (Broken I e) (rolling_back rt {A = A} e) Q (λ e' w. Plain e' × Holds I w)
  unfolding rolling_back
  rolling_back_Triple cancelled = Triple-raise cancelled (λ w h. (tt, h))
  rolling_back_Triple (transient r) = record { at = λ w h. elim h [ ] }
  rolling_back_Triple e =
      Triple-bind (rollback_settles rt I) (λ e' w h. h) (λ _. Triple-raise e (λ w h. (tt, h)))

  pub transaction :
      {A : Type 0} (K : A → Db → Type 0) {body : M A}
      → Triple (Holds I) body (λ a. Holds (K a)) (Broken I)
      → Triple
          (Holds I)
          (handle body (rolling_back rt) pure)
          (λ a. Holds (K a))
          (λ e w. Plain e × Holds I w)
  transaction K t = Triple-handle t rolling_back_Triple (λ a. Triple-pure a (λ w h. h))
