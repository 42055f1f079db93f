-- ===== src/Database/Session/Reading.antt =====
-- What a SELECT returns: what it finds in the committed rows, as they then are.
use researchmind_mcp.Prelude.{ℕ, ◌≡◌, refl, Option, none, some, get_or}
use researchmind_mcp.Exec.{Exc, database, cancelled, transient}
use researchmind_mcp.Exec.Keeps.{Plain, Ends, Triple}
use researchmind_mcp.Runtime.{Runtime, Fault, lost, interrupted}
use researchmind_mcp.Database.{Db}
use researchmind_mcp.Database.Session.{
  Session, idle, active, invalid, World, Statement, Reads, execute, sent, run_in,
}
use researchmind_mcp.Database.Session.Rules.{Holds, Stable, Within, Next}

-- The statement reads this from these tables.
abbrev pub Answers : {A : Type 0} → Statement A → A → Db → Type 0
Answers s a d = (now : ℕ) × (s now d ≡ some (a, none))

-- All that a SELECT can raise.
abbrev pub Lost : Exc → Type 0
Lost database = Unit {0}
Lost cancelled = Unit {0}
Lost _ = ⊥

pub Lost-Plain : (e : Exc) → Lost e → Plain e
Lost-Plain (transient r) h = h
Lost-Plain _ h = tt

module _ (rt : Runtime) (I : Db → Type 0) (stable : Stable rt I) {A : Type 0} (s : Statement A)
    (reads : Reads s) where
  answered :
      (f : Option Fault) (now : ℕ) (d : Db) (w : World) (a : A)
      → w.db ≡ d
      → Holds I w
      → s now d ≡ some (a, none)
      → Ends
          (λ b w'. Answers s b w'.db × Holds I w')
          (λ e w'. Lost e × Holds I w')
          (sent f (s now d) w)
  answered (some lost) now d w a p h e = (tt, (h.0, tt))
  answered (some interrupted) now d w a p h e = (tt, (h.0, tt))
  answered none now d w a p h e = rw e ((now, rw p e), h)

  run-Answers :
      (σ : Session) (w : World)
      → w.session ≡ σ
      → Holds I w
      → Ends
          (λ b w'. Answers s b w'.db × Holds I w')
          (λ e w'. Lost e × Holds I w')
          (run_in rt σ s w)
  run-Answers idle w e h =
      let d = rt.others w.tick w.db in
      let (a, r) = reads (rt.now w.tick) d in
      answered (rt.fault w.tick) (rt.now w.tick) d _ a refl (stable w.tick w.db h.0, h.1) r
  run-Answers (active d) w e h = elim (rw e at h.1) [ ]
  run-Answers invalid w e h = (tt, h)

  pub execute_reads :
      Triple
        (Holds I)
        (execute rt s)
        (λ a w. Answers s a w.db × Holds I w)
        (λ e w. Lost e × Holds I w)
  unfolding execute
  execute_reads = record { at = λ w h. run-Answers w.session w refl h }

-- A statement that writes whatever it finds raises only where it is lost.
module _ (rt : Runtime) (I : Db → Type 0) (stable : Stable rt I) {A : Type 0} (s : Statement A)
    (writes : (now : ℕ) (d : Db) → I d → (a : A) × (d' : Db) × (s now d ≡ some (a, some d'))) where
  sent_always :
      (f : Option Fault) (now : ℕ) (d : Db) (w : World)
      → w.db ≡ d
      → I d
      → Ends (λ a. Within I (Next I s I a)) (λ e w'. Lost e × Holds I w') (sent f (s now d) w)
  sent_always (some lost) now d w p h = (tt, (rw p h, tt))
  sent_always (some interrupted) now d w p h = (tt, (rw p h, tt))
  sent_always none now d w p h =
      let (a, d', e) = writes now d h in rw e (rw p h, (d, h, (now, some d', e, refl)))

  run_always :
      (σ : Session) (w : World)
      → w.session ≡ σ
      → Holds I w
      → Ends (λ a. Within I (Next I s I a)) (λ e w'. Lost e × Holds I w') (run_in rt σ s w)
  run_always idle w e h =
      sent_always (rt.fault w.tick) (rt.now w.tick) (rt.others w.tick w.db) _ refl
        (stable w.tick w.db h.0)
  run_always (active d) w e h = elim (rw e at h.1) [ ]
  run_always invalid w e h = (tt, h)

  pub execute_always :
      Triple (Holds I) (execute rt s) (λ a. Within I (Next I s I a)) (λ e w. Lost e × Holds I w)
  unfolding execute
  execute_always = record { at = λ w h. run_always w.session w refl h }

-- What a statement that wrote leaves, from the tables d.
pub wrote_inv :
    {A : Type 0} (a b : A) (d w : Db) (r : Option Db)
    → ◌≡◌ {A = Option (A × Option Db)} (some (a, some w)) (some (b, r))
    → (b ≡ a) × (get_or d r ≡ w)
wrote_inv a b d w (some w') h = (cc, cc)
wrote_inv a b d w none h = cc
