-- ===== src/Database/Session/Naming.antt =====
-- Flushes whose violated constraint the driver names, as the first statement of a transaction.
use researchmind_mcp.Exec.{Exc, Result, ok, err, integrity}
use researchmind_mcp.Exec.Keeps.{Ends, Triple}
use researchmind_mcp.Runtime.{Runtime}
use researchmind_mcp.Database.{Db}
use researchmind_mcp.Database.Session.{
  World, Statement, Writes, execute, execute_naming, renamed, seen_in,
}
use researchmind_mcp.Database.Session.Rules.{
  Holds, Within, Broken, Found, Next, Stable, execute_first,
}

-- An exception after which the transaction is to be rolled back.
abbrev pub Settling : (Db → Type 0) → Exc → Type 0
Settling I e = (w : World) → I w.db → Broken I e w

module _ (rt : Runtime) (I : Db → Type 0) {A : Type 0} where
  renamed-Ends :
      (Q : A → World → Type 0) (e : Exc) (r : Result A × World)
      → Settling I e
      → Ends Q (Broken I) r
      → Ends Q (Broken I) (renamed rt e r)
  renamed-Ends Q e (ok a, w) settling h = h
  renamed-Ends Q e (err integrity, w) settling h = settling w h
  renamed-Ends Q e (err _, w) settling h = h

  pub execute_naming_first :
      Stable rt I
      → (violated : Db → Exc) (s : Statement A) → ((d : Db) → Settling I (violated d))
      → Writes s
      → Triple
          (Holds I)
          (execute_naming rt violated s)
          (λ a. Within (Found I s a) (Next I s I a))
          (Broken I)
  unfolding execute_naming
  execute_naming_first stable violated s settling writes = record {
    at = λ w h.
        renamed-Ends _ (violated (seen_in rt w.session w)) (execute rt s w)
          (settling (seen_in rt w.session w)) ((execute_first rt I stable s writes).at w h);
  }
