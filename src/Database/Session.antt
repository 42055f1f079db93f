-- ===== src/Database/Session.antt =====
-- An `AsyncSession` over PostgreSQL at READ COMMITTED, its default (backend/db/session.py): a
-- statement sees what others have committed by then, until the transaction has written. From
-- there to `commit` or `rollback` others are taken to wait: each transaction of this code that
-- writes begins with the UPDATE that locks the document's row. A statement that fails leaves the
-- session unusable until `rollback`, as SQLAlchemy documents.
pub mod Rules
pub mod Closing
pub mod Reading
pub mod Naming
use researchmind_mcp.Prelude.{
  ℕ, String, suc, List, Option, none, some, get_or, ◌≡◌, ◌⊎◌, if◌then◌else◌,
}
use researchmind_mcp.Models.{Bytes, VectorRecord}
use researchmind_mcp.Exec.{Exec, Exc, Result, ok, err, database, integrity, cancelled, other}
use researchmind_mcp.Runtime.{
  Runtime, Fault, lost, interrupted, Reply, reply, refusal, crash, cancel,
}
use researchmind_mcp.Database.{Db}

pub data Session : Type 0 where
  -- nothing written since the last `commit` or `rollback`
  idle : Session
  -- what this transaction has written is not committed
  active : Db → Session
  invalid : Session

-- The committed rows, this session, the vector store, the stored objects, and the number of waits so far.
pub record World : Type 0 where
  pub db : Db
  pub session : Session
  pub points : List VectorRecord
  pub blobs : List (String × Bytes)
  pub tick : ℕ

abbrev pub M : Type 0 → Type 0
M A = Exec World A

abbrev pub fault_exc : Fault → Exc
fault_exc lost = database
fault_exc interrupted = cancelled

-- A statement: it reads (`none` beside its result) or rewrites the tables, or it violates a
-- constraint (`none` alone).
abbrev pub Statement : Type 0 → Type 0
Statement A = ℕ → Db → Option (A × Option Db)

-- The statement can take the tables d to d', with this result.
abbrev pub Ran : {A : Type 0} → Statement A → Db → A → Db → Type 0
Ran s d a d' = (now : ℕ) × (r : Option Db) × (s now d ≡ some (a, r)) × (d' ≡ get_or d r)

-- It changes nothing; it violates a constraint or writes.
abbrev pub Reads : {A : Type 0} → Statement A → Type 0
Reads {A} s = (now : ℕ) (d : Db) → (a : A) × (s now d ≡ some (a, none))

abbrev pub Writes : {A : Type 0} → Statement A → Type 0
Writes {A} s =
    (now : ℕ) (d : Db) → (s now d ≡ none) ⊎ ((a : A) × (d' : Db) × (s now d ≡ some (a, some d')))

module _ {A : Type 0} where
  abbrev pub finish : Option (A × Option Db) → World → Result A × World
  finish none w = (err integrity, record w { session = invalid })
  finish (some (a, none)) w = (ok a, w)
  finish (some (a, some d)) w = (ok a, record w { session = active d })

  abbrev pub sent : Option Fault → Option (A × Option Db) → World → Result A × World
  sent none outcome w = finish outcome w
  sent (some f) outcome w = (err (fault_exc f), record w { session = invalid })

module _ (rt : Runtime) where
  module _ {A : Type 0} where
    abbrev pub run_in : Session → Statement A → World → Result A × World
    run_in idle s w =
        let d : Db = rt.others w.tick w.db in
        sent (rt.fault w.tick) (s (rt.now w.tick) d) (record w { db = d; tick = suc w.tick })
    run_in (active d) s w =
        sent (rt.fault w.tick) (s (rt.now w.tick) d) (record w { tick = suc w.tick })
    run_in invalid s w = (err database, w)

    -- session.execute, session.flush
    unfoldable pub execute : Statement A → M A
    execute s w = run_in w.session s w

  -- The tables that a statement would find.
  abbrev pub seen_in : Session → World → Db
  seen_in idle w = rt.others w.tick w.db
  seen_in (active d) w = d
  seen_in invalid w = w.db

  module _ {A : Type 0} where
    abbrev pub renamed : Exc → Result A × World → Result A × World
    renamed e (err integrity, w) = (err e, w)
    renamed e r = r

    -- A flush whose violated constraint the driver names.
    unfoldable pub execute_naming : (Db → Exc) → Statement A → M A
    unfolding execute
    execute_naming violated s w = renamed (violated (seen_in w.session w)) (execute s w)

  -- Where the reply to a COMMIT does not come, it may have been carried out.
  abbrev pub committed : Option Fault → Db → World → Result (Unit {0}) × World
  committed none d w = (ok tt, record w { db = d; session = idle })
  committed (some f) d w =
      (err (fault_exc f), record w { db = if rt.landed w.tick then d else w.db; session = invalid })

  abbrev pub commit_in : Session → World → Result (Unit {0}) × World
  commit_in idle w = (ok tt, w)
  commit_in invalid w = (err database, w)
  commit_in (active d) w = committed (rt.fault w.tick) d (record w { tick = suc w.tick })

  unfoldable pub commit : M (Unit {0})
  commit w = commit_in w.session w

  abbrev pub rolled_back : Option Fault → Result (Unit {0})
  rolled_back none = ok tt
  rolled_back (some f) = err (fault_exc f)

  -- The server drops the transaction also where the call raises.
  unfoldable pub rollback : M (Unit {0})
  rollback w = (rolled_back (rt.fault w.tick), record w { session = idle; tick = suc w.tick })

-- An awaited call of a collaborator, outside every transaction.
module _ {E A : Type 0} where
  abbrev pub replied : (E → Exc) → Reply E A → Result A
  replied exc (reply a) = ok a
  replied exc (refusal e) = err (exc e)
  replied exc crash = err other
  replied exc cancel = err cancelled

  unfoldable pub call : (E → Exc) → (ℕ → Reply E A) → M A
  call exc ask w = (replied exc (ask w.tick), record w { tick = suc w.tick })

module _ (rt : Runtime) {A : Type 0} where
  abbrev pub joined : Option Fault → A → Result A
  joined (some interrupted) a = err cancelled
  joined _ a = ok a

  -- anyio.to_thread.run_sync: the task may be cancelled while the thread works.
  unfoldable pub run_sync : A → M A
  run_sync a w = (joined (rt.fault w.tick) a, record w { tick = suc w.tick })
