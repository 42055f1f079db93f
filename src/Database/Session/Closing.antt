-- ===== src/Database/Session/Closing.antt =====
-- Rules for `commit`, `rollback`, the calls of collaborators, and reads inside a transaction.
use researchmind_mcp.Prelude.{
  ℕ, suc, ◌≡◌, refl, ◌∙◌, get_or, Option, none, some, Bool, true, false, ◌⊎◌, inl, inr,
  if◌then◌else◌,
}
use researchmind_mcp.Exec.{Exc, cancelled, transient, other, finally}
use researchmind_mcp.Exec.Keeps.{
  Plain, Ends, Triple, Keeps, Triple_mono, Triple-handle, Triple-pure, Triple-raise, Triple-given,
}
use researchmind_mcp.Runtime.{
  Runtime, Fault, lost, interrupted, Reply, reply, refusal, crash, cancel,
}
use researchmind_mcp.Database.{Db}
use researchmind_mcp.Database.Session.{
  M, Session, idle, active, invalid, World, Statement, Ran, Reads, execute, commit, rollback, call,
  run_sync, commit_in, committed, rolled_back, replied, joined, fault_exc,
}
use researchmind_mcp.Database.Session.Reading.{Lost}
use researchmind_mcp.Database.Session.Rules.{
  Broken, Holds, Quiet, Next, Within, Written, execute_next, faulted,
}

-- What a COMMIT that raised leaves: the committed rows as they were, or what was written.
abbrev pub Unknown : (Db → Type 0) → (Db → Type 0) → Exc → World → Type 0
Unknown I J e w = Lost e × (Broken I e w ⊎ Broken J e w)

module _ (rt : Runtime) (I : Db → Type 0) where
  landed-Ends :
      (J : Db → Type 0) (f : Fault) (b : Bool) (d : Db) (w : World)
      → I w.db
      → J d
      → Unknown I J (fault_exc f) (record w { db = if b then d else w.db; session = invalid })
  landed-Ends J lost true d w h p = (tt, inr p)
  landed-Ends J lost false d w h p = (tt, inl h)
  landed-Ends J interrupted true d w h p = (tt, inr (p, tt))
  landed-Ends J interrupted false d w h p = (tt, inl (h, tt))

  committed-Ends :
      (J : Db → Type 0) (f : Option Fault) (d : Db) (w : World)
      → I w.db
      → J d
      → Ends (λ _. Holds J) (Unknown I J) (committed rt f d w)
  committed-Ends J none d w h p = (p, tt)
  committed-Ends J (some f) d w h p = landed-Ends J f (rt.landed w.tick) d w h p

  commit_Ends :
      (J : Db → Type 0) (σ : Session) (w : World)
      → I w.db
      → Written J σ
      → Ends (λ _. Holds J) (Unknown I J) (commit_in rt σ w)
  commit_Ends J idle w h p = elim p [ ]
  commit_Ends J (active d) w h p = committed-Ends J (rt.fault w.tick) d _ h p
  commit_Ends J invalid w h p = (tt, inl h)

  -- What was written is what is committed, and may be where the COMMIT raises.
  pub commit_within :
      (J : Db → Type 0) → Triple (Within I J) (commit rt) (λ _. Holds J) (Unknown I J)
  unfolding commit
  commit_within J = record { at = λ w h. commit_Ends J w.session w h.0 h.1 }

  commit_same_Ends : (e : Exc) (w : World) → Unknown I I e w → Broken I e w
  commit_same_Ends e w (l, inl h) = h
  commit_same_Ends e w (l, inr h) = h

  pub commit_same : Triple (Within I I) (commit rt) (λ _. Holds I) (Broken I)
  commit_same = Triple_mono (λ w h. h) (λ a w h. h) commit_same_Ends (commit_within I)

  module _ (known : (t : ℕ) → rt.landed t ≡ false) where
    known-Ends :
        (J : Db → Type 0) (f : Option Fault) (d : Db) (w : World)
        → I w.db
        → J d
        → Ends (λ _. Holds J) (Broken I) (committed rt f d w)
    known-Ends J none d w h p = (p, tt)
    known-Ends J (some f) d w h p = rw (known w.tick) (faulted I f w h)

    known_in :
        (J : Db → Type 0) (σ : Session) (w : World)
        → I w.db
        → Written J σ
        → Ends (λ _. Holds J) (Broken I) (commit_in rt σ w)
    known_in J idle w h p = elim p [ ]
    known_in J (active d) w h p = known-Ends J (rt.fault w.tick) d _ h p
    known_in J invalid w h p = h

    -- Where a COMMIT that raises is never carried out.
    pub commit_known : (J : Db → Type 0) → Triple (Within I J) (commit rt) (λ _. Holds J) (Broken I)
    unfolding commit
    commit_known J = record { at = λ w h. known_in J w.session w h.0 h.1 }

  rolled_Ends :
      (f : Option Fault) (w : World)
      → I w.db
      → Ends
          (λ (_ : Unit {0}). Holds I)
          (λ e w'. Plain e × Holds I w')
          (rolled_back rt f, record w { session = idle; tick = suc w.tick })
  rolled_Ends none w h = (h, tt)
  rolled_Ends (some lost) w h = (tt, (h, tt))
  rolled_Ends (some interrupted) w h = (tt, (h, tt))

  -- Whatever was written is dropped.
  pub rollback_settles :
      Triple (λ w. I w.db) (rollback rt) (λ _. Holds I) (λ e w. Plain e × Holds I w)
  unfolding rollback
  rollback_settles = record { at = λ w h. rolled_Ends (rt.fault w.tick) w h }

  pub Keeps-rollback : Keeps (Holds I) (rollback rt)
  Keeps-rollback = record { at = λ w h. rollback_settles.at w h.0 }

  pub Keeps-run_sync : {A : Type 0} (a : A) → Keeps (Holds I) (run_sync rt a)
  unfolding run_sync
  Keeps-run_sync a = record { at = λ w h. ends (rt.fault w.tick) w h }
    where
      ends :
          (f : Option Fault) (w : World)
          → Holds I w
          → Ends
              (λ _. Holds I)
              (λ e w'. Plain e × Holds I w')
              (joined rt f a, record w { tick = suc w.tick })
      ends none w h = h
      ends (some lost) w h = h
      ends (some interrupted) w h = (tt, h)

  -- Calls of collaborators leave the database alone.
  pub Keeps-call :
      {E A : Type 0} (exc : E → Exc) (ask : ℕ → Reply E A)
      → ((e : E) → Plain (exc e))
      → Keeps (Holds I) (call exc ask)
  unfolding call
  Keeps-call {E} {A} exc ask plain = record { at = λ w h. ends (ask w.tick) w h }
    where
      ends :
          (r : Reply E A) (w : World)
          → Holds I w
          → Ends
              (λ _. Holds I)
              (λ e w'. Plain e × Holds I w')
              (replied exc r, record w { tick = suc w.tick })
      ends (reply a) w h = h
      ends (refusal e) w h = (plain e, h)
      ends crash w h = (tt, h)
      ends cancel w h = (tt, h)

  -- What came back was replied, and what was raised is one of these.
  pub call_replied :
      {E A : Type 0} (exc : E → Exc) (ask : ℕ → Reply E A) (X : Exc → Type 0)
      → ((e : E) → X (exc e))
      → X other
      → X cancelled
      → Triple
          (Holds I)
          (call exc ask)
          (λ a w. ((t : ℕ) × (ask t ≡ reply a)) × Holds I w)
          (λ e w. X e × Holds I w)
  unfolding call
  call_replied {E} {A} exc ask X refused crashed stopped = record {
    at = λ w h. ends w.tick (ask w.tick) w refl h;
  }
    where
      ends :
          (t : ℕ) (r : Reply E A) (w : World)
          → ask t ≡ r
          → Holds I w
          → Ends
              (λ a w'. ((t : ℕ) × (ask t ≡ reply a)) × Holds I w')
              (λ e w'. X e × Holds I w')
              (replied exc r, record w { tick = suc w.tick })
      ends t (reply a) w e h = ((t, e), h)
      ends t (refusal e') w e h = (refused e', h)
      ends t crash w e h = (crashed, h)
      ends t cancel w e h = (stopped, h)

  rolled_only :
      (f : Option Fault) (w : World)
      → I w.db
      → Ends
          (λ (_ : Unit {0}) w'. I w'.db × (w'.session ≡ idle))
          (λ e w'. Lost e × I w'.db × (w'.session ≡ idle))
          (rolled_back rt f, record w { session = idle; tick = suc w.tick })
  rolled_only none w h = (h, refl)
  rolled_only (some lost) w h = (tt, h, refl)
  rolled_only (some interrupted) w h = (tt, h, refl)

  -- A rollback raises nothing but a lost connection or the cancellation, and closes the
  -- transaction in any case.
  pub rollback_only :
      Triple
        (λ w. I w.db)
        (rollback rt)
        (λ _ w. I w.db × (w.session ≡ idle))
        (λ e w. Lost e × I w.db × (w.session ≡ idle))
  unfolding rollback
  rollback_only = record { at = λ w h. rolled_only (rt.fault w.tick) w h }

  idle-Holds : (w : World) → I w.db → w.session ≡ idle → Holds I w
  idle-Holds w h e = (h, rw e tt)

  pub Broken_plain : (e : Exc) (w : World) → Plain e → Holds I w → Broken I e w
  Broken_plain cancelled w p h = h
  Broken_plain (transient r) w p h = p
  Broken_plain _ w p h = h.0

module _ {A : Type 0} where
  -- A SELECT leaves the tables as they are.
  read_same :
      (o : Option (A × Option Db)) (a b : A) (d : Db) (r : Option Db)
      → o ≡ some (a, none)
      → o ≡ some (b, r)
      → get_or d r ≡ d
  read_same o a b d none p q = refl
  read_same o a b d (some d') p q = cc

module _ {A : Type 0} {s : Statement A} where
  pub Ran-read : {d d' : Db} {a : A} → Reads s → Ran s d a d' → d' ≡ d
  Ran-read {d} {d'} {a} reads (now, r, e, e') =
      let (b, p) = reads now d in e' ∙ read_same (s now d) b a d r p e

module _ {A : Type 0} (rt : Runtime) (I : Db → Type 0) (s : Statement A) (K : Db → Type 0)
    (reads : Reads s) where
  kept : (a : A) (σ : Session) → Written (Next I s K a) σ → Written K σ
  kept a idle h = h
  kept a (active d') (d, hd, ran) = rw (Ran-read reads ran) hd
  kept a invalid h = h

  pub read_within : Triple (Within I K) (execute rt s) (λ _. Within I K) (Broken I)
  read_within =
      Triple_mono (λ w h. h) (λ a w h. (h.0, kept a w.session h.1)) (λ e w h. h)
        (execute_next rt I s K)

module _ (rt : Runtime) (I : Db → Type 0) where
  -- try: return m
  -- finally: await session.rollback()
  -- What a read has shown of the committed rows stands.
  pub finally_rollback :
      {A : Type 0} {m : M A} (Q : A → Db → Type 0) (X : Exc → Type 0)
      → ((e : Exc) → Lost e → X e)
      → Triple (Holds I) m (λ a w. Q a w.db × Holds I w) (λ e w. X e × Holds I w)
      → Triple
          (Holds I)
          (finally m (rollback rt))
          (λ a w. Q a w.db × Holds I w)
          (λ e w. X e × Holds I w)
  unfolding finally
  finally_rollback Q X stopped t =
      Triple-handle t
        (λ e. Triple-given (λ x.
          Triple-handle (Triple_mono (λ w h. h.0) (λ a w h. h) (λ e w h. h) (rollback_only rt I))
            (λ e'. Triple-raise e' (λ w (l, p, q). (stopped e' l, idle-Holds rt I w p q)))
            (λ _. Triple-raise e (λ w h. (x, idle-Holds rt I w h.0 h.1)))))
        (λ a.
          Triple-handle
            (Triple_mono (λ w h. (h.0, h.1.0)) (λ a w h. h) (λ e w h. h)
              (rollback_only rt (λ d. Q a d × I d)))
            (λ e'. Triple-raise e' (λ w (l, p, q). (stopped e' l, idle-Holds rt I w p.1 q)))
            (λ _. Triple-pure a (λ w h. (h.0.0, idle-Holds rt I w h.0.1 h.1))))

module _ (I : Db → Type 0) where
  -- What is written is to be rolled back, unless the call was cancelled.
  abbrev pub Unsettled : Exc → World → Type 0
  Unsettled e w = I w.db × (e ≡ cancelled → Quiet w.session)

  pub Broken_unsettled : (e : Exc) (w : World) → Broken I e w → Unsettled e w
  Broken_unsettled cancelled w h = (h.0, λ _. h.1)
  Broken_unsettled (transient r) w h = elim h [ ]
  Broken_unsettled _ w h = (h, λ e. cc)

-- A transaction that may have written rows that fit I.
abbrev pub Begun : (Db → Type 0) → Session → Type 0
Begun I idle = Unit {0}
Begun I (active d) = I d
Begun I invalid = Unit {0}

module _ (rt : Runtime) (I : Db → Type 0) where
  begun_Ends :
      (σ : Session) (w : World)
      → w.session ≡ σ
      → I w.db
      → Begun I σ
      → Ends (λ _. Holds I) (Unsettled I) (commit_in rt σ w)
  begun_Ends idle w e h p = (h, rw e tt)
  begun_Ends (active d) w e h p = committed_begun (rt.fault w.tick) d _ h p
    where
      either : (b : Bool) (d : Db) (w : World) → I w.db → I d → I (if b then d else w.db)
      either true d w h p = p
      either false d w h p = h

      committed_begun :
          (f : Option Fault) (d : Db) (w : World)
          → I w.db
          → I d
          → Ends (λ _. Holds I) (Unsettled I) (committed rt f d w)
      committed_begun none d w h p = (p, tt)
      committed_begun (some f) d w h p = (either (rt.landed w.tick) d w h p, λ e. tt)
  begun_Ends invalid w e h p = (h, λ q. cc)

  -- A commit of what may have been written.
  pub commit-Begun :
      Triple (λ w. I w.db × Begun I w.session) (commit rt) (λ _. Holds I) (Unsettled I)
  unfolding commit
  commit-Begun = record { at = λ w h. begun_Ends w.session w refl h.0 h.1 }
