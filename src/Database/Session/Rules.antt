-- ===== src/Database/Session/Rules.antt =====
-- Rules for the calls of a session, over a property of the tables that what others commit keeps.
use researchmind_mcp.Prelude.{ℕ, suc, ◌≡◌, refl, Option, none, some, ◌⊎◌, inl, inr}
use researchmind_mcp.Exec.{Exc, cancelled, transient}
use researchmind_mcp.Exec.Keeps.{Plain, Ends, Triple, Keeps}
use researchmind_mcp.Runtime.{Runtime, Fault, lost, interrupted}
use researchmind_mcp.Database.{Db}
use researchmind_mcp.Database.Session.{
  Session, idle, active, invalid, World, Statement, Ran, Reads, Writes, execute, fault_exc, sent,
  finish, run_in,
}

-- What the open transaction has written.
abbrev pub Written : (Db → Type 0) → Session → Type 0
Written J idle = ⊥
Written J (active d) = J d
Written J invalid = Unit {0}

-- No transaction of the session has written. One that is unusable until `rollback` is quiet too.
abbrev pub Quiet : Session → Type 0
Quiet idle = Unit {0}
Quiet (active d) = ⊥
Quiet invalid = Unit {0}

-- The committed rows fit I, and no transaction has written.
abbrev pub Holds : (Db → Type 0) → World → Type 0
Holds I w = I w.db × Quiet w.session

-- The committed rows fit I, and the open transaction has written rows that fit J.
abbrev pub Within : (Db → Type 0) → (Db → Type 0) → World → Type 0
Within I J w = I w.db × Written J w.session

-- The committed rows fit I; what is written is to be rolled back, unless the call was cancelled.
abbrev pub Broken : (Db → Type 0) → Exc → World → Type 0
Broken I cancelled w = Holds I w
Broken I (transient r) w = ⊥
Broken I e w = I w.db

module _ (I : Db → Type 0) where
  pub Broken_settled : (e : Exc) (w : World) → Broken I e w → I w.db
  Broken_settled cancelled w h = h.0
  Broken_settled (transient r) w h = elim h [ ]
  Broken_settled _ w h = h

  -- A fault leaves the session unusable, and the committed rows as they were.
  pub faulted :
      (f : Fault) (w : World) → I w.db → Broken I (fault_exc f) (record w { session = invalid })
  faulted lost w h = h
  faulted interrupted w h = (h, tt)

  module _ {A : Type 0} (s : Statement A) where
    -- What a statement leads to from tables that fit J.
    abbrev pub Next : (Db → Type 0) → A → Db → Type 0
    Next J a d' = (d : Db) × J d × Ran s d a d'

    abbrev pub MustWrite : Option (A × Option Db) → Type 0
    MustWrite o = (o ≡ none) ⊎ ((a : A) × (d' : Db) × (o ≡ some (a, some d')))

    -- The tables that the statement found.
    abbrev pub Found : A → Db → Type 0
    Found a d = I d × (d' : Db) × Ran s d a d'

    sent_first :
        (f : Option Fault) (now : ℕ) (d : Db) (w : World)
        → w.db ≡ d
        → I d
        → MustWrite (s now d)
        → Ends (λ a. Within (Found a) (Next I a)) (Broken I) (sent f (s now d) w)
    sent_first (some f) now d w p hd o = faulted f w (rw p hd)
    sent_first none now d w p hd (inl e) = rw e (rw p hd)
    sent_first none now d w p hd (inr (a, d', e)) =
        rw e (rw p (hd, d', (now, some d', e, refl)), (d, hd, (now, some d', e, refl)))

    sent_read :
        (f : Option Fault) (now : ℕ) (d : Db) (w : World) (a : A)
        → Holds I w
        → s now d ≡ some (a, none)
        → Ends (λ _. Holds I) (λ e w'. Plain e × Holds I w') (sent f (s now d) w)
    sent_read (some lost) now d w a h e = (tt, (h.0, tt))
    sent_read (some interrupted) now d w a h e = (tt, (h.0, tt))
    sent_read none now d w a h e = rw e h

    finish_next :
        (now : ℕ) (J : Db → Type 0) (d : Db) (w : World) (o : Option (A × Option Db))
        → s now d ≡ o
        → I w.db
        → J d
        → w.session ≡ active d
        → Ends (λ a. Within I (Next J a)) (Broken I) (finish o w)
    finish_next now J d w none e h hd p = h
    finish_next now J d w (some (a, none)) e h hd p = (h, rw p (d, hd, (now, none, e, refl)))
    finish_next now J d w (some (a, some d')) e h hd p = (h, (d, hd, (now, some d', e, refl)))

    sent_next :
        (f : Option Fault) (now : ℕ) (J : Db → Type 0) (d : Db) (w : World)
        → I w.db
        → J d
        → w.session ≡ active d
        → Ends (λ a. Within I (Next J a)) (Broken I) (sent f (s now d) w)
    sent_next (some f) now J d w h hd p = faulted f w h
    sent_next none now J d w h hd p = finish_next now J d w (s now d) refl h hd p

-- What others commit keeps I.
abbrev pub Stable : Runtime → (Db → Type 0) → Type 0
Stable rt I = (t : ℕ) (d : Db) → I d → I (rt.others t d)

module _ (rt : Runtime) (I : Db → Type 0) (stable : Stable rt I) where
  module _ {A : Type 0} (s : Statement A) where
    run_first :
        (σ : Session) (w : World)
        → Writes s
        → I w.db
        → Quiet σ
        → Ends (λ a. Within (Found I s a) (Next I s I a)) (Broken I) (run_in rt σ s w)
    run_first idle w writes h p =
        let d = rt.others w.tick w.db in
        sent_first I s (rt.fault w.tick) (rt.now w.tick) d _ refl (stable w.tick w.db h)
          (writes (rt.now w.tick) d)
    run_first (active d) w writes h p = elim p [ ]
    run_first invalid w writes h p = h

    -- The statement that begins to write.
    pub execute_first :
        Writes s
        → Triple (Holds I) (execute rt s) (λ a. Within (Found I s a) (Next I s I a)) (Broken I)
    unfolding execute
    execute_first writes = record { at = λ w h. run_first w.session w writes h.0 h.1 }

    run_read :
        (σ : Session) (w : World)
        → w.session ≡ σ
        → Reads s
        → Holds I w
        → Ends (λ _. Holds I) (λ e w'. Plain e × Holds I w') (run_in rt σ s w)
    run_read idle w e reads h =
        let d = rt.others w.tick w.db in
        let (a, r) = reads (rt.now w.tick) d in
        sent_read I s (rt.fault w.tick) (rt.now w.tick) d _ a (stable w.tick w.db h.0, h.1) r
    run_read (active d) w e reads h = elim (rw e at h.1) [ ]
    run_read invalid w e reads h = (tt, h)

    pub Keeps-execute : Reads s → Keeps (Holds I) (execute rt s)
    unfolding execute
    Keeps-execute reads = record { at = λ w h. run_read w.session w refl reads h }

module _ (rt : Runtime) (I : Db → Type 0) where
  module _ {A : Type 0} (s : Statement A) (J : Db → Type 0) where
    run_next :
        (σ : Session) (w : World)
        → w.session ≡ σ
        → I w.db
        → Written J σ
        → Ends (λ a. Within I (Next I s J a)) (Broken I) (run_in rt σ s w)
    run_next idle w e h p = elim p [ ]
    run_next (active d) w e h p =
        sent_next I s (rt.fault w.tick) (rt.now w.tick) J d (record w { tick = suc w.tick }) h p e
    run_next invalid w e h p = h

    -- A later statement of the transaction.
    pub execute_next : Triple (Within I J) (execute rt s) (λ a. Within I (Next I s J a)) (Broken I)
    unfolding execute
    execute_next = record { at = λ w h. run_next w.session w refl h.0 h.1 }
