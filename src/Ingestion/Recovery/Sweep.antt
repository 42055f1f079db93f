-- ===== src/Ingestion/Recovery/Sweep.antt =====
-- A pass of the recovery sweep, `recover_pending`.
use researchmind_mcp.Prelude.{
  ℕ, zero, suc, ◌+◌, ◌≤◌, ◌≡◌, refl, sym, ◌∙◌, ap, String, Bool, true, false, none, some, List, [],
  ◌∷◌, ◌++◌, arith, length, map, take, if◌then◌else◌, select, order_by,
}
use researchmind_mcp.Models.{IngestionJob, IngestionTarget, RecoveryResult}
use researchmind_mcp.Exec.{Exc, other, database, cancelled, ◌>>=◌}
use researchmind_mcp.Exec.Keeps.{Triple, Triple-pure, Triple-bind, Triple_mono, Triple-given}
use researchmind_mcp.Runtime.{Runtime, Reply, reply}
use researchmind_mcp.Database.{Db}
use researchmind_mcp.Database.Session.{World, Reads, call}
use researchmind_mcp.Database.Session.Reading.{Answers, Lost, execute_reads}
use researchmind_mcp.Database.Session.Rules.{Holds, Stable}
use researchmind_mcp.Database.Session.Closing.{call_replied, finally_rollback}
use researchmind_mcp.Repositories.Documents.{
  select_recoverable, list_for_recovery, is_recoverable, is_older, to_target,
}
use researchmind_mcp.Ingestion.Maintenance.{
  job_from_row, recover_each, recover_pending, recoverable_statuses,
}

length-take : {A : Type 0} (n : ℕ) (xs : List A) → length (take n xs) ≤ n
length-take zero xs = omega arith
length-take (suc n) [] = omega arith
length-take (suc n) (x ∷ xs) = omega (arith, length-take n xs)

length-map : {A B : Type 0} (f : A → B) (xs : List A) → length (map f xs) ≡ length xs
length-map f [] = refl
length-map f (x ∷ xs) = omega (arith, length-map f xs)

append_nil : {A : Type 0} (xs : List A) → xs ++ [] ≡ xs
append_nil [] = refl
append_nil (x ∷ xs) = ap (λ ys. x ∷ ys) (append_nil xs)

append_snoc : {A : Type 0} (xs : List A) (y : A) (ys : List A) → (xs ++ y ∷ []) ++ ys ≡ xs ++ y ∷ ys
append_snoc [] y ys = refl
append_snoc (x ∷ xs) y ys = ap (λ zs. x ∷ zs) (append_snoc xs y ys)

-- All that a pass can raise: for a lost connection, a cancellation, and what the queue raises.
abbrev pub Stopped : Exc → Type 0
Stopped database = Unit {0}
Stopped cancelled = Unit {0}
Stopped other = Unit {0}
Stopped _ = ⊥

Lost-Stopped : (e : Exc) → Lost e → Stopped e
Lost-Stopped database h = tt
Lost-Stopped cancelled h = tt
Lost-Stopped _ h = elim h [ ]

module _ (rt : Runtime) (enqueue : ℕ → IngestionJob → Reply (Unit {0}) Bool) where
  -- What happened to each candidate, in order: no job could be built of it, or the queue replied
  -- that it took the job, or that it had it. The indices are the documents whose jobs it took, and
  -- the numbers of those that it had and of those skipped.
  pub data Handled : List IngestionTarget → List String → ℕ → ℕ → Type 0 where
    nothing : Handled [] [] 0 0
    skip :
        {targets : List IngestionTarget} {taken : List String} {had skipped : ℕ}
        (target : IngestionTarget)
        → job_from_row rt target ≡ none
        → Handled targets taken had skipped
        → Handled (target ∷ targets) taken had (suc skipped)
    take_on :
        {targets : List IngestionTarget} {taken : List String} {had skipped : ℕ}
        (target : IngestionTarget) (job : IngestionJob) (t : ℕ)
        → job_from_row rt target ≡ some job
        → enqueue t job ≡ reply true
        → Handled targets taken had skipped
        → Handled (target ∷ targets) (job.document_id ∷ taken) had skipped
    have :
        {targets : List IngestionTarget} {taken : List String} {had skipped : ℕ}
        (target : IngestionTarget) (job : IngestionJob) (t : ℕ)
        → job_from_row rt target ≡ some job
        → enqueue t job ≡ reply false
        → Handled targets taken had skipped
        → Handled (target ∷ targets) taken (suc had) skipped

  -- The result counts these on top of what it had counted.
  pub record Counted (acc : RecoveryResult) (targets : List IngestionTarget) (r : RecoveryResult)
      : Type 0 where
    pub taken : List String
    pub had : ℕ
    pub skipped : ℕ
    pub handled : Handled targets taken had skipped
    pub requeued_are : r.requeued ≡ acc.requeued ++ taken
    pub already_queued_are : r.already_queued ≡ acc.already_queued + had
    pub skipped_are : r.skipped ≡ acc.skipped + skipped

  module _ (acc : RecoveryResult) (target : IngestionTarget) (targets : List IngestionTarget)
      (r : RecoveryResult) where
    count_skipped :
        job_from_row rt target ≡ none
        → Counted (record acc { skipped = suc acc.skipped }) targets r
        → Counted acc (target ∷ targets) r
    count_skipped e c = record {
      taken = c.taken;
      had = c.had;
      skipped = suc c.skipped;
      handled = Handled.skip target e c.handled;
      requeued_are = c.requeued_are;
      already_queued_are = c.already_queued_are;
      skipped_are = let p = c.skipped_are in omega arith;
    }

    count_queued :
        (job : IngestionJob) (t : ℕ) (queued : Bool)
        → job_from_row rt target ≡ some job
        → enqueue t job ≡ reply queued
        → Counted
            (if queued
              then record acc { requeued = acc.requeued ++ job.document_id ∷ [] }
              else record acc { already_queued = suc acc.already_queued })
            targets
            r
        → Counted acc (target ∷ targets) r
    count_queued job t true e replied c = record {
      taken = job.document_id ∷ c.taken;
      had = c.had;
      skipped = c.skipped;
      handled = Handled.take_on target job t e replied c.handled;
      requeued_are = c.requeued_are ∙ append_snoc acc.requeued job.document_id c.taken;
      already_queued_are = c.already_queued_are;
      skipped_are = c.skipped_are;
    }
    count_queued job t false e replied c = record {
      taken = c.taken;
      had = suc c.had;
      skipped = c.skipped;
      handled = Handled.have target job t e replied c.handled;
      requeued_are = c.requeued_are;
      already_queued_are = let p = c.already_queued_are in omega arith;
      skipped_are = c.skipped_are;
    }

  module _ (I : Db → Type 0) where
    abbrev Halted : Exc → World → Type 0
    Halted e w = Stopped e × Holds I w

    recover_each-Counted :
        (targets : List IngestionTarget) (acc : RecoveryResult)
        → Triple
            (Holds I)
            (recover_each rt enqueue acc targets)
            (λ r w. Counted acc targets r × Holds I w)
            Halted
    unfolding recover_each
    recover_each-Counted [] acc = Triple-pure acc (λ w h. (
      record {
        taken = [];
        had = 0;
        skipped = 0;
        handled = Handled.nothing;
        requeued_are = sym (append_nil acc.requeued);
        already_queued_are = omega arith;
        skipped_are = omega arith;
      },
      h,
    ))
    recover_each-Counted (target ∷ targets) acc =
        elim (job_from_row rt target)
            as (λ o.
              job_from_row rt target ≡ o
              → Triple (Holds I)
                  (elim o [
                    | none ↦
                        recover_each rt enqueue (record acc { skipped = suc acc.skipped }) targets
                    | some job ↦ (call (λ _. other) (λ t. enqueue t job)) >>= λ queued.
                        recover_each rt enqueue
                          (if queued
                            then record acc { requeued = acc.requeued ++ job.document_id ∷ [] }
                            else record acc { already_queued = suc acc.already_queued })
                          targets
                  ])
                  (λ r w. Counted acc (target ∷ targets) r × Holds I w) Halted) [
                    | none ↦ λ e.
                        Triple_mono (λ w h. h)
                          (λ r w h. (count_skipped acc target targets r e h.0, h.1)) (λ e w h. h)
                          (recover_each-Counted targets (record acc { skipped = suc acc.skipped }))
                    | some job ↦ λ e.
                        Triple-bind
                          (call_replied rt I (λ _. other) (λ t. enqueue t job) Stopped (λ _. tt) tt
                            tt)
                          (λ e w h. h)
                          (λ queued. Triple-given (λ replied.
                            Triple_mono (λ w h. h)
                              (λ r w h. (
                                count_queued acc target targets r job replied.0 queued e replied.1
                                    h.0,
                                h.1,
                              ))
                              (λ e w h. h) (recover_each-Counted targets _)))
                  ]
          refl

abbrev pub nothing_counted : RecoveryResult
nothing_counted = record { requeued = []; already_queued = 0; skipped = 0 }

module _ (rt : Runtime) (limit : ℕ) where
  -- The SELECT of the candidates.
  abbrev pub Candidates : List IngestionTarget → Db → Type 0
  Candidates = Answers (select_recoverable rt recoverable_statuses limit)

  select_recoverable-Reads : Reads (select_recoverable rt recoverable_statuses limit)
  unfolding select_recoverable
  select_recoverable-Reads now d = (_, refl)

  select_recoverable-first :
      (targets : List IngestionTarget) (d : Db)
      → Candidates targets d
      → targets
        ≡ map (to_target rt) (
            take limit
              (order_by is_older (select (is_recoverable recoverable_statuses) d.documents)))
  unfolding select_recoverable
  select_recoverable-first targets d (now, e) = cc

  -- What a pass did: it handled the oldest recoverable documents, at most `limit`.
  pub record Recovered (enqueue : ℕ → IngestionJob → Reply (Unit {0}) Bool) (r : RecoveryResult)
      (d : Db) : Type 0 where
    pub candidates : List IngestionTarget
    pub are_oldest :
        candidates
        ≡ map (to_target rt) (
            take limit
              (order_by is_older (select (is_recoverable recoverable_statuses) d.documents)))
    pub few : length candidates ≤ limit
    pub handled : Handled rt enqueue candidates r.requeued r.already_queued r.skipped

  recovered :
      (enqueue : ℕ → IngestionJob → Reply (Unit {0}) Bool) (targets : List IngestionTarget)
      (r : RecoveryResult) (d : Db)
      → Candidates targets d
      → Counted rt enqueue nothing_counted targets r
      → Recovered enqueue r d
  recovered enqueue targets r d found c =
      let oldest = select_recoverable-first targets d found in
      let rows =
        take limit (order_by is_older (select (is_recoverable recoverable_statuses) d.documents)) in
      let had : r.already_queued ≡ c.had = let p = c.already_queued_are in omega arith in
      let missed : r.skipped ≡ c.skipped = let p = c.skipped_are in omega arith in
      record {
        candidates = targets;
        are_oldest = oldest;
        few = rw (oldest, length-map (to_target rt) rows) (length-take limit _);
        handled = rw (c.requeued_are, had, missed) c.handled;
      }

module _ (rt : Runtime) (I : Db → Type 0) (stable : Stable rt I)
    (enqueue : ℕ → IngestionJob → Reply (Unit {0}) Bool) where
  -- A pass of the recovery sweep, from a session with nothing open, where it returns, has handled each of the oldest recoverable documents of the committed rows, at most `limit` of them, in order: it lists exactly those whose job the queue replied that it took, and counts those whose job the queue had and those of which no job can be built. It raises nothing but for a lost connection, a cancellation, or what the queue raises, and commits nothing.
  pub recover_pending-accounts :
      (limit : ℕ)
      → Triple
          (Holds I)
          (recover_pending rt enqueue limit)
          (λ r w. Recovered rt limit enqueue r w.db × Holds I w)
          (λ e w. Stopped e × Holds I w)
  unfolding recover_pending list_for_recovery
  recover_pending-accounts limit =
      Triple-bind
        (finally_rollback rt I (Candidates rt limit) Stopped Lost-Stopped (
          Triple_mono (λ w h. h) (λ targets w h. h) (λ e w h. (Lost-Stopped e h.0, h.1))
            (execute_reads rt I stable (select_recoverable rt recoverable_statuses limit)
              (select_recoverable-Reads rt limit))))
        (λ e w h. h)
        (λ targets.
          Triple_mono (λ w h. ((h.0, h.1.0), h.1.1))
            (λ r w h. (recovered rt limit enqueue targets r w.db h.1.0.0 h.0, (h.1.0.1, h.1.1)))
            (λ e w h. (h.0, (h.1.0.1, h.1.1)))
            (recover_each-Counted rt enqueue (λ d. Candidates rt limit targets d × I d) targets
              nothing_counted))
