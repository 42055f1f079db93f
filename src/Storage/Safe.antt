-- ===== src/Storage/Safe.antt =====
-- Methods that keep a property of the stored objects, whatever becomes of the database.
use researchmind_mcp.Prelude.{ℕ, ◌≡◌, ◌∙◌, ap, String, true, false, Option, none, some, str_eq}
use researchmind_mcp.Models.{Bytes}
use researchmind_mcp.Models.Reason.{failed}
use researchmind_mcp.Exec.{Exc, Result, ok, err, integrity, storage, lift, ◌>>=◌}
use researchmind_mcp.Exec.Keeps.{
  Ends, Triple, Triple-bind, Triple-lift, Triple-raise, Triple-if, Triple_mono,
}
use researchmind_mcp.Runtime.{Runtime, Fault, lost, interrupted, Reply}
use researchmind_mcp.Database.{Db}
use researchmind_mcp.Database.Session.{
  World, Session, idle, active, invalid, M, Statement, execute, execute_naming, renamed, seen_in,
  commit, rollback, call, run_sync, sent, finish, run_in, committed, commit_in, rolled_back,
  replied, joined,
}
use researchmind_mcp.Storage.{Blobs, Disk, DiskEnd, put_sync, delete_sync, on_disk, put, delete}
use researchmind_mcp.Storage.Stored.{Stored, put_sync-PutKeeps, delete_sync-Stored}

module _ (Q : Blobs → Type 0) where
  abbrev pub Has : World → Type 0
  Has w = Q w.blobs

  -- However it ends, the objects still fit Q.
  abbrev pub Safe : {A : Type 0} → M A → Type 0
  Safe m = Triple Has m (λ _. Has) (λ _. Has)

  abbrev Fine : {A : Type 0} → Result A × World → Type 0
  Fine r = Ends (λ _. Has) (λ _. Has) r

  pub bind_Safe :
      {A B : Type 0} {m : M A} {k : A → M B} → Safe m → ((a : A) → Safe (k a)) → Safe (m >>= k)
  bind_Safe tm tk = Triple-bind tm (λ e w h. h) tk

module _ (rt : Runtime) (Q : Blobs → Type 0) where
  module _ {A : Type 0} where
    finish-Fine : (o : Option (A × Option Db)) (w : World) → Has Q w → Fine Q (finish o w)
    finish-Fine none w h = h
    finish-Fine (some (a, none)) w h = h
    finish-Fine (some (a, some d)) w h = h

    sent-Fine :
        (f : Option Fault) (o : Option (A × Option Db)) (w : World) → Has Q w → Fine Q (sent f o w)
    sent-Fine none o w h = finish-Fine o w h
    sent-Fine (some f) o w h = h

    run_in-Fine : (σ : Session) (s : Statement A) (w : World) → Has Q w → Fine Q (run_in rt σ s w)
    run_in-Fine idle s w h = sent-Fine (rt.fault w.tick) _ _ h
    run_in-Fine (active d) s w h = sent-Fine (rt.fault w.tick) _ _ h
    run_in-Fine invalid s w h = h

    pub Safe-execute : (s : Statement A) → Safe Q (execute rt s)
    unfolding execute
    Safe-execute s = record { at = λ w h. run_in-Fine w.session s w h }

    renamed-Fine : (e : Exc) (r : Result A × World) → Fine Q r → Fine Q (renamed rt e r)
    renamed-Fine e (ok a, w) h = h
    renamed-Fine e (err integrity, w) h = h
    renamed-Fine e (err _, w) h = h

    pub Safe-execute_naming :
        (violated : Db → Exc) (s : Statement A) → Safe Q (execute_naming rt violated s)
    unfolding execute_naming
    Safe-execute_naming violated s = record {
      at = λ w h.
          renamed-Fine (violated (seen_in rt w.session w)) (execute rt s w)
            ((Safe-execute s).at w h);
    }

  committed-Fine : (f : Option Fault) (d : Db) (w : World) → Has Q w → Fine Q (committed rt f d w)
  committed-Fine none d w h = h
  committed-Fine (some f) d w h = h

  commit_in-Fine : (σ : Session) (w : World) → Has Q w → Fine Q (commit_in rt σ w)
  commit_in-Fine idle w h = h
  commit_in-Fine invalid w h = h
  commit_in-Fine (active d) w h = committed-Fine (rt.fault w.tick) d _ h

  pub Safe-commit : Safe Q (commit rt)
  unfolding commit
  Safe-commit = record { at = λ w h. commit_in-Fine w.session w h }

  -- A result of any kind, beside a world that fits.
  any_Fine : {A : Type 0} (r : Result A) (w : World) → Has Q w → Fine Q (r, w)
  any_Fine (ok a) w h = h
  any_Fine (err e) w h = h

  pub Safe-rollback : Safe Q (rollback rt)
  unfolding rollback
  Safe-rollback = record { at = λ w h. any_Fine (rolled_back rt (rt.fault w.tick)) _ h }

  pub Safe-call : {E A : Type 0} (exc : E → Exc) (ask : ℕ → Reply E A) → Safe Q (call exc ask)
  unfolding call
  Safe-call exc ask = record { at = λ w h. any_Fine (replied exc (ask w.tick)) _ h }

  pub Safe-run_sync : {A : Type 0} (a : A) → Safe Q (run_sync rt a)
  unfolding run_sync
  Safe-run_sync a = record { at = λ w h. any_Fine (joined rt (rt.fault w.tick) a) _ h }

  pub Safe-lift : {A : Type 0} (r : Result A) → Safe Q (lift r)
  Safe-lift r = Triple-lift r (λ a e w h. h) (λ e p w h. h)

-- What else changes the directory keeps the object.
abbrev pub Undisturbed : Disk → String → Bytes → Type 0
Undisturbed disk key content =
    (t : ℕ) (blobs : Blobs) → Stored key content blobs → Stored key content (disk.others t blobs)

module _ (rt : Runtime) (disk : Disk) (key : String) (content : Bytes)
    (undisturbed : Undisturbed disk key content) where
  on_disk_Triple :
      {A : Type 0} (work : DiskEnd → Blobs → Result A × Blobs) (C : A → Type 0)
      → ((end : DiskEnd) (blobs : Blobs)
          → Stored key content blobs
          → ((a : A) → (work end blobs).0 ≡ ok a → C a) × Stored key content (work end blobs).1)
      → Triple
          (Has (Stored key content))
          (on_disk rt disk work)
          (λ a w. C a × Has (Stored key content) w)
          (λ _. Has (Stored key content))
  unfolding on_disk
  on_disk_Triple {A} work C keeps =
      Triple-bind
        (record {
          at = λ w h.
              let end = disk.end w.tick in
              let blobs = disk.others w.tick w.blobs in
              ends (rt.fault w.tick) (work end blobs).0 _
                (keeps end blobs (undisturbed w.tick w.blobs h));
        })
        (λ e w h. h) (λ r. Triple-lift r (λ a e w h. (h.0 a e, h.1)) (λ e p w h. h.1))
    where
      ends :
          (f : Option Fault) (r : Result A) (w : World)
          → ((a : A) → r ≡ ok a → C a) × Has (Stored key content) w
          → Ends
              (λ r w. ((a : A) → r ≡ ok a → C a) × Has (Stored key content) w)
              (λ _. Has (Stored key content))
              (joined rt f r, w)
      ends none r w h = h
      ends (some lost) r w h = h
      ends (some interrupted) r w h = h.1

  -- An object that a put has created has another key.
  pub put-Stored :
      (other : String) (bytes : Bytes)
      → Triple
          (Has (Stored key content))
          (put rt disk other bytes)
          (λ created w. (created ≡ true → str_eq other key ≡ false) × Has (Stored key content) w)
          (λ _. Has (Stored key content))
  unfolding put
  put-Stored other bytes =
      Triple-if (disk.is_storage_key other) _ _
        (λ _.
          on_disk_Triple (λ end. put_sync end other bytes)
            (λ created. created ≡ true → str_eq other key ≡ false)
            (λ end blobs h.
              let (differs, kept) = put_sync-PutKeeps key content end other bytes blobs h in
              (λ a e c. differs (e ∙ ap ok c), kept)))
        (λ _. Triple-raise (storage failed) (λ w h. h))

  pub delete-Stored :
      (other : String) → str_eq other key ≡ false → Safe (Stored key content) (delete rt disk other)
  unfolding delete
  delete-Stored other differs =
      Triple-if (disk.is_storage_key other) _ _
        (λ _.
          Triple_mono (λ w h. h) (λ a w h. h.1) (λ e w h. h)
            (on_disk_Triple (λ end. delete_sync end other) (λ _. Unit {0})
              (λ end blobs h.
                (λ a e. tt, delete_sync-Stored key content end other blobs differs h))))
        (λ _. Triple-raise (storage failed) (λ w h. h))
