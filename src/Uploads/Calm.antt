-- ===== src/Uploads/Calm.antt =====
-- Calls that keep one live document for each owner and content.
use researchmind_mcp.Prelude.{
  ℕ, suc, ◌≡◌, refl, String, Option, none, some, Bool-cases, Option-cases, inl, inr, ◌&&◌, any,
}
use researchmind_mcp.Models.{Bytes}
use researchmind_mcp.Exec.{Exc, Result, err, lift, ◌>>◌, ◌>>=◌, cancelled, other}
use researchmind_mcp.Exec.Keeps.{
  Ends, Triple, Triple-bind, Triple-lift, Triple-raise, Triple-if, Triple-pure, Triple_mono,
}
use researchmind_mcp.Runtime.{Runtime, Fault, lost, interrupted}
use researchmind_mcp.Database.{Db}
use researchmind_mcp.Database.Session.{
  World, M, Reads, idle, active, invalid, Session, rollback, run_sync, joined,
}
use researchmind_mcp.Database.Session.Rules.{Holds, Stable, Within, Written, Next}
use researchmind_mcp.Database.Session.Reading.{execute_reads}
use researchmind_mcp.Database.Session.Closing.{
  Unsettled, Broken_unsettled, rollback_settles, Keeps-run_sync, read_within,
}
use researchmind_mcp.Database.Session.Naming.{Settling, execute_naming_first}
use researchmind_mcp.Repositories.{parse_id}
use researchmind_mcp.Repositories.Documents.Recording.{
  Document, Upload, create, refreshed, insert_new, insert_document, document_violation,
  select_document, select_content, admissible, live_content, find_live_by_content_hash_for_user,
}
use researchmind_mcp.Repositories.Documents.Recording.Unique.{
  Unique, insert_document-Writes, insert_document-Unique,
}
use researchmind_mcp.Storage.{
  Blobs, Disk, DiskEnd, at_key, on_disk, put, delete, put_sync, delete_sync,
}

module _ (rt : Runtime) (stable : Stable rt Unique) where
  -- However it ends, the committed rows are Unique, and nothing is left written.
  abbrev pub Calm : {A : Type 0} → M A → Type 0
  Calm m = Triple (Holds Unique) m (λ _. Holds Unique) (λ _. Holds Unique)

  pub bind_Calm :
      {A B : Type 0} {m : M A} {k : A → M B} → Calm m → ((a : A) → Calm (k a)) → Calm (m >>= k)
  bind_Calm tm tk = Triple-bind tm (λ e w h. h) tk

  pub lift-Calm : {A : Type 0} (r : Result A) → Calm (lift r)
  lift-Calm r = Triple-lift r (λ a e w h. h) (λ e p w h. h)

  pub run_sync-Calm : {A : Type 0} (a : A) → Calm (run_sync rt a)
  run_sync-Calm a = Triple_mono (λ w h. h) (λ a w h. h) (λ e w h. h.1) (Keeps-run_sync rt Unique a)

  module _ (disk : Disk) where
    on_disk-Calm :
        {A : Type 0} (work : DiskEnd → Blobs → Result A × Blobs) → Calm (on_disk rt disk work)
    unfolding on_disk
    on_disk-Calm work =
        bind_Calm
          (record {
            at = λ w h.
                ends (rt.fault w.tick) (work (disk.end w.tick) (disk.others w.tick w.blobs)).0
                  (record w {
                    blobs = (work (disk.end w.tick) (disk.others w.tick w.blobs)).1;
                    tick = suc w.tick;
                  })
                  h;
          })
          lift-Calm
      where
        ends :
            {A : Type 0} (f : Option Fault) (r : A) (w : World)
            → Holds Unique w
            → Ends (λ _. Holds Unique) (λ _. Holds Unique) (joined rt f r, w)
        ends none r w h = h
        ends (some lost) r w h = h
        ends (some interrupted) r w h = h

    at_key-Calm :
        {A : Type 0} (key : String) (work : DiskEnd → Blobs → Result A × Blobs)
        → Calm (at_key rt disk key work)
    at_key-Calm key work =
        Triple-if (disk.is_storage_key key) _ _ (λ _. on_disk-Calm work)
          (λ _. Triple-raise _ (λ w h. h))

    pub put-Calm : (key : String) (bytes : Bytes) → Calm (put rt disk key bytes)
    unfolding put
    put-Calm key bytes = at_key-Calm key (λ end. put_sync end key bytes)

    pub delete-Calm : (key : String) → Calm (delete rt disk key)
    unfolding delete
    delete-Calm key = at_key-Calm key (λ end. delete_sync end key)

  select_content-Reads : (owner : ℕ) (hash : String) → Reads (select_content rt owner hash)
  unfolding select_content
  select_content-Reads owner hash now d = (_, refl)

  pub find_Calm :
      (hash user_id : String) → Calm (find_live_by_content_hash_for_user rt hash user_id)
  unfolding find_live_by_content_hash_for_user
  find_Calm hash user_id = elim (Option-cases (parse_id rt user_id)) [
    | inl nobody ↦ rw (find_live_by_content_hash_for_user, nobody) (Triple-pure none (λ w h. h))
    | inr (owner, there) ↦
        rw (find_live_by_content_hash_for_user, there)
          (Triple_mono (λ w h. h) (λ a w h. h.1) (λ e w h. h.1)
            (execute_reads rt Unique stable (select_content rt owner hash)
              (select_content-Reads owner hash)))
  ]

  -- After a failed transaction, what is rolled back leaves things as before.
  pub rolled :
      {A : Type 0} (e : Exc) (m : M A)
      → Calm m
      → Triple (Unsettled Unique e) (rollback rt >> m) (λ _. Holds Unique) (λ _. Holds Unique)
  rolled e m calm =
      Triple-bind
        (Triple_mono (λ w h. h.0) (λ a w h. h) (λ e w h. h.1) (rollback_settles rt Unique))
        (λ e w h. h) (λ _. calm)

  select_document-Reads : (id : ℕ) → Reads (select_document rt id)
  unfolding select_document
  select_document-Reads id now d = (_, refl)

  violation_settles :
      (id owner : ℕ) (upload : Upload) (d : Db)
      → Settling Unique (document_violation id owner upload d)
  violation_settles id owner upload d w h =
      elim (Bool-cases (
        admissible id owner upload 0 d
        && any (live_content owner upload.content_hash) d.documents)) [
          | inl taken ↦ rw taken h
          | inr free ↦ rw free h
        ]

  not_cancelled :
      {A : Type 0} (o : Option Document) (e : Exc) → refreshed rt o ≡ err e → e ≡ cancelled → A
  not_cancelled none e p q = cc
  not_cancelled (some document) e p q = cc

  -- What a new document leaves to be committed.
  abbrev Recorded : World → Type 0
  Recorded w = Within Unique Unique w

  pub create-Recorded :
      (owner_id : String) (upload : Upload)
      → Triple (Holds Unique) (create rt owner_id upload) (λ _. Recorded) (Unsettled Unique)
  unfolding create
  create-Recorded owner_id upload = record {
    at = λ w h. (inserted (parse_id rt owner_id) (rt.uuid4 w.tick)).at w h;
  }
    where
      committed_next :
          (id owner : ℕ) (u : Unit {0}) (σ : Session)
          → Written (Next Unique (insert_document id owner upload) Unique u) σ
          → Written Unique σ
      committed_next id owner u idle h = h
      committed_next id owner u (active d) (before, unique, ran) =
          insert_document-Unique id owner upload unique ran
      committed_next id owner u invalid h = h

      inserted :
          (o : Option ℕ) (id : ℕ)
          → Triple (Holds Unique) (insert_new rt o upload id) (λ _. Recorded) (Unsettled Unique)
      inserted none id = Triple-raise other (λ w h. (h.0, λ e. h.1))
      inserted (some owner) id =
          Triple-bind
            (Triple_mono (λ w h. h) (λ u w h. (h.0.0, committed_next id owner u w.session h.1))
              (Broken_unsettled Unique)
              (execute_naming_first rt Unique stable (document_violation id owner upload)
                (insert_document id owner upload) (violation_settles id owner upload)
                (insert_document-Writes id owner upload)))
            (λ e w h. h)
            (λ _.
              Triple-bind
                (Triple_mono (λ w h. h) (λ o w h. h) (Broken_unsettled Unique)
                  (read_within rt Unique (select_document rt id) Unique (select_document-Reads id)))
                (λ e w h. h)
                (λ document.
                  Triple-lift (refreshed rt document) (λ a e w h. h)
                    (λ e p w h. (h.0, λ q. not_cancelled document e p q))))
