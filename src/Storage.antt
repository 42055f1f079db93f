-- ===== src/Storage.antt =====
-- backend/storage/local.py: objects in a directory, written once under their key.
pub mod Stored
pub mod Safe
use researchmind_mcp.Prelude.{
  ℕ, suc, String, Bool, true, false, Option, none, some, List, [], ◌∷◌, any, find, not, map_option,
  select, str_eq, if◌then◌else◌,
}
use researchmind_mcp.Models.{Bytes}
use researchmind_mcp.Models.Reason.{StorageFault, object_missing, failed}
use researchmind_mcp.Exec.{Result, ok, err, storage, raise, ◌>>=◌, lift}
use researchmind_mcp.Runtime.{Runtime, Fault}
use researchmind_mcp.Database.Session.{M, World, joined}

abbrev pub Blobs : Type 0
Blobs = List (String × Bytes)

-- How a call of the operating system goes: an OSError may come before or after its effect.
pub data DiskEnd : Type 0 where
  done failed_before failed_after : DiskEnd

-- The file system: what else changes the directory, and how calls end. `is_storage_key` is
-- `STORAGE_KEY_PATTERN.fullmatch`.
pub record Disk : Type 0 where
  pub is_storage_key : String → Bool
  pub end : ℕ → DiskEnd
  pub others : ℕ → Blobs → Blobs

abbrev pub exists : String → Blobs → Bool
exists key blobs = any (λ (b : String × Bytes). str_eq b.0 key) blobs

-- `_put_sync`: an object that is there is left alone.
unfoldable pub put_sync : DiskEnd → String → Bytes → Blobs → Result Bool × Blobs
put_sync failed_before key content blobs = (err (storage failed), blobs)
put_sync done key content blobs =
    if exists key blobs then (ok false, blobs) else (ok true, (key, content) ∷ blobs)
put_sync failed_after key content blobs =
    if exists key blobs then (ok false, blobs) else (err (storage failed), (key, content) ∷ blobs)

abbrev pub found_object : Option Bytes → Result Bytes
found_object none = err (storage object_missing)
found_object (some content) = ok content

-- `_get_sync`
unfoldable pub get_sync : DiskEnd → String → Blobs → Result Bytes × Blobs
get_sync done key blobs = (
  found_object (
      map_option (λ (b : String × Bytes). b.1)
        (find (λ (b : String × Bytes). str_eq b.0 key) blobs)),
  blobs,
)
get_sync _ key blobs = (err (storage failed), blobs)

abbrev pub without : String → Blobs → Blobs
without key = select (λ (b : String × Bytes). not (str_eq b.0 key))

-- `_delete_sync`; an object that is not there is no error.
unfoldable pub delete_sync : DiskEnd → String → Blobs → Result (Unit {0}) × Blobs
delete_sync done key blobs = (ok tt, without key blobs)
delete_sync _ key blobs = (err (storage failed), blobs)

module _ (rt : Runtime) (disk : Disk) where
  -- anyio.to_thread.run_sync: the thread goes on where the task is cancelled.
  unfoldable pub on_disk : {A : Type 0} → (DiskEnd → Blobs → Result A × Blobs) → M A
  on_disk work =
      (λ w.
        let (r, blobs) = work (disk.end w.tick) (disk.others w.tick w.blobs) in
        (joined rt (rt.fault w.tick) r, record w { blobs = blobs; tick = suc w.tick }))
      >>= λ r. lift r

  -- `_path_for` comes first.
  abbrev pub at_key : {A : Type 0} → String → (DiskEnd → Blobs → Result A × Blobs) → M A
  at_key key work = if disk.is_storage_key key then on_disk work else raise (storage failed)

  unfoldable pub put : String → Bytes → M Bool
  put key content = at_key key (λ end. put_sync end key content)

  unfoldable pub get : String → M Bytes
  get key = at_key key (λ end. get_sync end key)

  unfoldable pub delete : String → M (Unit {0})
  delete key = at_key key (λ end. delete_sync end key)
