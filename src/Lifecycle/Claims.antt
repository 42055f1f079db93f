-- ===== src/Lifecycle/Claims.antt =====
-- What a compare-and-set excludes.
use researchmind_mcp.Prelude.{
  ℕ, String, ◌≡◌, refl, Bool, true, false, Option, none, List, [], ◌∷◌, ◌&&◌, ◌||◌, any, map, not,
  arith, if◌then◌else◌, Bool-cases, inl, inr,
}
use researchmind_mcp.Models.{DocumentStatus, status_eq, status_eq→≡}
use researchmind_mcp.Models.Reason.{IngestionReason}
use researchmind_mcp.Runtime.{Runtime}
use researchmind_mcp.Database.{DocumentRow, Db}
use researchmind_mcp.Database.Session.{Ran}
use researchmind_mcp.Repositories.{owned_live}
use researchmind_mcp.Repositories.Documents.{update_status, stands_at, moved_to}
use researchmind_mcp.Repositories.Documents.CompareAndSet.{
  update_status_moved, update_status_missed,
}
use researchmind_mcp.Lifecycle.{Stage, parse, chunk, embed, Trace, starts_at}

module _ (target owner : ℕ) (expected new : DocumentStatus) (reason : Option IngestionReason)
    (count : Option ℕ) (now : ℕ) (away : status_eq new expected ≡ false) where
  left_expected :
      (rows : List DocumentRow)
      → any (stands_at target owner expected) (
          map
            (λ row.
              if stands_at target owner expected row
              then moved_to new reason count now row
              else row)
            rows)
        ≡ false
  left_expected [] = refl
  left_expected (row ∷ rows) = elim (Bool-cases (stands_at target owner expected row)) [
    | inl h ↦ ground (arith, left_expected rows)
    | inr h ↦ ground (arith, left_expected rows)
  ]

-- The documents of this id and this user that still live and stand at one of two statuses.
module _ (rt : Runtime) (target owner : ℕ) where
  -- A document that one actor moved away from a status is not there for another: the second of
  -- two such compare-and-sets, with nothing committed between them, finds no row.
  pub update_status-excludes :
      (expected new new' : DocumentStatus) (reason reason' : Option IngestionReason)
      (count count' : Option ℕ) (d d₁ d₂ : Db) (moved : Bool)
      → status_eq new expected ≡ false
      → Ran (update_status target owner expected new reason count) d true d₁
      → Ran (update_status target owner expected new' reason' count') d₁ moved d₂
      → (moved ≡ false) × (d₂ ≡ d₁)
  update_status-excludes expected new new' reason reason' count count' d d₁ d₂ true away first
        second =
      let (now, e, m) = update_status_moved target owner expected new reason count first in
      let (now', e', m') = update_status_moved target owner expected new' reason' count' second in
      let gone : any (stands_at target owner expected) d₁.documents ≡ false =
        rw e (left_expected target owner expected new reason count now away d.documents) in
      cc
  update_status-excludes expected new new' reason reason' count count' d d₁ d₂ false away first
        second =
      (refl, (update_status_missed target owner expected new' reason' count' second).0)

module _ (target owner : ℕ) where
  -- `READY` or `FAILED`
  abbrev pub terminal : DocumentStatus → Bool
  terminal DocumentStatus.ready = true
  terminal DocumentStatus.failed = true
  terminal _ = false

  -- Every live document of this id and this user is finished.
  abbrev pub settled : List DocumentRow → Bool
  settled [] = true
  settled (row ∷ rows) = (not (owned_live target owner row) || terminal row.status) && settled rows

  stands_unsettled :
      (expected : DocumentStatus)
      → terminal expected ≡ false
      → (row : DocumentRow) → (not (owned_live target owner row) || terminal row.status) ≡ true
      → stands_at target owner expected row ≡ false
  stands_unsettled expected going row h = elim (Bool-cases (status_eq row.status expected)) [
    | inl k ↦
        let q : terminal row.status ≡ false = rw (status_eq→≡ row.status expected k) going in
        ground arith
    | inr k ↦ ground arith
  ]

  settled_none :
      (expected : DocumentStatus)
      → terminal expected ≡ false
      → (rows : List DocumentRow) → settled rows ≡ true
      → any (stands_at target owner expected) rows ≡ false
  settled_none expected going [] h = refl
  settled_none expected going (row ∷ rows) h =
      ground (arith, stands_unsettled expected going row, settled_none expected going rows)

module _ (rt : Runtime) (target owner : ℕ) (model_id : String) (dimension : ℕ) (d₀ : Db) where
  abbrev AtRest : Db → Type 0
  AtRest d = settled target owner d.documents ≡ true

  blocked :
      (expected new : DocumentStatus) (reason : Option IngestionReason) (count : Option ℕ)
      → terminal target owner expected ≡ false
      → {d d' : Db} → AtRest d
      → Ran (update_status target owner expected new reason count) d true d'
      → ⊥
  blocked expected new reason count going {d} h ran =
      let (now, e, m) = update_status_moved target owner expected new reason count ran in
      let gone = settled_none target owner expected going d.documents h in cc

  starts_going : (s : Stage) → terminal target owner (starts_at s) ≡ false
  starts_going parse = refl
  starts_going chunk = refl
  starts_going embed = refl

  pub Trace-settled :
      AtRest d₀
      → ((t : ℕ) (d : Db) → AtRest d → AtRest (rt.others t d))
      → {c : Option Stage} {d : Db} → Trace rt target owner model_id dimension d₀ c d
      → (c ≡ none) × AtRest d
  Trace-settled r keep Trace.start = (refl, r)
  Trace-settled r keep (Trace.elsewhere {d = d} h t) =
      let (p, q) = Trace-settled r keep h in (p, keep t d q)
  Trace-settled r keep (Trace.claim h s m) =
      let (p, q) = Trace-settled r keep h in
      elim (blocked (starts_at s) _ _ _ (starts_going s) q m) [ ]
  Trace-settled r keep (Trace.release h m) = let (p, q) = Trace-settled r keep h in cc
  Trace-settled r keep (Trace.fail h reason m) = let (p, q) = Trace-settled r keep h in cc
  Trace-settled r keep (Trace.lose h e) = let (p, q) = Trace-settled r keep h in cc
  Trace-settled r keep (Trace.store_pages h pages e m i) = let (p, q) = Trace-settled r keep h in cc
  Trace-settled r keep (Trace.store_chunks h chunking e m i) =
      let (p, q) = Trace-settled r keep h in cc
  Trace-settled r keep (Trace.replace_chunks h chunking e m n x i) =
      let (p, q) = Trace-settled r keep h in cc
  Trace-settled r keep (Trace.finish h m n u) = let (p, q) = Trace-settled r keep h in cc
