-- ===== src/Accounts/Lookup.antt =====
-- A user looked up by id.
use researchmind_mcp.Prelude.{
  ℕ, ◌≡◌, refl, sym, String, Bool, true, false, not, Option, none, some, find, map_option,
  Option-cases, inl, inr, ◌==◌,
}
use researchmind_mcp.Models.User.{User}
use researchmind_mcp.Exec.Keeps.{Triple, Triple-pure, Triple_mono}
use researchmind_mcp.Runtime.{Runtime}
use researchmind_mcp.Database.{UserRow, Db}
use researchmind_mcp.Database.Session.{World, Reads}
use researchmind_mcp.Database.Session.Rules.{Holds, Stable}
use researchmind_mcp.Database.Session.Reading.{execute_reads, Answers, Lost}
use researchmind_mcp.Repositories.{parse_id}
use researchmind_mcp.Repositories.Users.{to_user, select_user, get_by_id}

pub not-false : (b : Bool) → not b ≡ false → b ≡ true
not-false true h = refl
not-false false h = sym h

pub not-true : (b : Bool) → not b ≡ true → b ≡ false
not-true true h = sym h
not-true false h = refl

abbrev pub has_id : ℕ → UserRow → Bool
has_id target row = row.id == target

module _ (rt : Runtime) where
  select_user-Reads : (target : ℕ) → Reads (select_user rt target)
  unfolding select_user
  select_user-Reads target now d = (_, refl)

  -- The row behind what a lookup returned.
  pub record Row (target : ℕ) (user : User) (d : Db) : Type 0 where
    pub row : UserRow
    pub found : find (has_id target) d.users ≡ some row
    pub is_user : user ≡ to_user rt row

  behind :
      (target : ℕ) (d : Db) (o : Option UserRow) (user : User)
      → find (has_id target) d.users ≡ o
      → map_option (to_user rt) o ≡ some user
      → Row target user d
  behind target d none user e h = cc
  behind target d (some row) user e h = record { row = row; found = e; is_user = cc }

  select_user_inv :
      (target now : ℕ) (d : Db) (user : User)
      → select_user rt target now d ≡ some (some user, none)
      → Row target user d
  unfolding select_user
  select_user_inv target now d user h = behind target d (find (has_id target) d.users) user refl cc

  -- The id names no row.
  abbrev pub Absent : String → Db → Type 0
  Absent user_id d =
      (target : ℕ) → parse_id rt user_id ≡ some target → find (has_id target) d.users ≡ none

  nobody : (o : Option UserRow) → map_option (to_user rt) o ≡ none → o ≡ none
  nobody none h = refl
  nobody (some row) h = cc

  select_user-none :
      (target now : ℕ) (d : Db)
      → select_user rt target now d ≡ some (none, none)
      → find (has_id target) d.users ≡ none
  unfolding select_user
  select_user-none target now d h = nobody (find (has_id target) d.users) cc

  abbrev pub Looked : (Db → Type 0) → String → Option User → World → Type 0
  Looked I user_id none w = Absent user_id w.db × Holds I w
  Looked I user_id (some user) w =
      ((target : ℕ) × (parse_id rt user_id ≡ some target) × Row target user w.db) × Holds I w

  looked :
      (I : Db → Type 0) (user_id : String) (target : ℕ)
      → parse_id rt user_id ≡ some target
      → (user : Option User) (w : World) → Answers (select_user rt target) user w.db × Holds I w
      → Looked I user_id user w
  looked I user_id target p none w ((now, e), h) = (
    λ t q.
        let same : target ≡ t = cc in
        let gone = select_user-none target now w.db e in rw same at gone,
    h,
  )
  looked I user_id target p (some user) w ((now, e), h) =
      ((target, p, select_user_inv target now w.db user e), h)

  absurd : {A : Type 0} {o : Option ℕ} (t : ℕ) → o ≡ none → o ≡ some t → A
  absurd t p q = cc

  pub get_by_id-Looked :
      (I : Db → Type 0) (stable : Stable rt I) (user_id : String)
      → Triple (Holds I) (get_by_id rt user_id) (Looked I user_id) (λ e w. Lost e × Holds I w)
  unfolding get_by_id
  get_by_id-Looked I stable user_id = elim (Option-cases (parse_id rt user_id)) [
    | inl none_there ↦
        rw (get_by_id, none_there) (Triple-pure none (λ w h. (λ t q. absurd t none_there q, h)))
    | inr (target, there) ↦
        rw (get_by_id, there)
          (Triple_mono (λ w h. h) (looked I user_id target there) (λ e w h. h)
            (execute_reads rt I stable (select_user rt target) (select_user-Reads target)))
  ]
