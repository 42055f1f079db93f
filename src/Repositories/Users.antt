-- ===== src/Repositories/Users.antt =====
-- `UserRepository` (backend/db/repositories/user.py).
pub mod Emails
use researchmind_mcp.Prelude.{
  ℕ, String, Bool, true, false, Option, none, some, List, [], ◌∷◌, ◌++◌, ◌==◌, any, find,
  map_option, str_eq, if◌then◌else◌,
}
use researchmind_mcp.Models.User.{UserRole, researcher, User, UserCredentials}
use researchmind_mcp.Exec.{Exc, integrity, duplicate, email_address, pure}
use researchmind_mcp.Runtime.{Runtime}
use researchmind_mcp.Database.{UserRow, Db}
use researchmind_mcp.Database.Session.{M, World, Statement, execute, execute_naming}
use researchmind_mcp.Repositories.{parse_id}

abbrev pub to_user : Runtime → UserRow → User
to_user rt row = record {
  id = rt.print_uuid row.id;
  email = row.email;
  full_name = row.full_name;
  role = row.role;
  is_active = row.is_active;
  created_at = row.created_at;
}

abbrev pub has_email : String → UserRow → Bool
has_email email row = str_eq row.email email

-- The row of an INSERT, with its defaults.
abbrev pub user_row : ℕ → String → String → UserRole → Option String → ℕ → UserRow
user_row id email full_name role password_hash now = record {
  id = id;
  email = email;
  full_name = full_name;
  role = role;
  is_active = true;
  password_hash = password_hash;
  created_at = now;
}

-- INSERT INTO users; the primary key, and `uq_users_email`.
unfoldable pub insert_user :
    Runtime → ℕ → String → String → UserRole → Option String → Statement User
insert_user rt id email full_name role password_hash now db =
    let row = user_row id email full_name role password_hash now in
    if any (λ (r : UserRow). r.id == id) db.users
    then none
    else if any (has_email email) db.users
    then none
    else some (to_user rt row, some (record db { users = db.users ++ row ∷ [] }))

-- Which constraint an INSERT violates.
abbrev pub user_violation : ℕ → Db → Exc
user_violation id db =
    if any (λ (r : UserRow). r.id == id) db.users then integrity else duplicate email_address

module _ (rt : Runtime) where
  unfoldable pub create : String → String → Option String → M User
  create email full_name password_hash w =
      execute_naming rt (user_violation (rt.uuid4 w.tick))
        (insert_user rt (rt.uuid4 w.tick) email full_name researcher password_hash) w

  unfoldable pub select_user : ℕ → Statement (Option User)
  select_user target now db =
      some (map_option (to_user rt) (find (λ (r : UserRow). r.id == target) db.users), none)

  -- session.get, which reads the row where the session has not loaded it, as in a request's own.
  unfoldable pub get_by_id : String → M (Option User)
  get_by_id user_id = elim (parse_id rt user_id) [
    | none ↦ pure none
    | some target ↦ execute rt (select_user target)
  ]

  unfoldable pub select_by_email : String → Statement (Option User)
  select_by_email email now db =
      some (map_option (to_user rt) (find (has_email email) db.users), none)

  unfoldable pub get_by_email : String → M (Option User)
  get_by_email email = execute rt (select_by_email email)

  abbrev pub to_credentials : UserRow → UserCredentials
  to_credentials row = record {
    user_id = rt.print_uuid row.id;
    email = row.email;
    password_hash = row.password_hash;
    role = row.role;
    is_active = row.is_active;
  }

  unfoldable pub select_credentials : String → Statement (Option UserCredentials)
  select_credentials email now db =
      some (map_option to_credentials (find (has_email email) db.users), none)

  unfoldable pub get_credentials_by_email : String → M (Option UserCredentials)
  get_credentials_by_email email = execute rt (select_credentials email)
