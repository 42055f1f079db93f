-- ===== src/Models/User.antt =====
-- shared/models/{user,principal,credentials}.py.
use researchmind_mcp.Prelude.{
  ℕ, String, Bool, true, false, Option, none, some, str_eq, if◌then◌else◌,
}

pub data UserRole : Type 0 where
  admin researcher viewer : UserRole

abbrev pub role_eq : UserRole → UserRole → Bool
role_eq admin admin = true
role_eq researcher researcher = true
role_eq viewer viewer = true
role_eq _ _ = false

-- `role.value`
abbrev pub role_value : UserRole → String
role_value admin = "admin"
role_value researcher = "researcher"
role_value viewer = "viewer"

-- `UserRole(value)`, or None for the ValueError.
unfoldable pub role_of : String → Option UserRole
role_of value =
    if str_eq value "admin"
    then some admin
    else if str_eq value "researcher"
    then some researcher
    else if str_eq value "viewer"
    then some viewer
    else none

pub record User : Type 0 where
  pub id : String
  pub email : String
  pub full_name : String
  pub role : UserRole
  pub is_active : Bool
  pub created_at : ℕ

-- An authenticated identity; it is always of an active user.
pub record Principal : Type 0 where
  pub user_id : String
  pub email : String
  pub role : UserRole

pub record TokenData : Type 0 where
  pub user_id : String
  pub email : String
  pub role : UserRole
  pub exp : ℕ

pub record UserCredentials : Type 0 where
  pub user_id : String
  pub email : String
  pub password_hash : Option String
  pub role : UserRole
  pub is_active : Bool

pub record AccessToken : Type 0 where
  pub token : String
  pub expires_in_seconds : ℕ
