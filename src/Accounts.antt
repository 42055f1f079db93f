-- ===== src/Accounts.antt =====
-- backend/services/auth_service.py, backend/security/authentication.py, and the decisions of
-- backend/security/api_security.py.
pub mod Login
pub mod Register
pub mod Lookup
pub mod Identity
pub mod Access
use researchmind_mcp.Prelude.{
  ℕ, ◌*◌, String, Bool, true, false, not, ◌||◌, is_none, Option, none, some, List, any,
  if◌then◌else◌,
}
use researchmind_mcp.Models.{Text}
use researchmind_mcp.Models.User.{
  UserRole, role_eq, User, Principal, TokenData, UserCredentials, AccessToken,
}
use researchmind_mcp.Exec.{
  Exc, Result, ok, err, pure, raise, lift, handle, ◌>>=◌, ◌>>◌, authentication, email_taken,
  cancelled, duplicate, email_address, content_per_owner, token, unauthenticated, forbidden,
}
use researchmind_mcp.Runtime.{Runtime}
use researchmind_mcp.Database.Session.{M, commit, rollback}
use researchmind_mcp.Repositories.Users.{create, get_by_id, get_credentials_by_email}
use researchmind_mcp.Security.Passwords.{Bcrypt, hash_password, verify_password}
use researchmind_mcp.Security.Tokens.{Pyjwt, JwtSettings, create_access_token, verify_token}
use researchmind_mcp.Security.Rbac.{Permission, has_permission}

-- The libraries and settings of authentication. `clock` is the time of this process.
pub record Auth : Type 0 where
  pub bcrypt : Bcrypt
  pub jwt : Pyjwt
  pub settings : JwtSettings
  pub gensalt : ℕ → String
  pub clock : ℕ → ℕ
  -- what `_absent_password_hash` has cached
  pub absent_password_hash : String

module _ (rt : Runtime) (auth : Auth) where
  -- `_is_duplicate_email`, of an IntegrityError
  unfoldable pub is_duplicate_email : Exc → Bool
  is_duplicate_email (duplicate email_address) = true
  is_duplicate_email _ = false

  unfoldable pub not_registered : Exc → M User
  unfolding is_duplicate_email
  not_registered cancelled = raise cancelled
  not_registered e = rollback rt >> (if is_duplicate_email e then raise email_taken else raise e)

  abbrev pub hash_now : Text → M String
  hash_now password w = lift (hash_password auth.bcrypt (auth.gensalt w.tick) password) w

  unfoldable pub register : String → String → Text → M User
  register email full_name password =
      handle
        (hash_now password >>= λ password_hash.
          create rt email full_name (some password_hash) >>= λ user. commit rt >> pure user)
        not_registered pure

  abbrev pub access_token : UserCredentials → ℕ → AccessToken
  access_token credentials now = record {
    token =
        create_access_token auth.jwt auth.settings now credentials.user_id credentials.email
          credentials.role none;
    expires_in_seconds = auth.settings.jwt_expire_minutes * 60;
  }

  abbrev pub stored_hash : Option UserCredentials → Option String
  stored_hash none = none
  stored_hash (some credentials) = credentials.password_hash

  unfoldable pub decide : Option UserCredentials → Bool → M AccessToken
  decide none matched = raise authentication
  decide (some credentials) matched =
      if not matched
      then raise authentication
      else if not credentials.is_active
      then raise authentication
      else λ w. pure (access_token credentials (auth.clock w.tick)) w

  unfoldable pub login : String → Text → M AccessToken
  login email password = get_credentials_by_email rt email >>= λ credentials.
      lift
        (verify_password auth.bcrypt auth.absent_password_hash password (stored_hash credentials))
      >>= λ matched. decide credentials matched

  abbrev pub rejected_token : Result TokenData → Result TokenData
  rejected_token (err token) = err authentication
  rejected_token r = r

  abbrev pub principal_of : User → Principal
  principal_of user = record { user_id = user.id; email = user.email; role = user.role }

  unfoldable pub active_user : Option User → M Principal
  active_user none = raise authentication
  active_user (some user) =
      if not user.is_active then raise authentication else pure (principal_of user)

  unfoldable pub resolve_principal : String → M Principal
  resolve_principal text =
      (λ w. lift (rejected_token (verify_token auth.jwt auth.settings (auth.clock w.tick) text)) w)
      >>= λ claims. get_by_id rt claims.user_id >>= active_user

  abbrev pub as_unauthenticated : Exc → Exc
  as_unauthenticated authentication = unauthenticated
  as_unauthenticated e = e

  -- The credentials are what HTTPBearer found in the request.
  unfoldable pub get_current_user : Option String → M Principal
  get_current_user none = raise unauthenticated
  get_current_user (some text) =
      handle (resolve_principal text) (λ e. raise (as_unauthenticated e)) pure

  -- `RequirePermission(permission)`, with the dependency that it declares
  unfoldable pub require_permission : Permission → Option String → M Principal
  require_permission permission credentials = get_current_user credentials >>= λ principal.
      if not (has_permission principal.role permission) then raise forbidden else pure principal

  -- `RequireRole(roles)`
  unfoldable pub require_role : List UserRole → Option String → M Principal
  require_role roles credentials = get_current_user credentials >>= λ principal.
      if not (any (role_eq principal.role) roles) then raise forbidden else pure principal
