-- ===== src/Security/Tokens.antt =====
-- backend/security/jwt_handler.py. Times are whole seconds.
use researchmind_mcp.Prelude.{ℕ, zero, suc, ◌+◌, ◌*◌, ◌<◌, ◌≡◌, refl, String, Option, none, some}
use researchmind_mcp.Models.User.{
  UserRole, role_value, role_of, admin, researcher, viewer, TokenData,
}
use researchmind_mcp.Exec.{Exc, Result, ok, err, token}

-- What `create_access_token` signs.
pub record Claims : Type 0 where
  pub sub : String
  pub email : String
  pub role : String
  pub exp : ℕ

-- What `jwt.decode` returns when it requires `exp` and `sub`. The others may be missing or no text.
pub record Payload : Type 0 where
  pub sub : String
  pub email : Option String
  pub role : Option String
  pub exp : ℕ

abbrev pub payload_of_claims : Claims → Payload
payload_of_claims c = record { sub = c.sub; email = some c.email; role = some c.role; exp = c.exp }

-- PyJWT. `decode` takes the time and has no answer where it raises InvalidTokenError.
pub record Pyjwt : Type 0 where
  pub encode : Claims → String → String → String
  pub decode : ℕ → String → String → String → Option Payload
  pub decode-encode :
      (c : Claims) (secret algorithm : String) (now : ℕ)
      → now < c.exp
      → decode now (encode c secret algorithm) secret algorithm ≡ some (payload_of_claims c)

-- The settings that the handler reads (backend/config/settings.py).
pub record JwtSettings : Type 0 where
  pub jwt_secret : String
  pub jwt_algorithm : String
  pub jwt_expire_minutes : ℕ

-- `expires_delta or timedelta(minutes=...)`: no time at all counts as no answer.
abbrev pub lifetime : JwtSettings → Option ℕ → ℕ
lifetime settings none = settings.jwt_expire_minutes * 60
lifetime settings (some zero) = settings.jwt_expire_minutes * 60
lifetime settings (some (suc n)) = suc n

module _ (jwt : Pyjwt) (settings : JwtSettings) where
  abbrev claims_signed : ℕ → String → String → UserRole → Option ℕ → Claims
  claims_signed now user_id email role expires_delta = record {
    sub = user_id;
    email = email;
    role = role_value role;
    exp = now + lifetime settings expires_delta;
  }

  unfoldable pub create_access_token : ℕ → String → String → UserRole → Option ℕ → String
  create_access_token now user_id email role expires_delta =
      jwt.encode (claims_signed now user_id email role expires_delta) settings.jwt_secret
        settings.jwt_algorithm

  abbrev pub token_data : String → ℕ → Option String → Option UserRole → Result TokenData
  token_data sub exp (some email) (some role) =
      ok (record { user_id = sub; email = email; role = role; exp = exp })
  token_data sub exp _ _ = err token

  abbrev pub role_in : Option String → Option UserRole
  role_in none = none
  role_in (some value) = role_of value

  abbrev pub usable : Option Payload → Result TokenData
  usable none = err token
  usable (some p) = token_data p.sub p.exp p.email (role_in p.role)

  unfoldable pub verify_token : ℕ → String → Result TokenData
  verify_token now text = usable (jwt.decode now text settings.jwt_secret settings.jwt_algorithm)

  role_of-role_value : (role : UserRole) → role_of (role_value role) ≡ some role
  unfolding role_of
  role_of-role_value admin = refl
  role_of-role_value researcher = refl
  role_of-role_value viewer = refl

  -- Until it expires, a token that was issued verifies, and carries the subject, the email, the role and the expiry that it was issued with.
  pub verify_token-create_access_token :
      (issued now : ℕ) (user_id email : String) (role : UserRole) (expires_delta : Option ℕ)
      → now < issued + lifetime settings expires_delta
      → verify_token now (create_access_token issued user_id email role expires_delta)
        ≡ ok (record {
          user_id = user_id;
          email = email;
          role = role;
          exp = issued + lifetime settings expires_delta;
        })
  unfolding verify_token create_access_token
  verify_token-create_access_token issued now user_id email role expires_delta h =
      rw
        (
          jwt.decode-encode (claims_signed issued user_id email role expires_delta)
              settings.jwt_secret settings.jwt_algorithm now h,
          role_of-role_value role,
        )
        refl

  usable_only : (o : Option Payload) (e : Exc) → usable o ≡ err e → e ≡ token
  usable_only none e h = cc
  usable_only (some p) e h = data_only p.sub p.exp p.email (role_in p.role) e h
    where
      data_only :
          (sub : String) (exp : ℕ) (email : Option String) (role : Option UserRole) (e : Exc)
          → token_data sub exp email role ≡ err e
          → e ≡ token
      data_only sub exp (some email) (some role) e h = cc
      data_only sub exp none role e h = cc
      data_only sub exp (some email) none e h = cc

  -- A token that does not verify is one error.
  pub verify_token_only :
      (now : ℕ) (text : String) (e : Exc) → verify_token now text ≡ err e → e ≡ token
  unfolding verify_token
  verify_token_only now text e h =
      usable_only (jwt.decode now text settings.jwt_secret settings.jwt_algorithm) e h
