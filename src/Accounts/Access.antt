-- ===== src/Accounts/Access.antt =====
-- Who passes `require_permission`, and whom a valid token always lets in.
use researchmind_mcp.Prelude.{
  ℕ, ◌+◌, ◌<◌, ◌≡◌, refl, ◌∙◌, ap, String, true, false, not, Option, none, some, find,
}
use researchmind_mcp.Models.User.{UserRole, Principal, TokenData, User}
use researchmind_mcp.Exec.{
  Exc, pure, lift, authentication, database, cancelled, unauthenticated, forbidden,
}
use researchmind_mcp.Exec.Keeps.{
  Triple, Ends, Triple-bind, Triple-handle, Triple-pure, Triple-raise, Triple-given, Triple-if,
}
use researchmind_mcp.Runtime.{Runtime}
use researchmind_mcp.Database.{UserRow, Db}
use researchmind_mcp.Database.Session.{World}
use researchmind_mcp.Database.Session.Rules.{Holds, Stable}
use researchmind_mcp.Database.Session.Reading.{Lost}
use researchmind_mcp.Repositories.Users.{to_user}
use researchmind_mcp.Security.Tokens.{
  verify_token, create_access_token, lifetime, verify_token-create_access_token,
}
use researchmind_mcp.Security.Rbac.{Permission, has_permission}
use researchmind_mcp.Accounts.{
  Auth, resolve_principal, active_user, rejected_token, principal_of, get_current_user,
  require_permission, as_unauthenticated,
}
use researchmind_mcp.Accounts.Lookup.{has_id, Looked, get_by_id-Looked, not-false, not-true}
use researchmind_mcp.Accounts.Identity.{Unresolved, Identified, resolve_principal-Identified}

module _ (rt : Runtime) (auth : Auth) (I : Db → Type 0) (stable : Stable rt I) where
  -- The request carries a token that identifies its sender.
  abbrev pub Known : Option String → Principal → World → Type 0
  Known none p w = ⊥
  Known (some text) p w = Identified rt auth text p w.db

  abbrev pub Unknown : Exc → World → Type 0
  Unknown unauthenticated w = Holds I w
  Unknown database w = Holds I w
  Unknown cancelled w = Holds I w
  Unknown _ w = ⊥

  unknown :
      (e : Exc) (w : World) → Unresolved e × Holds I w → Unknown (as_unauthenticated rt auth e) w
  unknown authentication w h = h.1
  unknown database w h = h.1
  unknown cancelled w h = h.1
  unknown _ w h = elim h.0 [ ]

  pub get_current_user-Known :
      (credentials : Option String)
      → Triple
          (Holds I)
          (get_current_user rt auth credentials)
          (λ p w. Known credentials p w × Holds I w)
          Unknown
  unfolding get_current_user
  get_current_user-Known none = Triple-raise unauthenticated (λ w h. h)
  get_current_user-Known (some text) =
      Triple-handle (resolve_principal-Identified rt auth text I stable)
        (λ e. Triple-raise (as_unauthenticated rt auth e) (unknown e))
        (λ p. Triple-pure p (λ w h. h))

  module _ (permission : Permission) (credentials : Option String) where
    -- How a request can be turned away: 403 only for a sender who is known and whose role does not hold the permission.
    abbrev pub TurnedAway : Exc → World → Type 0
    TurnedAway forbidden w =
        ((p : Principal) × Known credentials p w × (has_permission p.role permission ≡ false))
        × Holds I w
    TurnedAway unauthenticated w = Holds I w
    TurnedAway database w = Holds I w
    TurnedAway cancelled w = Holds I w
    TurnedAway _ w = ⊥

    turned_away : (e : Exc) (w : World) → Unknown e w → TurnedAway e w
    turned_away unauthenticated w h = h
    turned_away database w h = h
    turned_away cancelled w h = h
    turned_away _ w h = elim h [ ]

    -- A request passes only when its token identifies an active user whose present role holds the permission; 403 is only for an identified sender whose role does not, and every other refusal is the one 401, a lost connection or a cancellation.
    pub require_permission-Known :
        Triple
          (Holds I)
          (require_permission rt auth permission credentials)
          (λ p w. Known credentials p w × (has_permission p.role permission ≡ true) × Holds I w)
          TurnedAway
    unfolding require_permission
    require_permission-Known = Triple-bind (get_current_user-Known credentials) turned_away (λ p.
        Triple-if (not (has_permission p.role permission)) _ _
          (λ lacks.
            Triple-raise forbidden
              (λ w h. ((p, h.0, not-true (has_permission p.role permission) lacks), h.1)))
          (λ holds.
            Triple-pure p (λ w h. (h.0, not-false (has_permission p.role permission) holds, h.1))))

module _ (rt : Runtime) (auth : Auth) (id : ℕ) where
  -- The user is there and active.
  abbrev pub InUse : Db → Type 0
  InUse d = (row : UserRow) × (find (has_id id) d.users ≡ some row) × (row.is_active ≡ true)

  abbrev pub Welcome : Principal → World → Type 0
  Welcome p w =
      ((row : UserRow) × (find (has_id id) w.db.users ≡ some row)
        × (p ≡ principal_of rt auth (to_user rt row)))
      × Holds InUse w

  module _ (stable : Stable rt InUse) (issued : ℕ) (email : String) (role : UserRole)
      (delta : Option ℕ) where
    abbrev token_text : String
    token_text =
        create_access_token auth.jwt auth.settings issued (rt.print_uuid id) email role delta

    abbrev claims : TokenData
    claims = record {
      user_id = rt.print_uuid id;
      email = email;
      role = role;
      exp = issued + lifetime auth.settings delta;
    }

    welcome :
        (user : Option User)
        → Triple
            (Looked rt InUse (rt.print_uuid id) user)
            (active_user rt auth user)
            Welcome
            (λ e w. Lost e × Holds InUse w)
    unfolding active_user pure
    welcome none = record {
      at = λ w (absent, ((row, found, in_use), q)).
          let gone = absent id (rt.parse-print id) in let no : ⊥ = cc in elim no [ ];
    }
    welcome (some user) = record {
      at = λ w ((target, p, r), ((row, found, in_use), q)).
          let same : target ≡ id = let e = rt.parse-print id in cc in
          let is_row : r.row ≡ row = let e = rw same at r.found in cc in
          let active : user.is_active ≡ true =
            ap (λ u. u.is_active) r.is_user ∙ ap (λ x. x.is_active) is_row ∙ in_use in
          rw active (
            (row, found, ap (principal_of rt auth) (r.is_user ∙ ap (to_user rt) is_row)),
            ((row, found, in_use), q),
          );
    }

    claims_at :
        (w : World)
        → Holds InUse w × (auth.clock w.tick < issued + lifetime auth.settings delta)
        → Ends
            (λ c w'. (c ≡ claims) × Holds InUse w')
            (λ e w'. Lost e × Holds InUse w')
            (lift
              (rejected_token rt auth
                (verify_token auth.jwt auth.settings (auth.clock w.tick) token_text))
              w)
    unfolding lift
    claims_at w (h, early) =
        rw
          (verify_token-create_access_token auth.jwt auth.settings issued (auth.clock w.tick)
            (rt.print_uuid id) email role delta early)
          (refl, h)

    -- While a user is there and active, a token issued for the user's id identifies the user, with the row's present role and email, until it expires: nothing but a lost connection or a cancellation stops it.
    pub resolve_principal-create_access_token :
        Triple
          (λ w. Holds InUse w × (auth.clock w.tick < issued + lifetime auth.settings delta))
          (resolve_principal rt auth token_text)
          Welcome
          (λ e w. Lost e × Holds InUse w)
    unfolding resolve_principal
    resolve_principal-create_access_token =
        Triple-bind (record { at = claims_at }) (λ e w h. h)
          (λ c. Triple-given (λ same. rw same (
            Triple-bind (get_by_id-Looked rt InUse stable (rt.print_uuid id)) (λ e w h. h)
              welcome)))
