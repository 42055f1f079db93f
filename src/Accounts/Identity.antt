-- ===== src/Accounts/Identity.antt =====
-- Whom a request is from, and what it may do: what the user's row says now, not the token.
use researchmind_mcp.Prelude.{
  ℕ, ◌≡◌, refl, ◌∙◌, sym, ap, String, true, not, Option, none, some, find,
}
use researchmind_mcp.Models.User.{User, Principal, TokenData}
use researchmind_mcp.Exec.{Exc, Result, ok, err, lift, authentication, database, cancelled, token}
use researchmind_mcp.Exec.Keeps.{
  Triple, Ends, Triple-bind, Triple-pure, Triple-lift, Triple-raise, Triple-given, Triple-if,
}
use researchmind_mcp.Runtime.{Runtime}
use researchmind_mcp.Database.{UserRow, Db}
use researchmind_mcp.Database.Session.{World}
use researchmind_mcp.Database.Session.Rules.{Holds, Stable}
use researchmind_mcp.Database.Session.Reading.{Lost}
use researchmind_mcp.Accounts.Lookup.{has_id, Looked, get_by_id-Looked, not-false}
use researchmind_mcp.Repositories.{parse_id}
use researchmind_mcp.Repositories.Users.{to_user}
use researchmind_mcp.Security.Tokens.{verify_token, verify_token_only}
use researchmind_mcp.Accounts.{Auth, resolve_principal, active_user, rejected_token, principal_of}

-- All that a resolver raises.
abbrev pub Unresolved : Exc → Type 0
Unresolved authentication = Unit {0}
Unresolved database = Unit {0}
Unresolved cancelled = Unit {0}
Unresolved _ = ⊥

pub Lost-Unresolved : (e : Exc) → Lost e → Unresolved e
Lost-Unresolved database h = tt
Lost-Unresolved cancelled h = tt
Lost-Unresolved _ h = elim h [ ]

module _ (rt : Runtime) (auth : Auth) (text : String) where
  -- The token verifies, and its subject's row is of an active user; the identity is that row's.
  pub record Identified (p : Principal) (d : Db) : Type 0 where
    pub claims : TokenData
    pub now : ℕ
    pub verified : verify_token auth.jwt auth.settings now text ≡ ok claims
    pub target : ℕ
    pub subject : parse_id rt claims.user_id ≡ some target
    pub row : UserRow
    pub found : find (has_id target) d.users ≡ some row
    pub is_in_use : row.is_active ≡ true
    pub is_principal : p ≡ principal_of rt auth (to_user rt row)

  -- Every refusal of a token is the one error.
  rejected_inv :
      (r : Result TokenData) (e : Exc)
      → ((e' : Exc) → r ≡ err e' → e' ≡ token)
      → rejected_token rt auth r ≡ err e
      → Unresolved e
  rejected_inv (ok c) e only h = cc
  rejected_inv (err e') e only h =
      let q : rejected_token rt auth (err token) ≡ err e = rw (only e' refl) at h in
      let same : authentication ≡ e = cc in rw (← same) tt

  accepted_inv :
      (r : Result TokenData) (claims : TokenData)
      → rejected_token rt auth r ≡ ok claims
      → ((e' : Exc) → r ≡ err e' → e' ≡ token)
      → r ≡ ok claims
  accepted_inv (ok c) claims h only = h
  accepted_inv (err e) claims h only =
      let q : rejected_token rt auth (err token) ≡ ok claims = rw (only e refl) at h in cc

  module _ (I : Db → Type 0) where
    abbrev pub Resolved : Principal → World → Type 0
    Resolved p w = Identified p w.db × Holds I w

    module _ (claims : TokenData) (now : ℕ)
        (verified : verify_token auth.jwt auth.settings now text ≡ ok claims) where
      active_user_sound :
          (user : Option User)
          → Triple
              (Looked rt I claims.user_id user)
              (active_user rt auth user)
              Resolved
              (λ e w. Unresolved e × Holds I w)
      unfolding active_user
      active_user_sound none = Triple-raise authentication (λ w h. (tt, h.1))
      active_user_sound (some user) =
          Triple-if (not user.is_active) _ _ (λ _. Triple-raise authentication (λ w h. (tt, h.1)))
            (λ a. Triple-pure (principal_of rt auth user) (λ w ((target, subject, r), h). (
              record {
                claims = claims;
                now = now;
                verified = verified;
                target = target;
                subject = subject;
                row = r.row;
                found = r.found;
                is_in_use = ap (λ u. u.is_active) (sym r.is_user) ∙ not-false user.is_active a;
                is_principal = rw r.is_user refl;
              },
              h,
            )))

    claims_at :
        (w : World)
        → Holds I w
        → Ends
            (λ claims w'.
              ((now : ℕ) × (verify_token auth.jwt auth.settings now text ≡ ok claims)) × Holds I w')
            (λ e w'. Unresolved e × Holds I w')
            (lift
              (rejected_token rt auth
                (verify_token auth.jwt auth.settings (auth.clock w.tick) text))
              w)
    claims_at w h =
        let now = auth.clock w.tick in
        let only = verify_token_only auth.jwt auth.settings now text in
        (Triple-lift {P = Holds I}
            (rejected_token rt auth (verify_token auth.jwt auth.settings now text))
            (λ claims e w h. ((now, accepted_inv _ claims e only), h))
            (λ e p w h. (rejected_inv _ e only p, h))).at
          w h

    -- A token resolves only to the identity that its subject's committed row gives, of an active user and with the row's present role and email, and every other end is the one refusal, a lost connection or a cancellation.
    pub resolve_principal-Identified :
        Stable rt I
        → Triple
            (Holds I)
            (resolve_principal rt auth text)
            Resolved
            (λ e w. Unresolved e × Holds I w)
    unfolding resolve_principal
    resolve_principal-Identified stable =
        Triple-bind (record { at = claims_at }) (λ e w h. h)
          (λ claims. Triple-given (λ (now, verified).
            Triple-bind (get_by_id-Looked rt I stable claims.user_id)
              (λ e w h. (Lost-Unresolved e h.0, h.1)) (active_user_sound claims now verified)))
