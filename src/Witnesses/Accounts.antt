-- ===== src/Witnesses/Accounts.antt =====
-- The theorems on accounts, in a world with one user.
use researchmind_mcp.Prelude.{String, ◌≡◌, refl, true, false, none, some, [], ◌∷◌, arith}
use researchmind_mcp.Models.User.{admin, viewer, researcher}
use researchmind_mcp.Exec.{ok}
use researchmind_mcp.Exec.Keeps.{Ends}
use researchmind_mcp.Database.{Db}
use researchmind_mcp.Database.Session.Rules.{Holds}
use researchmind_mcp.Database.Session.Reading.{Lost}
use researchmind_mcp.Security.Passwords.{
  hash_password, verify_password, utf8, validate_password, normalize_password,
}
use researchmind_mcp.Security.Passwords.RoundTrip.{verify_password-hash_password}
use researchmind_mcp.Security.Tokens.{
  verify_token, create_access_token, verify_token-create_access_token,
}
use researchmind_mcp.Security.Rbac.{document_write, has_permission, has_permission_ranks, Mutates}
use researchmind_mcp.Accounts.{login, register, resolve_principal, require_permission}
use researchmind_mcp.Accounts.Login.{login-SignedIn, Issued, Refused}
use researchmind_mcp.Accounts.Register.{register-Registered, Registered, Unregistered}
use researchmind_mcp.Accounts.Identity.{resolve_principal-Identified, Resolved, Unresolved}
use researchmind_mcp.Accounts.Access.{
  require_permission-Known, Known, TurnedAway, resolve_principal-create_access_token, Welcome,
  InUse,
}
use researchmind_mcp.Samples.{calm}
use researchmind_mcp.Samples.Accounts.{
  lengths, plain_tokens, jwt_settings, sample_auth, password, password_hash, one_user, ada,
}

verify_password-hash_password_example :
    verify_password lengths "absent" password (some password_hash) ≡ ok true
unfolding hash_password validate_password normalize_password utf8
verify_password-hash_password_example =
    verify_password-hash_password lengths "salt" "absent" password password_hash refl

verify_token-create_access_token_example :
    verify_token plain_tokens jwt_settings 20
      (create_access_token plain_tokens jwt_settings 10 "xxx" "ada@example.org" admin none)
    ≡ ok (record { user_id = "xxx"; email = "ada@example.org"; role = admin; exp = 70 })
verify_token-create_access_token_example =
    verify_token-create_access_token plain_tokens jwt_settings 10 20 "xxx" "ada@example.org" admin
      none (omega arith)

has_permission_ranks_example :
    (has_permission viewer document_write ≡ true → has_permission researcher document_write ≡ true)
    × (has_permission researcher document_write ≡ true → has_permission admin document_write ≡ true)
    × (Mutates document_write → has_permission viewer document_write ≡ false)
has_permission_ranks_example = has_permission_ranks document_write

-- Ada's account is there.
abbrev AdaIn : Db → Type 0
AdaIn d = d.users ≡ ada ∷ []

login-SignedIn_example :
    Ends
      (Issued calm sample_auth "ada@example.org" password AdaIn)
      (Refused calm sample_auth "ada@example.org" password AdaIn)
      (login calm sample_auth "ada@example.org" password one_user)
login-SignedIn_example =
    (login-SignedIn calm sample_auth "ada@example.org" password AdaIn (λ t d h. h)).at one_user
      (refl, tt)

register-Registered_example :
    Ends
      (λ u.
        Holds (Registered calm sample_auth AdaIn (λ t d h. h) "bob@example.org" "Bob" password u))
      (Unregistered calm sample_auth AdaIn (λ t d h. h) "bob@example.org" "Bob" password)
      (register calm sample_auth "bob@example.org" "Bob" password one_user)
register-Registered_example =
    (register-Registered calm sample_auth AdaIn (λ t d h. h) "bob@example.org" "Bob" password).at
      one_user (refl, tt)

abbrev ada_token : String
ada_token = create_access_token plain_tokens jwt_settings 0 "xxx" "ada@example.org" admin none

resolve_principal-Identified_example :
    Ends
      (Resolved calm sample_auth ada_token AdaIn)
      (λ e w. Unresolved e × Holds AdaIn w)
      (resolve_principal calm sample_auth ada_token one_user)
resolve_principal-Identified_example =
    (resolve_principal-Identified calm sample_auth ada_token AdaIn (λ t d h. h)).at one_user
      (refl, tt)

require_permission-Known_example :
    Ends
      (λ p w.
        Known calm sample_auth AdaIn (λ t d h. h) (some ada_token) p w
        × (has_permission p.role document_write ≡ true)
        × Holds AdaIn w)
      (TurnedAway calm sample_auth AdaIn (λ t d h. h) document_write (some ada_token))
      (require_permission calm sample_auth document_write (some ada_token) one_user)
require_permission-Known_example =
    (require_permission-Known calm sample_auth AdaIn (λ t d h. h) document_write
        (some ada_token)).at
      one_user (refl, tt)

resolve_principal-create_access_token_example :
    Ends
      (Welcome calm sample_auth 3)
      (λ e w. Lost e × Holds (InUse calm sample_auth 3) w)
      (resolve_principal calm sample_auth
        (create_access_token plain_tokens jwt_settings 0 "xxx" "ada@example.org" admin none)
        one_user)
resolve_principal-create_access_token_example =
    (resolve_principal-create_access_token calm sample_auth 3 (λ t d h. h) 0 "ada@example.org" admin
        none).at
      one_user (((ada, refl, refl), tt), omega arith)
