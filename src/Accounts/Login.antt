-- ===== src/Accounts/Login.antt =====
-- Who may sign in, and what the token says.
use researchmind_mcp.Prelude.{
  ℕ, ◌≡◌, ◌≢◌, refl, ◌∙◌, sym, ap, String, Bool, true, false, not, Option, none, some, find,
  map_option, ltb, length, str_eq, Bool-cases, Option-cases, inl, inr, ◌⊎◌,
}
use researchmind_mcp.Models.{Text, Bytes}
use researchmind_mcp.Models.User.{UserCredentials, AccessToken}
use researchmind_mcp.Exec.{
  Exc, Result, ok, err, pure, authentication, encoding, database, cancelled,
}
use researchmind_mcp.Exec.Keeps.{
  Triple, Triple-bind, Triple-lift, Triple-raise, Triple-given, Triple-if,
}
use researchmind_mcp.Runtime.{Runtime}
use researchmind_mcp.Database.{UserRow, Db}
use researchmind_mcp.Database.Session.{World, Reads}
use researchmind_mcp.Database.Session.Rules.{Holds, Stable}
use researchmind_mcp.Database.Session.Reading.{execute_reads, Answers, Lost}
use researchmind_mcp.Repositories.Users.{
  has_email, to_credentials, select_credentials, get_credentials_by_email,
}
use researchmind_mcp.Security.Passwords.{
  Bcrypt, utf8, normalize_password, verify_password, verify_against, compared, always_false,
  maximum_bytes, answered,
}
use researchmind_mcp.Accounts.Lookup.{not-false, not-true}
use researchmind_mcp.Accounts.{Auth, login, decide, access_token, stored_hash}

-- bcrypt says that the stored hash is of this password, all of whose bytes it reads.
pub record Matches (lib : Bcrypt) (password : Text) (hash : String) : Type 0 where
  pub bytes : Bytes
  pub encoded : utf8 (lib.nfkc password) ≡ some bytes
  pub whole : ltb maximum_bytes (length bytes) ≡ false
  pub checked : lib.checkpw bytes hash ≡ some true

module _ (lib : Bcrypt) (absent : String) (password : Text) where
  checked_answer : (o : Option Bool) → ok (answered lib o) ≡ ok true → o ≡ some true
  checked_answer none h = cc
  checked_answer (some b) h = cc

  verify_against-Matches :
      (hash : String) → verify_against lib password hash ≡ ok true → Matches lib password hash
  unfolding verify_against normalize_password
  verify_against-Matches hash h = elim (Option-cases (utf8 (lib.nfkc password))) [
    | inl none_there ↦ let absurd = rw none_there at h in cc
    | inr (bytes, there) ↦ elim (Bool-cases (ltb maximum_bytes (length bytes))) [
      | inl long ↦ let absurd = rw (there, long) at h in cc
      | inr fits ↦ record {
        bytes = bytes;
        encoded = there;
        whole = fits;
        checked = checked_answer (lib.checkpw bytes hash) (rw (there, fits) at h);
      }
    ]
  ]

  never_true : (r : Result Bool) → always_false lib r ≡ ok true → ⊥
  never_true (ok b) h = cc
  never_true (err e) h = cc

  -- Only a stored hash that bcrypt confirms verifies.
  pub verify_password-Matches :
      (stored : Option String)
      → verify_password lib absent password stored ≡ ok true
      → (hash : String) × (stored ≡ some hash)
        × (str_eq hash "" ≡ false)
        × Matches lib password hash
  unfolding verify_password
  verify_password-Matches none h = elim (never_true (verify_against lib password absent) h) [ ]
  verify_password-Matches (some hash) h = elim (Bool-cases (str_eq hash "")) [
    | inl empty ↦ elim (never_true (verify_against lib password absent) (rw empty at h)) [ ]
    | inr full ↦ (hash, refl, full, verify_against-Matches hash (rw full at h))
  ]

  denied_answer : (o : Option Bool) → ok (answered lib o) ≡ ok false → o ≢ some true
  denied_answer none h e = cc
  denied_answer (some true) h e = cc
  denied_answer (some false) h e = cc

  verify_against-denies :
      (hash : String) → verify_against lib password hash ≡ ok false → ¬ Matches lib password hash
  unfolding verify_against normalize_password
  verify_against-denies hash h m =
      denied_answer (lib.checkpw m.bytes hash) (rw (m.encoded, m.whole) at h) m.checked

  -- A stored hash that does not verify is empty, or bcrypt does not confirm it.
  pub verify_password-denies :
      (stored : Option String) (hash : String)
      → verify_password lib absent password stored ≡ ok false
      → stored ≡ some hash
      → Matches lib password hash
      → str_eq hash "" ≡ true
  unfolding verify_password
  verify_password-denies none hash h e m = cc
  verify_password-denies (some other_hash) hash h e m = elim (Bool-cases (str_eq hash "")) [
    | inl empty ↦ empty
    | inr full ↦
        let same : other_hash ≡ hash = cc in
        elim (verify_against-denies hash (rw (same, full) at h) m) [ ]
  ]

  compared_only :
      (hash : String) (o : Option Bytes) (e : Exc)
      → compared lib hash o ≡ err e
      → (e ≡ encoding) × (o ≡ none)
  compared_only hash none e h = (cc, refl)
  compared_only hash (some bytes) e h = elim (Bool-cases (ltb maximum_bytes (length bytes))) [
    | inl long ↦ let absurd = rw long at h in cc
    | inr fits ↦ let absurd = rw fits at h in cc
  ]

  always_only : (r : Result Bool) (e : Exc) → always_false lib r ≡ err e → r ≡ err e
  always_only (ok b) e h = cc
  always_only (err e') e h = h

  pub verify_password_only :
      (stored : Option String) (e : Exc)
      → verify_password lib absent password stored ≡ err e
      → (e ≡ encoding) × (utf8 (lib.nfkc password) ≡ none)
  unfolding verify_password verify_against normalize_password
  verify_password_only none e h =
      compared_only absent (utf8 (normalize_password lib password)) e
        (always_only (verify_against lib password absent) e h)
  verify_password_only (some hash) e h = elim (Bool-cases (str_eq hash "")) [
    | inl empty ↦
        compared_only absent (utf8 (normalize_password lib password)) e
          (always_only (verify_against lib password absent) e (rw empty at h))
    | inr full ↦ compared_only hash (utf8 (normalize_password lib password)) e (rw full at h)
  ]

module _ (rt : Runtime) (auth : Auth) (email : String) (password : Text) where
  -- The row that the email names, of an active user, with a hash that bcrypt confirms.
  pub record Entitled (row : UserRow) (d : Db) : Type 0 where
    pub named : find (has_email email) d.users ≡ some row
    pub is_in_use : row.is_active ≡ true
    pub hash : String
    pub stored : row.password_hash ≡ some hash
    pub nonempty : str_eq hash "" ≡ false
    pub matches : Matches auth.bcrypt password hash

  abbrev pub SignedIn : AccessToken → Db → Type 0
  SignedIn t d =
      (row : UserRow) × Entitled row d
      × (issued : ℕ) × (t ≡ access_token rt auth (to_credentials rt row) issued)

  -- What a sign-in can raise, and when.
  abbrev pub Denied : Exc → Db → Type 0
  Denied authentication d = ¬ ((row : UserRow) × Entitled row d)
  Denied encoding d = utf8 (auth.bcrypt.nfkc password) ≡ none
  Denied database d = Unit {0}
  Denied cancelled d = Unit {0}
  Denied _ d = ⊥

  Lost-Denied : (e : Exc) (d : Db) → Lost e → Denied e d
  Lost-Denied database d h = tt
  Lost-Denied cancelled d h = tt
  Lost-Denied _ d h = elim h [ ]

  encoding-Denied :
      (e : Exc) (d : Db) → (e ≡ encoding) × (utf8 (auth.bcrypt.nfkc password) ≡ none) → Denied e d
  encoding-Denied e d (p, q) = rw p q

  answer :
      (o : Option UserRow) (c : Option UserCredentials)
      → map_option (to_credentials rt) o ≡ c
      → (c ≡ none) ⊎ ((row : UserRow) × (o ≡ some row) × (c ≡ some (to_credentials rt row)))
  answer none c h = inl (sym h)
  answer (some row) c h = inr (row, refl, sym h)

  read_answer :
      (now : ℕ) (d : Db) (c : Option UserCredentials)
      → select_credentials rt email now d ≡ some (c, none)
      → map_option (to_credentials rt) (find (has_email email) d.users) ≡ c
  unfolding select_credentials
  read_answer now d c h = cc

  select_credentials-Reads : Reads (select_credentials rt email)
  unfolding select_credentials
  select_credentials-Reads now d = (_, refl)

  module _ (I : Db → Type 0) where
    abbrev Chosen : Option UserCredentials → World → Type 0
    Chosen c w = Answers (select_credentials rt email) c w.db × Holds I w

    abbrev pub Issued : AccessToken → World → Type 0
    Issued t w = SignedIn t w.db × Holds I w

    abbrev pub Refused : Exc → World → Type 0
    Refused e w = Denied e w.db × Holds I w

    issue_sound :
        (c : UserCredentials) (hash : String) (now : ℕ) (w : World)
        → Chosen (some c) w
        → c.is_active ≡ true
        → c.password_hash ≡ some hash
        → str_eq hash "" ≡ false
        → Matches auth.bcrypt password hash
        → Issued (access_token rt auth c now) w
    issue_sound c hash now w ((t, read), h) a stored full m =
        elim (answer _ (some c) (read_answer t w.db (some c) read)) [
          | inl nobody ↦ cc
          | inr (row, found, same) ↦
              let is_row : c ≡ to_credentials rt row = cc in
              (
                (
                  row,
                  record {
                    named = found;
                    is_in_use = rw is_row at a;
                    hash = hash;
                    stored = rw is_row at stored;
                    nonempty = full;
                    matches = m;
                  },
                  now,
                  rw is_row refl,
                ),
                h,
              )
        ]

    -- Nobody is entitled whose credentials, the ones that were read, do not say so.
    refused :
        (c : Option UserCredentials) (w : World)
        → Chosen c w
        → ((row : UserRow) → Entitled row w.db → c ≡ some (to_credentials rt row) → ⊥)
        → Refused authentication w
    refused c w ((t, read), h) absurd =
        ((λ (row, e). absurd row e (sym (rw e.named at (read_answer t w.db c read)))), h)

    abbrev Confirmed : Option UserCredentials → Type 0
    Confirmed c =
        (hash : String) × (stored_hash rt auth c ≡ some hash)
        × (str_eq hash "" ≡ false)
        × Matches auth.bcrypt password hash

    abbrev Unconfirmed : Option UserCredentials → Type 0
    Unconfirmed c =
        (hash : String)
        → stored_hash rt auth c ≡ some hash
        → Matches auth.bcrypt password hash
        → str_eq hash "" ≡ true

    decide_sound :
        (c : Option UserCredentials) (matched : Bool)
        → (matched ≡ true → Confirmed c)
        → (matched ≡ false → Unconfirmed c)
        → Triple (Chosen c) (decide rt auth c matched) Issued Refused
    unfolding decide pure
    decide_sound none matched h k =
        Triple-raise authentication (λ w p. refused none w p (λ row e q. cc))
    decide_sound (some c) matched h k =
        Triple-if (not matched) _ _
          (λ m. Triple-raise authentication (λ w p. refused (some c) w p (λ row e q.
            let same : c ≡ to_credentials rt row = cc in
            let empty = k (not-true matched m) e.hash (rw same e.stored) e.matches in
            let full = e.nonempty in cc)))
          (λ m.
            Triple-if (not c.is_active) _ _
              (λ a. Triple-raise authentication (λ w p. refused (some c) w p (λ row e q.
                let same : c ≡ to_credentials rt row = cc in
                let inactive : row.is_active ≡ false = rw same at (not-true c.is_active a) in
                let in_use = e.is_in_use in cc)))
              (λ a. record {
                at = λ w p.
                    let (hash, stored, full, ok_hash) = h (not-false matched m) in
                    issue_sound c hash (auth.clock w.tick) w p (not-false c.is_active a) stored full
                      ok_hash;
              }))

    -- A sign-in that succeeds is for the active user whom the email names in the committed rows, with a non-empty stored hash that bcrypt confirms for the whole password, and the token is issued for that row. One that raises AuthenticationError does so where the committed rows have no such user, whether the email is unknown, the hash missing or wrong, or the account disabled; the only other errors are that of a password that UTF-8 cannot encode, a lost connection and a cancellation. Nothing is written.
    pub login-SignedIn :
        Stable rt I → Triple (Holds I) (login rt auth email password) Issued Refused
    unfolding login get_credentials_by_email
    login-SignedIn stable =
        Triple-bind
          (execute_reads rt I stable (select_credentials rt email) select_credentials-Reads)
          (λ e w h. (Lost-Denied e w.db h.0, h.1))
          (λ c.
            Triple-bind
              (Triple-lift (verified c) (λ matched p w h. (p, h))
                (λ e p w h. (
                  encoding-Denied e w.db
                      (verify_password_only auth.bcrypt auth.absent_password_hash password _ e p),
                  h.1,
                )))
              (λ e w h. h)
              (λ matched. Triple-given (λ p.
                decide_sound c matched
                  (λ m.
                    verify_password-Matches auth.bcrypt auth.absent_password_hash password _
                      (p ∙ ap ok m))
                  (λ m hash.
                    verify_password-denies auth.bcrypt auth.absent_password_hash password _ hash
                      (p ∙ ap ok m)))))
      where
        verified : Option UserCredentials → Result Bool
        verified c =
            verify_password auth.bcrypt auth.absent_password_hash password (stored_hash rt auth c)
