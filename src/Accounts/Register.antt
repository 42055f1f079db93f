-- ===== src/Accounts/Register.antt =====
-- What a registration adds, and what one that fails leaves behind.
use researchmind_mcp.Prelude.{
  ℕ, ◌≡◌, refl, String, Bool, true, false, some, [], ◌∷◌, ◌++◌, any, ◌==◌, Bool-cases, inl, inr,
  ◌⊎◌, if◌then◌else◌,
}
use researchmind_mcp.Models.{Text}
use researchmind_mcp.Models.User.{User, researcher}
use researchmind_mcp.Exec.{Exc, ok, raise, ◌>>◌, email_taken, cancelled, database}
use researchmind_mcp.Exec.Keeps.{
  Triple, Ends, Ends-mono, Triple-bind, Triple-handle, Triple-pure, Triple-lift, Triple-raise,
  Triple-given, Triple-some, Triple-if, Triple_mono,
}
use researchmind_mcp.Runtime.{Runtime}
use researchmind_mcp.Database.{UserRow, Db}
use researchmind_mcp.Database.Session.{World, idle, rollback}
use researchmind_mcp.Database.Session.Reading.{Lost}
use researchmind_mcp.Database.Session.Rules.{Holds, Stable, Within, Next, Quiet}
use researchmind_mcp.Database.Session.Closing.{
  commit_within, rollback_only, Unsettled, Broken_unsettled, Unknown,
}
use researchmind_mcp.Database.Session.Naming.{Settling, execute_naming_first}
use researchmind_mcp.Repositories.Users.{
  to_user, user_row, insert_user, has_email, user_violation, create,
}
use researchmind_mcp.Repositories.Users.Emails.{insert_user-Writes, insert_user_inv}
use researchmind_mcp.Security.Passwords.{hash_password, verify_password}
use researchmind_mcp.Security.Passwords.RoundTrip.{verify_password-hash_password}
use researchmind_mcp.Accounts.{Auth, register, not_registered, hash_now, is_duplicate_email}

module _ (rt : Runtime) (I : Db → Type 0) where
  violation_settles : (id : ℕ) (d : Db) → Settling I (user_violation id d)
  violation_settles id d w h = elim (Bool-cases (any (λ (r : UserRow). r.id == id) d.users)) [
    | inl taken ↦ rw taken h
    | inr free ↦ rw free h
  ]

module _ (rt : Runtime) (auth : Auth) (I : Db → Type 0) (stable : Stable rt I)
    (email full_name : String) (password : Text) where
  -- One account is added to tables that fit I, where nobody had the email, and the password verifies against its hash.
  pub record Registered (user : User) (d : Db) : Type 0 where
    pub before : Db
    pub fits : I before
    pub id : ℕ
    pub now : ℕ
    pub hash : String
    pub is_user : user ≡ to_user rt (user_row id email full_name researcher (some hash) now)
    pub is_added : d ≡ record before {
      users = before.users ++ user_row id email full_name researcher (some hash) now ∷ [];
    }
    pub free_email : any (has_email email) before.users ≡ false
    pub verifies :
        verify_password auth.bcrypt auth.absent_password_hash password (some hash) ≡ ok true

  abbrev Verifies : String → Type 0
  Verifies hash =
      verify_password auth.bcrypt auth.absent_password_hash password (some hash) ≡ ok true

  hash_now-Verifies :
      Triple
        (Holds I)
        (hash_now rt auth password)
        (λ hash w. Verifies hash × Holds I w)
        (Unsettled I)
  hash_now-Verifies = record {
    at = λ w h.
        (Triple-lift {P = Holds I} (hash_password auth.bcrypt (auth.gensalt w.tick) password)
            (λ hash e w' h. (
              verify_password-hash_password auth.bcrypt (auth.gensalt w.tick)
                  auth.absent_password_hash password hash e,
              h,
            ))
            (λ e p w' h. (h.0, λ _. h.1))).at
          w h;
  }

  module _ (hash : String) where
    abbrev Flushed : ℕ → User → Db → Type 0
    Flushed id user = Next I (insert_user rt id email full_name researcher (some hash)) I user

    create-Flushed :
        Triple
          (Holds I)
          (create rt email full_name (some hash))
          (λ user w. (id : ℕ) × Within I (Flushed id user) w)
          (Unsettled I)
    unfolding create
    create-Flushed = record {
      at = λ w h.
          let id = rt.uuid4 w.tick in
          let s = insert_user rt id email full_name researcher (some hash) in
          Ends-mono (create rt email full_name (some hash) w) (λ user w' q. (id, (q.0.0, q.1)))
            (Broken_unsettled I)
            ((execute_naming_first rt I stable (user_violation id) s (violation_settles rt I id)
                (insert_user-Writes rt id email full_name researcher (some hash))).at
              w h);
    }

    registered :
        (id : ℕ) (user : User) (d : Db) → Verifies hash → Flushed id user d → Registered user d
    registered id user d v (before, fits, ran) =
        let (now, is_user, is_added, free, fresh) =
          insert_user_inv rt id email full_name researcher (some hash) ran in
        record {
          before = before;
          fits = fits;
          id = id;
          now = now;
          hash = hash;
          is_user = is_user;
          is_added = is_added;
          free_email = fresh;
          verifies = v;
        }

  -- The session has no transaction open, unless the call was cancelled; then it has written nothing.
  abbrev pub Usable : Exc → World → Type 0
  Usable e w = ((e ≡ cancelled) × Quiet w.session) ⊎ (w.session ≡ idle)

  abbrev Made : Db → Type 0
  Made d = (user : User) × Registered user d

  -- A COMMIT that raised may have been carried out.
  abbrev pub Unregistered : Exc → World → Type 0
  Unregistered e w = (I w.db ⊎ (Lost e × (user : User) × Registered user w.db)) × Usable e w

  abbrev Caught : Exc → World → Type 0
  Caught e w = Unsettled I e w ⊎ (Lost e × Unsettled Made e w)

  module _ (J : Db → Type 0) where
    rolled :
        (e : Exc) (b : Bool)
        → Triple
            (Unsettled J e)
            (rollback rt >> (if b then raise email_taken else raise e))
            (λ u. Holds (Registered u))
            (λ e' w. J w.db × Usable e' w)
    rolled e b =
        Triple-bind
          (Triple_mono (λ w h. h.0) (λ a w h. h) (λ e w (l, p, q). (p, inr q)) (rollback_only rt J))
          (λ e w h. h)
          (λ _.
            Triple-if b _ _ (λ _. Triple-raise email_taken (λ w h. (h.0, inr h.1)))
              (λ _. Triple-raise e (λ w h. (h.0, inr h.1))))

    not_registered-Usable :
        (e : Exc)
        → Triple
            (Unsettled J e)
            (not_registered rt auth e)
            (λ u. Holds (Registered u))
            (λ e' w. J w.db × Usable e' w)
    unfolding not_registered is_duplicate_email
    not_registered-Usable cancelled = Triple-raise cancelled (λ w h. (h.0, inl (refl, h.1 refl)))
    not_registered-Usable e = rolled e (is_duplicate_email rt auth e)

    not_registered-Lost :
        (e : Exc)
        → Lost e
        → Triple
            (Unsettled J e)
            (not_registered rt auth e)
            (λ u. Holds (Registered u))
            (λ e' w. Lost e' × J w.db × Usable e' w)
    unfolding not_registered is_duplicate_email
    not_registered-Lost cancelled l =
        Triple-raise cancelled (λ w h. (tt, h.0, inl (refl, h.1 refl)))
    not_registered-Lost database l =
        Triple-bind
          (Triple_mono (λ w h. h.0) (λ a w h. h) (λ e w (l, p, q). (l, p, inr q))
            (rollback_only rt J))
          (λ e w h. h) (λ _. Triple-raise database (λ w h. (tt, h.0, inr h.1)))
    not_registered-Lost _ l = elim l [ ]

  not_registered-Unregistered :
      (e : Exc)
      → Triple (Caught e) (not_registered rt auth e) (λ u. Holds (Registered u)) Unregistered
  not_registered-Unregistered e = record { at = ends }
    where
      ends :
          (w : World)
          → Caught e w
          → Ends (λ u. Holds (Registered u)) Unregistered (not_registered rt auth e w)
      ends w (inl h) =
          Ends-mono (not_registered rt auth e w) (λ u w' q. q) (λ e' w' q. (inl q.0, q.1))
            ((not_registered-Usable I e).at w h)
      ends w (inr (l, h)) =
          Ends-mono (not_registered rt auth e w) (λ u w' q. q)
            (λ e' w' (l', m, q). (inr (l', m.0, m.1), q)) ((not_registered-Lost Made e l).at w h)

  -- What was flushed may have been committed.
  caught :
      (hash : String) (id : ℕ) (user : User)
      → Verifies hash
      → (e : Exc) (w : World) → Unknown I (Flushed hash id user) e w
      → Caught e w
  caught hash id user v e w (l, inl h) = inl (Broken_unsettled I e w h)
  caught hash id user v e w (l, inr h) =
      let (p, q) = Broken_unsettled (Flushed hash id user) e w h in
      inr (l, ((user, registered hash id user w.db v p), q))

  -- A registration that succeeds has added exactly one account, of an email that nobody had, with a hash that the password verifies against. One that raises leaves the committed rows as others have made them, except that where the connection was lost or the call cancelled, an account may have been added just so: the reply to its COMMIT had not come. It leaves no transaction open, and the session ready for use unless it was cancelled.
  pub register-Registered :
      Triple
        (Holds I)
        (register rt auth email full_name password)
        (λ u. Holds (Registered u))
        Unregistered
  unfolding register
  register-Registered =
      Triple-handle
        (Triple-bind hash_now-Verifies (λ e w h. inl h)
          (λ hash. Triple-given (λ v.
            Triple-bind (create-Flushed hash) (λ e w h. inl h)
              (λ user. Triple-some (λ id.
                Triple-bind (commit_within rt I (Flushed hash id user)) (caught hash id user v)
                  (λ _. Triple-pure user (λ w h. (registered hash id user w.db v h.0, h.1))))))))
        not_registered-Unregistered (λ u. Triple-pure u (λ w h. h))
