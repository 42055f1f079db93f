-- ===== src/Repositories/Users/Emails.antt =====
-- What the INSERT of an account does.
use researchmind_mcp.Prelude.{
  ℕ, ◌≡◌, refl, ◌∙◌, String, false, Option, [], ◌∷◌, ◌++◌, any, ◌==◌, Bool-cases, inl, inr,
}
use researchmind_mcp.Models.User.{UserRole, User}
use researchmind_mcp.Runtime.{Runtime}
use researchmind_mcp.Database.{UserRow, Db}
use researchmind_mcp.Database.Session.{Ran, Writes}
use researchmind_mcp.Database.Session.Reading.{wrote_inv}
use researchmind_mcp.Repositories.Users.{insert_user, user_row, has_email, to_user}

module _ (rt : Runtime) (id : ℕ) (email full_name : String) (role : UserRole)
    (password_hash : Option String) where
  pub insert_user-Writes : Writes (insert_user rt id email full_name role password_hash)
  unfolding insert_user
  insert_user-Writes now d = elim (Bool-cases (any (λ (r : UserRow). r.id == id) d.users)) [
    | inl taken ↦ inl (rw taken refl)
    | inr free ↦ elim (Bool-cases (any (has_email email) d.users)) [
      | inl taken ↦ inl (rw (free, taken) refl)
      | inr fresh ↦
          let row = user_row id email full_name role password_hash now in
          inr (to_user rt row, record d { users = d.users ++ row ∷ [] }, rw (free, fresh) refl)
    ]
  ]

  -- What an INSERT that was let through did: the one new row, of a free id and email.
  pub insert_user_inv :
      {d d' : Db} {user : User}
      → Ran (insert_user rt id email full_name role password_hash) d user d'
      → (now : ℕ) × (user ≡ to_user rt (user_row id email full_name role password_hash now))
        × (d' ≡ record d {
          users = d.users ++ user_row id email full_name role password_hash now ∷ [];
        })
        × (any (λ (r : UserRow). r.id == id) d.users ≡ false)
        × (any (has_email email) d.users ≡ false)
  unfolding insert_user
  insert_user_inv {d} {d'} {user} (now, r, e, e') =
      elim (Bool-cases (any (λ (r : UserRow). r.id == id) d.users)) [
        | inl taken ↦ let absurd = rw taken at e in cc
        | inr free ↦ elim (Bool-cases (any (has_email email) d.users)) [
          | inl taken ↦ let absurd = rw (free, taken) at e in cc
          | inr fresh ↦
              let row = user_row id email full_name role password_hash now in
              let (a, b) =
                wrote_inv (to_user rt row) user d (record d { users = d.users ++ row ∷ [] }) r
                  (rw (free, fresh) at e) in
              (now, a, e' ∙ b, free, fresh)
        ]
      ]
