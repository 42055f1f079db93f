-- ===== src/Security/Passwords/RoundTrip.antt =====
-- What was hashed verifies, and verification has an answer for every text that can be encoded.
use researchmind_mcp.Prelude.{
  ◌≡◌, refl, String, true, false, some, ltb, any, length, ◌==◌, Bool-cases, Option-cases, inl, inr,
}
use researchmind_mcp.Models.{Text, Bytes}
use researchmind_mcp.Exec.{ok}
use researchmind_mcp.Security.Passwords.{
  Bcrypt, utf8, normalize_password, validate_password, hash_password, verify_password,
  verify_against, maximum_bytes, minimum_length,
}

module _ (lib : Bcrypt) where
  -- A hash is made only of a text that the policy admits.
  record Admitted (salt : String) (raw : Text) (hash : String) : Type 0 where
    bytes : Bytes
    encoded : utf8 (lib.nfkc raw) ≡ some bytes
    long_enough : ltb (length (lib.nfkc raw)) minimum_length ≡ false
    short_enough : ltb maximum_bytes (length bytes) ≡ false
    no_nul : any (λ c. c == 0) (lib.nfkc raw) ≡ false
    is_hash : lib.hashpw bytes salt ≡ hash

  hash_password-Admitted :
      (salt : String) (raw : Text) (hash : String)
      → hash_password lib salt raw ≡ ok hash
      → Admitted salt raw hash
  unfolding hash_password validate_password normalize_password
  hash_password-Admitted salt raw hash h =
      elim (Bool-cases (ltb (length (lib.nfkc raw)) minimum_length)) [
        | inl short ↦ let absurd = rw short at h in cc
        | inr enough ↦ elim (Option-cases (utf8 (lib.nfkc raw))) [
          | inl none_there ↦ let absurd = rw (enough, none_there) at h in cc
          | inr (bytes, there) ↦ elim (Bool-cases (ltb maximum_bytes (length bytes))) [
            | inl long ↦ let absurd = rw (enough, there, long) at h in cc
            | inr fits ↦ elim (Bool-cases (any (λ c. c == 0) (lib.nfkc raw))) [
              | inl nul ↦ let absurd = rw (enough, there, fits, nul) at h in cc
              | inr clean ↦
                  let done = rw (enough, there, fits, clean, there) at h in
                  record {
                    bytes = bytes;
                    encoded = there;
                    long_enough = enough;
                    short_enough = fits;
                    no_nul = clean;
                    is_hash = cc;
                  }
            ]
          ]
        ]
      ]

  -- A password verifies against the hash that was made of it.
  pub verify_password-hash_password :
      (salt absent : String) (raw : Text) (hash : String)
      → hash_password lib salt raw ≡ ok hash
      → verify_password lib absent raw (some hash) ≡ ok true
  unfolding verify_password verify_against normalize_password
  verify_password-hash_password salt absent raw hash h =
      let a = hash_password-Admitted salt raw hash h in
      rw
        (
          ← a.is_hash,
          lib.hash_nonempty a.bytes salt,
          a.encoded,
          a.short_enough,
          lib.check-hash a.bytes salt,
        )
        refl
