-- ===== src/Security/Passwords.antt =====
-- backend/security/passwords.py. A password is its code points.
pub mod RoundTrip
use researchmind_mcp.Prelude.{
  ℕ, ◌≡◌, ◌+◌, ◌-◌, ◌/◌, ◌%◌, String, Bool, true, false, Option, none, some, List, [], ◌∷◌, ◌++◌,
  ◌&&◌, ◌||◌, ◌==◌, ltb, leb, any, length, str_eq, map_option, if◌then◌else◌,
}
use researchmind_mcp.Models.{Text, Bytes}
use researchmind_mcp.Exec.{Result, ok, err, password_policy, encoding}

-- `unicodedata` and `bcrypt`. `checkpw` has no answer where it raises ValueError or TypeError.
pub record Bcrypt : Type 0 where
  -- unicodedata.normalize("NFKC", raw)
  pub nfkc : Text → Text
  pub hashpw : Bytes → String → String
  pub checkpw : Bytes → String → Option Bool
  pub hash_nonempty : (b : Bytes) (salt : String) → str_eq (hashpw b salt) "" ≡ false
  pub check-hash : (b : Bytes) (salt : String) → checkpw b (hashpw b salt) ≡ some true

abbrev pub minimum_length : ℕ
minimum_length = 12

abbrev pub maximum_bytes : ℕ
maximum_bytes = 72

-- One code point in UTF-8; a lone surrogate has none.
abbrev pub utf8_char : ℕ → Option Bytes
utf8_char c =
    if ltb c 0x80
    then some (c ∷ [])
    else if ltb c 0x800
    then some ((0xc0 + c / 0x40) ∷ (0x80 + c % 0x40) ∷ [])
    else if leb 0xd800 c && ltb c 0xe000
    then none
    else if ltb c 0x1_0000
    then some ((0xe0 + c / 0x1000) ∷ (0x80 + c / 0x40 % 0x40) ∷ (0x80 + c % 0x40) ∷ [])
    else some (
        (0xf0 + c / 0x4_0000)
        ∷ (0x80 + c / 0x1000 % 0x40)
        ∷ (0x80 + c / 0x40 % 0x40)
        ∷ (0x80 + c % 0x40)
        ∷ [])

abbrev pub prepended : Option Bytes → Option Bytes → Option Bytes
prepended (some a) (some b) = some (a ++ b)
prepended _ _ = none

-- text.encode("utf-8"), or None for the UnicodeEncodeError.
unfoldable pub utf8 : Text → Option Bytes
utf8 [] = some []
utf8 (c ∷ text) = prepended (utf8_char c) (utf8 text)

module _ (lib : Bcrypt) where
  unfoldable pub normalize_password : Text → Text
  normalize_password raw = lib.nfkc raw

  abbrev pub within_policy : Text → Option Bytes → Result Text
  within_policy normalised none = err encoding
  within_policy normalised (some encoded) =
      if ltb maximum_bytes (length encoded)
      then err password_policy
      else if any (λ c. c == 0) normalised
      then err password_policy
      else ok normalised

  unfoldable pub validate_password : Text → Result Text
  unfolding normalize_password
  validate_password raw =
      let normalised = normalize_password raw in
      if ltb (length normalised) minimum_length
      then err password_policy
      else within_policy normalised (utf8 normalised)

  abbrev pub hashed : String → Text → Option Bytes → Result String
  hashed salt normalised none = err encoding
  hashed salt normalised (some encoded) = ok (lib.hashpw encoded salt)

  abbrev pub hash_valid : String → Result Text → Result String
  hash_valid salt (err e) = err e
  hash_valid salt (ok normalised) = hashed salt normalised (utf8 normalised)

  -- The salt is what `bcrypt.gensalt()` returns.
  unfoldable pub hash_password : String → Text → Result String
  unfolding validate_password
  hash_password salt raw = hash_valid salt (validate_password raw)

  abbrev pub answered : Option Bool → Bool
  answered none = false
  answered (some b) = b

  abbrev pub compared : String → Option Bytes → Result Bool
  compared password_hash none = err encoding
  compared password_hash (some candidate) =
      if ltb maximum_bytes (length candidate)
      then ok false
      else ok (answered (lib.checkpw candidate password_hash))

  -- `_verify`
  unfoldable pub verify_against : Text → String → Result Bool
  unfolding normalize_password
  verify_against raw password_hash = compared password_hash (utf8 (normalize_password raw))

  -- _verify(...); return False
  abbrev pub always_false : Result Bool → Result Bool
  always_false (ok b) = ok false
  always_false (err e) = err e

  -- A missing or empty hash is compared against a throwaway one.
  unfoldable pub verify_password : String → Text → Option String → Result Bool
  verify_password absent raw none = always_false (verify_against raw absent)
  verify_password absent raw (some password_hash) =
      if str_eq password_hash ""
      then always_false (verify_against raw absent)
      else verify_against raw password_hash
