-- ===== src/Samples/Accounts.antt =====
-- Libraries for the tests of authentication, with no secrets: a hash is the length of what it is
-- of, and a token spells out its claims.
use Prim.Native.String.{String}
use Prim.Native.Char.{code}
use researchmind_mcp.Prelude.{
  ℕ, zero, suc, ◌<◌, ◌≡◌, refl, ap, true, none, some, Option, [], ◌∷◌, ◌==◌, ltb, length, str_eq,
  eq_iff, Bool-cases, inl, inr, arith, if◌then◌else◌, false,
}
use researchmind_mcp.Models.{Text, Bytes}
use researchmind_mcp.Models.User.{admin}
use researchmind_mcp.Database.{UserRow}
use researchmind_mcp.Database.Session.{World, idle}
use researchmind_mcp.StorageKey.{codes}
use researchmind_mcp.Security.Passwords.{Bcrypt}
use researchmind_mcp.Security.Tokens.{Claims, Payload, payload_of_claims, Pyjwt, JwtSettings}
use researchmind_mcp.Accounts.{Auth}
use researchmind_mcp.Samples.{unary}

abbrev length_hash : Bytes → String
length_hash bytes = String.◌∷◌ "h" (unary (length bytes))

pub length_hash-full : (bytes : Bytes) → str_eq (length_hash bytes) "" ≡ false
length_hash-full bytes = elim (Bool-cases (str_eq (length_hash bytes) "")) [
  | inl empty ↦ let absurd = ap codes ((eq_iff (length_hash bytes) "").0 empty) in cc
  | inr full ↦ full
]

abbrev pub lengths : Bcrypt
lengths = record {
  nfkc = λ raw. raw;
  hashpw = λ bytes salt. length_hash bytes;
  checkpw = λ bytes hash. some (str_eq hash (length_hash bytes));
  hash_nonempty = λ bytes salt. length_hash-full bytes;
  check-hash = λ bytes salt. ap some ((eq_iff (length_hash bytes) (length_hash bytes)).1 refl);
}

-- A text, with a mark before each character and another at the end.
abbrev marked_text : String → String → String
marked_text String.[] rest = String.◌∷◌ "e" rest
marked_text (String.◌∷◌ c s) rest = String.◌∷◌ "c" (String.◌∷◌ c (marked_text s rest))

abbrev unmarked : String → String × String
unmarked String.[] = ("", "")
unmarked (String.◌∷◌ mark String.[]) = ("", "")
unmarked (String.◌∷◌ mark (String.◌∷◌ c s)) =
    let (text, rest) = unmarked s in
    if code mark == 99 then (String.◌∷◌ c text, rest) else ("", String.◌∷◌ c s)

unmarked-marked_text : (s rest : String) → unmarked (marked_text s rest) ≡ (s, rest)
unmarked-marked_text String.[] String.[] = refl
unmarked-marked_text String.[] (String.◌∷◌ c rest) = refl
unmarked-marked_text (String.◌∷◌ c s) rest = rw (unmarked-marked_text s rest) refl

length-unary : (n : ℕ) → length (codes (unary n)) ≡ n
length-unary zero = refl
length-unary (suc n) = ap suc (length-unary n)

abbrev spelled : Claims → String
spelled c = marked_text c.sub (marked_text c.email (marked_text c.role (unary c.exp)))

abbrev unexpired : ℕ → Payload → Option Payload
unexpired now p = if ltb now p.exp then some p else none

abbrev read : ℕ → String → Option Payload
read now text =
    let (sub, rest) = unmarked text in
    let (email, rest') = unmarked rest in
    let (role, time) = unmarked rest' in
    unexpired now
      (record { sub = sub; email = some email; role = some role; exp = length (codes time) })

pub read-spelled :
    (c : Claims) (now : ℕ) → now < c.exp → read now (spelled c) ≡ some (payload_of_claims c)
read-spelled c now h =
    let early : ltb now c.exp ≡ true = ground arith in
    rw
      (
        unmarked-marked_text c.sub (marked_text c.email (marked_text c.role (unary c.exp))),
        unmarked-marked_text c.email (marked_text c.role (unary c.exp)),
        unmarked-marked_text c.role (unary c.exp),
        length-unary c.exp,
        early,
      )
      refl

abbrev pub plain_tokens : Pyjwt
plain_tokens = record {
  encode = λ c secret algorithm. spelled c;
  decode = λ now text secret algorithm. read now text;
  decode-encode = λ c secret algorithm now h. read-spelled c now h;
}

abbrev pub jwt_settings : JwtSettings
jwt_settings = record { jwt_secret = "s"; jwt_algorithm = "HS256"; jwt_expire_minutes = 1 }

abbrev pub sample_auth : Auth
sample_auth = record {
  bcrypt = lengths;
  jwt = plain_tokens;
  settings = jwt_settings;
  gensalt = λ t. "salt";
  clock = λ t. t;
  absent_password_hash = "absent";
}

-- Twelve letters.
abbrev pub password : Text
password = 97 ∷ 98 ∷ 99 ∷ 100 ∷ 101 ∷ 102 ∷ 103 ∷ 104 ∷ 105 ∷ 106 ∷ 107 ∷ 108 ∷ []

abbrev pub password_hash : String
password_hash = "hxxxxxxxxxxxx"

abbrev pub ada : UserRow
ada = record {
  id = 3;
  email = "ada@example.org";
  full_name = "Ada";
  role = admin;
  is_active = true;
  password_hash = some password_hash;
  created_at = 1;
}

abbrev pub one_user : World
one_user = record {
  db = record { users = ada ∷ []; documents = []; pages = []; chunks = [] };
  session = idle;
  points = [];
  blobs = [];
  tick = 0;
}
