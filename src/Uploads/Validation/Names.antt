-- ===== src/Uploads/Validation/Names.antt =====
-- The names that uploads are stored under for display.
use researchmind_mcp.Prelude.{
  ℕ, ◌≤◌, ◌≡◌, refl, subst, Bool, true, false, not, Option, none, some, [], ◌∷◌, ◌&&◌, ◌==◌, ltb,
  all, any, length, is_empty, select, Bool-cases, inl, inr, arith,
}
use researchmind_mcp.Models.{Text}
use researchmind_mcp.Exec.{ok}
use researchmind_mcp.Uploads.Validation.{
  FileRules, display_filename, usable_name, cleaned, with_slashes, last_component, is_slash,
  is_dots, max_filename_length,
}

abbrev no_backslash : Text → Bool
no_backslash text = all (λ c. not (c == 92)) text

with_slashes-clean : (text : Text) → no_backslash (with_slashes text) ≡ true
with_slashes-clean [] = refl
with_slashes-clean (c ∷ text) = elim (Bool-cases (c == 92)) [
  | inl bad ↦ rw (bad, with_slashes-clean text) refl
  | inr good ↦ rw (good, good, with_slashes-clean text) refl
]

abbrev pub clean : ℕ → Bool
clean c = not (c == 47) && not (c == 92)

and_inv : (a b : Bool) → (a && b) ≡ true → (a ≡ true) × (b ≡ true)
and_inv true b h = (refl, h)
and_inv false b h = cc

all-clean :
    (text : Text) → no_backslash text ≡ true → any is_slash text ≡ false → all clean text ≡ true
all-clean [] h k = refl
all-clean (c ∷ text) h k = ground (arith, all-clean text)

last_component-clean :
    (text : Text) → no_backslash text ≡ true → all clean (last_component text) ≡ true
last_component-clean [] h = refl
last_component-clean (c ∷ text) h =
    let (good, rest) = and_inv (not (c == 92)) (no_backslash text) h in
    elim (Bool-cases (any is_slash text)) [
      | inl later ↦ rw later (last_component-clean text rest)
      | inr none_later ↦ elim (Bool-cases (c == 47)) [
        | inl here ↦ rw (none_later, here) (all-clean text rest none_later)
        | inr other ↦ rw (none_later, other, other, good, all-clean text rest none_later) refl
      ]
    ]

all-select :
    (p q : ℕ → Bool) (text : Text)
    → all p text ≡ true
    → all (λ c. p c && q c) (select q text) ≡ true
all-select p q [] h = refl
all-select p q (c ∷ text) h =
    let (here, rest) = and_inv (p c) (all p text) h in
    elim (Bool-cases (q c)) [
      | inl kept ↦ rw (kept, kept, here, all-select p q text rest) refl
      | inr dropped ↦ rw dropped (all-select p q text rest)
    ]

-- What a stored name is.
pub record Displayable (rules : FileRules) (name : Text) : Type 0 where
  pub characters : all (λ c. clean c && not (rules.is_stripped c)) name ≡ true
  pub nonempty : is_empty name ≡ false
  pub no_dots : is_dots name ≡ false
  pub fits : length name ≤ max_filename_length

cleaned-clean :
    (rules : FileRules) (raw : Text)
    → all (λ c. clean c && not (rules.is_stripped c)) (cleaned rules raw) ≡ true
cleaned-clean rules raw =
    let parts = last_component (with_slashes (rules.nfc raw)) in
    rules.all-strip _ _ (
      all-select clean (λ c. not (rules.is_stripped c)) parts
        (last_component-clean (with_slashes (rules.nfc raw)) (with_slashes-clean (rules.nfc raw))))

usable_name-Displayable :
    (rules : FileRules) (name result : Text)
    → all (λ c. clean c && not (rules.is_stripped c)) name ≡ true
    → usable_name rules name ≡ ok result
    → Displayable rules result
usable_name-Displayable rules name result chars h = elim (Bool-cases (is_empty name)) [
  | inl nothing ↦ let absurd = rw nothing at h in cc
  | inr something ↦ elim (Bool-cases (is_dots name)) [
    | inl dots ↦ let absurd = rw (something, dots) at h in cc
    | inr no_dots ↦ elim (Bool-cases (ltb max_filename_length (length name))) [
      | inl long ↦ let absurd = rw (something, no_dots, long) at h in cc
      | inr fits ↦
          let done = rw (something, no_dots, fits) at h in
          let same : name ≡ result = cc in
          subst (Displayable rules) same (record {
            characters = chars;
            nonempty = something;
            no_dots = no_dots;
            fits = ground arith;
          })
    ]
  ]
]

-- A name that is stored has no separator of either kind and no control, format or surrogate character, is neither empty nor a dot entry, and is at most 512 characters long.
pub display_filename-Displayable :
    (rules : FileRules) (raw : Option Text) (name : Text)
    → display_filename rules raw ≡ ok name
    → Displayable rules name
unfolding display_filename
display_filename-Displayable rules none name h = cc
display_filename-Displayable rules (some raw) name h =
    usable_name-Displayable rules (cleaned rules raw) name (cleaned-clean rules raw) h
