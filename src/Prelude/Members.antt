-- ===== src/Prelude/Members.antt =====
-- Membership in a list, and tests and filters that agree on the members.
use mathlib.Core.Path.{◌≡◌, refl, ap, ◌∙◌, sym}
use mathlib.Core.Logic.{◌⊎◌, inl, inr}
use mathlib.Core.Bool.{Bool, true, false, ◌&&◌, ◌||◌}
use mathlib.Core.List.{List, [], ◌∷◌, ◌++◌}
use native.Mathlib.Omega.{arith}
use researchmind_mcp.Prelude.Lists.{any, select}
use researchmind_mcp.Prelude.Tests.{if◌then◌else◌}

module _ {A : Type 0} where
  abbrev pub Member : A → List A → Type 0
  Member x [] = ⊥
  Member x (y ∷ ys) = (x ≡ y) ⊎ Member x ys

  abbrev pub All : (A → Type 0) → List A → Type 0
  All P [] = Unit {0}
  All P (x ∷ xs) = P x × All P xs

  pub any_cong :
      (p q : A → Bool) (xs : List A) → ((x : A) → Member x xs → p x ≡ q x) → any p xs ≡ any q xs
  any_cong p q [] h = refl
  any_cong p q (x ∷ xs) h = rw (h x (inl refl), any_cong p q xs (λ y m. h y (inr m))) refl

  pub select_cong :
      (p q : A → Bool) (xs : List A)
      → ((x : A) → Member x xs → p x ≡ q x)
      → select p xs ≡ select q xs
  select_cong p q [] h = refl
  select_cong p q (x ∷ xs) h = rw (h x (inl refl), select_cong p q xs (λ y m. h y (inr m))) refl

  pub any-select : (p q : A → Bool) (xs : List A) → any p (select q xs) ≡ any (λ x. q x && p x) xs
  any-select p q [] = refl
  any-select p q (x ∷ xs) = ground (arith, any-select p q xs)

  pub select-Member :
      (p : A → Bool) (xs : List A) (x : A) → Member x (select p xs) → (p x ≡ true) × Member x xs
  select-Member p [] x m = elim m [ ]
  select-Member p (y ∷ ys) x m = cases (p y) refl (select-Member p ys x) m
    where
      cases :
          (b : Bool)
          → p y ≡ b
          → (Member x (select p ys) → (p x ≡ true) × Member x ys)
          → Member x (if b then y ∷ select p ys else select p ys)
          → (p x ≡ true) × Member x (y ∷ ys)
      cases true e rest (inl same) = (ap p same ∙ e, inl same)
      cases true e rest (inr m) = let (h, n) = rest m in (h, inr n)
      cases false e rest m = let (h, n) = rest m in (h, inr n)

  pub any-Member : (p : A → Bool) (xs : List A) (x : A) → Member x xs → p x ≡ true → any p xs ≡ true
  any-Member p [] x m h = elim m [ ]
  any-Member p (y ∷ ys) x (inl same) h = let q : p y ≡ true = ap p (sym same) ∙ h in rw q refl
  any-Member p (y ∷ ys) x (inr m) h = ground (arith, any-Member p ys x m h)

  pub any-append : (p : A → Bool) (xs ys : List A) → any p (xs ++ ys) ≡ (any p xs || any p ys)
  any-append p [] ys = refl
  any-append p (x ∷ xs) ys = ground (arith, any-append p xs ys)
