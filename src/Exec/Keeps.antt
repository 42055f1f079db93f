-- ===== src/Exec/Keeps.antt =====
-- Hoare triples for methods that may raise, and the predicates that a method keeps.
use researchmind_mcp.Exec
use researchmind_mcp.Prelude.{◌≡◌, refl, Bool, true, false, if◌then◌else◌}
use researchmind_mcp.Exec.{
  Exc, transient, Result, ok, err, Exec, pure, raise, lift, handle, ◌>>=◌, finally,
}

-- Not the request for a retry.
abbrev pub Plain : Exc → Type 0
Plain (transient r) = ⊥
Plain _ = Unit {0}

module _ {S A : Type 0} where
  -- How a call ends: with a value that fits Q, or an exception that fits E.
  abbrev pub Ends : (A → S → Type 0) → (Exc → S → Type 0) → Result A × S → Type 0
  Ends Q E (ok a, s) = Q a s
  Ends Q E (err e, s) = E e s

  pub record Triple (P : S → Type 0) (m : Exec S A) (Q : A → S → Type 0) (E : Exc → S → Type 0)
      : Type 0 where
    pub at : (s : S) → P s → Ends Q E (m s)

  -- `m` keeps P, whether it returns or raises, and asks for no retry.
  abbrev pub Keeps : (S → Type 0) → Exec S A → Type 0
  Keeps P m = Triple P m (λ _ s. P s) (λ e s. Plain e × P s)

module _ {S A : Type 0} {P : S → Type 0} {Q : A → S → Type 0} {E : Exc → S → Type 0} where
  pub Triple-pure : (a : A) → ((s : S) → P s → Q a s) → Triple P (pure a) Q E
  unfolding pure
  Triple-pure a h = record { at = h }

  pub Triple-raise : (e : Exc) → ((s : S) → P s → E e s) → Triple P (raise e) Q E
  unfolding raise
  Triple-raise e h = record { at = h }

  pub Triple-lift :
      (r : Result A)
      → ((a : A) → r ≡ ok a → (s : S) → P s → Q a s)
      → ((e : Exc) → r ≡ err e → (s : S) → P s → E e s)
      → Triple P (lift r) Q E
  unfolding lift
  Triple-lift (ok a) h k = record { at = h a refl }
  Triple-lift (err e) h k = record { at = k e refl }

  pub Triple-if :
      (b : Bool) (m n : Exec S A)
      → (b ≡ true → Triple P m Q E)
      → (b ≡ false → Triple P n Q E)
      → Triple P (if b then m else n) Q E
  Triple-if true m n hm hn = hm refl
  Triple-if false m n hm hn = hn refl

module _ {S A B : Type 0} {Q : A → S → Type 0} {E : Exc → S → Type 0} {R : B → S → Type 0}
    {F : Exc → S → Type 0} where
  continue-Ends :
      (r : Result A × S) (h : Exc → Exec S B) (k : A → Exec S B)
      → Ends Q E r
      → ((e : Exc) → Triple (E e) (h e) R F)
      → ((a : A) → Triple (Q a) (k a) R F)
      → Ends R F (Exec.continue r.0 h k r.1)
  continue-Ends (ok a, s) h k p th tk = (tk a).at s p
  continue-Ends (err e, s) h k p th tk = (th e).at s p

module _ {S A B : Type 0} {P : S → Type 0} {Q : A → S → Type 0} {E : Exc → S → Type 0}
    {R : B → S → Type 0} {F : Exc → S → Type 0} where
  pub Triple-handle :
      {m : Exec S A} {h : Exc → Exec S B} {k : A → Exec S B}
      → Triple P m Q E
      → ((e : Exc) → Triple (E e) (h e) R F)
      → ((a : A) → Triple (Q a) (k a) R F)
      → Triple P (handle m h k) R F
  unfolding handle
  Triple-handle {m} {h} {k} tm th tk = record {
    at = λ s p. continue-Ends (m s) h k (tm.at s p) th tk;
  }

  pub Triple-bind :
      {m : Exec S A} {k : A → Exec S B}
      → Triple P m Q E
      → ((e : Exc) (s : S) → E e s → F e s)
      → ((a : A) → Triple (Q a) (k a) R F)
      → Triple P (m >>= k) R F
  unfolding ◌>>=◌
  Triple-bind tm he tk = Triple-handle tm (λ e. Triple-raise e (he e)) tk

module _ {S A : Type 0} {Q Q' : A → S → Type 0} {E E' : Exc → S → Type 0} where
  pub Ends-mono :
      (r : Result A × S)
      → ((a : A) (s : S) → Q a s → Q' a s)
      → ((e : Exc) (s : S) → E e s → E' e s)
      → Ends Q E r
      → Ends Q' E' r
  Ends-mono (ok a, s) hq he h = hq a s h
  Ends-mono (err e, s) hq he h = he e s h

  pub Triple_mono :
      {P P' : S → Type 0} {m : Exec S A}
      → ((s : S) → P' s → P s)
      → ((a : A) (s : S) → Q a s → Q' a s)
      → ((e : Exc) (s : S) → E e s → E' e s)
      → Triple P m Q E
      → Triple P' m Q' E'
  Triple_mono {m = m} hp hq he t = record { at = λ s p. Ends-mono (m s) hq he (t.at s (hp s p)) }

module _ {S A : Type 0} {P : S → Type 0} where
  -- A fact that no call changes goes along.
  pub Triple-frame :
      {C : Type 0} {m : Exec S A} {Q : A → S → Type 0} {E : Exc → S → Type 0}
      → Triple P m Q E
      → Triple (λ s. C × P s) m (λ a s. C × Q a s) (λ e s. C × E e s)
  Triple-frame {m = m} t = record {
    at = λ s h. Ends-mono (m s) (λ a s' q. (h.0, q)) (λ e s' q. (h.0, q)) (t.at s h.1);
  }

module _ {S A : Type 0} {P : S → Type 0} where
  pub Keeps-finally :
      {m : Exec S A} {f : Exec S (Unit {0})} → Keeps P m → Keeps P f → Keeps P (finally m f)
  unfolding finally
  Keeps-finally {m} {f} km kf =
      Triple-handle km
        (λ e.
          Triple-handle (Triple-frame {C = Plain e} kf) (λ e'. Triple-raise e' (λ s h. h.1))
            (λ _. Triple-raise e (λ s h. h)))
        (λ a. Triple-handle kf (λ e. Triple-raise e (λ s h. h)) (λ _. Triple-pure a (λ s h. h)))

module _ {S A : Type 0} {P : S → Type 0} {Q : A → S → Type 0} {E : Exc → S → Type 0} where
  pub Triple-given :
      {C : Type 0} {m : Exec S A} → (C → Triple P m Q E) → Triple (λ s. C × P s) m Q E
  Triple-given t = record { at = λ s h. (t h.0).at s h.1 }

module _ {S A C : Type 0} {P : C → S → Type 0} {Q : A → S → Type 0} {E : Exc → S → Type 0} where
  pub Triple-some :
      {m : Exec S A} → ((c : C) → Triple (P c) m Q E) → Triple (λ s. (c : C) × P c s) m Q E
  Triple-some t = record { at = λ s h. (t h.0).at s h.1 }
