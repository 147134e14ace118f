-- ===== src/Common/Exec.antt =====
-- Go functions that change shared state and return an error: a state transformer that keeps what was
-- written before the error.
use mathlib.Core.Path.{◌≡◌, refl, sym, subst}
use mathlib.Core.Logic.{◌⊎◌, inl, inr}
use mathlib.Core.Bool.{Bool, true, false}

pub data Result {ℓ κ} (E : Type ℓ) (A : Type κ) : Type (ℓ ⊔ κ) where
  ok : A → Result E A
  err : E → Result E A

module _ (W E : Type 0) where
  abbrev pub Exec : Type 0 → Type 0
  Exec A = W → Result E A × W

module _ {W E A B : Type 0} where
  -- What follows a call: on success the rest of the body, on an error the early return.
  abbrev pub after : Result E A → W → (A → Exec W E B) → Result E B × W
  after (ok a) w f = f a w
  after (err e) w f = (err e, w)

  infixl 5 ◌>>=◌ ◌>>◌
  abbrev pub ◌>>=◌ : Exec W E A → (A → Exec W E B) → Exec W E B
  ◌>>=◌ m f w = let (r, w') = m w in after r w' f

  abbrev pub ◌>>◌ : Exec W E A → Exec W E B → Exec W E B
  m >> n = m >>= λ _. n

module _ {W E A : Type 0} where
  abbrev pub return : A → Exec W E A
  return a w = (ok a, w)

  abbrev pub fail : E → Exec W E A
  fail e w = (err e, w)

  -- `if test { return err }` before the rest.
  abbrev pub fail_if : Bool → E → Exec W E A → Exec W E A
  fail_if true e m = fail e
  fail_if false e m = m

  abbrev pub gets : (W → A) → Exec W E A
  gets f w = (ok (f w), w)

  -- `_, _ = f()`: the error is dropped, what was written stays.
  abbrev pub ignore_error : Exec W E A → Exec W E (Unit {0})
  ignore_error m w = (ok tt, (m w).1)

module _ {W E : Type 0} where
  abbrev pub modify : (W → W) → Exec W E (Unit {0})
  modify f w = (ok tt, f w)

module _ {E A : Type 0} where
  pub Result-cases : (r : Result E A) → ((a : A) × (r ≡ ok a)) ⊎ ((e : E) × (r ≡ err e))
  Result-cases (ok a) = inl (a, refl)
  Result-cases (err e) = inr (e, refl)

module _ {W E A : Type 0} where
  -- A call returns, or fails.
  pub outcome :
      (x : Result E A × W)
      → ((a : A) × (w : W) × (x ≡ (ok a, w))) ⊎ ((e : E) × (w : W) × (x ≡ (err e, w)))
  outcome (ok a, w) = inl (a, w, refl)
  outcome (err e, w) = inr (e, w, refl)

-- What a call keeps, whether it returns or fails.
module _ {W E : Type 0} (P : W → Type 0) where
  abbrev pub Keeps : {A : Type 0} → Exec W E A → Type 0
  Keeps m = (w : W) → P w → P (m w).1

  pub bind_at :
      {A B : Type 0} (m : Exec W E A) (f : A → Exec W E B) (w : W)
      → P (m w).1
      → ((a : A) (w' : W) → m w ≡ (ok a, w') → P w' → P (f a w').1)
      → P ((m >>= f) w).1
  bind_at {A = A} {B = B} m f w v rest = elim (outcome (m w)) [
    | inl (a, w', e) ↦
        let kept : P w' = subst (λ (x : Result E A × W). P x.1) e v in
        subst (λ (x : Result E A × W). P (after x.0 x.1 f).1) (sym e) (rest a w' e kept)
    | inr (x, w', e) ↦
        let kept : P w' = subst (λ (y : Result E A × W). P y.1) e v in
        subst (λ (y : Result E A × W). P (after y.0 y.1 f).1) (sym e) kept
  ]

  pub bind-Keeps :
      {A B : Type 0} (m : Exec W E A) (f : A → Exec W E B)
      → Keeps m
      → ((a : A) → Keeps (f a))
      → Keeps (m >>= f)
  bind-Keeps m f keeps rest w v = bind_at m f w (keeps w v) (λ a w' e. rest a w')
