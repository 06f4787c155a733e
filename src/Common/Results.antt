-- ===== src/Common/Results.antt =====
-- Go's `(value, error)` results as a sum, and loops that return at the first error.
use mathlib.Core.Path.{◌≡◌, refl, subst}
use mathlib.Core.Logic.{◌⊎◌, inl, inr}
use mathlib.Core.List.{List, [], ◌∷◌}
use egresswall.Common.Lists.{All}

pub data Result {ℓ κ} (E : Type ℓ) (A : Type κ) : Type (ℓ ⊔ κ) where
  ok : A → Result E A
  err : E → Result E A

pub Result-cases {ℓ κ} :
    {E : Type ℓ} {A : Type κ} (r : Result E A) → ((a : A) × (r ≡ ok a)) ⊎ ((e : E) × (r ≡ err e))
Result-cases (ok a) = inl (a, refl)
Result-cases (err e) = inr (e, refl)

module _ {ℓ} {E : Type ℓ} where
  infixl 5 ◌>>=◌
  abbrev pub ◌>>=◌ {κ μ} : {A : Type κ} {B : Type μ} → Result E A → (A → Result E B) → Result E B
  ok a >>= f = f a
  err e >>= f = err e

  pub bind-eq-ok {κ μ} :
      {A : Type κ} {B : Type μ} (m : Result E A) (f : A → Result E B) {b : B}
      → (m >>= f) ≡ ok b
      → (a : A) × (m ≡ ok a) × (f a ≡ ok b)
  bind-eq-ok (ok a) f h = (a, refl, h)
  bind-eq-ok (err e) f h = cc

  pub ok-bind {κ μ} :
      {A : Type κ} {B : Type μ} (m : Result E A) (f : A → Result E B) (a : A)
      → m ≡ ok a
      → (m >>= f) ≡ f a
  ok-bind m f a e = rw e refl

  pub ok-injective {κ} : {A : Type κ} {a b : A} → ◌≡◌ {A = Result E A} (ok a) (ok b) → a ≡ b
  ok-injective e = cc

  -- `for _, x := range xs { s, err = step(s, x); if err != nil { return err } }`
  unfoldable pub each_ok {κ μ} :
      {S : Type κ} {A : Type μ} → (S → A → Result E S) → S → List A → Result E S
  each_ok step s [] = ok s
  each_ok step s (x ∷ xs) = step s x >>= λ t. each_ok step t xs

  -- What each successful round keeps holds after the loop.
  pub each_ok_keeps {κ μ ν} :
      {S : Type κ} {A : Type μ} (P : S → Type ν) (step : S → A → Result E S)
      → ((s t : S) (x : A) → step s x ≡ ok t → P s → P t)
      → (xs : List A) (s t : S) → each_ok step s xs ≡ ok t
      → P s
      → P t
  unfolding each_ok
  each_ok_keeps P step keep [] s t e h = subst P (ok-injective e) h
  each_ok_keeps P step keep (x ∷ xs) s t e h =
      let (m, here, later) = bind-eq-ok (step s x) (λ m. each_ok step m xs) e in
      each_ok_keeps P step keep xs m t later (keep s m x here h)

  -- A loop whose rounds all succeed succeeds, and what they keep holds after it.
  pub each_ok_total {κ μ ν ρ} :
      {S : Type κ} {A : Type μ} (P : S → Type ν) (Q : A → Type ρ) (step : S → A → Result E S)
      → ((s : S) (x : A) → P s → Q x → (t : S) × (step s x ≡ ok t) × P t)
      → (xs : List A) (s : S) → All Q xs
      → P s
      → (t : S) × (each_ok step s xs ≡ ok t) × P t
  unfolding each_ok
  each_ok_total P Q step go [] s all h = (s, refl, h)
  each_ok_total P Q step go (x ∷ xs) s (q, all) h =
      let (t, made, kept) = go s x h q in rw made (each_ok_total P Q step go xs t all kept)
