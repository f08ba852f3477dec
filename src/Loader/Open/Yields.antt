-- ===== src/Loader/Open/Yields.antt =====
-- Calls of csrc/loader_common.cpp that throw exactly if a call that they make fails.
use instant_tensor.Base.{
  ◌≡◌, ◌⊎◌, inl, inr, refl, ap, ◌∙◌, Bool, true, false, if◌then◌else◌, Result, ok, err, ◌>>=◌,
  guard,
}
use instant_tensor.Loader.System.{RunError}

-- A call that returns `x` exactly if `R` holds, and throws otherwise.
abbrev pub Yields {ℓ} : {A : Type ℓ} → A → Type 0 → Result RunError A → Type ℓ
Yields x R m = ((m ≡ ok x) × R) ⊎ ((e : RunError) × (m ≡ err e) × (¬ R))

pub guard-Yields : (b : Bool) (e : RunError) → Yields tt (b ≡ true) (guard b e)
guard-Yields true e = inl (refl, refl)
guard-Yields false e = inr (e, refl, λ h. cc h)

pub bind-Yields {ℓ κ} :
    {A : Type ℓ} {B : Type κ} (x : A) (y : B) (R S : Type 0) (m : Result RunError A)
    (f : A → Result RunError B)
    → Yields x R m
    → Yields y S (f x)
    → Yields y (R × S) (m >>= f)
bind-Yields x y R S m f (inl (e, r)) (inl (e', s)) = inl (ap (λ k. k >>= f) e ∙ e', (r, s))
bind-Yields x y R S m f (inl (e, r)) (inr (x', e', fails)) =
    inr (x', ap (λ k. k >>= f) e ∙ e', λ h. fails h.1)
bind-Yields x y R S m f (inr (x', e, fails)) k = inr (x', ap (λ k. k >>= f) e, λ h. fails h.0)

-- The last step of a call.
pub return-Yields {ℓ κ} :
    {A : Type ℓ} {B : Type κ} (x : A) (y : B) (R : Type 0) (m : Result RunError A)
    → Yields x R m
    → Yields y R (m >>= λ a. ok y)
return-Yields x y R m (inl (e, r)) = inl (ap (λ k. k >>= λ a. ok y) e, r)
return-Yields x y R m (inr (x', e, fails)) = inr (x', ap (λ k. k >>= λ a. ok y) e, fails)

pub if-Yields {ℓ} :
    {A : Type ℓ} (x y : A) (R : Type 0) (b : Bool) (m : Result RunError A)
    → Yields x R m
    → Yields (if b then x else y) (b ≡ true → R) (if b then m else ok y)
if-Yields x y R true m (inl (e, r)) = inl (e, λ h. r)
if-Yields x y R true m (inr (x', e, fails)) = inr (x', e, λ h. fails (h refl))
if-Yields x y R false m k = inl (refl, λ h. absurd (false_true h))
  where
    false_true : false ≡ true → ⊥
    false_true e = cc e

pub when-Yields :
    (R : Type 0) (b : Bool) (m : Result RunError (Unit {0}))
    → Yields tt R m
    → Yields tt (b ≡ true → R) (if b then m else ok tt)
when-Yields R true m (inl (e, r)) = inl (e, λ h. r)
when-Yields R true m (inr (x', e, fails)) = inr (x', e, λ h. fails (h refl))
when-Yields R false m k = inl (refl, λ h. absurd (false_true h))
  where
    false_true : false ≡ true → ⊥
    false_true e = cc e

pub same-Yields {ℓ} :
    {A : Type ℓ} (x : A) (R S : Type 0) (m : Result RunError A)
    → (R → S)
    → (S → R)
    → Yields x R m
    → Yields x S m
same-Yields x R S m to from (inl (e, r)) = inl (e, to r)
same-Yields x R S m to from (inr (x', e, fails)) = inr (x', e, λ s. fails (from s))
