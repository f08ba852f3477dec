-- ===== src/Base/Counts.antt =====
-- How many items of a list pass a test.
use Prim.Native.Nat.{ℕ, ◌+◌}
use mathlib.Core.Path.{◌≡◌, ap}
use mathlib.Core.Bool.{Bool}
use mathlib.Core.List.{List, [], ◌∷◌, ◌++◌}
use native.Mathlib.Omega.{arith}
use instant_tensor.Base.Bools.{if◌then◌else◌}

abbrev pub one_if : Bool → ℕ
one_if b = if b then 1 else 0

module _ {ℓ} {A : Type ℓ} where
  abbrev pub count : (A → Bool) → List A → ℕ
  count p [] = 0
  count p (x ∷ xs) = one_if (p x) + count p xs

  abbrev pub sum_by : (A → ℕ) → List A → ℕ
  sum_by f [] = 0
  sum_by f (x ∷ xs) = f x + sum_by f xs

  pub count-append : (p : A → Bool) (xs ys : List A) → count p (xs ++ ys) ≡ count p xs + count p ys
  count-append p [] ys = omega arith
  count-append p (x ∷ xs) ys = omega (arith, count-append p xs ys)

  pub sum_by-append : (f : A → ℕ) (xs ys : List A) → sum_by f (xs ++ ys) ≡ sum_by f xs + sum_by f ys
  sum_by-append f [] ys = omega arith
  sum_by-append f (x ∷ xs) ys = omega (arith, sum_by-append f xs ys)

  -- One item of the list replaced by another.
  pub sum_by_replaced :
      (f : A → ℕ) (xs before after : List A) (a b : A)
      → xs ≡ before ++ a ∷ after
      → sum_by f xs + f b ≡ sum_by f (before ++ b ∷ after) + f a
  sum_by_replaced f xs before after a b e = omega (
    arith,
    ap (sum_by f) e,
    sum_by-append f before (a ∷ after),
    sum_by-append f before (b ∷ after),
  )
