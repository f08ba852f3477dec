-- ===== src/Size/Split.antt =====
-- Exact division: a multiple of `a * b` is split into `b` parts that are multiples of `a`.
use native.Mathlib.Nat.{mul-mod_left, mul-div_cancel, div-add-mod', mul_assoc}
use instant_tensor.Base.{ℕ, ◌*◌, ◌/◌, ◌%◌, ◌<◌, ◌≡◌, sym, ap, ◌∙◌, arith}

quotient_lem : (x y : ℕ) → x % y ≡ 0 → x / y * y ≡ x
quotient_lem x y h = omega (arith, div-add-mod' x y)

pub split_div : (x a b : ℕ) → 0 < b → x % (a * b) ≡ 0 → x / b ≡ x / (a * b) * a
split_div x a b p h =
    ap (λ k. k / b) (sym (quotient_lem x (a * b) h) ∙ sym (mul_assoc (x / (a * b)) a b))
    ∙ mul-div_cancel (x / (a * b) * a) p

pub split_exact : (x a b : ℕ) → 0 < b → x % (a * b) ≡ 0 → x / b * b ≡ x
split_exact x a b p h =
    ap (λ k. k * b) (split_div x a b p h) ∙ mul_assoc (x / (a * b)) a b ∙ quotient_lem x (a * b) h

pub split_multiple : (x a b : ℕ) → 0 < b → x % (a * b) ≡ 0 → x / b % a ≡ 0
split_multiple x a b p h = ap (λ k. k % a) (split_div x a b p h) ∙ mul-mod_left (x / (a * b)) a
