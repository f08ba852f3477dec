-- ===== src/Size/Rounding.antt =====
-- What the rounding templates compute where no step of them wraps.
use native.Mathlib.Nat.{
  div-mul-le_self, lt-div-mul-add, div-add-mod', mul-mod_left, mod-add-mod, mod-eq_of_lt,
}
use instant_tensor.Base.{
  ℕ, ◌+◌, ◌-◌, ◌*◌, ◌/◌, ◌%◌, ◌^◌, ◌≤◌, ◌<◌, ◌≡◌, ◌∙◌, sym, ap, arith, ◌⊎◌, inl, inr,
}
use instant_tensor.Size.{div_ceil, round_up, round_down}

le_total : (a b : ℕ) → (a ≤ b) ⊎ (b ≤ a)
le_total a b = omega arith

round_down_lem : (x y : ℕ) → x < 2 ^ 64 → round_down x y ≡ x / y * y
unfolding round_down
round_down_lem x y h = omega (arith, div-mul-le_self x y)

-- ROUND_DOWN and `%` split a number.
pub round_down-add-mod : (x y : ℕ) → x < 2 ^ 64 → round_down x y + x % y ≡ x
round_down-add-mod x y h = omega (arith, round_down_lem x y h, div-add-mod' x y)

div_ceil_lem : (x y : ℕ) → 0 < y → x + y ≤ 2 ^ 63 → div_ceil x y ≡ (x + y - 1) / y
unfolding div_ceil
div_ceil_lem x y p h = ap (λ k. k / y) (omega arith)

round_up_lem : (x y : ℕ) → 0 < y → x + y ≤ 2 ^ 63 → round_up x y ≡ (x + y - 1) / y * y
unfolding round_up
round_up_lem x y p h =
    omega (arith, ap (λ k. k * y) (div_ceil_lem x y p h), div-mul-le_self (x + y - 1) y)

-- ROUND_UP gives a value in [x, x + y).
pub round_up_bounds :
    (x y : ℕ) → 0 < y → x + y ≤ 2 ^ 63 → (x ≤ round_up x y) × (round_up x y < x + y)
round_up_bounds x y p h =
    omega
      (arith, round_up_lem x y p h, div-mul-le_self (x + y - 1) y, lt-div-mul-add {a = x + y - 1} p)

-- The value is a multiple.
pub round_up-mod : (x y : ℕ) → 0 < y → x + y ≤ 2 ^ 63 → round_up x y % y ≡ 0
round_up-mod x y p h = ap (λ k. k % y) (round_up_lem x y p h) ∙ mul-mod_left ((x + y - 1) / y) y

pub round_down-mod : (x y : ℕ) → x < 2 ^ 64 → round_down x y % y ≡ 0
round_down-mod x y h = ap (λ k. k % y) (round_down_lem x y h) ∙ mul-mod_left (x / y) y

pub add-mod_zero : (a b y : ℕ) → a % y ≡ 0 → (a + b) % y ≡ b % y
add-mod_zero a b y h = sym (mod-add-mod a y b) ∙ ap (λ k. k % y) (omega arith)

-- Two multiples of `y` less than `y` apart are equal.
pub multiple_unique : (a b y : ℕ) → a % y ≡ 0 → b % y ≡ 0 → a ≤ b → b < a + y → a ≡ b
multiple_unique a b y ha hb le lt = omega (
  arith,
  add-mod_zero a (b - a) y ha,
  mod-eq_of_lt {n = b - a} {m = y} (omega arith),
  ap {B = ℕ} (λ k. k % y) {x = a + (b - a)} {y = b} (omega arith),
)

-- A multiple stays as it is.
pub round_up-of_multiple : (x y : ℕ) → 0 < y → x + y ≤ 2 ^ 63 → x % y ≡ 0 → round_up x y ≡ x
round_up-of_multiple x y p h m = sym (
    multiple_unique x (round_up x y) y m (round_up-mod x y p h) (round_up_bounds x y p h).0
      (round_up_bounds x y p h).1)

-- A multiple comes out of the rounding.
pub round_up-add :
    (m x y : ℕ) → 0 < y → m + x + y ≤ 2 ^ 63 → m % y ≡ 0 → round_up (m + x) y ≡ m + round_up x y
round_up-add m x y p h e = elim (le_total (round_up (m + x) y) (m + round_up x y)) [
  | inl le ↦
      multiple_unique _ _ y (round_up-mod (m + x) y p h) sum_multiple le
        (omega (arith, round_up_bounds (m + x) y p h, round_up_bounds x y p (omega arith)))
  | inr le ↦ sym (
      multiple_unique _ _ y sum_multiple (round_up-mod (m + x) y p h) le
        (omega (arith, round_up_bounds (m + x) y p h, round_up_bounds x y p (omega arith))))
]
  where
    sum_multiple : (m + round_up x y) % y ≡ 0
    sum_multiple = add-mod_zero m (round_up x y) y e ∙ round_up-mod x y p (omega arith)
