-- ===== src/Size.antt =====
-- `size_t` arithmetic (64 bits, wrapping) and the rounding templates of
-- csrc/instant_tensor/common.hpp. Division by zero is undefined in C++; the callers' divisors are
-- the alignments, which a valid configuration keeps positive.
pub mod Rounding
pub mod Split
use instant_tensor.Base.{ℕ, ◌+◌, ◌-◌, ◌*◌, ◌/◌, ◌%◌, ◌^◌, ltb, if◌then◌else◌, min}
use instant_tensor.Base.Int.{ℤ, pos, negsuc}

abbrev pub size_mod : ℕ
size_mod = 2 ^ 64

abbrev pub add_size : ℕ → ℕ → ℕ
add_size a b = (a + b) % 2 ^ 64

abbrev pub sub_size : ℕ → ℕ → ℕ
sub_size a b = (a + 2 ^ 64 - b) % 2 ^ 64

abbrev pub mul_size : ℕ → ℕ → ℕ
mul_size a b = (a * b) % 2 ^ 64

-- DIV_CEIL
unfoldable pub div_ceil : ℕ → ℕ → ℕ
div_ceil x y = sub_size (add_size x y) 1 / y

-- ROUND_UP
unfoldable pub round_up : ℕ → ℕ → ℕ
unfolding div_ceil
round_up x y = mul_size (div_ceil x y) y

-- ROUND_DOWN
unfoldable pub round_down : ℕ → ℕ → ℕ
round_down x y = mul_size (x / y) y

-- `std::min((size_t)std::max((ssize_t)n, (ssize_t)0), limit)`: a difference that went below zero
-- counts as none.
unfoldable pub clamp_size : ℕ → ℕ → ℕ
clamp_size n limit = min (if ltb n (2 ^ 63) then n else 0) limit
