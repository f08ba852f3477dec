-- ===== src/Environment/Kernel.antt =====
-- Which releases kernel_at_least_5_15 of csrc/loader_io_uring.cpp accepts.
use instant_tensor.Base.{
  ℕ, ◌+◌, ◌-◌, ◌*◌, ◌^◌, ◌<◌, min, ◌≡◌, refl, ap, ◌∙◌, Bool, true, false, ◌&&◌, ◌||◌, ◌==◌, leb,
  ltb, some, List, [], ◌∷◌, ◌++◌, map, arith,
}
use instant_tensor.Base.Int.{pos}
use instant_tensor.Environment.{
  Bytes, is_digit, is_space, read_digits, strtol, is_recent, after_major, kernel_at_least_5_15,
}

-- A number in decimal, the highest digit first: its bytes and its value.
abbrev pub digit_byte : ℕ → ℕ
digit_byte d = 48 + d

abbrev pub value_from : ℕ → List ℕ → ℕ
value_from n [] = n
value_from n (d ∷ ds) = value_from (n * 10 + d) ds

abbrev pub AllDigits : List ℕ → Type 0
AllDigits [] = Unit
AllDigits (d ∷ ds) = (d < 10) × AllDigits ds

abbrev pub starts_number : Bytes → Bool
starts_number [] = false
starts_number (c ∷ s) = is_digit c

digit_byte-is_digit : (d : ℕ) → d < 10 → is_digit (digit_byte d) ≡ true
digit_byte-is_digit d h = ground arith

read_digits-text :
    (n : ℕ) (ds : List ℕ) (rest : Bytes)
    → AllDigits ds
    → starts_number rest ≡ false
    → read_digits n (map digit_byte ds ++ rest) ≡ (value_from n ds, rest)
read_digits-text n [] [] all h = refl
read_digits-text n [] (c ∷ rest) all h = rw h refl
read_digits-text n (d ∷ ds) rest (below, all) h =
    let same : digit_byte d - 48 ≡ d = omega arith in
    rw (digit_byte-is_digit d below, same) (read_digits-text (n * 10 + d) ds rest all h)

clamped :
    (major minor : ℕ) (rest : Bytes)
    → is_recent (pos (min major (2 ^ 63 - 1))) (some (pos (min minor (2 ^ 63 - 1)), rest))
      ≡ (ltb 5 major || (major == 5 && leb 15 minor))
clamped major minor rest = ground arith

strtol-text :
    (d : ℕ) (ds : List ℕ) (rest : Bytes)
    → AllDigits (d ∷ ds)
    → starts_number rest ≡ false
    → strtol (map digit_byte (d ∷ ds) ++ rest)
      ≡ some (pos (min (value_from 0 (d ∷ ds)) (2 ^ 63 - 1)), rest)
strtol-text d ds rest (below, all) h =
    let space : is_space (digit_byte d) ≡ false = ground arith in
    let minus : (digit_byte d == 45) ≡ false = ground arith in
    let plus : (digit_byte d == 43) ≡ false = ground arith in
    let same : digit_byte d - 48 ≡ d = omega arith in
    let read =
      ap (λ k. read_digits (0 + k) (map digit_byte ds ++ rest)) same
      ∙ read_digits-text (0 + d) ds rest all h in
    rw (space, minus, plus, digit_byte-is_digit d below)
      (ap (λ (r : ℕ × Bytes). some (pos (min r.0 (2 ^ 63 - 1)), r.1)) read)

-- A major number, a dot and a minor number, each with one digit or more, and then nothing or what is
-- no digit: the kernel is accepted exactly from 5.15 on, however large the numbers are.
pub kernel_at_least_5_15_lem :
    (d : ℕ) (ds : List ℕ) (e : ℕ) (es : List ℕ) (rest : Bytes)
    → AllDigits (d ∷ ds)
    → AllDigits (e ∷ es)
    → starts_number rest ≡ false
    → kernel_at_least_5_15
        (some (map digit_byte (d ∷ ds) ++ 46 ∷ (map digit_byte (e ∷ es) ++ rest)))
      ≡ (ltb 5 (value_from 0 (d ∷ ds))
          || (value_from 0 (d ∷ ds) == 5 && leb 15 (value_from 0 (e ∷ es))))
unfolding kernel_at_least_5_15
kernel_at_least_5_15_lem d ds e es rest major_digits minor_digits h =
    let dot : starts_number (46 ∷ (map digit_byte (e ∷ es) ++ rest)) ≡ false = ground arith in
    ap after_major (strtol-text d ds (46 ∷ (map digit_byte (e ∷ es) ++ rest)) major_digits dot)
    ∙ ap (is_recent (pos (min (value_from 0 (d ∷ ds)) (2 ^ 63 - 1))))
        (strtol-text e es rest minor_digits h)
    ∙ clamped (value_from 0 (d ∷ ds)) (value_from 0 (e ∷ es)) rest
