-- ===== src/Loader/Uring.antt =====
-- csrc/loader_io_uring.cpp: the pieces in which the host buffer is registered, and the piece that a
-- read names.
mod Tests
use native.Mathlib.Nat.{div-mul-le_self, lt-div-mul-add}
use instant_tensor.Base.{
  ℕ, zero, suc, ◌+◌, ◌-◌, ◌*◌, ◌/◌, ◌^◌, ◌≤◌, ◌<◌, ◌≡◌, ◌⊎◌, inl, inr, refl, ap₂, ◌∙◌, ◌≢◌, true,
  ltb, lt→ltb, ◌==◌, ==_iff, ==_ne, Bool-cases, if◌then◌else◌, Option, none, some, List, [], ◌∷◌,
  get_elem?, min, arith,
}
use instant_tensor.Size.{add_size, sub_size}

-- IO_URING_REGISTER_BUFFER_SIZE
abbrev pub register_buffer_size : ℕ
register_buffer_size = 1073741824

-- The loop of `register_host_buffer_uring`: a piece of the buffer for each round. A round takes a
-- byte or more, so fuel of the size is enough.
unfoldable pub host_buffer_pieces : ℕ → ℕ → ℕ → List (ℕ × ℕ)
host_buffer_pieces zero ptr size = []
host_buffer_pieces (suc fuel) ptr size =
    let piece = min size register_buffer_size in
    let rest = host_buffer_pieces fuel (add_size ptr piece) (sub_size size piece) in
    if ltb 0 size then (ptr, piece) ∷ rest else []

-- `buffer_index` of a read of `size` bytes to `buf`, with the buffer at `base`: `none` for -1.
unfoldable pub buffer_index : ℕ → ℕ → ℕ → Option ℕ
buffer_index base buf size =
    let left = sub_size buf base / register_buffer_size in
    let right = sub_size (sub_size (add_size buf size) 1) base / register_buffer_size in
    if left == right then some left else none

pieces_next :
    (fuel ptr size : ℕ)
    → 0 < size
    → host_buffer_pieces (suc fuel) ptr size
      ≡ (ptr, min size register_buffer_size)
        ∷ host_buffer_pieces fuel
            (add_size ptr (min size register_buffer_size))
            (sub_size size (min size register_buffer_size))
unfolding host_buffer_pieces
pieces_next fuel ptr size h = rw (lt→ltb _ _ h) refl

-- With a buffer that does not wrap and fuel of its size, the piece with number `i` begins `i`
-- gibibytes behind the start of the buffer and has one gibibyte, or what is left of the buffer.
pub host_buffer_pieces_lem :
    (i fuel ptr size : ℕ)
    → size ≤ fuel
    → ptr + size < 2 ^ 64
    → i * 1073741824 < size
    → get_elem? (host_buffer_pieces fuel ptr size) i
      ≡ some (ptr + i * 1073741824, min (size - i * 1073741824) 1073741824)
host_buffer_pieces_lem i zero ptr size le fits h = absurd (omega arith)
host_buffer_pieces_lem zero (suc fuel) ptr size le fits h =
    rw (pieces_next fuel ptr size (omega arith))
      (ap₂ (λ a b. some (a, b)) (omega arith) (omega arith))
host_buffer_pieces_lem (suc i) (suc fuel) ptr size le fits h =
    let next : add_size ptr (min size 1073741824) ≡ ptr + 1073741824 = omega arith in
    let left : sub_size size (min size 1073741824) ≡ size - 1073741824 = omega arith in
    rw (pieces_next fuel ptr size (omega arith), next, left)
      (host_buffer_pieces_lem i fuel (ptr + 1073741824) (size - 1073741824) (omega arith)
          (omega arith) (omega arith)
        ∙ ap₂ (λ a b. some (a, b)) (omega arith) (omega arith))

-- The number of the piece with the byte at a distance.
abbrev piece_of : ℕ → ℕ
piece_of x = x / 1073741824

piece_of_lem : (x : ℕ) → (piece_of x * 1073741824 ≤ x) × (x < piece_of x * 1073741824 + 1073741824)
piece_of_lem x = (div-mul-le_self x 1073741824, lt-div-mul-add {a = x} (omega arith))

-- A read inside the registered buffer names a piece only if that piece has all of its bytes, and
-- names none only if it crosses the end of a piece.
pub buffer_index_lem :
    (base total buf size : ℕ)
    → base + total < 2 ^ 64
    → base ≤ buf
    → 0 < size
    → buf + size ≤ base + total
    → ((i : ℕ) × (from : ℕ) × (count : ℕ) × (buffer_index base buf size ≡ some i)
        × (get_elem? (host_buffer_pieces total base total) i ≡ some (from, count))
        × (from ≤ buf)
        × (buf + size ≤ from + count))
      ⊎ ((buffer_index base buf size ≡ none)
          × ((k : ℕ) × (buf < base + k * 1073741824) × (base + k * 1073741824 < buf + size)))
unfolding buffer_index
buffer_index_lem base total buf size fits low p high =
    let left : sub_size buf base ≡ buf - base = omega arith in
    let right : sub_size (sub_size (add_size buf size) 1) base ≡ buf - base + (size - 1) =
      omega arith in
    elim (Bool-cases (piece_of (buf - base) == piece_of (buf - base + (size - 1)))) [
      | inl same ↦
          let i = piece_of (buf - base) in
          let equal = (==_iff _ _).0 same in
          let start = piece_of_lem (buf - base) in
          let end = piece_of_lem (buf - base + (size - 1)) in
          inl (
            i,
            base + i * 1073741824,
            min (total - i * 1073741824) 1073741824,
            rw (left, right, same) refl,
            host_buffer_pieces_lem i total base total (omega arith) fits (omega arith),
            omega arith,
            omega arith,
          )
      | inr other ↦
          let apart : piece_of (buf - base) ≢ piece_of (buf - base + (size - 1)) =
            ==_ne _ _ other in
          let start = piece_of_lem (buf - base) in
          let end = piece_of_lem (buf - base + (size - 1)) in
          inr (
            rw (left, right, other) refl,
            (piece_of (buf - base + (size - 1)), omega arith, omega arith),
          )
    ]
