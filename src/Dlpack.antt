-- ===== src/Dlpack.antt =====
-- csrc/instant_tensor/dlpack_utils.hpp: the description of a tensor that is handed to Python.
pub mod Names
pub mod Packing
mod Tests
use Prim.Native.String.{String, ◌++◌}
use text.Mathlib.Text.{◌==◌}
use text.Mathlib.TextEquality.{eq_iff}
use instant_tensor.Base.{
  ℕ, zero, suc, ◌+◌, ◌*◌, ◌^◌, ◌%◌, ◌≤◌, ◌<◌, ◌≡◌, ◌≢◌, ◌⊎◌, inl, inr, refl, ap, ◌∙◌, sym, Bool,
  true, false, Bool-cases, if◌then◌else◌, ◌&&◌, Option, none, some, List, [], ◌∷◌, length, Result,
  ok, err, ◌>>=◌, or_fail, arith,
}
use instant_tensor.Size.{mul_size}

-- The type codes that are used.
pub data DlCode : Type 0 where
  dl_bool dl_int dl_uint dl_float dl_bfloat dl_complex dl_float4_e2m1fn : DlCode
  dl_float8_e5m2 dl_float8_e5m2fnuz dl_float8_e4m3fn dl_float8_e4m3fnuz dl_float8_e8m0fnu : DlCode

pub record DlDataType : Type 0 where
  pub code : DlCode
  pub bits : ℕ
  pub lanes : ℕ

pub data DlError : Type 0 where
  unsupported_dtype : DlError

abbrev dtype : DlCode → ℕ → DlDataType
dtype code bits = record { code = code; bits = bits; lanes = 1 }

-- The branches of `torch_to_dlpack_dtype`, in their order.
abbrev pub dtypes : List (String × DlDataType)
dtypes =
    ("bool", dtype dl_bool 8)
    ∷ ("float4_e2m1fn_x2", dtype dl_float4_e2m1fn 4)
    ∷ ("uint8", dtype dl_uint 8)
    ∷ ("int8", dtype dl_int 8)
    ∷ ("float8_e5m2", dtype dl_float8_e5m2 8)
    ∷ ("float8_e5m2fnuz", dtype dl_float8_e5m2fnuz 8)
    ∷ ("float8_e4m3fn", dtype dl_float8_e4m3fn 8)
    ∷ ("float8_e4m3fnuz", dtype dl_float8_e4m3fnuz 8)
    ∷ ("float8_e8m0fnu", dtype dl_float8_e8m0fnu 8)
    ∷ ("int16", dtype dl_int 16)
    ∷ ("uint16", dtype dl_uint 16)
    ∷ ("float16", dtype dl_float 16)
    ∷ ("bfloat16", dtype dl_bfloat 16)
    ∷ ("int32", dtype dl_int 32)
    ∷ ("uint32", dtype dl_uint 32)
    ∷ ("float32", dtype dl_float 32)
    ∷ ("complex64", dtype dl_complex 64)
    ∷ ("float64", dtype dl_float 64)
    ∷ ("int64", dtype dl_int 64)
    ∷ ("uint64", dtype dl_uint 64)
    ∷ []

unfoldable pub find_dtype : String → List (String × DlDataType) → Result DlError DlDataType
find_dtype s [] = err unsupported_dtype
find_dtype s ((name, t) ∷ rest) = if s == name then ok t else find_dtype s rest

unfoldable pub torch_to_dlpack_dtype : String → Result DlError DlDataType
torch_to_dlpack_dtype s = find_dtype s dtypes

abbrev pub first_or : ℕ → List ℕ → ℕ
first_or d [] = d
first_or d (x ∷ xs) = x

-- The loop over the dimensions, from the last one on. The products are int64_t, by their bits.
unfoldable pub strides_of : List ℕ → List ℕ
strides_of [] = []
strides_of (n ∷ []) = 1 ∷ []
strides_of (n ∷ m ∷ rest) =
    let later = strides_of (m ∷ rest) in mul_size (first_or 1 later) m ∷ later

-- DLTensor, with the device of the process.
pub record DlTensor : Type 0 where
  pub data_ptr : ℕ
  pub device_id : ℕ
  pub ndim : ℕ
  pub dl_dtype : DlDataType
  pub shape : List ℕ
  pub strides : List ℕ
  pub byte_offset : ℕ

unfoldable pub dl_tensor : ℕ → List ℕ → ℕ → DlDataType → DlTensor
dl_tensor ptr shape device_id t = record {
  data_ptr = ptr;
  device_id = device_id;
  ndim = length shape;
  dl_dtype = t;
  shape = shape;
  strides = strides_of shape;
  byte_offset = 0;
}

unfoldable pub pack_dlpack : ℕ → List ℕ → String → ℕ → Result DlError DlTensor
pack_dlpack ptr shape name device_id = do
  t ← torch_to_dlpack_dtype name
  ok (dl_tensor ptr shape device_id t)

-- An index in each dimension, below the shape.
abbrev pub IsIndex : List ℕ → List ℕ → Type 0
IsIndex [] [] = Unit
IsIndex [] (n ∷ shape) = ⊥
IsIndex (i ∷ index) [] = ⊥
IsIndex (i ∷ index) (n ∷ shape) = (i < n) × IsIndex index shape

abbrev pub product : List ℕ → ℕ
product [] = 1
product (n ∷ shape) = n * product shape

-- The element that an index names by strides, and in row-major order.
abbrev pub offset : List ℕ → List ℕ → ℕ
offset [] strides = 0
offset (i ∷ index) [] = 0
offset (i ∷ index) (s ∷ strides) = i * s + offset index strides

abbrev pub row_major : ℕ → List ℕ → List ℕ → ℕ
row_major acc [] shape = acc
row_major acc (i ∷ index) [] = acc
row_major acc (i ∷ index) (n ∷ shape) = row_major (acc * n + i) index shape

product_rest : (n : ℕ) (rest : List ℕ) → 0 < n → product rest ≤ product (n ∷ rest)
product_rest n rest h = at_least n (product rest) h
  where
    at_least : (n p : ℕ) → 0 < n → p ≤ n * p
    at_least n p h = grind arith

first-strides :
    (n : ℕ) (index rest : List ℕ)
    → IsIndex index rest
    → product rest < 2 ^ 63
    → first_or 1 (strides_of (n ∷ rest)) ≡ product rest
unfolding strides_of
first-strides n [] [] h small = refl
first-strides n [] (m ∷ rest) h small = absurd h
first-strides n (i ∷ index) [] h small = absurd h
first-strides n (i ∷ index) (m ∷ rest) (low, h) small =
    let shorter : product rest < 2 ^ 63 =
      omega (arith, product_rest m rest (omega (arith, low)), small) in
    rw (first-strides m index rest h shorter) (fits m (product rest) small)
  where
    mul_comm : (p m : ℕ) → p * m ≡ m * p
    mul_comm p m = grind arith

    fits : (m p : ℕ) → m * p < 2 ^ 63 → mul_size p m ≡ m * p
    fits m p small = ap (λ k. k % 2 ^ 64) (mul_comm p m) ∙ omega (arith, small)

strides_next :
    (n : ℕ) (index rest : List ℕ)
    → IsIndex index rest
    → product rest < 2 ^ 63
    → strides_of (n ∷ rest) ≡ product rest ∷ strides_of rest
unfolding strides_of
strides_next n index [] h small = refl
strides_next n index (m ∷ rest) h small =
    ap (λ k. k ∷ strides_of (m ∷ rest)) (first-strides n index (m ∷ rest) h small)

-- Row-major order from `acc` on adds `acc` times the elements of the rest.
row_major_lem :
    (acc : ℕ) (index shape : List ℕ)
    → IsIndex index shape
    → product shape < 2 ^ 63
    → row_major acc index shape ≡ acc * product shape + offset index (strides_of shape)
row_major_lem acc [] [] h small = omega arith
row_major_lem acc [] (n ∷ shape) h small = absurd h
row_major_lem acc (i ∷ index) [] h small = absurd h
row_major_lem acc (i ∷ index) (n ∷ shape) (low, h) small =
    let shorter : product shape < 2 ^ 63 =
      omega (arith, product_rest n shape (omega (arith, low)), small) in
    rw (strides_next n index shape h shorter)
      (row_major_lem (acc * n + i) index shape h shorter ∙ grind arith)

offset_bound :
    (index shape : List ℕ)
    → IsIndex index shape
    → product shape < 2 ^ 63
    → offset index (strides_of shape) < product shape
offset_bound [] [] h small = omega arith
offset_bound [] (n ∷ shape) h small = absurd h
offset_bound (i ∷ index) [] h small = absurd h
offset_bound (i ∷ index) (n ∷ shape) (low, h) small =
    let shorter : product shape < 2 ^ 63 =
      omega (arith, product_rest n shape (omega (arith, low)), small) in
    rw (strides_next n index shape h shorter)
      (bound i n (product shape) _ low (offset_bound index shape h shorter))
  where
    rows : (i n p : ℕ) → i < n → i * p + p ≤ n * p
    rows i n p h = grind arith

    bound : (i n p o : ℕ) → i < n → o < p → i * p + o < n * p
    bound i n p o h k = omega (arith, rows i n p h)

-- For a shape with less than 2 ^ 63 elements, at an index below the shape, the strides that are
-- computed name the element that comes in row-major order, and it is one of the elements of the
-- tensor.
pub strides_row_major :
    (index shape : List ℕ)
    → IsIndex index shape
    → product shape < 2 ^ 63
    → (offset index (strides_of shape) ≡ row_major 0 index shape)
      × (offset index (strides_of shape) < product shape)
strides_row_major index shape h small =
    (omega (arith, row_major_lem 0 index shape h small), offset_bound index shape h small)
