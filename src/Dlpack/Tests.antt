-- ===== src/Dlpack/Tests.antt =====
-- A tensor of two rows of three elements.
use instant_tensor.Base.{◌≡◌, ◌<◌, [], ◌∷◌, arith}
use instant_tensor.Dlpack.{strides_of, offset, row_major, product, strides_row_major}

strides_row_major_example :
    (offset (1 ∷ 2 ∷ []) (strides_of (2 ∷ 3 ∷ [])) ≡ row_major 0 (1 ∷ 2 ∷ []) (2 ∷ 3 ∷ []))
    × (offset (1 ∷ 2 ∷ []) (strides_of (2 ∷ 3 ∷ [])) < product (2 ∷ 3 ∷ []))
strides_row_major_example =
    strides_row_major (1 ∷ 2 ∷ []) (2 ∷ 3 ∷ []) (omega arith, (omega arith, tt)) (omega arith)
