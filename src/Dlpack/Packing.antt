-- ===== src/Dlpack/Packing.antt =====
-- Which tensors pack_dlpack of csrc/instant_tensor/dlpack_utils.hpp describes, and of which type.
use Prim.Native.String.{String}
use text.Mathlib.Text.{◌==◌}
use instant_tensor.Base.{◌≡◌, ◌≢◌, ◌⊎◌, Bool, true, ◌&&◌, List, [], ◌∷◌}
use instant_tensor.Dlpack.{DlDataType}
use instant_tensor.Dlpack.Names.{name_of}

abbrev pub AllOther : String → List (String × DlDataType) → Type 0
AllOther s [] = Unit
AllOther s ((name, t) ∷ rest) = (s ≢ name) × AllOther s rest

abbrev pub Listed : String → DlDataType → List (String × DlDataType) → Type 0
Listed s t [] = ⊥
Listed s t ((name, u) ∷ rest) = ((s ≡ name) × (t ≡ u)) ⊎ Listed s t rest

-- Whether each type is listed under its name.
abbrev all_named : List (String × DlDataType) → Bool
all_named [] = true
all_named ((name, t) ∷ rest) = (name_of t == name) && all_named rest
