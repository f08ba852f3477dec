-- ===== src/Dlpack/Names.antt =====
-- PyTorch's names of the types of csrc/instant_tensor/dlpack_utils.hpp, from their kinds and widths.
use Prim.Native.String.{String, ◌++◌}
use instant_tensor.Base.{ℕ, ◌==◌, if◌then◌else◌}
use instant_tensor.Dlpack.{
  DlCode, dl_bool, dl_int, dl_uint, dl_float, dl_bfloat, dl_complex, dl_float4_e2m1fn,
  dl_float8_e5m2, dl_float8_e5m2fnuz, dl_float8_e4m3fn, dl_float8_e4m3fnuz, dl_float8_e8m0fnu,
  DlDataType,
}

-- The widths in decimal.
abbrev decimal : ℕ → String
decimal n =
    if n == 4
    then "4"
    else if n == 8
    then "8"
    else if n == 16
    then "16"
    else if n == 32
    then "32"
    else if n == 64
    then "64"
    else ""

-- What PyTorch calls a type: its kind and its width in bits, and the layout of a small float.
abbrev pub name_of_code : DlCode → ℕ → String
name_of_code dl_bool bits = if bits == 8 then "bool" else ""
name_of_code dl_int bits = "int" ++ decimal bits
name_of_code dl_uint bits = "uint" ++ decimal bits
name_of_code dl_float bits = "float" ++ decimal bits
name_of_code dl_bfloat bits = "bfloat" ++ decimal bits
name_of_code dl_complex bits = "complex" ++ decimal bits
name_of_code dl_float4_e2m1fn bits = "float" ++ (decimal bits ++ "_e2m1fn_x2")
name_of_code dl_float8_e5m2 bits = "float" ++ (decimal bits ++ "_e5m2")
name_of_code dl_float8_e5m2fnuz bits = "float" ++ (decimal bits ++ "_e5m2fnuz")
name_of_code dl_float8_e4m3fn bits = "float" ++ (decimal bits ++ "_e4m3fn")
name_of_code dl_float8_e4m3fnuz bits = "float" ++ (decimal bits ++ "_e4m3fnuz")
name_of_code dl_float8_e8m0fnu bits = "float" ++ (decimal bits ++ "_e8m0fnu")

abbrev pub name_of : DlDataType → String
name_of t = if t.lanes == 1 then name_of_code t.code t.bits else ""
