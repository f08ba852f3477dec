-- ===== src/Environment/Tests.antt =====
-- A release of the kernel, and what is asked of the machine.
use instant_tensor.Base.{◌≡◌, refl, true, some, [], ◌∷◌, arith}
use instant_tensor.Environment.{kernel_at_least_5_15}
use instant_tensor.Environment.Kernel.{kernel_at_least_5_15_lem}

-- 6.8.0
kernel_at_least_5_15_example : kernel_at_least_5_15 (some (54 ∷ 46 ∷ 56 ∷ 46 ∷ 48 ∷ [])) ≡ true
kernel_at_least_5_15_example =
    kernel_at_least_5_15_lem 6 [] 8 [] (46 ∷ 48 ∷ []) (omega arith, tt) (omega arith, tt) refl
