-- ===== src/Loader/Submit/Tests.antt =====
-- Three blocks that the kernel takes in three calls.
use instant_tensor.Base.{ℕ, ◌≡◌, refl, [], ◌∷◌, arith}
use instant_tensor.Base.Int.{pos}
use instant_tensor.Loader.Submit.{submitted_all, aio_submit, aio_submit_lem}

aio_submit_example :
    aio_submit {A = ℕ} (pos 1 ∷ pos 0 ∷ pos 2 ∷ []) (7 ∷ 8 ∷ 9 ∷ []) 0 []
    ≡ submitted_all (7 ∷ 8 ∷ 9 ∷ [])
aio_submit_example =
    aio_submit_lem (pos 1 ∷ pos 0 ∷ pos 2 ∷ []) (7 ∷ 8 ∷ 9 ∷ []) 0 (omega arith) (omega arith)
      (omega arith, (omega arith, (omega arith, refl)))
