-- ===== src/Binding/Tests.antt =====
-- A process with a library for CUDA that lacks a function, and the theorem on `init`.
use Prim.Native.String.{String}
use instant_tensor.Base.{ℕ, ◌≡◌, true, false, ◌⊎◌, none, some, List, [], ◌∷◌, ok, err}
use instant_tensor.Binding.{Linker, new_binding, unresolved, cuda_init}
use instant_tensor.Binding.Wrappers.{CudaFunction, cuda_get_error_string, cuda_wrapper}
use instant_tensor.Binding.Again.{cuda_init_again}

-- The line is "5 /libcudart.so", and no symbol is found.
abbrev partial : Linker
partial = record {
  maps =
      (53 ∷ 32 ∷ 47 ∷ 108 ∷ 105 ∷ 98 ∷ 99 ∷ 117 ∷ 100 ∷ 97 ∷ 114 ∷ 116 ∷ 46 ∷ 115 ∷ 111 ∷ []) ∷ [];
  dlopen = λ path. some 7;
  dlsym = λ handle name. none;
}

cuda_init_again_example :
    (((cuda_init partial new_binding).0 ≡ ok true)
      × ((function : CudaFunction)
          → (pointer : ℕ) × (cuda_wrapper (cuda_init partial new_binding).1 function
              ≡ some pointer))
      × (cuda_init partial (cuda_init partial new_binding).1
          ≡ (ok true, (cuda_init partial new_binding).1)))
    ⊎ (((cuda_init partial new_binding).0 ≡ ok false)
        × (cuda_init partial (cuda_init partial new_binding).1
            ≡ (ok false, (cuda_init partial new_binding).1)))
    ⊎ ((names : List String) × ((cuda_init partial new_binding).0 ≡ err (unresolved names))
        × (cuda_wrapper (cuda_init partial new_binding).1 cuda_get_error_string ≡ none)
        × (cuda_init partial (cuda_init partial new_binding).1
            ≡ (ok true, (cuda_init partial new_binding).1)))
cuda_init_again_example = cuda_init_again partial partial
