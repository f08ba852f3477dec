-- ===== src/Binding/Again.antt =====
-- What `init` of the bindings of csrc/instant_tensor/dl_binding leaves, and what it answers when it is
-- called again.
use Prim.Native.String.{String}
use instant_tensor.Base.{
  ℕ, suc, ◌+◌, ◌<◌, ◌≡◌, refl, sym, ap, subst, Bool, true, false, ◌⊎◌, inl, inr, Option, none, some,
  Option-cases, List, [], ◌∷◌, ◌++◌, length, length-append, get_elem?-of_lt, get_elem?-none, Result,
  ok, err, arith,
}
use instant_tensor.Binding.{
  Linker, resolve, null, Binding, new_binding, Library, BindingError, unresolved, resolve_all,
  find_library, bind, init_by, init, cuda_library, cuda_init,
}
use instant_tensor.Binding.Wrappers.{
  CudaFunction, cuda_get_error_string, cuda_position, cuda_wrapper, cuda_position_lt,
}

-- All pointers are set, or one is not, and then it throws.
abbrev IsResolved : ℕ → Result BindingError Bool × List ℕ → Type 0
IsResolved all (r, pointers) =
    ((r ≡ ok true) × (length pointers ≡ all))
    ⊎ ((names : List String) × (r ≡ err (unresolved names)) × (length pointers < all))

resolve_failed :
    (linker : Linker) (handle : ℕ) (names : List String) (functions : List (List String))
    (pointers : List ℕ)
    → resolve linker handle names ≡ none
    → resolve_all linker handle (names ∷ functions) pointers ≡ (err (unresolved names), pointers)
unfolding resolve_all
resolve_failed linker handle names functions pointers e = rw (e, resolve_all) refl

resolve_found :
    (linker : Linker) (handle : ℕ) (names : List String) (functions : List (List String))
    (pointers : List ℕ) (symbol : ℕ)
    → resolve linker handle names ≡ some symbol
    → resolve_all linker handle (names ∷ functions) pointers
      ≡ resolve_all linker handle functions (pointers ++ symbol ∷ [])
unfolding resolve_all
resolve_found linker handle names functions pointers symbol e = rw (e, resolve_all) refl

IsResolved-suc :
    (pointers : List ℕ) (symbol rest : ℕ) (r : Result BindingError Bool × List ℕ)
    → IsResolved (length (pointers ++ symbol ∷ []) + rest) r
    → IsResolved (length pointers + suc rest) r
IsResolved-suc pointers symbol rest r (inl (e, f)) =
    inl (e, omega (arith, f, length-append pointers (symbol ∷ [])))
IsResolved-suc pointers symbol rest r (inr (missing, e, f)) =
    inr (missing, e, omega (arith, f, length-append pointers (symbol ∷ [])))

resolve_all_lem :
    (linker : Linker) (handle : ℕ) (functions : List (List String)) (pointers : List ℕ)
    → IsResolved (length pointers + length functions) (resolve_all linker handle functions pointers)
unfolding resolve_all
resolve_all_lem linker handle [] pointers = inl (refl, omega arith)
resolve_all_lem linker handle (names ∷ functions) pointers =
    elim (Option-cases (resolve linker handle names)) [
      | inl failed ↦
          subst (IsResolved (length pointers + suc (length functions)))
            (sym (resolve_failed linker handle names functions pointers failed))
            (inr (names, refl, omega arith))
      | inr (symbol, found) ↦
          subst (IsResolved (length pointers + suc (length functions)))
            (sym (resolve_found linker handle names functions pointers symbol found))
            (IsResolved-suc pointers symbol (length functions) _
              (resolve_all_lem linker handle functions (pointers ++ symbol ∷ [])))
    ]

-- What a first call answers and leaves, and what the next call answers.
abbrev pub IsInitialised : Library → Result BindingError Bool × Binding → Type 0
IsInitialised library (r, b) =
    ((r ≡ ok true)
      × (length b.pointers ≡ length library.functions)
      × ((linker : Linker) → init linker library b ≡ (ok true, b)))
    ⊎ ((r ≡ ok false) × ((linker : Linker) → init linker library b ≡ (ok false, b)))
    ⊎ ((names : List String) × (r ≡ err (unresolved names))
        × (length b.pointers < length library.functions)
        × ((linker : Linker) → init linker library b ≡ (ok true, b)))

bind_lem :
    (linker : Linker) (library : Library) (b : Binding) (found : Option (ℕ × Bool))
    → IsInitialised library (bind linker library b found)
unfolding bind init init_by
bind_lem linker library b none = inr (inl (refl, λ next. refl))
bind_lem linker library b (some (handle, second)) =
    elim (resolve_all_lem linker handle library.functions []) [
      | inl (e, f) ↦ inl (e, omega (arith, f), λ next. refl)
      | inr (names, e, f) ↦ inr (inr (names, e, omega (arith, f), λ next. refl))
    ]

init_first :
    (linker : Linker) (library : Library) (b : Binding)
    → b.lib_handle ≡ null
    → init linker library b ≡ bind linker library b (find_library linker library)
unfolding init init_by
init_first linker library b fresh = ap (λ h. init_by h linker library b) fresh

pub init_lem :
    (linker : Linker) (library : Library) (b : Binding)
    → b.lib_handle ≡ null
    → IsInitialised library (init linker library b)
unfolding init
init_lem linker library b fresh =
    subst (IsInitialised library) (sym (init_first linker library b fresh))
      (bind_lem linker library b (find_library linker library))

-- The first call of `init` of the CUDA binding, and every later one: either it finds the library and
-- all functions, each wrapper has its pointer, and later calls answer true as well; or it finds none,
-- and later calls answer false as well; or a function is not resolved and it throws, and then later
-- calls answer true although the pointer of cudaGetErrorString, the last one, is null.
pub cuda_init_again :
    (linker next : Linker)
    → (((cuda_init linker new_binding).0 ≡ ok true)
        × ((function : CudaFunction)
            → (pointer : ℕ) × (cuda_wrapper (cuda_init linker new_binding).1 function
                ≡ some pointer))
        × (cuda_init next (cuda_init linker new_binding).1
            ≡ (ok true, (cuda_init linker new_binding).1)))
      ⊎ (((cuda_init linker new_binding).0 ≡ ok false)
          × (cuda_init next (cuda_init linker new_binding).1
              ≡ (ok false, (cuda_init linker new_binding).1)))
      ⊎ ((names : List String) × ((cuda_init linker new_binding).0 ≡ err (unresolved names))
          × (cuda_wrapper (cuda_init linker new_binding).1 cuda_get_error_string ≡ none)
          × (cuda_init next (cuda_init linker new_binding).1
              ≡ (ok true, (cuda_init linker new_binding).1)))
unfolding cuda_init cuda_wrapper
cuda_init_again linker next =
    let b = (cuda_init linker new_binding).1 in
    elim (init_lem linker cuda_library new_binding refl) [
      | inl (e, f, again) ↦ inl (
        e,
        λ function.
            get_elem?-of_lt b.pointers (cuda_position function)
              (omega (arith, f, cuda_position_lt function)),
        again next,
      )
      | inr later ↦ elim later [
        | inl (e, again) ↦ inr (inl (e, again next))
        | inr (names, e, f, again) ↦
            inr (inr (names, e, get_elem?-none b.pointers 12 (omega (arith, f)), again next))
      ]
    ]
