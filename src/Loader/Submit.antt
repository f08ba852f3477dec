-- ===== src/Loader/Submit.antt =====
-- The loops that hand a chunk's reads to the kernel, `aio_func` of csrc/loader_io_aio.cpp and
-- `uring_func` of csrc/loader_io_uring.cpp. `returns` lists what io_submit and io_uring_submit
-- return, call by call.
mod Tests
use instant_tensor.Base.{
  ℕ, zero, suc, ◌+◌, ◌-◌, ◌^◌, ◌≤◌, ◌<◌, ◌≡◌, ◌⊎◌, inl, inr, refl, sym, ap, subst, ◌∙◌, Bool-cases,
  true, false, ltb, lt→ltb, le→ltb, if◌then◌else◌, List, [], ◌∷◌, ◌++◌, length, take, append-nil,
  arith,
}
use instant_tensor.Base.Int.{ℤ, pos, negsuc}
use instant_tensor.Size.{add_size}

-- How a loop ends: with the blocks that the kernel took, with an exception, or not within the calls.
pub data Submitted (A : Type 0) : Type 0 where
  submitted_all : List A → Submitted A
  submit_failed : Submitted A
  submits_on : Submitted A

-- The blocks from an index on.
abbrev pub drop {ℓ} : {A : Type ℓ} → ℕ → List A → List A
drop zero xs = xs
drop (suc n) [] = []
drop (suc n) (x ∷ xs) = drop n xs

-- `iocbs` are the blocks of the chunk. A call passes those from `submitted` on, and the kernel takes as
-- many of them, the first ones, as it returns.
unfoldable pub aio_submit : {A : Type 0} → List ℤ → List A → ℕ → List A → Submitted A
aio_submit [] iocbs submitted taken =
    if ltb submitted (length iocbs) then submits_on else submitted_all taken
aio_submit (negsuc n ∷ returns) iocbs submitted taken =
    if ltb submitted (length iocbs) then submit_failed else submitted_all taken
aio_submit (pos n ∷ returns) iocbs submitted taken =
    let rest =
      aio_submit returns iocbs (add_size submitted n) (taken ++ take n (drop submitted iocbs)) in
    if ltb submitted (length iocbs) then rest else submitted_all taken

-- The ring has the reads of the chunk queued; `none` of them is passed. The count that is submitted.
unfoldable pub uring_submit : List ℤ → ℕ → ℕ → Submitted ℕ
uring_submit [] submit_cnt submitted =
    if ltb submitted submit_cnt then submits_on else submitted_all (submitted ∷ [])
uring_submit (negsuc n ∷ returns) submit_cnt submitted =
    if ltb submitted submit_cnt then submit_failed else submitted_all (submitted ∷ [])
uring_submit (pos n ∷ returns) submit_cnt submitted =
    let rest = uring_submit returns submit_cnt (add_size submitted n) in
    if ltb submitted submit_cnt then rest else submitted_all (submitted ∷ [])

-- The kernel takes no more than there is left, any part of it at a call, and all of it in the end.
abbrev pub TakesAll : ℕ → List ℤ → Type 0
TakesAll left [] = left ≡ 0
TakesAll left (negsuc n ∷ returns) = left ≡ 0
TakesAll left (pos n ∷ returns) = (n ≤ left) × TakesAll (left - n) returns

take_all : {A : Type 0} (xs : List A) (n : ℕ) → length xs ≤ n → take n xs ≡ xs
take_all [] zero h = refl
take_all [] (suc n) h = refl
take_all (x ∷ xs) zero h = absurd (omega arith)
take_all (x ∷ xs) (suc n) h = ap (◌∷◌ x) (take_all xs n (omega arith))

take_nil : {A : Type 0} (n : ℕ) → ◌≡◌ {A = List A} (take n []) []
take_nil zero = refl
take_nil (suc n) = refl

take-add : {A : Type 0} (xs : List A) (k n : ℕ) → take k xs ++ take n (drop k xs) ≡ take (k + n) xs
take-add xs zero n = ap (λ k. take k xs) (omega arith)
take-add [] (suc k) zero = sym (take_nil (suc k + 0))
take-add [] (suc k) (suc n) = sym (take_nil (suc k + suc n))
take-add (x ∷ xs) (suc k) n =
    let next : suc (k + n) ≡ suc k + n = omega arith in
    ap (◌∷◌ x) (take-add xs k n) ∙ ap (λ m. take m (x ∷ xs)) next

-- Whatever parts io_submit takes, the loop ends when all blocks are taken, and the kernel has taken
-- each of them once, in order.
pub aio_submit_lem :
    {A : Type 0} (returns : List ℤ) (iocbs : List A) (submitted : ℕ)
    → length iocbs < 2 ^ 64
    → submitted ≤ length iocbs
    → TakesAll (length iocbs - submitted) returns
    → aio_submit returns iocbs submitted (take submitted iocbs) ≡ submitted_all iocbs
unfolding aio_submit
aio_submit_lem [] iocbs submitted fits h all =
    rw (le→ltb submitted (length iocbs) (omega arith))
      (ap submitted_all (take_all iocbs submitted (omega arith)))
aio_submit_lem (negsuc n ∷ returns) iocbs submitted fits h all =
    rw (le→ltb submitted (length iocbs) (omega arith))
      (ap submitted_all (take_all iocbs submitted (omega arith)))
aio_submit_lem (pos n ∷ returns) iocbs submitted fits h (some_left, all) =
    elim (Bool-cases (ltb submitted (length iocbs))) [
      | inr done ↦ rw done (ap submitted_all (take_all iocbs submitted (ground arith)))
      | inl more ↦
          let next : add_size submitted n ≡ submitted + n = omega arith in
          let left : length iocbs - submitted - n ≡ length iocbs - (submitted + n) = omega arith in
          rw (more, next, take-add iocbs submitted n)
            (aio_submit_lem returns iocbs (submitted + n) fits (omega arith)
              (subst (λ k. TakesAll k returns) left all))
    ]

-- The same for a ring: the loop ends with the number of the reads.
pub uring_submit_lem :
    (returns : List ℤ) (submit_cnt submitted : ℕ)
    → submit_cnt < 2 ^ 64
    → submitted ≤ submit_cnt
    → TakesAll (submit_cnt - submitted) returns
    → uring_submit returns submit_cnt submitted ≡ submitted_all (submit_cnt ∷ [])
unfolding uring_submit
uring_submit_lem [] submit_cnt submitted fits h all =
    rw (le→ltb submitted submit_cnt (omega arith)) (ap (λ k. submitted_all (k ∷ [])) (omega arith))
uring_submit_lem (negsuc n ∷ returns) submit_cnt submitted fits h all =
    rw (le→ltb submitted submit_cnt (omega arith)) (ap (λ k. submitted_all (k ∷ [])) (omega arith))
uring_submit_lem (pos n ∷ returns) submit_cnt submitted fits h (some_left, all) =
    elim (Bool-cases (ltb submitted submit_cnt)) [
      | inr done ↦ rw done (ap (λ k. submitted_all (k ∷ [])) (ground arith))
      | inl more ↦
          let next : add_size submitted n ≡ submitted + n = omega arith in
          let left : submit_cnt - submitted - n ≡ submit_cnt - (submitted + n) = omega arith in
          rw (more, next)
            (uring_submit_lem returns submit_cnt (submitted + n) fits (omega arith)
              (subst (λ k. TakesAll k returns) left all))
    ]
