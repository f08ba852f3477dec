-- ===== src/Executor/ListQueue.antt =====
-- A queue of atomic_queue as csrc/instant_tensor/queue.hpp names it, with a list for its items.
use instant_tensor.Base.{◌≡◌, refl, Option, none, some, List, [], ◌∷◌}
use instant_tensor.Executor.{IsQueue}

abbrev pub pop_list {ℓ} : {A : Type ℓ} → List A → Option (A × List A)
pop_list [] = none
pop_list (a ∷ rest) = some (a, rest)

pub pop_empty {ℓ} : {A : Type ℓ} (q : List A) → q ≡ [] → pop_list q ≡ none
pop_empty q e = rw e

pub pop_cons {ℓ} :
    {A : Type ℓ} (q : List A) (a : A) (rest : List A)
    → q ≡ a ∷ rest
    → (q' : List A) × (pop_list q ≡ some (a, q')) × (q' ≡ rest)
pop_cons q a rest e = (rest, rw e, refl)

abbrev pub list_queue : (A : Type 0) → IsQueue A (List A)
list_queue A = record {
  contents = λ q. q;
  try_pop = pop_list;
  try_pop-empty = pop_empty;
  try_pop-cons = pop_cons;
}
