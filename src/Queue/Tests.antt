-- ===== src/Queue/Tests.antt =====
-- A queue of two places over a list, and the theorem on it.
use instant_tensor.Base.{
  ℕ, ◌<◌, ◌≤◌, ◌≡◌, refl, Bool, true, false, ltb, lt→ltb, le→ltb, if◌then◌else◌, Option, none, some,
  List, [], ◌∷◌, ◌++◌, length, arith,
}
use instant_tensor.Queue.{AtomicQueue, push, pop}
use instant_tensor.Queue.Fifo.{after, push_lem, pop_lem}

abbrev push_two : List ℕ → ℕ → Option (List ℕ)
push_two q a = if ltb (length q) 2 then some (q ++ a ∷ []) else none

abbrev pop_two : List ℕ → Option (ℕ × List ℕ)
pop_two [] = none
pop_two (a ∷ rest) = some (a, rest)

abbrev was_empty : List ℕ → Bool
was_empty [] = true
was_empty (a ∷ rest) = false

push_room :
    (q : List ℕ) (a : ℕ)
    → length q < 2
    → (q' : List ℕ) × (push_two q a ≡ some q') × (q' ≡ q ++ a ∷ [])
push_room q a h = (q ++ a ∷ [], rw (lt→ltb (length q) 2 h) refl, refl)

push_full : (q : List ℕ) (a : ℕ) → 2 ≤ length q → push_two q a ≡ none
push_full q a h = rw (le→ltb (length q) 2 h) refl

pop_none : (q : List ℕ) → q ≡ [] → pop_two q ≡ none
pop_none q e = rw e refl

pop_some :
    (q : List ℕ) (a : ℕ) (rest : List ℕ)
    → q ≡ a ∷ rest
    → (q' : List ℕ) × (pop_two q ≡ some (a, q')) × (q' ≡ rest)
pop_some q a rest e = (rest, rw e refl, refl)

abbrev two : AtomicQueue ℕ (List ℕ) 2
two = record {
  contents = λ q. q;
  try_push = push_two;
  try_pop = pop_two;
  was_empty = was_empty;
  try_push-room = push_room;
  try_push-full = push_full;
  try_pop-none = pop_none;
  try_pop-some = pop_some;
}

-- Another thread pops an item, or pushes one.
abbrev takes : List ℕ → List ℕ
takes [] = []
takes (a ∷ rest) = rest

abbrev adds : List ℕ → List ℕ
adds q = q ++ 8 ∷ []

-- A full queue, from which an item is taken at the second yield.
push_example :
    (n : ℕ) × (q' : List ℕ) × (push two ((λ q. q) ∷ takes ∷ []) (5 ∷ 6 ∷ []) 7 ≡ some q')
    × (q' ≡ after two n ((λ q. q) ∷ takes ∷ []) (5 ∷ 6 ∷ []) ++ 7 ∷ [])
    × (length q' ≤ 2)
push_example = push_lem two 2 ((λ q. q) ∷ takes ∷ []) (5 ∷ 6 ∷ []) 7 (omega arith) (omega arith)

-- An empty queue, to which an item comes at the second yield.
pop_example :
    (n : ℕ) × (a : ℕ) × (q' : List ℕ) × (pop two ((λ q. q) ∷ adds ∷ []) [] ≡ some (a, q'))
    × (after two n ((λ q. q) ∷ adds ∷ []) [] ≡ a ∷ q')
pop_example = pop_lem two 2 ((λ q. q) ∷ adds ∷ []) [] (omega arith) (omega arith)
