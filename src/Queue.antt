-- ===== src/Queue.antt =====
-- class AtomicQueueAdapter of csrc/instant_tensor/queue.hpp. The queue inside it is that of
-- atomic_queue, a parameter. A call that waits yields between its tries: `yields` lists what the
-- other threads do to the queue at each yield, and `none` is a call that still waits.
pub mod Fifo
mod Tests
use instant_tensor.Base.{
  ℕ, ◌<◌, ◌≤◌, ◌≡◌, Bool, true, false, Option, none, some, List, [], ◌∷◌, ◌++◌, length,
}

-- atomic_queue::AtomicQueue2 of a capacity, as one thread uses it: the items wait in the order in
-- which they were pushed, a push fails where the queue is full, and a pop where it is empty.
pub record AtomicQueue (A Q : Type 0) (capacity : ℕ) : Type 0 where
  pub contents : Q → List A
  pub try_push : Q → A → Option Q
  pub try_pop : Q → Option (A × Q)
  pub was_empty : Q → Bool
  pub try_push-room :
      (q : Q) (a : A)
      → length (contents q) < capacity
      → (q' : Q) × (try_push q a ≡ some q') × (contents q' ≡ contents q ++ a ∷ [])
  pub try_push-full : (q : Q) (a : A) → capacity ≤ length (contents q) → try_push q a ≡ none
  pub try_pop-none : (q : Q) → contents q ≡ [] → try_pop q ≡ none
  pub try_pop-some :
      (q : Q) (a : A) (rest : List A)
      → contents q ≡ a ∷ rest
      → (q' : Q) × (try_pop q ≡ some (a, q')) × (contents q' ≡ rest)

module _ {A Q : Type 0} {capacity : ℕ} (queue : AtomicQueue A Q capacity) where
  unfoldable pub push : List (Q → Q) → Q → A → Option Q
  push [] q value = queue.try_push q value
  push (yield ∷ yields) q value = elim (queue.try_push q value) [
    | some q' ↦ some q'
    | none ↦ push yields (yield q) value
  ]

  unfoldable pub pop : List (Q → Q) → Q → Option (A × Q)
  pop [] q = queue.try_pop q
  pop (yield ∷ yields) q = elim (queue.try_pop q) [
    | some (result, q') ↦ some (result, q')
    | none ↦ pop yields (yield q)
  ]

  -- The overload that drops the item.
  unfoldable pub pop_only : List (Q → Q) → Q → Option Q
  pop_only yields q = elim (pop yields q) [ none ↦ none | some (discarded, q') ↦ some q' ]

  -- The tries, with the answer of the call and the queue that it leaves.
  unfoldable pub try_push : Q → A → Bool × Q
  try_push q value = elim (queue.try_push q value) [ none ↦ (false, q) | some q' ↦ (true, q') ]

  unfoldable pub try_pop : Q → Option A × Q
  try_pop q = elim (queue.try_pop q) [ none ↦ (none, q) | some (result, q') ↦ (some result, q') ]

  unfoldable pub try_pop_only : Q → Bool × Q
  try_pop_only q = elim (queue.try_pop q) [ none ↦ (false, q) | some (discarded, q') ↦ (true, q') ]

  unfoldable pub empty : Q → Bool
  empty q = queue.was_empty q
