-- ===== src/Queue/Fifo.antt =====
-- The adapter of csrc/instant_tensor/queue.hpp items a queue of bounded length: what comes out, in which
-- order, and when the calls that wait return.
use instant_tensor.Base.{
  ℕ, zero, suc, ◌<◌, ◌≤◌, ◌≡◌, refl, sym, ap, ◌∙◌, inl, inr, some, List, [], ◌∷◌, ◌++◌, length,
  length-append, List-cases, dec_lt, arith,
}
use instant_tensor.Queue.{AtomicQueue, push, pop}

module _ {A Q : Type 0} {capacity : ℕ} (queue : AtomicQueue A Q capacity) where
  -- The queue after the first `n` yields.
  abbrev pub after : ℕ → List (Q → Q) → Q → Q
  after zero yields q = q
  after (suc n) [] q = q
  after (suc n) (yield ∷ yields) q = after n yields (yield q)

  abbrev pub IsPushed : List (Q → Q) → Q → A → Type 0
  IsPushed yields q value =
      (n : ℕ) × (q' : Q) × (push queue yields q value ≡ some q')
      × (queue.contents q' ≡ queue.contents (after n yields q) ++ value ∷ [])
      × (length (queue.contents q') ≤ capacity)

  push_now :
      (yields : List (Q → Q)) (q : Q) (value : A)
      → length (queue.contents q) < capacity
      → (q' : Q) × (push queue yields q value ≡ some q')
        × (queue.contents q' ≡ queue.contents q ++ value ∷ [])
  unfolding push
  push_now [] q value room = queue.try_push-room q value room
  push_now (yield ∷ yields) q value room =
      let (q', e, f) = queue.try_push-room q value room in (q', rw (e, push) refl, f)

  push_later :
      (yield : Q → Q) (yields : List (Q → Q)) (q : Q) (value : A)
      → capacity ≤ length (queue.contents q)
      → push queue (yield ∷ yields) q value ≡ push queue yields (yield q) value
  unfolding push
  push_later yield yields q value full = rw (queue.try_push-full q value full, push) refl

  push_at_once :
      (yields : List (Q → Q)) (q : Q) (value : A)
      → length (queue.contents q) < capacity
      → IsPushed yields q value
  push_at_once yields q value room =
      let (q', e, f) = push_now yields q value room in
      (0, q', e, f, omega (arith, ap length f, length-append (queue.contents q) (value ∷ [])))

  -- Where the other threads make room within the yields, `push` returns, after some of them, with its
  -- item behind those that are then in the queue, and the queue is not above its capacity.
  pub push_lem :
      (m : ℕ) (yields : List (Q → Q)) (q : Q) (value : A)
      → m ≤ length yields
      → length (queue.contents (after m yields q)) < capacity
      → IsPushed yields q value
  push_lem zero yields q value h room = push_at_once yields q value room
  push_lem (suc m) [] q value h room = absurd (omega arith)
  push_lem (suc m) (yield ∷ yields) q value h room =
      elim (dec_lt (length (queue.contents q)) capacity) [
        | yes now ↦ push_at_once (yield ∷ yields) q value now
        | no full ↦
            let (n, q', e, f, g) = push_lem m yields (yield q) value (omega arith) room in
            (suc n, q', push_later yield yields q value (omega arith) ∙ e, f, g)
      ]

  pop_now :
      (yields : List (Q → Q)) (q : Q) (a : A) (rest : List A)
      → queue.contents q ≡ a ∷ rest
      → (q' : Q) × (pop queue yields q ≡ some (a, q')) × (queue.contents q' ≡ rest)
  unfolding pop
  pop_now [] q a rest e = queue.try_pop-some q a rest e
  pop_now (yield ∷ yields) q a rest e =
      let (q', f, g) = queue.try_pop-some q a rest e in (q', rw (f, pop) refl, g)

  pop_later :
      (yield : Q → Q) (yields : List (Q → Q)) (q : Q)
      → queue.contents q ≡ []
      → pop queue (yield ∷ yields) q ≡ pop queue yields (yield q)
  unfolding pop
  pop_later yield yields q empty = rw (queue.try_pop-none q empty, pop) refl

  -- Where an item is in the queue within the yields, `pop` returns with the oldest that is then there.
  pub pop_lem :
      (m : ℕ) (yields : List (Q → Q)) (q : Q)
      → m ≤ length yields
      → 0 < length (queue.contents (after m yields q))
      → (n : ℕ) × (a : A) × (q' : Q) × (pop queue yields q ≡ some (a, q'))
        × (queue.contents (after n yields q) ≡ a ∷ queue.contents q')
  pop_lem zero yields q h some_item = elim (List-cases (queue.contents q)) [
    | inr (a, rest, e) ↦
        let (q', f, g) = pop_now yields q a rest e in (0, a, q', f, e ∙ ap (◌∷◌ a) (sym g))
    | inl empty ↦ absurd (omega (arith, ap length empty))
  ]
  pop_lem (suc m) [] q h some_item = absurd (omega arith)
  pop_lem (suc m) (yield ∷ yields) q h some_item = elim (List-cases (queue.contents q)) [
    | inr (a, rest, e) ↦
        let (q', f, g) = pop_now (yield ∷ yields) q a rest e in
        (0, a, q', f, e ∙ ap (◌∷◌ a) (sym g))
    | inl empty ↦
        let (n, a, q', e, f) = pop_lem m yields (yield q) (omega arith) some_item in
        (suc n, a, q', pop_later yield yields q empty ∙ e, f)
  ]
