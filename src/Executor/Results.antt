-- ===== src/Executor/Results.antt =====
-- The map of completed results: what its operations leave to be found, before the results that
-- still wait in the queue.
use instant_tensor.Base.{
  ◌≡◌, ◌≢◌, refl, sym, ap, ◌∙◌, ==_iff, Bool-cases, inl, inr, Option-cases, true, false,
  if◌then◌else◌, none, some, List, [], ◌∷◌, ◌++◌, append_assoc, append-nil, arith,
}
use instant_tensor.Base.Int.{ℤ, pos, negsuc}
use instant_tensor.Executor.{ExecutorResultItem, same_id, find, erase, emplace}

pub same_id-eq : (a b : ℤ) → same_id a b ≡ true → a ≡ b
same_id-eq (pos a) (pos b) e = ap pos ((==_iff a b).0 e)
same_id-eq (pos a) (negsuc b) e = ground arith
same_id-eq (negsuc a) (pos b) e = ground arith
same_id-eq (negsuc a) (negsuc b) e = ap negsuc ((==_iff a b).0 e)

pub different : (a b : ℤ) → b ≢ a → same_id a b ≡ false
different a b h = elim (Bool-cases (same_id a b)) [
  | inl same ↦ absurd (h (sym (same_id-eq a b same)))
  | inr other ↦ other
]

module _ {V : Type 0} where
  pub find-append :
      (xs ys : List (ExecutorResultItem V)) (id : ℤ)
      → find (xs ++ ys) id ≡ elim (find xs id) [ none ↦ find ys id | some v ↦ some v ]
  find-append [] ys id = refl
  find-append (x ∷ xs) ys id = elim (Bool-cases (same_id x.request_id id)) [
    | inl here ↦ rw here
    | inr other ↦ rw other (find-append xs ys id)
  ]

  pub find-erase :
      (xs ys : List (ExecutorResultItem V)) (id j : ℤ)
      → j ≢ id
      → find (erase xs id ++ ys) j ≡ find (xs ++ ys) j
  find-erase [] ys id j h = refl
  find-erase (x ∷ xs) ys id j h = elim (Bool-cases (same_id x.request_id id)) [
    | inl here ↦ elim (Bool-cases (same_id x.request_id j)) [
      | inl both ↦
          absurd (h (sym (same_id-eq x.request_id j both) ∙ same_id-eq x.request_id id here))
      | inr apart ↦ rw (here, apart) (find-erase xs ys id j h)
    ]
    | inr other ↦
        rw other
          (ap (λ r. if same_id x.request_id j then some x.value else r) (find-erase xs ys id j h))
  ]

  pub find_here :
      (ys : List (ExecutorResultItem V)) (item : ExecutorResultItem V) (j : ℤ)
      → same_id item.request_id j ≡ true
      → find (item ∷ ys) j ≡ some item.value
  find_here ys item j e = rw e

  pub some_not_none : {v : V} → some v ≢ none
  some_not_none h = ground arith

  pub find_other :
      (ys : List (ExecutorResultItem V)) (item : ExecutorResultItem V) (j : ℤ)
      → same_id item.request_id j ≡ false
      → find (item ∷ ys) j ≡ find ys j
  find_other ys item j e = rw e

  pub find_skip :
      (xs ys : List (ExecutorResultItem V)) (item : ExecutorResultItem V) (j : ℤ)
      → same_id item.request_id j ≡ false
      → find (xs ++ ys) j ≡ find (xs ++ item ∷ ys) j
  find_skip xs ys item j e =
      rw (find-append xs ys j, find-append xs (item ∷ ys) j)
        (ap (λ r. elim (find xs j) [ none ↦ r | some v ↦ some v ]) (sym (find_other ys item j e)))

  emplace_fresh :
      (xs : List (ExecutorResultItem V)) (item : ExecutorResultItem V)
      → find xs item.request_id ≡ none
      → emplace xs item ≡ xs ++ item ∷ []
  emplace_fresh xs item e = rw (e, emplace)

  emplace_known :
      (xs : List (ExecutorResultItem V)) (item : ExecutorResultItem V) (v : V)
      → find xs item.request_id ≡ some v
      → emplace xs item ≡ xs
  emplace_known xs item v e = rw (e, emplace)

  -- An item behind one with its id is not found.
  find-shadowed :
      (xs ys : List (ExecutorResultItem V)) (item : ExecutorResultItem V) (v : V) (j : ℤ)
      → find xs item.request_id ≡ some v
      → find (xs ++ ys) j ≡ find (xs ++ item ∷ ys) j
  find-shadowed xs ys item v j e = elim (Bool-cases (same_id item.request_id j)) [
    | inl here ↦
        let e' : find xs j ≡ some v = ap (find xs) (sym (same_id-eq item.request_id j here)) ∙ e in
        rw (find-append xs ys j, find-append xs (item ∷ ys) j, e')
    | inr other ↦ find_skip xs ys item j other
  ]

  -- An item that goes to the cache is found as it was in the queue.
  pub find-emplace :
      (xs ys : List (ExecutorResultItem V)) (item : ExecutorResultItem V) (j : ℤ)
      → find (emplace xs item ++ ys) j ≡ find (xs ++ item ∷ ys) j
  find-emplace xs ys item j = elim (Option-cases (find xs item.request_id)) [
    | inl fresh ↦
        ap (λ l. find (l ++ ys) j) (emplace_fresh xs item fresh)
        ∙ ap (λ l. find l j) (append_assoc xs (item ∷ []) ys)
    | inr (v, known) ↦
        ap (λ l. find (l ++ ys) j) (emplace_known xs item v known)
        ∙ find-shadowed xs ys item v j known
  ]

  pub emplace_miss :
      (xs : List (ExecutorResultItem V)) (item : ExecutorResultItem V) (id : ℤ)
      → find xs id ≡ none
      → same_id item.request_id id ≡ false
      → find (emplace xs item) id ≡ none
  emplace_miss xs item id miss other =
      ap (λ l. find l id) (sym (append-nil (emplace xs item)))
      ∙ find-emplace xs [] item id
      ∙ sym (find_skip xs [] item id other)
      ∙ ap (λ l. find l id) (append-nil xs)
      ∙ miss

  pub find_later :
      (items rest : List (ExecutorResultItem V)) (id : ℤ) (v : V)
      → find (items ++ rest) id ≡ some v
      → find items id ≡ none
      → find rest id ≡ some v
  find_later items rest id v e miss =
      ap (λ o. elim o [ none ↦ find rest id | some w ↦ some w ]) (sym miss)
      ∙ sym (find-append items rest id)
      ∙ e

  pub find_now :
      (items rest : List (ExecutorResultItem V)) (id : ℤ) (v w : V)
      → find (items ++ rest) id ≡ some v
      → find items id ≡ some w
      → find items id ≡ some v
  find_now items rest id v w e here =
      here
      ∙ ap (λ o. elim o [ none ↦ find rest id | some w ↦ some w ]) (sym here)
      ∙ sym (find-append items rest id)
      ∙ e

  pub find-erase_self : (xs : List (ExecutorResultItem V)) (id : ℤ) → find (erase xs id) id ≡ none
  find-erase_self [] id = refl
  find-erase_self (x ∷ xs) id = elim (Bool-cases (same_id x.request_id id)) [
    | inl here ↦ rw here (find-erase_self xs id)
    | inr other ↦ rw other (rw other (find-erase_self xs id))
  ]
