-- ===== src/Executor/Pool/Calls.antt =====
-- What the calls of submit and start of csrc/instant_tensor/async_executor.hpp that do not throw leave.
use instant_tensor.Base.{
  ℕ, ◌≡◌, refl, sym, ◌∙◌, Bool, true, false, Bool-cases, ◌==◌, inl, inr, if◌then◌else◌, List, [],
  ◌∷◌, ◌++◌, count, ok, err, Result, arith,
}
use instant_tensor.Base.Int.{ℤ}
use instant_tensor.Executor.{executor_stop_request_id, same_id}
use instant_tensor.Executor.Lifecycle.{
  ExecutorCore, id_reserved, not_started, is_stopped, make_task, submit, start,
}
use instant_tensor.Executor.Driver.{Task}

err-ne-ok {ℓ κ} :
    {E : Type κ} {A : Type ℓ} {e : E} {a : A} → ◌≡◌ {A = Result E A} (err e) (ok a) → ⊥
err-ne-ok h = absurd (ground (arith, h))

ok-injective {ℓ κ} :
    {E : Type κ} {A : Type ℓ} {a b : A} → ◌≡◌ {A = Result E A} (ok a) (ok b) → a ≡ b
ok-injective h = cc

module _ {V : Type 0} where
  -- What the calls of submit and start that do not throw leave.
  abbrev pub core : List (Task V) → Bool → Bool → ℕ → ExecutorCore (Unit {0} → V)
  core items started stop_requested all = record {
    task_queue = items;
    started = started;
    stop_requested = stop_requested;
    worker_count = all;
  }

  pub submit_fresh :
      (items : List (Task V)) (started stop_requested : Bool) (all : ℕ) (id : ℤ)
      (run : Unit {0} → V) (needs : Bool) (c : ExecutorCore (Unit {0} → V))
      → same_id id executor_stop_request_id ≡ false
      → submit (core items started stop_requested all) id run needs ≡ ok c
      → (started ≡ true)
        × (stop_requested ≡ false)
        × (core (items ++ make_task id run needs ∷ []) true false all ≡ c)
  unfolding submit
  submit_fresh items false stop_requested all id run needs c h e =
      absurd (err-ne-ok (sym (submit_error h) ∙ e))
    where
      submit_error :
          same_id id executor_stop_request_id ≡ false
          → submit (core items false stop_requested all) id run needs ≡ err not_started
      submit_error k = rw k refl
  submit_fresh items true true all id run needs c h e =
      absurd (err-ne-ok (sym (submit_error h) ∙ e))
    where
      submit_error :
          same_id id executor_stop_request_id ≡ false
          → submit (core items true true all) id run needs ≡ err is_stopped
      submit_error k = rw k refl
  submit_fresh items true false all id run needs c h e =
      (refl, refl, ok-injective (sym (pushed h) ∙ e))
    where
      pushed :
          same_id id executor_stop_request_id ≡ false
          → submit (core items true false all) id run needs
            ≡ ok (core (items ++ make_task id run needs ∷ []) true false all)
      pushed k = rw k refl

  pub submit_reserved :
      (s : ExecutorCore (Unit {0} → V)) (id : ℤ) (run : Unit {0} → V) (needs : Bool)
      → same_id id executor_stop_request_id ≡ true
      → submit s id run needs ≡ err id_reserved
  unfolding submit
  submit_reserved s id run needs h = rw h refl

  pub ok-submit :
      (s c : ExecutorCore (Unit {0} → V)) (id : ℤ) (run : Unit {0} → V) (needs : Bool)
      → submit s id run needs ≡ ok c
      → (s.started ≡ true)
        × (s.stop_requested ≡ false)
        × (core (s.task_queue ++ make_task id run needs ∷ []) true false s.worker_count ≡ c)
        × (same_id id executor_stop_request_id ≡ false)
  ok-submit s c id run needs e = elim (Bool-cases (same_id id executor_stop_request_id)) [
    | inl reserved ↦ absurd (err-ne-ok (sym (submit_reserved s id run needs reserved) ∙ e))
    | inr allowed ↦
        let (f, g, h) =
          submit_fresh s.task_queue s.started s.stop_requested s.worker_count id run needs c allowed
            e in
        (f, g, h, allowed)
  ]

  pub ok-start :
      (items : List (Task V)) (started stop_requested : Bool) (all count : ℕ)
      (c : ExecutorCore (Unit {0} → V))
      → start (core items started stop_requested all) count ≡ ok c
      → (started ≡ false)
        × (stop_requested ≡ false)
        × (core items true false (if count == 0 then 1 else count) ≡ c)
  unfolding start
  ok-start items true stop_requested all count c e = absurd (err-ne-ok e)
  ok-start items false true all count c e = absurd (err-ne-ok e)
  ok-start items false false all count c e = (refl, refl, ok-injective e)
