-- ===== src/Manager/Handles.antt =====
-- The handles that LoaderManager of csrc/main.cpp gives out: each is new, and closing one leaves the
-- others as they were.
use instant_tensor.Base.{
  ℕ, ◌+◌, ◌≤◌, ◌≡◌, ◌≢◌, ◌==◌, refl, sym, ap, ◌∙◌, Bool-cases, inl, inr, false, if◌then◌else◌, none,
  some, List, [], ◌∷◌, ok, err, ==_iff, ℕ_discrete, arith,
}
use instant_tensor.Types.{Op, open_op, close_op, Args, open_args, close_args, AnyResult, OpenArgs}
use instant_tensor.Manager.{RpcHandle, ManagerError, Devices, call, get_result, group_of}
use instant_tensor.Manager.Table.{
  LoaderManager, thrown, lookup, removed, stored, Serve, ask_by, ask_found, ask, answer, registered,
  open_with, manager_open, forgotten, manager_close,
}

lookup-removed_self :
    (table : List (ℕ × RpcHandle)) (key : ℕ) → lookup (removed table key) key ≡ none
lookup-removed_self [] key = refl
lookup-removed_self ((k, h) ∷ table) key = elim (Bool-cases (k == key)) [
  | inl here ↦ rw here (lookup-removed_self table key)
  | inr other ↦ rw other (rw other (lookup-removed_self table key))
]

lookup-removed_ne :
    (table : List (ℕ × RpcHandle)) (key j : ℕ)
    → j ≢ key
    → lookup (removed table key) j ≡ lookup table j
lookup-removed_ne [] key j h = refl
lookup-removed_ne ((k, v) ∷ table) key j h = elim (Bool-cases (k == key)) [
  | inl here ↦
      let apart : (k == j) ≡ false = ground (arith, here, h) in
      rw (here, apart) (lookup-removed_ne table key j h)
  | inr other ↦ rw other (ap (λ r. if k == j then some v else r) (lookup-removed_ne table key j h))
]

lookup-stored_self :
    (table : List (ℕ × RpcHandle)) (key : ℕ) (h : RpcHandle)
    → lookup (stored table key h) key ≡ some h
lookup-stored_self table key h = rw ((==_iff key key).1 refl) refl

lookup-stored_ne :
    (table : List (ℕ × RpcHandle)) (key j : ℕ) (h : RpcHandle)
    → j ≢ key
    → lookup (stored table key h) j ≡ lookup table j
lookup-stored_ne table key j h other =
    let apart : (key == j) ≡ false = ground (arith, other) in
    rw apart (lookup-removed_ne table key j other)

-- No loader has a handle that is still to be given out.
abbrev pub IsFresh : LoaderManager → Type 0
IsFresh m = (key : ℕ) → m.loader_id_iter ≤ key → lookup m.loader_handle_to_queue key ≡ none

-- The thread of each loader answers each request.
abbrev pub Answers : Serve → Type 0
Answers serve =
    (key : ℕ) (h : RpcHandle) (op : Op) (args : Args)
    → (result : AnyResult) × (h' : RpcHandle) × (get_result (serve key (call h op args).0)
          (call h op args).1
        ≡ some (result, h'))

abbrev with_handle : LoaderManager → ℕ → RpcHandle → LoaderManager
with_handle m key h = record m { loader_handle_to_queue = stored m.loader_handle_to_queue key h }

ask_lem :
    (serve : Serve) (m : LoaderManager) (key : ℕ) (h : RpcHandle) (op : Op) (args : Args)
    → Answers serve
    → lookup m.loader_handle_to_queue key ≡ some h
    → (result : AnyResult) × (h' : RpcHandle) × (ask serve m key op args
        ≡ (ok result, with_handle m key h'))
unfolding ask
ask_lem serve m key h op args answers known =
    let (result, h', e) = answers key h op args in
    (result, h', ap (λ o. ask_by o serve m key op args) known ∙ ap (ask_found m key) e)

module _ (serve : Serve) (devices : Devices) (m : LoaderManager) (process_group : ℕ)
    (args : OpenArgs) where
  -- What a call of open that returns leaves, and a call of close after it.
  abbrev pub IsOpened : LoaderManager → Type 0
  IsOpened opened =
      (manager_open serve devices m process_group args ≡ (ok m.loader_id_iter, opened))
      × (opened.loader_id_iter ≡ m.loader_id_iter + 1)
      × ((j : ℕ)
          → j ≢ m.loader_id_iter
          → lookup opened.loader_handle_to_queue j ≡ lookup m.loader_handle_to_queue j)

  abbrev pub IsClosed : LoaderManager → LoaderManager → Type 0
  IsClosed opened closed =
      (manager_close serve opened m.loader_id_iter ≡ (ok tt, closed))
      × (closed.loader_id_iter ≡ opened.loader_id_iter)
      × ((j : ℕ) → lookup closed.loader_handle_to_queue j ≡ lookup m.loader_handle_to_queue j)

  open_lem :
      (group : ℕ × ℕ × ℕ)
      → Answers serve
      → group_of devices process_group ≡ ok group
      → (h : RpcHandle) × IsOpened (with_handle (registered m args.device_idx) m.loader_id_iter h)
  unfolding manager_open registered
  open_lem (communicator, rank, world_size) answers grouped =
      let new : LoaderManager = registered m args.device_idx in
      let sent : Args =
        open_args (record args {
          group_communicator = communicator;
          rank = rank;
          world_size = world_size;
        }) in
      let (result, h, e) =
        ask_lem serve new m.loader_id_iter
          (record { latest_req_id = 0; input_queue = []; output_queue = [] }) open_op sent answers
          (lookup-stored_self m.loader_handle_to_queue m.loader_id_iter _) in
      (
        h,
        (
          ap (open_with serve new m.loader_id_iter args) grouped ∙ ap (answer m.loader_id_iter) e,
          refl,
          λ j other.
              lookup-stored_ne new.loader_handle_to_queue m.loader_id_iter j h other
              ∙ lookup-stored_ne m.loader_handle_to_queue m.loader_id_iter j _ other,
        ),
      )

  close_lem :
      (opened : LoaderManager) (h : RpcHandle)
      → Answers serve
      → IsFresh m
      → lookup opened.loader_handle_to_queue m.loader_id_iter ≡ some h
      → ((j : ℕ)
          → j ≢ m.loader_id_iter
          → lookup opened.loader_handle_to_queue j ≡ lookup m.loader_handle_to_queue j)
      → (closed : LoaderManager) × IsClosed opened closed
  unfolding manager_close
  close_lem opened h answers unused known others =
      let (result, h', e) =
        ask_lem serve opened m.loader_id_iter h close_op close_args answers known in
      let table = stored opened.loader_handle_to_queue m.loader_id_iter h' in
      (
        record opened { loader_handle_to_queue = removed table m.loader_id_iter },
        (
          ap (forgotten m.loader_id_iter) e,
          refl,
          λ j. elim (ℕ_discrete j m.loader_id_iter) [
            | yes same ↦
                ap (λ k. lookup (removed table m.loader_id_iter) k) same
                ∙ lookup-removed_self table m.loader_id_iter
                ∙ sym (unused j (omega arith))
            | no other ↦
                lookup-removed_ne table m.loader_id_iter j other
                ∙ lookup-stored_ne opened.loader_handle_to_queue m.loader_id_iter j h' other
                ∙ others j other
          ],
        ),
      )

  -- If no loader has a handle that is still to be given out, CUDA and NCCL answer, and the threads
  -- answer their requests, then `open` returns a handle that no loader had, and leaves the other
  -- loaders as they were; `close` of it returns, and the loaders are those before `open`. Still no
  -- loader has a handle that is to be given out, and the handle is not given out again.
  pub open-close :
      (group : ℕ × ℕ × ℕ)
      → IsFresh m
      → Answers serve
      → group_of devices process_group ≡ ok group
      → (lookup m.loader_handle_to_queue m.loader_id_iter ≡ none)
        × ((opened : LoaderManager) × (closed : LoaderManager) × IsOpened opened
            × IsClosed opened closed
            × IsFresh opened
            × IsFresh closed)
  open-close group unused answers grouped =
      let (h, (e, next, others)) = open_lem group answers grouped in
      let opened = with_handle (registered m args.device_idx) m.loader_id_iter h in
      let (closed, (f, same, all)) =
        close_lem opened h answers unused
          (lookup-stored_self (registered m args.device_idx).loader_handle_to_queue m.loader_id_iter
            h)
          others in
      (
        unused m.loader_id_iter (omega arith),
        (
          opened,
          closed,
          (e, next, others),
          (f, same, all),
          λ j above. others j (λ hit. ground (arith, next, hit)) ∙ unused j (omega (arith, next)),
          λ j above. all j ∙ unused j (omega (arith, next, same)),
        ),
      )

  -- Where CUDA or NCCL does not answer, `open` throws, and its handle stays in the table with a
  -- thread that has nothing to do; no one is told of it.
  pub open_failed :
      (e : ManagerError)
      → group_of devices process_group ≡ err e
      → (manager_open serve devices m process_group args
          ≡ (err (thrown e), registered m args.device_idx))
        × (lookup (registered m args.device_idx).loader_handle_to_queue m.loader_id_iter
            ≡ some (record { latest_req_id = 0; input_queue = []; output_queue = [] }))
  unfolding manager_open registered
  open_failed e failed = (
    ap (open_with serve (registered m args.device_idx) m.loader_id_iter args) failed,
    lookup-stored_self m.loader_handle_to_queue m.loader_id_iter _,
  )
