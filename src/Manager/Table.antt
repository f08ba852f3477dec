-- ===== src/Manager/Table.antt =====
-- class LoaderManager of csrc/main.cpp with its table of loaders, and the functions that Python calls.
-- `serve` is a parameter: what the thread of a loader does with its queues while the caller waits.
use instant_tensor.Base.{
  ℕ, ◌+◌, ◌==◌, if◌then◌else◌, Option, none, some, List, [], ◌∷◌, Result, ok, err,
}
use instant_tensor.Types.{
  Op, open_op, close_op, get_tensor_ptr_op, Args, open_args, close_args, get_tensor_args, AnyResult,
  OpenArgs,
}
use instant_tensor.Dlpack.{DlTensor}
use instant_tensor.Manager.{
  RpcHandle, ManagerError, Devices, call, get_result, group_of, dl_tensor_of,
}

-- The table is a std::unordered_map, with one entry for a key.
pub record LoaderManager : Type 0 where
  pub loader_handle_to_queue : List (ℕ × RpcHandle)
  pub loader_id_iter : ℕ
  pub device_idx : ℕ

-- How a call ends that does not return: it throws, waits for ever, or uses the null queues of an
-- entry that operator[] makes, which is undefined in C++.
pub data CallError : Type 0 where
  thrown : ManagerError → CallError
  not_initialized waits_on null_queue : CallError

abbrev pub new_manager : LoaderManager
new_manager = record { loader_handle_to_queue = []; loader_id_iter = 0; device_idx = 0 }

abbrev pub lookup : List (ℕ × RpcHandle) → ℕ → Option RpcHandle
lookup [] key = none
lookup ((k, h) ∷ table) key = if k == key then some h else lookup table key

abbrev pub removed : List (ℕ × RpcHandle) → ℕ → List (ℕ × RpcHandle)
removed [] key = []
removed ((k, h) ∷ table) key =
    let rest = removed table key in if k == key then rest else (k, h) ∷ rest

abbrev pub stored : List (ℕ × RpcHandle) → ℕ → RpcHandle → List (ℕ × RpcHandle)
stored table key h = (key, h) ∷ removed table key

abbrev pub Serve : Type 0
Serve = ℕ → RpcHandle → RpcHandle

-- `call` and then `get_result`, on the handle that was found.
abbrev pub ask_found :
    LoaderManager → ℕ → Option (AnyResult × RpcHandle) → Result CallError AnyResult × LoaderManager
ask_found m key none = (err waits_on, m)
ask_found m key (some (result, h)) =
    (ok result, record m { loader_handle_to_queue = stored m.loader_handle_to_queue key h })

abbrev pub ask_by :
    Option RpcHandle
    → Serve
    → LoaderManager
    → ℕ
    → Op
    → Args
    → Result CallError AnyResult × LoaderManager
ask_by none serve m key op args = (err null_queue, m)
ask_by (some h) serve m key op args =
    let sent = call h op args in ask_found m key (get_result (serve key sent.0) sent.1)

unfoldable pub ask :
    Serve → LoaderManager → ℕ → Op → Args → Result CallError AnyResult × LoaderManager
ask serve m key op args = ask_by (lookup m.loader_handle_to_queue key) serve m key op args

abbrev pub answer :
    {A : Type 0}
    → A
    → Result CallError AnyResult × LoaderManager
    → Result CallError A × LoaderManager
answer a (ok result, m) = (ok a, m)
answer a (err e, m) = (err e, m)

-- What `open` does before it asks CUDA and NCCL.
unfoldable pub registered : LoaderManager → ℕ → LoaderManager
registered m device_idx = record {
  loader_handle_to_queue =
      stored m.loader_handle_to_queue m.loader_id_iter
        (record { latest_req_id = 0; input_queue = []; output_queue = [] });
  loader_id_iter = m.loader_id_iter + 1;
  device_idx = device_idx;
}

abbrev pub open_with :
    Serve
    → LoaderManager
    → ℕ
    → OpenArgs
    → Result ManagerError (ℕ × ℕ × ℕ)
    → Result CallError ℕ × LoaderManager
open_with serve m key args (err e) = (err (thrown e), m)
open_with serve m key args (ok (communicator, rank, world_size)) = answer key (
    ask serve m key open_op (
      open_args
        (record args { group_communicator = communicator; rank = rank; world_size = world_size })))

-- LoaderManager::open. `args` has the arguments of the caller; the group's members come from NCCL.
unfoldable pub manager_open :
    Serve → Devices → LoaderManager → ℕ → OpenArgs → Result CallError ℕ × LoaderManager
manager_open serve devices m process_group args =
    open_with serve (registered m args.device_idx) m.loader_id_iter args
      (group_of devices process_group)

abbrev pub forgotten :
    ℕ → Result CallError AnyResult × LoaderManager → Result CallError (Unit {0}) × LoaderManager
forgotten key (err e, m) = (err e, m)
forgotten key (ok result, m) =
    (ok tt, record m { loader_handle_to_queue = removed m.loader_handle_to_queue key })

-- LoaderManager::close
unfoldable pub manager_close :
    Serve → LoaderManager → ℕ → Result CallError (Unit {0}) × LoaderManager
manager_close serve m key = forgotten key (ask serve m key close_op close_args)

abbrev pub packed :
    ℕ → Result CallError AnyResult × LoaderManager → Result CallError DlTensor × LoaderManager
packed size (err e, m) = (err e, m)
packed size (ok result, m) = elim (dl_tensor_of m.device_idx size result) [
  | ok tensor ↦ (ok tensor, m)
  | err e ↦ (err (thrown e), m)
]

-- LoaderManager::get_dl_tensor
unfoldable pub manager_get_dl_tensor :
    Serve → LoaderManager → ℕ → ℕ → ℕ → Result CallError DlTensor × LoaderManager
manager_get_dl_tensor serve m key tensor_index size =
    packed size (ask serve m key get_tensor_ptr_op (get_tensor_args tensor_index))

-- The functions that Python calls, on the global `manager`, null at first.
abbrev pub kept : {A : Type 0} → A × LoaderManager → A × Option LoaderManager
kept (a, m) = (a, some m)

unfoldable pub python_open :
    Serve
    → Devices
    → Option LoaderManager
    → ℕ
    → OpenArgs
    → Result CallError ℕ × Option LoaderManager
python_open serve devices none process_group args =
    kept (manager_open serve devices new_manager process_group args)
python_open serve devices (some m) process_group args =
    kept (manager_open serve devices m process_group args)

unfoldable pub python_close :
    Serve → Option LoaderManager → ℕ → Result CallError (Unit {0}) × Option LoaderManager
python_close serve none key = (err not_initialized, none)
python_close serve (some m) key = kept (manager_close serve m key)

unfoldable pub python_get_dl_tensor :
    Serve → Option LoaderManager → ℕ → ℕ → ℕ → Result CallError DlTensor × Option LoaderManager
python_get_dl_tensor serve none key tensor_index size = (err not_initialized, none)
python_get_dl_tensor serve (some m) key tensor_index size =
    kept (manager_get_dl_tensor serve m key tensor_index size)
