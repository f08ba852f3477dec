-- ===== src/Manager.antt =====
-- class LoaderManager of csrc/main.cpp: the requests that a caller sends to a loader's thread, and the
-- responses that it waits for. A queue is the list of what it holds, in order; CUDA and NCCL are a
-- parameter.
pub mod Calls
pub mod Table
pub mod Handles
mod Tests
use instant_tensor.Base.{
  ℕ, ◌+◌, ◌≡◌, ◌==◌, Bool, if◌then◌else◌, Option, none, some, List, [], ◌∷◌, ◌++◌, Result, ok, err,
  ◌>>=◌, ◌>>◌, guard, or_fail,
}
use instant_tensor.Types.{
  Op, open_op, close_op, get_tensor_ptr_op, op_number, Args, open_args, close_args, get_tensor_args,
  RpcRequest, RpcResponse, AnyResult, pointer, empty_result, OpenArgs,
}
use instant_tensor.Dlpack.{DlTensor, pack_dlpack, unsupported_dtype}

-- struct RPCHandle
pub record RpcHandle : Type 0 where
  pub latest_req_id : ℕ
  pub input_queue : List RpcRequest
  pub output_queue : List RpcResponse

-- What is thrown to the caller.
pub data ManagerError : Type 0 where
  no_cuda no_nccl nccl_failed bad_any_cast unpackable : ManagerError

-- The handle and the id of the request. The id is an int, which the calls of a loader do not exhaust.
unfoldable pub call : RpcHandle → Op → Args → RpcHandle × ℕ
call handle op args =
    let req_id = handle.latest_req_id + 1 in
    (
      record handle {
        latest_req_id = req_id;
        input_queue =
            handle.input_queue ++ record { id = req_id; op = op_number op; args = args } ∷ [];
      },
      req_id,
    )

-- The loop of `get_result` on the responses that are there: the result, and the responses behind it.
-- `none` is a `pop` that waits.
unfoldable pub take_response : ℕ → List RpcResponse → Option (AnyResult × List RpcResponse)
take_response req_id [] = none
take_response req_id (response ∷ rest) =
    let later = take_response req_id rest in
    if response.id == req_id then some (response.result, rest) else later

unfoldable pub with_rest :
    RpcHandle → Option (AnyResult × List RpcResponse) → Option (AnyResult × RpcHandle)
with_rest handle none = none
with_rest handle (some (result, rest)) = some (result, record handle { output_queue = rest })

unfoldable pub get_result : RpcHandle → ℕ → Option (AnyResult × RpcHandle)
get_result handle req_id = with_rest handle (take_response req_id handle.output_queue)

-- What `open` asks of CUDA and NCCL: `false` and `none` are failures.
pub record Devices : Type 0 where
  pub cuda_init : Bool
  pub nccl_init : Bool
  pub comm_user_rank : ℕ → Option ℕ
  pub comm_count : ℕ → Option ℕ

-- The communicator, the rank and the number of ranks that `open` sends.
unfoldable pub group_of : Devices → ℕ → Result ManagerError (ℕ × ℕ × ℕ)
group_of devices process_group = do
  guard devices.cuda_init no_cuda
  if process_group == 0 then ok (0, 0, 1) else (do
    guard devices.nccl_init no_nccl
    rank ← or_fail (devices.comm_user_rank process_group) nccl_failed
    world_size ← or_fail (devices.comm_count process_group) nccl_failed
    ok (process_group, rank, world_size))

-- The calls of `close` and `get_dl_tensor`, and what the latter makes of the result.
unfoldable pub close_call : RpcHandle → RpcHandle × ℕ
close_call handle = call handle close_op close_args

unfoldable pub get_tensor_call : RpcHandle → ℕ → RpcHandle × ℕ
get_tensor_call handle tensor_index = call handle get_tensor_ptr_op (get_tensor_args tensor_index)

unfoldable pub dl_tensor_of : ℕ → ℕ → AnyResult → Result ManagerError DlTensor
dl_tensor_of device_idx size empty_result = err bad_any_cast
dl_tensor_of device_idx size (pointer ptr) = elim (pack_dlpack ptr (size ∷ []) "int8" device_idx) [
  | ok tensor ↦ ok tensor
  | err e ↦ err unpackable
]
