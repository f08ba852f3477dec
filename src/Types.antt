-- ===== src/Types.antt =====
-- csrc/instant_tensor/types.hpp: the records that the loader shares with its I/O backends.
use Prim.Native.String.{String}
use instant_tensor.Base.{ℕ, zero, suc, Option, none, some, List, Bool}
use instant_tensor.Base.Int.{ℤ}

-- enum Backend
pub data Backend : Type 0 where
  aio aio_buffered uring uring_buffered cufile mmap : Backend

-- struct TensorMetadate. `chunk_id_t` is `ssize_t`.
pub record TensorMetadate : Type 0 where
  pub size : ℕ
  pub file_index : ℕ
  pub file_offset : ℕ
  pub device_buffer_offset : ℕ
  pub last_chunk_id : ℤ
  pub prefetch_chunk_id : ℤ

-- struct ChunkRequest. The executor pointer is null, or that of the thread that completes chunks.
pub data ExecutorRef : Type 0 where
  wait_thread : ExecutorRef

pub record ChunkRequest : Type 0 where
  pub executor : Option ExecutorRef
  pub wait_handle : ℤ

-- struct ChunkExtraData
pub record ChunkExtraData : Type 0 where
  pub unfinished_cnt : ℕ

-- struct Chunk
pub record Chunk : Type 0 where
  pub size : ℕ
  pub file_index : ℕ
  pub file_offset : ℕ
  pub device_buffer_offset : ℕ
  pub request : ChunkRequest
  pub extra_data : ChunkExtraData

-- enum Op
pub data Op : Type 0 where
  open_op close_op get_tensor_ptr_op : Op

-- struct OpenArgs. A communicator or a pointer is an address, 0 for null.
pub record OpenArgs : Type 0 where
  pub filenames : List String
  pub device_idx : ℕ
  pub group_communicator : ℕ
  pub rank : ℕ
  pub world_size : ℕ
  pub buffer_size : ℕ
  pub chunk_size : ℕ
  pub num_threads : ℕ
  pub io_depth : ℕ
  pub backend : Backend
  pub tensor_offsets : List (ℕ × ℕ)

-- What the std::any of a request holds: OpenArgs, CloseArgs or GetTensorArgs.
pub data Args : Type 0 where
  open_args : OpenArgs → Args
  close_args : Args
  get_tensor_args : ℕ → Args

-- struct RPCRequest. `op` is an int, the number of an Op.
pub record RpcRequest : Type 0 where
  pub id : ℕ
  pub op : ℕ
  pub args : Args

abbrev pub op_of : ℕ → Option Op
op_of zero = some open_op
op_of (suc zero) = some close_op
op_of (suc (suc zero)) = some get_tensor_ptr_op
op_of (suc (suc (suc n))) = none

abbrev pub op_number : Op → ℕ
op_number open_op = 0
op_number close_op = 1
op_number get_tensor_ptr_op = 2

-- struct RPCResponse, whose std::any is empty or holds a pointer.
pub data AnyResult : Type 0 where
  empty_result : AnyResult
  pointer : ℕ → AnyResult

pub record RpcResponse : Type 0 where
  pub id : ℕ
  pub result : AnyResult

-- struct FileInfo
pub record FileInfo : Type 0 where
  pub filename : String
  pub fd : ℕ
  pub in_memory : Bool
  pub size : ℕ
  pub mapped_memory : ℕ

-- struct HostBufferCacheEntry, but for its deleter.
pub record HostBufferCacheEntry : Type 0 where
  pub ptr : ℕ
  pub size : ℕ
