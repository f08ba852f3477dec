-- ===== src/Loader.antt =====
-- class Loader of csrc/instant_tensor/loader.hpp: the members that its methods compute with. The
-- queues, threads, streams and events are not here; addresses are numbers, 0 for null.
pub mod Sizes
pub mod Geometry
pub mod Post
pub mod Schedule
pub mod System
pub mod Uring
pub mod Submit
pub mod Device
pub mod Completion
pub mod Open
pub mod Run
mod Tests
use instant_tensor.Base.{ℕ, Bool, false, List, []}
use instant_tensor.Base.Int.{ℤ, negsuc}
use instant_tensor.Types.{Backend, FileInfo, HostBufferCacheEntry, TensorMetadate, Chunk}

pub record Loader : Type 0 where
  pub file_info : List FileInfo
  pub use_internal_memory_register : Bool
  pub need_host_buffer : Bool
  pub need_worker_threads : Bool
  pub need_cuda_thread : Bool
  pub device_buffer : ℕ
  pub host_buffer : ℕ
  pub host_buffer_entry : HostBufferCacheEntry
  pub tensors : List TensorMetadate
  pub chunks : List Chunk
  pub current_tensor_index : ℕ
  pub world_chunk_alignment : ℕ
  pub thread_chunk_size : ℕ
  pub rank_chunk_size : ℕ
  pub world_chunk_size : ℕ
  pub thread_alignment : ℕ
  pub rank_alignment : ℕ
  pub group_communicator : ℕ
  pub rank : ℕ
  pub world_size : ℕ
  pub buffer_size : ℕ
  pub num_threads : ℕ
  pub io_depth : ℕ
  pub backend : Backend
  pub stop : Bool
  pub chunk_reading : ℤ
  pub chunk_read : ℤ
  pub executor_request_id : ℕ

-- The members as a constructed Loader has them; `rank` is -1 until `open` sets it, and no method
-- reads it before.
abbrev pub new_loader : Bool → Loader
new_loader use_internal_memory_register = record {
  file_info = [];
  use_internal_memory_register = use_internal_memory_register;
  need_host_buffer = false;
  need_worker_threads = false;
  need_cuda_thread = false;
  device_buffer = 0;
  host_buffer = 0;
  host_buffer_entry = record { ptr = 0; size = 0 };
  tensors = [];
  chunks = [];
  current_tensor_index = 0;
  world_chunk_alignment = 0;
  thread_chunk_size = 0;
  rank_chunk_size = 0;
  world_chunk_size = 0;
  thread_alignment = 0;
  rank_alignment = 0;
  group_communicator = 0;
  rank = 0;
  world_size = 0;
  buffer_size = 0;
  num_threads = 0;
  io_depth = 0;
  backend = Backend.aio;
  stop = false;
  chunk_reading = negsuc 0;
  chunk_read = negsuc 0;
  executor_request_id = 0;
}
