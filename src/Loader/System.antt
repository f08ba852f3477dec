-- ===== src/Loader/System.antt =====
-- What the loader asks of the operating system, CUDA, cuFile, libaio and liburing when it opens and
-- closes, as a parameter: `none` and `false` are failures. The calls whose result the code does not
-- look at are left out.
use Prim.Native.String.{String}
use instant_tensor.Base.{ℕ, Bool, Option, none, List}
use instant_tensor.Types.{HostBufferCacheEntry}
use instant_tensor.Layout.{LayoutError}
use instant_tensor.Loader.{Loader, new_loader}
use instant_tensor.Loader.Post.{LoaderError}

-- `open_path` has the path and whether O_DIRECT is given; `mmap` the size and the descriptor;
-- `handle_register` stands for opening the cuFile driver and registering a descriptor.
-- `cache_buffer` is the environment variable INSTANTTENSOR_CACHE_BUFFER. `stream_create` has the
-- number of the stream, 0 for copies and 1 for NCCL; `events_create` how many events.
pub record System : Type 0 where
  pub page_size : ℕ
  pub cache_buffer : Bool
  pub file_in_memory : String → Bool
  pub open_path : String → Bool → Option ℕ
  pub fstat : ℕ → Option ℕ
  pub mmap : ℕ → ℕ → Option ℕ
  pub host_register : ℕ → ℕ → Bool
  pub handle_register : ℕ → Bool
  pub io_setup : ℕ → Bool
  pub queue_init : ℕ → Bool
  pub register_files : List ℕ → Bool
  pub register_buffers : List (ℕ × ℕ) → Bool
  pub cuda_malloc : ℕ → Option ℕ
  pub aligned_alloc : ℕ → ℕ → Option ℕ
  pub device_register : ℕ → ℕ → Bool
  pub stream_create : ℕ → Option ℕ
  pub events_create : ℕ → Bool
  pub stream_destroy : ℕ → Bool
  pub device_deregister : ℕ → Bool
  pub cuda_free : ℕ → Bool
  pub host_unregister : ℕ → Bool
  pub io_destroy : Bool

-- What is thrown on the loader's thread.
pub data RunError : Type 0 where
  open_failed fstat_failed mmap_failed : RunError
  cuda_failed cufile_failed setup_failed destroy_failed host_allocation_failed : RunError
  communicator_missing communicator_unexpected : RunError
  layout_failed : LayoutError → RunError
  loader_failed : LoaderError → RunError
  invalid_operation bad_any_cast : RunError

-- A unique_ptr to an executor: null, an executor that takes tasks, or one that was joined.
pub data Worker : Type 0 where
  absent running joined : Worker

pub record Executors : Type 0 where
  pub worker_threads : Worker
  pub cuda_thread : Worker
  pub last_page_reader_thread : Worker
  pub wait_thread : Worker

-- The loader with its executors and streams, and the process's cache of host buffers and list of mappings to
-- unmap at exit.
pub record Process : Type 0 where
  pub loader : Loader
  pub executors : Executors
  pub cuda_stream : Option ℕ
  pub nccl_stream : Option ℕ
  pub cached_host_buffers : List HostBufferCacheEntry
  pub mapped_memory : List (ℕ × ℕ)

-- The process when a loader's thread starts: `run_loader` makes the loader.
abbrev pub new_process : Bool → List HostBufferCacheEntry → List (ℕ × ℕ) → Process
new_process register cached mapped = record {
  loader = new_loader register;
  executors = record {
    worker_threads = absent;
    cuda_thread = absent;
    last_page_reader_thread = absent;
    wait_thread = absent;
  };
  cuda_stream = none;
  nccl_stream = none;
  cached_host_buffers = cached;
  mapped_memory = mapped;
}
