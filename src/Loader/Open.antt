-- ===== src/Loader/Open.antt =====
-- Opening and closing a loader: open_file and close_file with the functions of each back end, the
-- buffers of init_buffer and destroy_buffer, init_threads, destroy_threads, Loader::open and
-- Loader::close (csrc/loader_common.cpp, csrc/loader_io_*.cpp).
pub mod Files
pub mod Buffers
pub mod Needs
pub mod Provided
pub mod Staff
pub mod Opened
pub mod Yields
pub mod Closing
pub mod Closed
pub mod Reuse
use Prim.Native.String.{String}
use instant_tensor.Base.{
  ℕ, zero, suc, ◌+◌, ◌*◌, Bool, true, false, not, ltb, ◌==◌, ◌&&◌, if◌then◌else◌, Option, none,
  some, List, [], ◌∷◌, ◌++◌, map, length, min, Result, ok, err, ◌>>=◌, ◌>>◌, guard, or_fail,
}
use instant_tensor.Base.Int.{ℤ}
use instant_tensor.Size.{add_size, sub_size, mul_size}
use instant_tensor.Types.{
  Backend, aio, aio_buffered, uring, uring_buffered, cufile, mmap, FileInfo, HostBufferCacheEntry,
  OpenArgs,
}
use instant_tensor.Cache.{get, put}
use instant_tensor.Layout.{Config, Layout, LayoutError, compute_layout}
use instant_tensor.Loader.{Loader}
use instant_tensor.Loader.Sizes.{set_sizes, layout_config}
use instant_tensor.Loader.Uring.{host_buffer_pieces}
use instant_tensor.Loader.System.{
  System, RunError, open_failed, fstat_failed, mmap_failed, cuda_failed, cufile_failed,
  setup_failed, destroy_failed, host_allocation_failed, communicator_missing,
  communicator_unexpected, layout_failed, Worker, absent, running, joined, Executors, Process,
}

abbrev pub is_direct : Backend → Bool
is_direct aio = true
is_direct uring = true
is_direct cufile = true
is_direct aio_buffered = false
is_direct uring_buffered = false
is_direct mmap = false

abbrev pub is_aio : Backend → Bool
is_aio aio = true
is_aio aio_buffered = true
is_aio uring = false
is_aio uring_buffered = false
is_aio cufile = false
is_aio mmap = false

abbrev pub is_uring : Backend → Bool
is_uring uring = true
is_uring uring_buffered = true
is_uring aio = false
is_uring aio_buffered = false
is_uring cufile = false
is_uring mmap = false

abbrev pub is_cufile : Backend → Bool
is_cufile cufile = true
is_cufile aio = false
is_cufile aio_buffered = false
is_cufile uring = false
is_cufile uring_buffered = false
is_cufile mmap = false

-- The first lines of the open functions: the descriptor and the size.
unfoldable pub open_sized : System → Bool → FileInfo → Result RunError FileInfo
open_sized sys direct f = do
  fd ← or_fail (sys.open_path f.filename direct) open_failed
  size ← or_fail (sys.fstat fd) fstat_failed
  ok (record f { fd = fd; size = size })

unfoldable pub open_file_inmem : System → Loader → FileInfo → Result RunError (Loader × FileInfo)
open_file_inmem sys l f = do
  g ← open_sized sys false f
  mapped_memory ← or_fail (sys.mmap g.size g.fd) mmap_failed
  let opened = record g { mapped_memory = mapped_memory }
  if l.use_internal_memory_register
      then (do guard (sys.host_register mapped_memory g.size) cuda_failed; ok (l, opened))
      else ok (
        record l { need_host_buffer = true; need_worker_threads = true; need_cuda_thread = true },
        opened,
      )

unfoldable pub open_file_cufile : System → Loader → FileInfo → Result RunError (Loader × FileInfo)
open_file_cufile sys l f = do
  g ← open_sized sys true f
  guard (sys.handle_register g.fd) cufile_failed
  ok (record l { need_worker_threads = true; need_cuda_thread = true }, g)

-- The same for AIO and io_uring.
unfoldable pub open_file_async : System → Loader → FileInfo → Result RunError (Loader × FileInfo)
open_file_async sys l f = do
  g ← open_sized sys (is_direct l.backend) f
  ok (record l { need_host_buffer = true; need_cuda_thread = true }, g)

-- The choice of the back end in `open_file`, and the body of its loop.
unfoldable pub open_kind :
    Backend → System → Loader → FileInfo → Result RunError (Loader × FileInfo)
open_kind mmap sys l f = open_file_inmem sys l f
open_kind cufile sys l f = open_file_cufile sys l f
open_kind uring sys l f = open_file_async sys l f
open_kind uring_buffered sys l f = open_file_async sys l f
open_kind aio sys l f = open_file_async sys l f
open_kind aio_buffered sys l f = open_file_async sys l f

unfoldable pub open_one : System → Loader → FileInfo → Result RunError (Loader × FileInfo)
open_one sys l f =
    open_kind l.backend sys l (record f { in_memory = sys.file_in_memory f.filename })

-- The loop: the files opened so far, and those to open.
unfoldable pub open_files : System → Loader → List FileInfo → List FileInfo → Result RunError Loader
open_files sys l done [] = ok (record l { file_info = done })
open_files sys l done (f ∷ rest) =
    open_one sys l f >>= λ opened. open_files sys opened.0 (done ++ opened.1 ∷ []) rest

unfoldable pub initialize_aio_context : System → Loader → Result RunError (Unit {0})
initialize_aio_context sys l = guard (sys.io_setup (mul_size l.io_depth l.num_threads)) setup_failed

-- `uring_register_file` is always set.
unfoldable pub initialize_uring_context : System → Loader → Result RunError (Unit {0})
initialize_uring_context sys l = do
  guard (sys.queue_init (mul_size l.io_depth l.num_threads)) setup_failed
  guard (sys.register_files (map (λ f. FileInfo.fd f) l.file_info)) setup_failed
  ok tt

-- A Backend is one of the enumeration, so that the test is_valid_backend holds.
unfoldable pub open_file : System → Loader → Result RunError Loader
open_file sys l = do
  opened ← open_files sys l [] l.file_info
  (if is_aio opened.backend then initialize_aio_context sys opened else ok tt)
  (if is_uring opened.backend then initialize_uring_context sys opened else ok tt)
  ok opened

-- `uring_register_buffer` is always set.
unfoldable pub register_host_buffer_uring : System → Loader → Result RunError (Unit {0})
register_host_buffer_uring sys l =
    let entry = l.host_buffer_entry in
    guard (sys.register_buffers (host_buffer_pieces entry.size entry.ptr entry.size)) setup_failed

-- The host buffer: the one that was found in the cache, or a new one.
unfoldable pub host_buffer_entry_of :
    System → Loader → ℕ → HostBufferCacheEntry → Result RunError HostBufferCacheEntry
host_buffer_entry_of sys l size found =
    if found.ptr == 0
    then (do
      ptr ← or_fail (sys.aligned_alloc l.thread_alignment size) host_allocation_failed
      guard (sys.host_register ptr size) cuda_failed
      ok (record { ptr = ptr; size = size }))
    else ok found

unfoldable pub take_host_buffer : System → Process → Result RunError Process
take_host_buffer sys p = do
  let l = p.loader
  let size = mul_size l.io_depth l.rank_chunk_size
  let found = get p.cached_host_buffers size
  entry ← host_buffer_entry_of sys l size found.0
  ok (record p {
    loader = record l { host_buffer_entry = entry; host_buffer = HostBufferCacheEntry.ptr entry };
    cached_host_buffers = found.1;
  })

unfoldable pub init_buffer : System → Process → Result RunError Process
init_buffer sys p = do
  let l = set_sizes sys.page_size p.loader
  device_buffer ← or_fail (sys.cuda_malloc l.buffer_size) cuda_failed
  let l₁ = record l { device_buffer = device_buffer }
  (if is_cufile l₁.backend
      then guard (sys.device_register device_buffer l₁.buffer_size) cufile_failed
      else ok tt)
  let p₁ = record p { loader = l₁ }
  p₂ ← (if l₁.need_host_buffer then take_host_buffer sys p₁ else ok p₁)
  let l₂ = Process.loader p₂
  (if is_uring l₂.backend then register_host_buffer_uring sys l₂ else ok tt)
  ok p₂

-- An executor is made where there is none.
abbrev pub made : Worker → Worker
made absent = running
made running = running
made joined = joined

abbrev pub made_if : Bool → Worker → Worker
made_if needed w = if needed then made w else w

-- A stream is made where there is none.
abbrev pub make_stream : Option ℕ → Option ℕ → Result RunError ℕ
make_stream none created = or_fail created cuda_failed
make_stream (some stream) created = ok stream

abbrev pub threaded : Process → ℕ → ℕ → Process
threaded p cuda_stream nccl_stream =
    let l = p.loader in
    let e = p.executors in
    record p {
      executors = record {
        worker_threads = made_if l.need_worker_threads e.worker_threads;
        cuda_thread = made_if l.need_cuda_thread e.cuda_thread;
        last_page_reader_thread = made_if (is_aio l.backend) e.last_page_reader_thread;
        wait_thread = made e.wait_thread;
      };
      cuda_stream = some cuda_stream;
      nccl_stream = some nccl_stream;
    }

-- The thread that samples the depth of the reads when debugging is left out.
unfoldable pub init_threads : System → Process → Result RunError Process
init_threads sys p = do
  cuda_stream ← make_stream p.cuda_stream (sys.stream_create 0)
  nccl_stream ← make_stream p.nccl_stream (sys.stream_create 1)
  guard (sys.events_create p.loader.io_depth) cuda_failed
  ok (threaded p cuda_stream nccl_stream)

abbrev pub new_file : String → FileInfo
new_file filename = record {
  filename = filename;
  fd = 0;
  in_memory = false;
  size = 0;
  mapped_memory = 0;
}

-- The assignments at the beginning of `Loader::open`.
unfoldable pub with_args : Loader → OpenArgs → Loader
with_args l args = record l {
  file_info = map new_file args.filenames;
  group_communicator = args.group_communicator;
  rank = args.rank;
  world_size = args.world_size;
  buffer_size = args.buffer_size;
  thread_chunk_size = args.chunk_size;
  num_threads = args.num_threads;
  io_depth = args.io_depth;
  backend = args.backend;
}

abbrev pub lift {ℓ} : {A : Type ℓ} → Result LayoutError A → Result RunError A
lift (ok a) = ok a
lift (err e) = err (layout_failed e)

abbrev pub with_layout : Loader → Layout → Loader
with_layout l s = record l { tensors = s.tensors; chunks = s.chunks }

unfoldable pub open_loader : System → Process → OpenArgs → Result RunError Process
open_loader sys p args = do
  let l = with_args p.loader args
  guard (not (ltb 1 l.world_size && (l.group_communicator == 0))) communicator_missing
  guard (not ((l.world_size == 1) && not (l.group_communicator == 0))) communicator_unexpected
  l₁ ← open_file sys l
  p₁ ← init_buffer sys (record p { loader = l₁ })
  p₂ ← init_threads sys p₁
  s ← lift (compute_layout (layout_config (Process.loader p₂)) args.tensor_offsets)
  ok (record p₂ { loader = with_layout (Process.loader p₂) s })

abbrev pub join : Worker → Worker
join absent = absent
join running = joined
join joined = joined

abbrev pub joined_all : Process → Process
joined_all p =
    let e = p.executors in
    record p {
      executors = record {
        worker_threads = join e.worker_threads;
        cuda_thread = join e.cuda_thread;
        last_page_reader_thread = join e.last_page_reader_thread;
        wait_thread = join e.wait_thread;
      };
    }

abbrev pub destroyed : System → Option ℕ → Bool
destroyed sys none = true
destroyed sys (some stream) = sys.stream_destroy stream

unfoldable pub destroy_threads : System → Process → Result RunError Process
destroy_threads sys p = do
  guard (destroyed sys p.cuda_stream) cuda_failed
  guard (destroyed sys p.nccl_stream) cuda_failed
  ok (joined_all p)

-- The host buffer is kept, or its deleter is called.
unfoldable pub release_host_buffer : System → Process → Result RunError Process
release_host_buffer sys p =
    if sys.cache_buffer
    then ok
        (record p { cached_host_buffers = put p.cached_host_buffers p.loader.host_buffer_entry })
    else (do
      guard (sys.host_unregister p.loader.host_buffer_entry.ptr) cuda_failed
      ok (record p {
        loader = record p.loader {
          host_buffer_entry = record p.loader.host_buffer_entry { ptr = 0 };
        };
      }))

unfoldable pub destroy_buffer : System → Process → Result RunError Process
destroy_buffer sys p = do
  (if is_cufile p.loader.backend
      then guard (sys.device_deregister p.loader.device_buffer) cufile_failed
      else ok tt)
  guard (sys.cuda_free p.loader.device_buffer) cuda_failed
  (if p.loader.need_host_buffer then release_host_buffer sys p else ok p)

abbrev pub is_mmap : Backend → Bool
is_mmap mmap = true
is_mmap aio = false
is_mmap aio_buffered = false
is_mmap uring = false
is_mmap uring_buffered = false
is_mmap cufile = false

-- The mapping goes to the list of those to unmap.
unfoldable pub close_file_inmem : System → Process → FileInfo → Result RunError Process
close_file_inmem sys p f = do
  (if p.loader.use_internal_memory_register
      then guard (sys.host_unregister f.mapped_memory) cuda_failed
      else ok tt)
  ok (record p { mapped_memory = p.mapped_memory ++ (f.mapped_memory, f.size) ∷ [] })

-- The other back ends only make calls whose result is not looked at.
unfoldable pub close_each : System → Process → List FileInfo → Result RunError Process
close_each sys p [] = ok p
close_each sys p (f ∷ rest) =
    (if is_mmap p.loader.backend then close_file_inmem sys p f else ok p) >>= λ q.
    close_each sys q rest

unfoldable pub close_file : System → Process → Result RunError Process
close_file sys p = do
  q ← close_each sys p p.loader.file_info
  (if is_aio q.loader.backend then guard sys.io_destroy destroy_failed else ok tt)
  ok q

unfoldable pub close_loader : System → Process → Result RunError Process
close_loader sys p = do
  joined_process ← destroy_threads sys (record p { loader = record p.loader { stop = true } })
  freed ← destroy_buffer sys joined_process
  close_file sys freed
