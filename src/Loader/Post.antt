-- ===== src/Loader/Post.antt =====
-- What a chunk read submits: Loader::next_executor_request_id, and post_read_chunk_inmem, _aio,
-- _uring and _cufile of csrc/loader_io_*.cpp. The lambdas that run on other threads are recorded as
-- the work that they do; the calls of CUDA, NCCL, libaio and liburing are not modelled.
pub mod Prefix
pub mod Ids
pub mod Checked
use instant_tensor.Base.{
  ℕ, zero, suc, ◌+◌, ◌-◌, ◌*◌, ◌/◌, ◌%◌, ◌^◌, Bool, true, false, not, ◌||◌, ◌&&◌, ltb, ◌==◌,
  if◌then◌else◌, Option, none, some, List, [], ◌∷◌, length, take, Result, ok, err, ◌>>=◌, ◌>>◌,
  guard,
}
use instant_tensor.Base.Int.{ℤ, pos}
use instant_tensor.Size.{add_size, sub_size, mul_size, round_up}
use instant_tensor.Types.{
  Backend, aio, aio_buffered, uring, uring_buffered, cufile, mmap, ChunkRequest, wait_thread,
}
use instant_tensor.Loader.{Loader}
use instant_tensor.Loader.Geometry.{ChunkIoParams, thread_offset, thread_size}

-- What the methods of Loader throw. `out_of_bounds` is an access outside a vector and
-- `null_executor` a call through a null pointer, undefined in C++; `diverges` is a loop that ran out
-- of fuel.
pub data LoaderError : Type 0 where
  thread_part_too_large chunk_id_out_of_range chunk_reading_too_great : LoaderError
  current_tensor_out_of_range index_out_of_range keys_out_of_order : LoaderError
  out_of_bounds null_executor diverges : LoaderError

-- An unsigned sum, of which the mask 0x7fffffff keeps the low 31 bits.
unfoldable pub next_request_id : ℕ → ℕ
next_request_id id = (id + 1) % 2 ^ 32 % 2 ^ 31

-- The work of a thread: a copy of `size` bytes, to the first address from the second, a read of a file into host memory, and a read of a
-- file into the device buffer.
pub data Work : Type 0 where
  copy : ℕ → ℕ → ℕ → Work
  read_host : ℕ → ℕ → ℕ → Work
  read_device : ℕ → ℕ → ℕ → Work

-- What a backend leaves behind: the request, the next request id, the ids that its threads were
-- given, those that the CUDA thread will reap, the work, and what it stores in `unfinished_cnt`.
pub record Posted : Type 0 where
  pub request : ChunkRequest
  pub next_id : ℕ
  pub submitted : List ℕ
  pub reaped : List ℕ
  pub work : List Work
  pub unfinished_cnt : Option ℕ

-- One task on the CUDA thread, and one on the wait thread that completes the chunk.
abbrev pub complete : ℕ → List ℕ → List ℕ → List Work → Option ℕ → Posted
complete id submitted reaped work unfinished_cnt =
    let completion = next_request_id id in
    record {
      request = record { executor = some wait_thread; wait_handle = pos completion };
      next_id = next_request_id completion;
      submitted = submitted;
      reaped = reaped;
      work = work;
      unfinished_cnt = unfinished_cnt;
    }

-- The loop over the worker threads of the in-memory and cuFile backends, from thread `i` on: the
-- vector `req_ids`, zero where a thread has nothing to do, the ids submitted, the work, and the next
-- id.
unfoldable pub submit_parts :
    (ℕ → Work) → ChunkIoParams → ℕ → ℕ → ℕ → List ℕ × List ℕ × List Work × ℕ
submit_parts work p zero i id = ([], [], [], id)
submit_parts work p (suc count) i id =
    let skip = submit_parts work p count (i + 1) id in
    let rest = submit_parts work p count (i + 1) (next_request_id id) in
    if thread_size p i == 0
    then (0 ∷ skip.0, skip.1, skip.2, skip.3)
    else (id ∷ rest.0, id ∷ rest.1, work i ∷ rest.2, rest.3)

inmem_work : Loader → ChunkIoParams → ℕ → Work
inmem_work l p i =
    copy (add_size (add_size l.host_buffer p.window_offset) (thread_offset p i))
      (add_size (add_size (add_size p.file.mapped_memory p.chunk.file_offset) p.rank_offset)
        (thread_offset p i))
      (thread_size p i)

-- With the file registered the copy is one for the rank, on the CUDA stream, and only the wait thread has a task. The
-- size check stands in the loop of the other branch, before the test for an empty part.
unfoldable pub post_read_chunk_inmem : Loader → ChunkIoParams → Result LoaderError Posted
unfolding inmem_work
post_read_chunk_inmem l p =
    if not l.use_internal_memory_register
    then (do
      guard (not (ltb l.thread_chunk_size p.padded_thread_size) || (l.num_threads == 0))
          thread_part_too_large
      let parts = submit_parts (inmem_work l p) p l.num_threads 0 l.executor_request_id
      ok (complete parts.3 parts.1 (take (length parts.2) parts.0) parts.2 none))
    else ok (record {
      request = record { executor = some wait_thread; wait_handle = pos l.executor_request_id };
      next_id = next_request_id l.executor_request_id;
      submitted = [];
      reaped = [];
      work = [];
      unfinished_cnt = none;
    })

unfoldable pub cufile_work : ChunkIoParams → ℕ → Work
cufile_work p i =
    read_device (add_size (add_size p.chunk.device_buffer_offset p.rank_offset) (thread_offset p i))
      (thread_size p i) (add_size (add_size p.chunk.file_offset p.rank_offset) (thread_offset p i))

unfoldable pub post_read_chunk_cufile : Loader → ChunkIoParams → Result LoaderError Posted
unfolding cufile_work
post_read_chunk_cufile l p =
    let parts = submit_parts (cufile_work p) p l.num_threads 0 l.executor_request_id in
    ok (complete parts.3 parts.1 (take (length parts.2) parts.0) parts.2 none)

file_work : Loader → ChunkIoParams → ℕ → Work
file_work l p i =
    read_host (add_size (add_size l.host_buffer p.window_offset) (thread_offset p i))
      (round_up (thread_size p i) l.thread_alignment)
      (add_size (add_size p.chunk.file_offset p.rank_offset) (thread_offset p i))

-- The loop of the AIO and io_uring backends: the reads prepared, and whether one ends inside a page.
unfoldable pub prepare_reads : Loader → ChunkIoParams → ℕ → ℕ → List Work × Bool
unfolding file_work
prepare_reads l p zero i = ([], false)
prepare_reads l p (suc count) i =
    let rest = prepare_reads l p count (i + 1) in
    let cut = not (thread_size p i == round_up (thread_size p i) l.thread_alignment) || rest.1 in
    if thread_size p i == 0 then (rest.0, cut) else (file_work l p i ∷ rest.0, cut)

-- The submission that may block goes to the thread for last pages, whose id the CUDA thread reaps.
unfoldable pub post_read_chunk_aio : Loader → ChunkIoParams → Result LoaderError Posted
post_read_chunk_aio l p =
    let (reads, cut) = prepare_reads l p l.num_threads 0 in
    let id = l.executor_request_id in
    if ltb 0 (length reads) && cut
    then ok (complete (next_request_id id) (id ∷ []) (id ∷ []) reads (some (length reads)))
    else ok (complete id [] [] reads (some (length reads)))

unfoldable pub post_read_chunk_uring : Loader → ChunkIoParams → Result LoaderError Posted
post_read_chunk_uring l p =
    let (reads, cut) = prepare_reads l p l.num_threads 0 in
    ok (complete l.executor_request_id [] [] reads (some (length reads)))

-- The choice of `post_read_chunk`.
unfoldable pub post_chunk : Backend → Loader → ChunkIoParams → Result LoaderError Posted
post_chunk mmap l p = post_read_chunk_inmem l p
post_chunk cufile l p = post_read_chunk_cufile l p
post_chunk uring l p = post_read_chunk_uring l p
post_chunk uring_buffered l p = post_read_chunk_uring l p
post_chunk aio l p = post_read_chunk_aio l p
post_chunk aio_buffered l p = post_read_chunk_aio l p
