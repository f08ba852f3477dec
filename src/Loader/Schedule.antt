-- ===== src/Loader/Schedule.antt =====
-- The scheduling of chunk reads in csrc/loader_common.cpp: post_read_chunk, poll_read_chunk,
-- wait_read_chunk, step, can_step, try_step, wait_step and get_tensor_ptr. `ready` answers
-- `try_reap` of a request's handle at the time of a poll; a `reap` that waits returns.
pub mod Window
pub mod Inflight
pub mod Live
use instant_tensor.Base.{
  ℕ, zero, suc, ◌+◌, ◌-◌, ◌≤◌, Bool, true, false, not, ltb, leb, ◌==◌, if◌then◌else◌, Option, none,
  some, List, [], ◌∷◌, length, get_elem?, set, Result, ok, err, ◌>>=◌, ◌>>◌, guard, or_fail,
}
use instant_tensor.Base.Int.{ℤ, pos, negsuc, pos_part, neg_part, ◌+ℤ◌, ◌-ℤ◌, ltb_ℤ, leb_ℤ, max_ℤ}
use instant_tensor.Size.{add_size}
use instant_tensor.Types.{TensorMetadate, Chunk, ChunkRequest, ChunkExtraData}
use instant_tensor.Loader.{Loader}
use instant_tensor.Loader.Geometry.{ChunkIoParams, chunk_io_params}
use instant_tensor.Loader.Post.{
  LoaderError, chunk_id_out_of_range, chunk_reading_too_great, current_tensor_out_of_range,
  index_out_of_range, keys_out_of_order, out_of_bounds, null_executor, diverges, Posted, post_chunk,
}

abbrev pub max_prefetch_chunks : ℕ
max_prefetch_chunks = 1024

-- An element of a vector at a signed index.
unfoldable pub at_ℤ {ℓ} : {A : Type ℓ} → List A → ℤ → Option A
at_ℤ xs (pos i) = get_elem? xs i
at_ℤ xs (negsuc i) = none

-- The request of a chunk, with an executor to ask.
unfoldable pub request_of : Loader → ℤ → Result LoaderError ChunkRequest
unfolding at_ℤ
request_of l id = do
  chunk ← or_fail (at_ℤ l.chunks id) out_of_bounds
  executor ← or_fail chunk.request.executor null_executor
  ok chunk.request

-- The loop of `wait_read_chunk`, `count` chunks from `next` on: the first id that is not reaped, and
-- the requests whose executor is called to reap their handle, in order.
unfoldable pub reap_chunks : ℕ → Loader → ℤ → Result LoaderError (ℤ × List ChunkRequest)
reap_chunks zero l next = ok (next, [])
reap_chunks (suc count) l next = do
  request ← request_of l next
  (end, later) ← reap_chunks count l (next +ℤ pos 1)
  ok (end, request ∷ later)

-- The loader's state when `wait_read_chunk` returns, and the requests that it reaps.
unfoldable pub wait_and_reap : Loader → ℤ → Result LoaderError (Loader × List ChunkRequest)
wait_and_reap l chunk_id = do
  guard (not (ltb_ℤ l.chunk_reading chunk_id)) chunk_id_out_of_range
  (next, reaped) ← reap_chunks (pos_part (chunk_id -ℤ l.chunk_read)) l (l.chunk_read +ℤ pos 1)
  ok (record l { chunk_read = next -ℤ pos 1 }, reaped)

unfoldable pub wait_read_chunk : Loader → ℤ → Result LoaderError Loader
wait_read_chunk l chunk_id = do (l', reaped) ← wait_and_reap l chunk_id; ok l'

-- The loop of `poll_read_chunk`, which stops at the first request that is not ready.
unfoldable pub poll_chunks : (ℤ → Bool) → ℕ → Loader → ℤ → Result LoaderError ℤ
poll_chunks ready zero l next = ok next
poll_chunks ready (suc count) l next =
    let rest = poll_chunks ready count l (next +ℤ pos 1) in
    request_of l next >>= λ request. if ready request.wait_handle then rest else ok next

unfoldable pub poll_read_chunk : (ℤ → Bool) → Loader → Result LoaderError Loader
poll_read_chunk ready l = do
  next ← poll_chunks ready (pos_part (l.chunk_reading -ℤ l.chunk_read)) l (l.chunk_read +ℤ pos 1)
  ok (record l { chunk_read = next -ℤ pos 1 })

-- What the assignments to a chunk leave of it: its request, and the count that a backend may set.
abbrev pub with_posted : Chunk → Posted → Chunk
with_posted chunk posted = record chunk {
  request = posted.request;
  extra_data = elim posted.unfinished_cnt [
    | none ↦ chunk.extra_data
    | some n ↦ record { unfinished_cnt = n }
  ];
}

-- The host buffer's window of the chunk is free, and the executors have room, once the chunk
-- `io_depth` or `max_prefetch_chunks` before it is read.
unfoldable pub wait_for_window : Loader → ℤ → Result LoaderError Loader
wait_for_window l chunk_id =
    let wait_chunk_id = max_ℤ (chunk_id -ℤ pos max_prefetch_chunks) (chunk_id -ℤ pos l.io_depth) in
    if leb_ℤ (pos 0) wait_chunk_id then wait_read_chunk l wait_chunk_id else ok l

-- The last part: the backend's share of the work.
unfoldable pub issue_chunk : Loader → ℤ → Chunk → Result LoaderError Loader
issue_chunk l chunk_id chunk = do
  file ← or_fail (get_elem? l.file_info chunk.file_index) out_of_bounds
  posted ← post_chunk l.backend l (chunk_io_params l chunk_id chunk file)
  ok (record l {
    chunks = set l.chunks (pos_part chunk_id) (with_posted chunk posted);
    executor_request_id = posted.next_id;
  })

unfoldable pub post_read_chunk : Loader → Result LoaderError Loader
post_read_chunk l = do
  let chunk_id = l.chunk_reading +ℤ pos 1
  let l₁ = record l { chunk_reading = chunk_id }
  chunk ← or_fail (at_ℤ l₁.chunks chunk_id) out_of_bounds
  l₂ ← wait_for_window l₁ chunk_id
  issue_chunk l₂ chunk_id chunk

unfoldable pub step : (ℤ → Bool) → Loader → Result LoaderError Loader
step ready l = post_read_chunk l >>= poll_read_chunk ready

unfoldable pub can_step : Loader → Result LoaderError Bool
can_step l = if length l.tensors == 0 then ok false else (do
  tensor ← or_fail (get_elem? l.tensors l.current_tensor_index) current_tensor_out_of_range
  guard (not (ltb_ℤ tensor.prefetch_chunk_id l.chunk_reading)) chunk_reading_too_great
  ok (ltb_ℤ l.chunk_reading tensor.prefetch_chunk_id))

unfoldable pub try_step : (ℤ → Bool) → Loader → Result LoaderError Loader
try_step ready l = can_step l >>= λ can. if can then step ready l else poll_read_chunk ready l

-- The loop runs on fuel; round after round it asks for `ready` at the fuel left.
unfoldable pub wait_step : (ℕ → ℤ → Bool) → ℕ → Loader → ℤ → Result LoaderError Loader
wait_step ready zero l chunk_id = err diverges
wait_step ready (suc fuel) l chunk_id =
    let more =
      can_step l
      >>= (λ can. if can then step (ready fuel) l else wait_read_chunk l chunk_id)
      >>= λ l'. wait_step ready fuel l' chunk_id in
    if ltb_ℤ l.chunk_read chunk_id then more else ok l

-- The loader's state when it returns, and the address.
unfoldable pub get_tensor_ptr : (ℕ → ℤ → Bool) → ℕ → Loader → ℕ → Result LoaderError (Loader × ℕ)
get_tensor_ptr ready fuel l index = do
  guard (ltb index (length l.tensors)) index_out_of_range
  guard (leb l.current_tensor_index index) keys_out_of_order
  tensor ← or_fail (get_elem? l.tensors index) out_of_bounds
  l' ← wait_step ready fuel (record l { current_tensor_index = index }) tensor.last_chunk_id
  ok (l', add_size l'.device_buffer tensor.device_buffer_offset)
