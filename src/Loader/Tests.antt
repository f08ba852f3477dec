-- ===== src/Loader/Tests.antt =====
-- A loader of two ranks with two threads each, and the theorems on it.
use instant_tensor.Base.{
  ℕ, zero, suc, ◌+◌, ◌*◌, ◌≤◌, ◌<◌, ◌≡◌, refl, Bool, false, none, some, List, ◌++◌, [], ◌∷◌,
  get_elem?, lt_of_get_elem?, ◌-◌, ◌≢◌, ◌==◌, ok, max, arith, ◌%◌, length, ◌↔◌,
}
use instant_tensor.Base.Int.{ℤ, pos, negsuc}
use instant_tensor.Size.{add_size, clamp_size, round_up}
use instant_tensor.Types.{Backend, Chunk, ChunkRequest, FileInfo, TensorMetadate, wait_thread}
use instant_tensor.Layout.Valid.{IsValid}
use instant_tensor.Loader.{Loader, new_loader}
use instant_tensor.Loader.Sizes.{
  set_sizes, layout_config, set_buffer_size, set_sizes-IsValid, set_buffer_size-room,
}
use instant_tensor.Loader.Geometry.{ChunkIoParams, chunk_io_params, thread_offset, thread_size}
use instant_tensor.Loader.Geometry.Shares.{
  IsSized, shares_exact, rank_covers, rank_unique, thread_covers, thread_in_window,
}
use instant_tensor.Loader.Post.{Posted, post_read_chunk_cufile}
use instant_tensor.Loader.Post.Checked.{
  all_read, check_reads, expect_return, IsWhole, parts, check_reads_lem,
}
use instant_tensor.Loader.Device.{
  DeviceCall, memcpy_async, event_record, Stream, nccl_stream, copy_and_gather, DeviceRun, AllDone,
  copy_and_gather_lem,
}
use instant_tensor.Loader.Schedule.{post_read_chunk, wait_and_reap, poll_read_chunk, get_tensor_ptr}
use instant_tensor.Loader.Schedule.Window.{
  last, Issued, Requests, Polled, wait_and_reap_lem, poll_read_chunk_lem,
}
use instant_tensor.Loader.Schedule.Inflight.{
  IsReady, Sched, IsPostable, after_post, post_read_chunk_lem,
}
use instant_tensor.Loader.Schedule.Live.{Serving, get_tensor_ptr_lem}

abbrev chunk_of : ℕ → ℕ → Chunk
chunk_of size offset = record {
  size = size;
  file_index = 0;
  file_offset = offset;
  device_buffer_offset = offset;
  request = record { executor = none; wait_handle = negsuc 0 };
  extra_data = record { unfinished_cnt = 0 };
}

abbrev weights : FileInfo
weights = record { filename = "w"; fd = 3; in_memory = false; size = 100; mapped_memory = 0 }

abbrev tensor : TensorMetadate
tensor = record {
  size = 20;
  file_index = 0;
  file_offset = 2;
  device_buffer_offset = 2;
  last_chunk_id = pos 1;
  prefetch_chunk_id = pos 1;
}

abbrev two_ranks : Loader
two_ranks = record (new_loader false) {
  file_info = weights ∷ [];
  chunks = chunk_of 16 0 ∷ chunk_of 7 16 ∷ [];
  tensors = tensor ∷ [];
  thread_alignment = 4;
  rank_alignment = 8;
  world_chunk_alignment = 16;
  thread_chunk_size = 4;
  rank_chunk_size = 8;
  world_chunk_size = 16;
  rank = 1;
  world_size = 2;
  num_threads = 2;
  io_depth = 1;
  buffer_size = 100;
  backend = Backend.aio;
}

two_ranks-IsSized : IsSized 4 two_ranks
two_ranks-IsSized = record {
  page_pos = omega arith;
  threads_pos = omega arith;
  ranks_pos = omega arith;
  alignment = refl;
  alignment_pos = omega arith;
  whole = refl;
  multiple = refl;
  small = omega arith;
}

two_ranks-IsPostable :
    (k : ℕ)
    → k < 2
    → (ch : Chunk) × (get_elem? two_ranks.chunks k ≡ some ch) × (IsPostable two_ranks ch)
two_ranks-IsPostable zero h = (chunk_of 16 0, refl, ((weights, refl), omega arith))
two_ranks-IsPostable (suc zero) h = (chunk_of 7 16, refl, ((weights, refl), omega arith))
two_ranks-IsPostable (suc (suc k)) h = absurd (omega arith)

two_ranks-IsReady : IsReady 4 two_ranks
two_ranks-IsReady = record {
  sized = two_ranks-IsSized;
  threads = refl;
  depth_pos = omega arith;
  postable = two_ranks-IsPostable;
}

-- Nothing is posted yet.
two_ranks-Sched : Sched two_ranks 0 0
two_ranks-Sched = record {
  reading = refl;
  done = refl;
  ordered = omega arith;
  issued = λ k h. absurd (omega arith);
}

two_ranks-Serving : Serving 4 tensor 2 (record two_ranks { current_tensor_index = 0 }) 0 0
two_ranks-Serving = record {
  ready = two_ranks-IsReady;
  sched = two_ranks-Sched;
  current = refl;
  prefetch = refl;
  within = omega arith;
  upto = omega arith;
}

abbrev never : ℕ → ℤ → Bool
never fuel id = false

abbrev params : ℕ → ChunkIoParams
params k = chunk_io_params (record two_ranks { rank = k }) (pos 0) (chunk_of 13 0) weights

get_tensor_ptr_example :
    (l' : Loader) × (n' : ℕ) × (read' : ℕ) × (get_tensor_ptr never 4 two_ranks 0
      ≡ ok (l', add_size 0 2))
    × (Serving 4 tensor 2 l' n' read')
    × (2 ≤ read')
get_tensor_ptr_example =
    get_tensor_ptr_lem 4 tensor 2 2 (omega arith) refl never 4 two_ranks 0 0 0 refl (omega arith)
      two_ranks-Serving (omega arith)

post_read_chunk_example :
    (ch : Chunk) × (r : Posted) × (read' : ℕ) × (post_read_chunk two_ranks
      ≡ ok (after_post two_ranks 0 read' ch r))
    × (Sched (after_post two_ranks 0 read' ch r) 1 read')
    × (IsReady 4 (after_post two_ranks 0 read' ch r))
    × (0 ≤ read')
    × (1 ≤ read' + 1)
    × (1 ≤ read' + 1024)
post_read_chunk_example =
    post_read_chunk_lem 4 two_ranks two_ranks-IsReady 0 0 two_ranks-Sched (omega arith)

-- Both chunks are posted.
abbrev handed : ℕ → Chunk
handed id = record (chunk_of 16 0) {
  request = record { executor = some wait_thread; wait_handle = pos id };
}

abbrev posted : Loader
posted = record two_ranks { chunks = handed 1 ∷ handed 3 ∷ []; chunk_reading = pos 1 }

posted-Issued : Issued posted.chunks 2
posted-Issued zero h = (handed 1, refl, refl)
posted-Issued (suc zero) h = (handed 3, refl, refl)
posted-Issued (suc (suc k)) h = absurd (omega arith)

wait_and_reap_example :
    (reaped : List ChunkRequest) × (wait_and_reap posted (pos 1)
      ≡ ok (record posted { chunk_read = last (max 0 (1 + 1)) }, reaped))
    × (length reaped ≡ 1 + 1 - 0)
    × Requests posted.chunks 0 reaped
wait_and_reap_example =
    wait_and_reap_lem posted 2 0 1 posted-Issued refl (omega arith) (omega arith) refl

-- The handle of the first of them answers.
abbrev first_answers : ℤ → Bool
first_answers (pos handle) = handle == 1
first_answers (negsuc handle) = false

poll_read_chunk_example :
    (m : ℕ) × (poll_read_chunk first_answers posted ≡ ok (record posted { chunk_read = last m }))
    × (0 ≤ m)
    × (m ≤ 2)
    × Polled first_answers posted.chunks 0 m 2
poll_read_chunk_example =
    poll_read_chunk_lem first_answers posted 2 0 posted-Issued refl refl (omega arith)

shares_exact_example :
    let p = params 1 in
    (p.padded_rank_size * 2 ≡ p.padded_world_chunk_size)
    × (p.padded_thread_size * 2 ≡ p.padded_rank_size)
    × (p.padded_thread_size % 4 ≡ 0)
    × (p.padded_rank_size ≤ 8)
shares_exact_example =
    shares_exact 4 two_ranks two_ranks-IsSized (pos 0) (chunk_of 13 0) weights (omega arith)

rank_covers_example :
    (k : ℕ) × (k < 2)
    × ((params k).rank_offset ≤ 11)
    × (11 < (params k).rank_offset + (params k).rank_size)
rank_covers_example =
    rank_covers 4 two_ranks two_ranks-IsSized (pos 0) (chunk_of 13 0) weights (omega arith) 11
      (omega arith)

rank_unique_example : ◌≡◌ {A = ℕ} 1 1
unfolding chunk_io_params clamp_size round_up
rank_unique_example =
    rank_unique 4 two_ranks two_ranks-IsSized (pos 0) (chunk_of 13 0) weights (omega arith) 1 1 11
      (omega arith) (omega arith) (omega arith) (omega arith) (omega arith) (omega arith)

thread_covers_example :
    (i : ℕ) × (i < 2)
    × (thread_offset (params 0) i ≤ 5)
    × (5 < thread_offset (params 0) i + thread_size (params 0) i)
unfolding chunk_io_params clamp_size round_up
thread_covers_example =
    thread_covers 4 two_ranks two_ranks-IsSized (pos 0) (chunk_of 13 0) weights (omega arith) 0
      (omega arith) 5 (omega arith)

thread_in_window_example : thread_offset (params 0) 1 + (params 0).padded_thread_size ≤ 8
thread_in_window_example =
    thread_in_window 4 two_ranks two_ranks-IsSized (pos 0) (chunk_of 13 0) weights (omega arith) 0
      (omega arith) 1 (omega arith)

abbrev returned : ℕ → ℤ
returned id = pos 4

check_reads_example :
    ((r : Posted) × (post_read_chunk_cufile two_ranks (params 1) ≡ ok r) × (r.reaped ≡ r.submitted))
    × ((check_reads returned
            (parts 4 two_ranks two_ranks-IsSized
              (pos 0)
              (chunk_of 13 0)
              weights
              (omega arith)
              (omega arith)).0
            (expect_return (params 1) 2 0)
            (length
              (parts 4 two_ranks two_ranks-IsSized
                (pos 0)
                (chunk_of 13 0)
                weights
                (omega arith)
                (omega arith)).2)
          ≡ all_read)
        ↔ IsWhole returned (params 1) 2 0 two_ranks.executor_request_id)
check_reads_example =
    check_reads_lem 4 two_ranks two_ranks-IsSized (pos 0) (chunk_of 13 0) weights (omega arith)
      (omega arith) returned

set_sizes-IsValid_example : IsValid (layout_config (set_sizes 4 two_ranks))
set_sizes-IsValid_example =
    set_sizes-IsValid 4 two_ranks (omega arith) (omega arith) (omega arith) (omega arith)
      (omega arith)

set_buffer_size-room_example :
    let size = (set_buffer_size two_ranks).buffer_size in
    (100 + 16 + 4 + 16 ≤ size) × (1 * 16 ≤ size)
set_buffer_size-room_example =
    set_buffer_size-room two_ranks (omega arith) (omega arith) (omega arith)

-- A device that is done with the first six calls.
abbrev device : (log : List DeviceCall) → DeviceRun log
device log = record {
  Done = λ i. i < 6;
  in_order = λ i j c d e f same before done. omega arith;
  waited = λ i j event s t e f before none_between done. omega arith;
}

abbrev copied : List DeviceCall
copied = memcpy_async 1 2 3 ∷ []

abbrev log : List DeviceCall
log = copied ++ copy_and_gather two_ranks (params 1) 64 0

recorded_last : (k : ℕ) (t : Stream) → 5 < k → get_elem? log k ≢ some (event_record t 0)
unfolding copy_and_gather
recorded_last k t later at = absurd (omega (arith, lt_of_get_elem? log k (event_record t 0) at))

copy_and_gather_example :
    AllDone log (device log) 1 (length (copy_and_gather two_ranks (params 1) 64 0))
unfolding copy_and_gather
copy_and_gather_example =
    copy_and_gather_lem two_ranks (params 1) 64 0 copied (device log) 5 nccl_stream refl
      recorded_last (omega arith)
