-- ===== src/Loader/Schedule/Inflight.antt =====
-- Posting: how many chunks are in flight, and that a post succeeds.
use instant_tensor.Base.{
  ℕ, ◌+◌, ◌-◌, ◌*◌, ◌≤◌, ◌<◌, ◌≡◌, refl, sym, ap, ◌∙◌, inl, inr, Bool, true, false, leb, le→ltb,
  le→leb, leb→le, if◌then◌else◌, some, List, length, set, get_elem?, get_elem?-set_self,
  get_elem?-set_ne, length-set, ℕ_discrete, max, min, Bool-cases, Result, ok, arith,
}
use instant_tensor.Base.Int.{pos, sub_ℕ, ◌-ℤ◌, leb_ℤ, max_ℤ}
use instant_tensor.Types.{
  Backend, aio, aio_buffered, uring, uring_buffered, cufile, mmap, Chunk, FileInfo, wait_thread,
}
use instant_tensor.Loader.{Loader}
use instant_tensor.Loader.Geometry.{ChunkIoParams, chunk_io_params}
use instant_tensor.Loader.Geometry.Shares.{IsSized, thread_part_le}
use instant_tensor.Loader.Post.{
  LoaderError, Posted, post_chunk, post_read_chunk_inmem, post_read_chunk_cufile,
  post_read_chunk_aio, post_read_chunk_uring,
}
use instant_tensor.Loader.Schedule.{
  at_ℤ, post_read_chunk, wait_for_window, issue_chunk, with_posted, max_prefetch_chunks,
}
use instant_tensor.Loader.Schedule.Window.{last, last_next, Issued, wait_read_chunk_lem}

-- `n` chunks are posted, of which the first `read` are read.
abbrev pub Sched : Loader → ℕ → ℕ → Type 0
Sched l n read = record {
  reading : l.chunk_reading ≡ last n;
  done : l.chunk_read ≡ last read;
  ordered : read ≤ n;
  issued : Issued l.chunks n;
}

-- A chunk that can be posted: its file is open and it is not longer than a chunk of all ranks.
abbrev pub IsPostable : Loader → Chunk → Type 0
IsPostable l ch =
    ((f : FileInfo) × (get_elem? l.file_info ch.file_index ≡ some f))
    × (ch.size ≤ l.world_chunk_size)

-- The chunks that the layout made can be posted, with the sizes that `init_buffer` set.
abbrev pub IsReady : ℕ → Loader → Type 0
IsReady page l = record {
  sized : IsSized page l;
  threads : l.rank_chunk_size ≡ l.thread_chunk_size * l.num_threads;
  depth_pos : 0 < l.io_depth;
  postable :
      (k : ℕ)
      → k < length l.chunks
      → (ch : Chunk) × (get_elem? l.chunks k ≡ some ch) × (IsPostable l ch);
}

-- The outcome is a request that goes to the thread that completes chunks.
abbrev pub IsHanded : Result LoaderError Posted → Type 0
IsHanded m = (r : Posted) × (m ≡ ok r) × (r.request.executor ≡ some wait_thread)

if-IsHanded :
    (b : Bool) (m m' : Result LoaderError Posted)
    → IsHanded m
    → IsHanded m'
    → IsHanded (if b then m else m')
if-IsHanded true m m' h k = h
if-IsHanded false m m' h k = k

aio_lem : (l : Loader) (p : ChunkIoParams) → IsHanded (post_read_chunk_aio l p)
unfolding post_read_chunk_aio
aio_lem l p = if-IsHanded _ _ _ (_, refl, refl) (_, refl, refl)

inmem_lem :
    (l : Loader) (p : ChunkIoParams)
    → p.padded_thread_size ≤ l.thread_chunk_size
    → IsHanded (post_read_chunk_inmem l p)
unfolding post_read_chunk_inmem
inmem_lem l p h = rw (le→ltb _ _ h) (if-IsHanded _ _ _ (_, refl, refl) (_, refl, refl))

-- Every backend hands the chunk to the thread that completes it.
post_chunk_lem :
    (b : Backend) (l : Loader) (p : ChunkIoParams)
    → p.padded_thread_size ≤ l.thread_chunk_size
    → IsHanded (post_chunk b l p)
unfolding post_chunk post_read_chunk_cufile post_read_chunk_uring
post_chunk_lem mmap l p h = inmem_lem l p h
post_chunk_lem cufile l p h = (_, refl, refl)
post_chunk_lem uring l p h = (_, refl, refl)
post_chunk_lem uring_buffered l p h = (_, refl, refl)
post_chunk_lem aio l p h = aio_lem l p
post_chunk_lem aio_buffered l p h = aio_lem l p

-- The chunks that are read when the window of chunk `n` is free.
abbrev read_after : ℕ → ℕ → ℕ → ℕ
read_after io_depth read n =
    if leb (min max_prefetch_chunks io_depth) n
    then max read (n - min max_prefetch_chunks io_depth + 1)
    else read

-- It waits for the chunk that many before `n`.
abbrev distance : Loader → ℕ
distance l = min max_prefetch_chunks l.io_depth

wait_id :
    (io_depth n : ℕ)
    → max_ℤ (pos n -ℤ pos max_prefetch_chunks) (pos n -ℤ pos io_depth)
      ≡ sub_ℕ n (min max_prefetch_chunks io_depth)
wait_id io_depth n = ground arith

sub_ℕ_of_le : (n m : ℕ) → m ≤ n → sub_ℕ n m ≡ pos (n - m)
sub_ℕ_of_le n m h = rw (le→leb _ _ h) refl

leb_ℤ-sub_ℕ : (n m : ℕ) → leb_ℤ (pos 0) (sub_ℕ n m) ≡ leb m n
leb_ℤ-sub_ℕ n m = ground arith

wait_for_window_lem :
    (l : Loader) (n read : ℕ)
    → Issued l.chunks n
    → l.chunk_reading ≡ pos n
    → l.chunk_read ≡ last read
    → read ≤ n
    → 0 < l.io_depth
    → wait_for_window l (pos n) ≡ ok (record l { chunk_read = last (read_after l.io_depth read n) })
unfolding wait_for_window
wait_for_window_lem l n read issued e f low depth = elim (Bool-cases (leb (distance l) n)) [
  | inl above ↦
      rw (wait_id l.io_depth n, leb_ℤ-sub_ℕ n (distance l), above)
        (wait_read_chunk_lem l n read (n - distance l) issued f low
          (omega (arith, leb→le _ _ above, depth)) (rw e (le→ltb _ _ (omega arith))))
  | inr below ↦
      rw (wait_id l.io_depth n, leb_ℤ-sub_ℕ n (distance l), below)
        (ap (λ c. ok (record l { chunk_read = c })) f)
]

pos_last : (n : ℕ) → pos n ≡ last (n + 1)
pos_last n = ground arith

read_after_bounds :
    (io_depth read n : ℕ)
    → read ≤ n
    → 0 < io_depth
    → (read_after io_depth read n ≤ n + 1)
      × (read ≤ read_after io_depth read n)
      × (n + 1 ≤ read_after io_depth read n + io_depth)
      × (n + 1 ≤ read_after io_depth read n + 1024)
read_after_bounds io_depth read n h depth = ground arith

-- Posting chunk `n` when its window is free.
abbrev at_post : Loader → ℕ → ℕ → Loader
at_post l n read = record l { chunk_reading = pos n; chunk_read = last read }

get_elem?-at_ℤ : (chunks : List Chunk) (k : ℕ) → at_ℤ chunks (pos k) ≡ get_elem? chunks k
unfolding at_ℤ
get_elem?-at_ℤ chunks k = refl

set-Issued :
    (chunks : List Chunk) (n : ℕ) (ch : Chunk)
    → Issued chunks n
    → n < length chunks
    → ch.request.executor ≡ some wait_thread
    → Issued (set chunks n ch) (n + 1)
set-Issued chunks n ch issued h e k less = elim (ℕ_discrete k n) [
  | yes same ↦ (ch, rw same (get_elem?-set_self chunks n ch h), e)
  | no other ↦
      let (c, at, f) = issued k (omega arith) in
      (c, get_elem?-set_ne chunks n k ch (λ q. other (sym q)) ∙ at, f)
]

-- The loader when chunk `n` is posted.
abbrev pub after_post : Loader → ℕ → ℕ → Chunk → Posted → Loader
after_post l n read ch r = record (at_post l n read) {
  chunks = set l.chunks n (with_posted ch r);
  executor_request_id = r.next_id;
}

set-IsPostable :
    (l : Loader) (n : ℕ) (ch : Chunk) (r : Posted)
    → ((k : ℕ)
        → k < length l.chunks
        → (c : Chunk) × (get_elem? l.chunks k ≡ some c) × (IsPostable l c))
    → n < length l.chunks
    → IsPostable l ch
    → (k : ℕ) → k < length (set l.chunks n (with_posted ch r))
    → (c : Chunk) × (get_elem? (set l.chunks n (with_posted ch r)) k ≡ some c) × (IsPostable l c)
set-IsPostable l n ch r all h good k less = elim (ℕ_discrete k n) [
  | yes same ↦
      (with_posted ch r, rw same (get_elem?-set_self l.chunks n (with_posted ch r) h), good)
  | no other ↦
      let (c, at, f) = all k (omega (arith, length-set l.chunks n (with_posted ch r))) in
      (c, get_elem?-set_ne l.chunks n k (with_posted ch r) (λ q. other (sym q)) ∙ at, f)
]

module _ (page : ℕ) (l : Loader) (ready : IsReady page l) where
  issue_chunk_lem :
      (n read : ℕ) (ch : Chunk)
      → IsPostable l ch
      → (r : Posted) × (issue_chunk (at_post l n read) (pos n) ch ≡ ok (after_post l n read ch r))
        × (r.request.executor ≡ some wait_thread)
  unfolding issue_chunk
  issue_chunk_lem n read ch ((f, e), fits) =
      let l' = at_post l n read in
      let part = thread_part_le page l' ready.sized (pos n) ch f fits ready.threads in
      let (r, g, h) = post_chunk_lem l.backend l' (chunk_io_params l' (pos n) ch f) part in
      (r, rw (e, g) refl, h)

  after_post-IsReady :
      (n read : ℕ) (ch : Chunk) (r : Posted)
      → n < length l.chunks
      → IsPostable l ch
      → IsReady page (after_post l n read ch r)
  after_post-IsReady n read ch r h good = record {
    sized = ready.sized;
    threads = ready.threads;
    depth_pos = ready.depth_pos;
    postable = set-IsPostable l n ch r ready.postable h good;
  }

  post_read_chunk_eq :
      (n read : ℕ) (ch : Chunk) (r : Posted)
      → Sched l n read
      → get_elem? l.chunks n ≡ some ch
      → let read' = read_after l.io_depth read n in
        issue_chunk (at_post l n read') (pos n) ch ≡ ok (after_post l n read' ch r)
        → post_read_chunk l ≡ ok (after_post l n read' ch r)
  unfolding post_read_chunk at_ℤ
  post_read_chunk_eq n read ch r s at e =
      let l₁ = record l { chunk_reading = pos n } in
      rw
        (
          s.reading,
          last_next,
          at,
          wait_for_window_lem l₁ n read s.issued refl s.done s.ordered ready.depth_pos,
        )
        e

  -- When the first `n` chunks are posted, of which the first `read` are read, a further one
  -- exists, and all chunks can be posted with the sizes that `init_buffer` sets, a post succeeds
  -- with any back end and leaves `n + 1` chunks posted, of which at most `io_depth`, and at most
  -- 1024, are not read, and all can still be posted.
  pub post_read_chunk_lem :
      (n read : ℕ)
      → Sched l n read
      → n < length l.chunks
      → (ch : Chunk) × (r : Posted) × (read' : ℕ) × (post_read_chunk l
          ≡ ok (after_post l n read' ch r))
        × (Sched (after_post l n read' ch r) (n + 1) read')
        × (IsReady page (after_post l n read' ch r))
        × (read ≤ read')
        × (n + 1 ≤ read' + l.io_depth)
        × (n + 1 ≤ read' + 1024)
  post_read_chunk_lem n read s h =
      let (ch, at, good) = ready.postable n h in
      let read' = read_after l.io_depth read n in
      let (r, e, f) = issue_chunk_lem n read' ch good in
      let (ordered, low, depth, high) =
        read_after_bounds l.io_depth read n s.ordered ready.depth_pos in
      (
        ch,
        r,
        read',
        post_read_chunk_eq n read ch r s at e,
        record {
          reading = pos_last n;
          done = refl;
          ordered = ordered;
          issued = set-Issued l.chunks n (with_posted ch r) s.issued h f;
        },
        after_post-IsReady n read' ch r h good,
        low,
        depth,
        high,
      )
