-- ===== src/Loader/Device.antt =====
-- What the CUDA thread asks of the device for a chunk: the ends of `cuda_func` in
-- csrc/loader_io_aio.cpp, loader_io_uring.cpp, loader_io_inmem.cpp and loader_io_cufile.cpp. `log` lists
-- the calls in the order in which they are made.
use instant_tensor.Base.{
  ℕ, zero, suc, ◌+◌, ◌<◌, ◌≡◌, ◌≢◌, refl, ap, subst, ◌∙◌, Bool, true, false, ltb, if◌then◌else◌,
  some, List, [], ◌∷◌, ◌++◌, length, get_elem?, length-append, lt_of_get_elem?, dec_lt, arith,
}
use instant_tensor.Size.{add_size}
use instant_tensor.Loader.{Loader}
use instant_tensor.Loader.Geometry.{ChunkIoParams}

pub data Stream : Type 0 where
  cuda_stream nccl_stream : Stream

-- A copy to the device, by its addresses and size; events, by their number; and the all-gather.
pub data DeviceCall : Type 0 where
  memcpy_async : ℕ → ℕ → ℕ → DeviceCall
  event_record : Stream → ℕ → DeviceCall
  stream_wait_event : Stream → ℕ → DeviceCall
  all_gather : ℕ → ℕ → ℕ → DeviceCall

abbrev pub stream_of : DeviceCall → Stream
stream_of (memcpy_async dst src size) = cuda_stream
stream_of (event_record stream event) = stream
stream_of (stream_wait_event stream event) = stream
stream_of (all_gather send receive size) = nccl_stream

abbrev pub gather : ChunkIoParams → DeviceCall
gather p = all_gather p.rank_dst p.all_dst p.padded_rank_size

-- With more than one rank the copy is waited for on the other stream, and gathered.
abbrev pub gather_if : Bool → ChunkIoParams → ℕ → List DeviceCall
gather_if true p event =
    stream_wait_event nccl_stream event ∷ gather p ∷ event_record nccl_stream event ∷ []
gather_if false p event = []

-- AIO, io_uring and the in-memory backend: `mid` is where the rank's part is in host memory.
unfoldable pub copy_and_gather : Loader → ChunkIoParams → ℕ → ℕ → List DeviceCall
copy_and_gather l p mid event =
    memcpy_async p.rank_dst mid p.rank_size
    ∷ event_record cuda_stream event
    ∷ gather_if (ltb 1 l.world_size) p event

-- The part of the rank in the host buffer, and in the mapping of the file.
unfoldable pub rank_mid : Loader → ChunkIoParams → ℕ
rank_mid l p = add_size l.host_buffer p.window_offset

unfoldable pub rank_src : ChunkIoParams → ℕ
rank_src p = add_size (add_size p.file.mapped_memory p.chunk.file_offset) p.rank_offset

-- What the CUDA thread calls with the host buffer, and the loader's thread with a mapped file.
unfoldable pub host_buffer_calls : Loader → ChunkIoParams → ℕ → List DeviceCall
host_buffer_calls l p event = copy_and_gather l p (rank_mid l p) event

unfoldable pub mapped_calls : Loader → ChunkIoParams → ℕ → List DeviceCall
mapped_calls l p event = copy_and_gather l p (rank_src p) event

-- cuFile reads into the device buffer before this.
unfoldable pub gather_only : Loader → ChunkIoParams → ℕ → List DeviceCall
gather_only l p event =
    if ltb 1 l.world_size then gather p ∷ event_record nccl_stream event ∷ [] else []

-- What CUDA says of the calls of a log: a stream does its work in order, and a wait for an event is
-- done after the latest record of the event before it.
pub record DeviceRun (log : List DeviceCall) : Type 1 where
  pub Done : ℕ → Type 0
  pub in_order :
      (i j : ℕ) (c d : DeviceCall)
      → get_elem? log i ≡ some c
      → get_elem? log j ≡ some d
      → stream_of c ≡ stream_of d
      → i < j
      → Done j
      → Done i
  pub waited :
      (i j event : ℕ) (s t : Stream)
      → get_elem? log i ≡ some (event_record s event)
      → get_elem? log j ≡ some (stream_wait_event t event)
      → i < j
      → ((k : ℕ) (u : Stream) → i < k → k < j → get_elem? log k ≢ some (event_record u event))
      → Done j
      → Done i

behind {ℓ} :
    {A : Type ℓ} (xs ys : List A) (i : ℕ) → get_elem? (xs ++ ys) (length xs + i) ≡ get_elem? ys i
behind [] ys i = ap (get_elem? ys) (omega arith)
behind (x ∷ xs) ys i =
    let next : suc (length xs) + i ≡ suc (length xs + i) = omega arith in
    ap (get_elem? (x ∷ xs ++ ys)) next ∙ behind xs ys i

abbrev pub AllDone : (log : List DeviceCall) → DeviceRun log → ℕ → ℕ → Type 0
AllDone log run from zero = Unit
AllDone log run from (suc n) = run.Done (from + n) × AllDone log run from n

module _ (l : Loader) (p : ChunkIoParams) (mid event : ℕ) (earlier : List DeviceCall) where
  gathered :
      (calls : List DeviceCall) (run : DeviceRun (earlier ++ calls))
      → calls
        ≡ memcpy_async p.rank_dst mid p.rank_size
          ∷ event_record cuda_stream event
          ∷ stream_wait_event nccl_stream event
          ∷ gather p
          ∷ event_record nccl_stream event
          ∷ []
      → run.Done (length earlier + 4)
      → AllDone (earlier ++ calls) run (length earlier) 5
  gathered calls run e last =
      let at : (k : ℕ) (c : DeviceCall)
          → get_elem? calls k ≡ some c
          → get_elem? (earlier ++ calls) (length earlier + k) ≡ some c =
        λ k c h. behind earlier calls k ∙ h in
      let copy = at 0 (memcpy_async p.rank_dst mid p.rank_size) (rw e refl) in
      let recorded = at 1 (event_record cuda_stream event) (rw e refl) in
      let waiting = at 2 (stream_wait_event nccl_stream event) (rw e refl) in
      let gathering = at 3 (gather p) (rw e refl) in
      let ending = at 4 (event_record nccl_stream event) (rw e refl) in
      let three =
        run.in_order (length earlier + 3) (length earlier + 4) _ _ gathering ending refl
          (omega arith) last in
      let two =
        run.in_order (length earlier + 2) (length earlier + 4) _ _ waiting ending refl (omega arith)
          last in
      let one =
        run.waited (length earlier + 1) (length earlier + 2) event _ _ recorded waiting
          (omega arith) (λ k u low high. absurd (omega arith)) two in
      let first =
        run.in_order (length earlier + 0) (length earlier + 1) _ _ copy recorded refl (omega arith)
          one in
      (last, (three, (two, (one, (first, tt)))))

  copied :
      (calls : List DeviceCall) (run : DeviceRun (earlier ++ calls))
      → calls ≡ memcpy_async p.rank_dst mid p.rank_size ∷ event_record cuda_stream event ∷ []
      → run.Done (length earlier + 1)
      → AllDone (earlier ++ calls) run (length earlier) 2
  copied calls run e last =
      let copy = behind earlier calls 0 ∙ ap (λ c. get_elem? c 0) e in
      let ending = behind earlier calls 1 ∙ ap (λ c. get_elem? c 1) e in
      (
        last,
        (
          run.in_order (length earlier + 0) (length earlier + 1) _ _ copy ending refl (omega arith)
              last,
          tt,
        ),
      )

  completed :
      (many : Bool)
      → let calls =
          memcpy_async p.rank_dst mid p.rank_size
          ∷ event_record cuda_stream event
          ∷ gather_if many p event in
        (run : DeviceRun (earlier ++ calls)) (last : ℕ)
        → suc last ≡ length calls
        → run.Done (length earlier + last)
        → AllDone (earlier ++ calls) run (length earlier) (length calls)
  completed true run last e done =
      let end : last ≡ 4 = omega (arith, e) in
      gathered _ run refl (subst (λ k. run.Done (length earlier + k)) end done)
  completed false run last e done =
      let end : last ≡ 1 = omega (arith, e) in
      copied _ run refl (subst (λ k. run.Done (length earlier + k)) end done)

  -- The last call of the chunk records the event.
  ends_recorded :
      (many : Bool)
      → let calls =
          memcpy_async p.rank_dst mid p.rank_size
          ∷ event_record cuda_stream event
          ∷ gather_if many p event in
        (last : ℕ) × (suc last ≡ length calls)
        × ((s : Stream) × (get_elem? (earlier ++ calls) (length earlier + last)
              ≡ some (event_record s event)))
  ends_recorded true = (4, refl, (nccl_stream, behind earlier _ 4))
  ends_recorded false = (1, refl, (cuda_stream, behind earlier _ 1))

  -- Whatever was asked of the device before, once the latest record of the event is done, which is
  -- what the wait thread synchronizes with, all calls of the chunk are done: the copy of the rank's
  -- part, and, with more than one rank, the all-gather.
  pub copy_and_gather_lem :
      (run : DeviceRun (earlier ++ copy_and_gather l p mid event)) (i : ℕ) (s : Stream)
      → get_elem? (earlier ++ copy_and_gather l p mid event) i ≡ some (event_record s event)
      → ((k : ℕ) (t : Stream)
          → i < k
          → get_elem? (earlier ++ copy_and_gather l p mid event) k ≢ some (event_record t event))
      → run.Done i
      → AllDone
          (earlier ++ copy_and_gather l p mid event)
          run
          (length earlier)
          (length (copy_and_gather l p mid event))
  unfolding copy_and_gather
  copy_and_gather_lem run i s at latest done =
      let calls = copy_and_gather l p mid event in
      let (last, count, (t, ending)) = ends_recorded (ltb 1 l.world_size) in
      let within : i < length (earlier ++ calls) =
        lt_of_get_elem? (earlier ++ calls) i (event_record s event) at in
      let here : i ≡ length earlier + last = elim (dec_lt i (length earlier + last)) [
        | yes before ↦ absurd (latest (length earlier + last) t before ending)
        | no after ↦ omega (arith, within, length-append earlier calls, count)
      ] in
      completed (ltb 1 l.world_size) run last count (subst run.Done here done)
