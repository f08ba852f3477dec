-- ===== src/Loader/Post/Checked.antt =====
-- The loop of the CUDA thread in post_read_chunk_cufile of csrc/loader_io_cufile.cpp: it reaps the
-- reads of the worker threads, and compares what each returns with what it was asked to read.
use instant_tensor.Base.{
  ℕ, zero, suc, ◌+◌, ◌<◌, ◌≤◌, ◌≡◌, ◌↔◌, refl, ap, Bool, true, false, Bool-cases, inl, inr, ◌==◌,
  ==_iff, if◌then◌else◌, List, [], ◌∷◌, length, ok, arith,
}
use instant_tensor.Base.Int.{ℤ, pos, negsuc, pos_part}
use instant_tensor.Types.{Chunk, FileInfo}
use instant_tensor.Loader.{Loader}
use instant_tensor.Loader.Geometry.{ChunkIoParams, thread_size, chunk_io_params}
use instant_tensor.Loader.Geometry.Shares.{IsSized}
use instant_tensor.Loader.Post.{
  Work, Posted, next_request_id, submit_parts, cufile_work, post_read_chunk_cufile,
}
use instant_tensor.Loader.Post.Prefix.{
  IsPrefix, submit_nothing, parts-IsPrefix, cufile_reaps_submitted,
}

-- How the loop ends: all reads were whole, one was not, which throws, or an access out of a vector.
pub data Checked : Type 0 where
  all_read short_read out_of_range : Checked

abbrev pub is_count : ℤ → ℕ → Bool
is_count (pos n) size = n == size
is_count (negsuc n) size = false

-- The vector `expect_return`, from thread `i` on; a thread with nothing to do keeps the zero.
abbrev pub expect_return : ChunkIoParams → ℕ → ℕ → List ℕ
expect_return p zero i = []
expect_return p (suc count) i = thread_size p i ∷ expect_return p count (i + 1)

-- `bytes_read` is what the read with an id returns.
unfoldable pub check_reads : (ℕ → ℤ) → List ℕ → List ℕ → ℕ → Checked
check_reads bytes_read req_ids expected zero = all_read
check_reads bytes_read [] expected (suc worker_cnt) = out_of_range
check_reads bytes_read (id ∷ req_ids) [] (suc worker_cnt) = out_of_range
check_reads bytes_read (id ∷ req_ids) (size ∷ expected) (suc worker_cnt) =
    let rest = check_reads bytes_read req_ids expected worker_cnt in
    if is_count (bytes_read id) size then rest else short_read

-- Every part that has bytes was read whole, by the read that was submitted for it; the ids from `id`
-- on are given to the parts that have bytes, in their order.
abbrev pub IsWhole : (ℕ → ℤ) → ChunkIoParams → ℕ → ℕ → ℕ → Type 0
IsWhole bytes_read p zero i id = Unit
IsWhole bytes_read p (suc count) i id =
    if thread_size p i == 0
    then IsWhole bytes_read p count (i + 1) id
    else (bytes_read id ≡ pos (thread_size p i))
      × IsWhole bytes_read p count (i + 1) (next_request_id id)

is_count_iff : (z : ℤ) (size : ℕ) → (is_count z size ≡ true) ↔ (z ≡ pos size)
is_count_iff (pos n) size =
    (λ e. ap pos ((==_iff n size).0 e), λ e. (==_iff n size).1 (ap pos_part e))
is_count_iff (negsuc n) size = (λ e. absurd (ground arith), λ e. absurd (ground arith))

if-all_read :
    (b : Bool) (rest : Checked)
    → (if b then rest else short_read) ≡ all_read
    → (b ≡ true) × (rest ≡ all_read)
if-all_read true rest e = (refl, e)
if-all_read false rest e = absurd (ground arith)

module _ (bytes_read : ℕ → ℤ) (work : ℕ → Work) (p : ChunkIoParams) (n : ℕ)
    (prefix : IsPrefix p n) where
  IsWhole-nothing :
      (count i id : ℕ)
      → i + count ≡ n
      → (0 < count → thread_size p i ≡ 0)
      → IsWhole bytes_read p count i id
  IsWhole-nothing zero i id e h = tt
  IsWhole-nothing (suc count) i id e h =
      let zero_here = h (omega arith) in
      rw ((==_iff (thread_size p i) 0).1 zero_here)
        (IsWhole-nothing count (i + 1) id (omega arith) (λ more. prefix i (omega arith) zero_here))

  abbrev Passes : ℕ → ℕ → ℕ → Type 0
  Passes count i id =
      check_reads bytes_read (submit_parts work p count i id).0 (expect_return p count i)
        (length (submit_parts work p count i id).2)
      ≡ all_read

  check_reads_iff :
      (count i id : ℕ) → i + count ≡ n → Passes count i id ↔ IsWhole bytes_read p count i id
  unfolding check_reads submit_parts
  check_reads_iff zero i id e = (λ h. tt, λ h. refl)
  check_reads_iff (suc count) i id e = elim (Bool-cases (thread_size p i == 0)) [
    | inl empty ↦
        let zero_here = (==_iff (thread_size p i) 0).0 empty in
        let after : 0 < count → thread_size p (i + 1) ≡ 0 =
          λ more. prefix i (omega arith) zero_here in
        let nothing = submit_nothing work p n prefix count (i + 1) id (omega arith) after in
        rw empty (λ h. IsWhole-nothing count (i + 1) id (omega arith) after, λ h. rw nothing.1 refl)
    | inr busy ↦
        let (to, from) = check_reads_iff count (i + 1) (next_request_id id) (omega arith) in
        let (exact, same) = is_count_iff (bytes_read id) (thread_size p i) in
        rw busy (
          λ h. let (now, later) = if-all_read _ _ h in (exact now, to later),
          λ h. rw (same h.0) (from h.1),
        )
  ]

module _ (page : ℕ) (l : Loader) (v : IsSized page l) (id : ℤ) (ch : Chunk) (f : FileInfo)
    (fits : ch.size ≤ l.world_chunk_size) (rank : l.rank < l.world_size) where
  -- The parts of a chunk, as the threads are given them.
  abbrev pub parts : List ℕ × List ℕ × List Work × ℕ
  parts =
      let p = chunk_io_params l id ch f in
      submit_parts (cufile_work p) p l.num_threads 0 l.executor_request_id

  -- With the sizes that `init_buffer` sets and a chunk no longer than the chunk of all ranks, a
  -- cuFile read is posted, its CUDA thread reaps the ids that were submitted for the chunk, and no
  -- other, and its check passes exactly if each part of the chunk that has bytes was read whole by
  -- the read that was submitted for it; so a short read or an error of any of them throws.
  pub check_reads_lem :
      (bytes_read : ℕ → ℤ)
      → ((r : Posted) × (post_read_chunk_cufile l (chunk_io_params l id ch f) ≡ ok r)
          × (r.reaped ≡ r.submitted))
        × ((check_reads bytes_read parts.0
                (expect_return (chunk_io_params l id ch f) l.num_threads 0)
                (length parts.2)
              ≡ all_read)
            ↔ IsWhole bytes_read (chunk_io_params l id ch f) l.num_threads 0 l.executor_request_id)
  check_reads_lem bytes_read =
      let p = chunk_io_params l id ch f in
      (
        cufile_reaps_submitted page l v id ch f fits rank,
        check_reads_iff bytes_read (cufile_work p) p l.num_threads
            (parts-IsPrefix page l v id ch f fits rank) l.num_threads 0 l.executor_request_id
            (omega arith),
      )
