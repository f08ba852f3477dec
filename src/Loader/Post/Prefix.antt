-- ===== src/Loader/Post/Prefix.antt =====
-- The threads with work come first, so the ids that the CUDA thread reaps are those submitted.
use instant_tensor.Base.{
  ℕ, zero, suc, ◌+◌, ◌*◌, ◌≤◌, ◌<◌, ◌≡◌, refl, ap, Bool-cases, le→ltb, inl, inr, ◌==◌, ==_iff, [],
  ◌∷◌, none, length, take, ok, arith, false,
}
use instant_tensor.Base.Int.{ℤ}
use instant_tensor.Types.{Chunk, FileInfo}
use instant_tensor.Loader.{Loader}
use instant_tensor.Loader.Geometry.{ChunkIoParams, chunk_io_params, thread_size}
use instant_tensor.Loader.Geometry.Shares.{IsSized, thread_share, thread_part_le}
use instant_tensor.Loader.Post.{
  Work, Posted, next_request_id, submit_parts, post_read_chunk_cufile, post_read_chunk_inmem,
  cufile_work, inmem_work, complete,
}

-- From the first thread without work on, none of the first `n` has any.
abbrev pub IsPrefix : ChunkIoParams → ℕ → Type 0
IsPrefix p n = (j : ℕ) → j + 1 < n → thread_size p j ≡ 0 → thread_size p (j + 1) ≡ 0

module _ (work : ℕ → Work) (p : ChunkIoParams) (n : ℕ) (prefix : IsPrefix p n) where
  pub submit_nothing :
      (count i id : ℕ)
      → i + count ≡ n
      → (0 < count → thread_size p i ≡ 0)
      → ((submit_parts work p count i id).1 ≡ []) × ((submit_parts work p count i id).2 ≡ [])
  unfolding submit_parts
  submit_nothing zero i id e h = (refl, refl)
  submit_nothing (suc count) i id e h =
      let zero_here = h (omega arith) in
      rw ((==_iff (thread_size p i) 0).1 zero_here)
        (submit_nothing count (i + 1) id (omega arith) (λ more. prefix i (omega arith) zero_here))

  submit_parts-take :
      (count i id : ℕ)
      → i + count ≡ n
      → let r = submit_parts work p count i id in take (length r.2) r.0 ≡ r.1
  unfolding submit_parts
  submit_parts-take zero i id e = refl
  submit_parts-take (suc count) i id e = elim (Bool-cases (thread_size p i == 0)) [
    | inl empty ↦
        let zero_here = (==_iff (thread_size p i) 0).0 empty in
        let nothing =
          submit_nothing count (i + 1) id (omega arith)
            (λ more. prefix i (omega arith) zero_here) in
        rw empty (rw (nothing.0, nothing.1))
    | inr busy ↦
        rw busy (ap (◌∷◌ id) (submit_parts-take count (i + 1) (next_request_id id) (omega arith)))
  ]

module _ (page : ℕ) (l : Loader) (v : IsSized page l) (id : ℤ) (ch : Chunk) (f : FileInfo)
    (fits : ch.size ≤ l.world_chunk_size) (rank : l.rank < l.world_size) where
  pub parts-IsPrefix : IsPrefix (chunk_io_params l id ch f) l.num_threads
  parts-IsPrefix j h e = omega (
    arith,
    thread_share page l v id ch f fits l.rank rank j (omega arith),
    thread_share page l v id ch f fits l.rank rank (j + 1) h,
  )

  -- With the sizes that `init_buffer` sets and a chunk no longer than the chunk of all ranks, a
  -- cuFile read is posted, and its CUDA thread reaps the ids that were submitted for the chunk,
  -- and no other.
  pub cufile_reaps_submitted :
      (r : Posted) × (post_read_chunk_cufile l (chunk_io_params l id ch f) ≡ ok r)
      × (r.reaped ≡ r.submitted)
  unfolding post_read_chunk_cufile
  cufile_reaps_submitted =
      let p = chunk_io_params l id ch f in
      (
        _,
        refl,
        submit_parts-take (cufile_work p) p l.num_threads parts-IsPrefix l.num_threads 0
            l.executor_request_id (omega arith),
      )

  -- With the sizes that `init_buffer` sets and a chunk no longer than the chunk of all ranks, and
  -- without registration of the file, an in-memory read is posted if the chunk of a rank is the
  -- chunks of its threads, and its CUDA thread reaps the ids that were submitted for the chunk,
  -- and no other.
  pub inmem_reaps_submitted :
      l.use_internal_memory_register ≡ false
      → l.rank_chunk_size ≡ l.thread_chunk_size * l.num_threads
      → (r : Posted) × (post_read_chunk_inmem l (chunk_io_params l id ch f) ≡ ok r)
        × (r.reaped ≡ r.submitted)
  unfolding post_read_chunk_inmem
  inmem_reaps_submitted host threads =
      let p = chunk_io_params l id ch f in
      let parts = submit_parts (inmem_work l p) p l.num_threads 0 l.executor_request_id in
      (
        complete parts.3 parts.1 (take (length parts.2) parts.0) parts.2 none,
        rw (le→ltb _ _ (thread_part_le page l v id ch f fits threads), host) refl,
        submit_parts-take (inmem_work l p) p l.num_threads parts-IsPrefix l.num_threads 0
            l.executor_request_id (omega arith),
      )
