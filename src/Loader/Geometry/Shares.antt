-- ===== src/Loader/Geometry/Shares.antt =====
-- The parts of the ranks and of their threads: they fill the chunk without gap or overlap.
use native.Mathlib.Nat.{div-lt_iff_lt-mul, div-mul-le_self, lt-div-mul-add}
use instant_tensor.Base.{
  ℕ, ◌+◌, ◌-◌, ◌*◌, ◌/◌, ◌%◌, ◌^◌, ◌≤◌, ◌<◌, ◌≡◌, sym, ap, ◌∙◌, min, arith, dec_lt,
}
use instant_tensor.Base.Int.{ℤ}
use instant_tensor.Size.{sub_size, mul_size, round_up, clamp_size}
use instant_tensor.Size.Rounding.{round_up-mod, round_up_bounds, multiple_unique}
use instant_tensor.Size.Split.{split_exact, split_multiple}
use instant_tensor.Types.{Chunk, FileInfo}
use instant_tensor.Loader.{Loader}
use instant_tensor.Loader.Geometry.{ChunkIoParams, chunk_io_params, thread_offset, thread_size}

-- `clamp_size` of a difference that may have gone below zero.
clamp_size-sub :
    (a b limit : ℕ) → a < 2 ^ 63 → b < 2 ^ 63 → clamp_size (sub_size a b) limit ≡ min (a - b) limit
unfolding clamp_size
clamp_size-sub a b limit ha hb = ground arith

clamp_size-sub_twice :
    (a b d limit : ℕ)
    → a < 2 ^ 62
    → b < 2 ^ 62
    → d < 2 ^ 62
    → clamp_size (sub_size (sub_size a b) d) limit ≡ min (a - b - d) limit
unfolding clamp_size
clamp_size-sub_twice a b d limit ha hb hd = ground arith

-- A loader whose sizes `init_buffer` has set: see `Sizes`.
abbrev pub IsSized : ℕ → Loader → Type 0
IsSized page l = record {
  page_pos : 0 < page;
  threads_pos : 0 < l.num_threads;
  ranks_pos : 0 < l.world_size;
  alignment : l.world_chunk_alignment ≡ page * l.num_threads * l.world_size;
  alignment_pos : 0 < l.world_chunk_alignment;
  whole : l.world_chunk_size ≡ l.rank_chunk_size * l.world_size;
  multiple : l.world_chunk_size % l.world_chunk_alignment ≡ 0;
  small : l.world_chunk_size + l.world_chunk_alignment ≤ 2 ^ 61;
}

-- The part with number `y / unit` has `y`.
part_lem :
    (unit n total y : ℕ)
    → 0 < unit
    → y < total
    → y < unit * n
    → (y / unit < n)
      × (unit * (y / unit) ≤ y)
      × (y < unit * (y / unit) + min (total - unit * (y / unit)) unit)
part_lem unit n total y p h q = (
  (div-lt_iff_lt-mul p).1 (omega arith),
  omega (arith, div-mul-le_self y unit),
  omega (arith, div-mul-le_self y unit, lt-div-mul-add {a = y} p),
)

mul-le-mul_right : (r k n : ℕ) → k ≤ n → r * k ≤ r * n
mul-le-mul_right r k n h = grind arith

-- Two parts that have `y` are the same.
part_unique :
    (unit i j y : ℕ)
    → unit * i ≤ y
    → y < unit * i + unit
    → unit * j ≤ y
    → y < unit * j + unit
    → i ≡ j
part_unique unit i j y a b c d = elim (dec_lt i j) [
  | yes less ↦ absurd (omega (arith, mul-le-mul_right unit (i + 1) j (omega arith)))
  | no above ↦ elim (dec_lt j i) [
    | yes more ↦ absurd (omega (arith, mul-le-mul_right unit (j + 1) i (omega arith)))
    | no same ↦ omega arith
  ]
]

le-of-mul : (a b n : ℕ) → 0 < n → a * n ≤ b * n → a ≤ b
le-of-mul a b n p h = elim (dec_lt b a) [
  | yes more ↦ absurd (omega (arith, mul-le-mul_right n (b + 1) a (omega arith)))
  | no less ↦ omega arith
]

module _ (page : ℕ) (l : Loader) (v : IsSized page l) (id : ℤ) (ch : Chunk) (f : FileInfo)
    (fits : ch.size ≤ l.world_chunk_size) where
  padded_le : round_up ch.size l.world_chunk_alignment ≤ l.world_chunk_size
  padded_le =
      let w = l.world_chunk_alignment in
      let bounds = round_up_bounds ch.size w v.alignment_pos (omega (arith, v.small)) in
      elim (dec_lt l.world_chunk_size (round_up ch.size w)) [
        | no le ↦ omega arith
        | yes more ↦ absurd (
            omega (
              arith,
              multiple_unique l.world_chunk_size (round_up ch.size w) w v.multiple
                  (round_up-mod ch.size w v.alignment_pos (omega (arith, v.small))) (omega arith)
                  (omega arith),
            ))
      ]

  padded_multiple :
      round_up ch.size l.world_chunk_alignment % (page * l.num_threads * l.world_size) ≡ 0
  padded_multiple =
      ap (λ k. round_up ch.size l.world_chunk_alignment % k) (sym v.alignment)
      ∙ round_up-mod ch.size l.world_chunk_alignment v.alignment_pos (omega (arith, v.small))

  -- With the sizes that `init_buffer` sets and a chunk no longer than the chunk of all ranks, the
  -- padded chunk is divided without rest among the ranks, and each rank's part among its threads,
  -- in whole pages, and the part of a rank fits into a window of the host buffer.
  pub shares_exact :
      let p = chunk_io_params l id ch f in
      (p.padded_rank_size * l.world_size ≡ p.padded_world_chunk_size)
      × (p.padded_thread_size * l.num_threads ≡ p.padded_rank_size)
      × (p.padded_thread_size % page ≡ 0)
      × (p.padded_rank_size ≤ l.rank_chunk_size)
  unfolding chunk_io_params
  shares_exact =
      let padded = round_up ch.size l.world_chunk_alignment in
      let ranks =
        split_exact padded (page * l.num_threads) l.world_size v.ranks_pos padded_multiple in
      let rank_part =
        split_multiple padded (page * l.num_threads) l.world_size v.ranks_pos padded_multiple in
      (
        ranks,
        split_exact (padded / l.world_size) page l.num_threads v.threads_pos rank_part,
        split_multiple (padded / l.world_size) page l.num_threads v.threads_pos rank_part,
        le-of-mul (padded / l.world_size) l.rank_chunk_size l.world_size v.ranks_pos
            (omega (arith, padded_le, v.whole)),
      )

  abbrev part_of_rank : ℕ
  part_of_rank = round_up ch.size l.world_chunk_alignment / l.world_size

  abbrev part_of_thread : ℕ
  part_of_thread = part_of_rank / l.num_threads

  abbrev params_of : ℕ → ChunkIoParams
  params_of k = chunk_io_params (record l { rank = k }) id ch f

  rank_small : (k : ℕ) → k ≤ l.world_size → part_of_rank * k ≤ 2 ^ 61
  unfolding chunk_io_params
  rank_small k h =
      omega
        (arith, mul-le-mul_right part_of_rank k l.world_size h, shares_exact, padded_le, v.small)

  chunk_le_parts : ch.size ≤ part_of_rank * l.world_size
  unfolding chunk_io_params
  chunk_le_parts = omega (
    arith,
    shares_exact,
    round_up_bounds ch.size l.world_chunk_alignment v.alignment_pos (omega (arith, v.small)),
  )

  -- The part of rank `k`, with the arithmetic carried out.
  rank_share :
      (k : ℕ)
      → k < l.world_size
      → ((params_of k).rank_offset ≡ part_of_rank * k)
        × ((params_of k).rank_size ≡ min (ch.size - part_of_rank * k) part_of_rank)
  unfolding chunk_io_params
  rank_share k h =
      let offset : mul_size part_of_rank k ≡ part_of_rank * k =
        omega (arith, rank_small k (omega arith)) in
      (
        offset,
        rw offset (
            clamp_size-sub ch.size (part_of_rank * k) part_of_rank (omega (arith, v.small))
              (omega (arith, rank_small k (omega arith)))),
      )

  -- With the sizes that `init_buffer` sets and a chunk no longer than the chunk of all ranks,
  -- every byte of the chunk is in the part of a rank.
  pub rank_covers :
      (y : ℕ)
      → y < ch.size
      → (k : ℕ) × (k < l.world_size)
        × ((params_of k).rank_offset ≤ y)
        × (y < (params_of k).rank_offset + (params_of k).rank_size)
  rank_covers y h =
      let positive = part_pos y h in
      let (less, from, upto) =
        part_lem part_of_rank l.world_size ch.size y positive h (omega (arith, chunk_le_parts)) in
      let share = rank_share (y / part_of_rank) less in
      (y / part_of_rank, less, omega arith, omega arith)
    where
      part_pos : (x : ℕ) → x < ch.size → 0 < part_of_rank
      part_pos x less = elim (dec_lt 0 part_of_rank) [
        | yes p ↦ p
        | no q ↦ absurd (
            omega (
              arith,
              chunk_le_parts,
              ap (λ k. k * l.world_size) {x = part_of_rank} {y = 0} (omega arith),
            ))
      ]

  -- With the sizes that `init_buffer` sets and a chunk no longer than the chunk of all ranks, no
  -- byte is in the parts of two ranks.
  pub rank_unique :
      (j k y : ℕ)
      → j < l.world_size
      → k < l.world_size
      → (params_of j).rank_offset ≤ y
      → y < (params_of j).rank_offset + (params_of j).rank_size
      → (params_of k).rank_offset ≤ y
      → y < (params_of k).rank_offset + (params_of k).rank_size
      → j ≡ k
  rank_unique j k y hj hk a b c d =
      let sj = rank_share j hj in
      let sk = rank_share k hk in
      part_unique part_of_rank j k y (omega arith) (omega arith) (omega arith) (omega arith)

  module _ (k : ℕ) (rank : k < l.world_size) where
    threads_fill : part_of_thread * l.num_threads ≡ part_of_rank
    unfolding chunk_io_params
    threads_fill = shares_exact.1

    thread_small : (i : ℕ) → i < l.num_threads → part_of_thread * i ≤ l.world_chunk_size
    unfolding chunk_io_params
    thread_small i h = omega (
      arith,
      mul-le-mul_right part_of_thread i l.num_threads (omega arith),
      mul-le-mul_right part_of_rank 1 l.world_size v.ranks_pos,
      shares_exact,
      padded_le,
    )

    -- The part of thread `i`, with the arithmetic carried out.
    pub thread_share :
        (i : ℕ)
        → i < l.num_threads
        → (thread_offset (params_of k) i ≡ part_of_thread * i)
          × (thread_size (params_of k) i
              ≡ min (ch.size - part_of_rank * k - part_of_thread * i) part_of_thread)
    unfolding thread_offset thread_size chunk_io_params
    thread_share i h =
        let inside = thread_small i h in
        let offset : mul_size part_of_thread i ≡ part_of_thread * i =
          omega (arith, inside, v.small) in
        let start : mul_size part_of_rank k ≡ part_of_rank * k =
          omega (arith, rank_small k (omega arith)) in
        (
          offset,
          rw (offset, start)
              (clamp_size-sub_twice ch.size (part_of_rank * k) (part_of_thread * i) part_of_thread
                (omega (arith, v.small)) (omega (arith, rank_small k (omega arith)))
                (omega (arith, inside, v.small))),
        )

    -- With the sizes that `init_buffer` sets and a chunk no longer than the chunk of all ranks,
    -- every byte of a rank's part is in the part of one of its threads.
    pub thread_covers :
        (y : ℕ)
        → y < (params_of k).rank_size
        → (i : ℕ) × (i < l.num_threads)
          × (thread_offset (params_of k) i ≤ y)
          × (y < thread_offset (params_of k) i + thread_size (params_of k) i)
    thread_covers y h =
        let (less, from, upto) =
          part_lem part_of_thread l.num_threads (ch.size - part_of_rank * k) y (part_pos y h)
            (omega (arith, rank_share k rank)) (inside y h) in
        let share = thread_share (y / part_of_thread) less in
        (y / part_of_thread, less, omega arith, omega arith)
      where
        inside : (x : ℕ) → x < (params_of k).rank_size → x < part_of_thread * l.num_threads
        inside x less = omega (arith, rank_share k rank, threads_fill)

        part_pos : (x : ℕ) → x < (params_of k).rank_size → 0 < part_of_thread
        part_pos x less = elim (dec_lt 0 part_of_thread) [
          | yes p ↦ p
          | no q ↦ absurd (
              omega (
                arith,
                inside x less,
                ap (λ m. m * l.num_threads) {x = part_of_thread} {y = 0} (omega arith),
              ))
        ]

    -- With the sizes that `init_buffer` sets and a chunk no longer than the chunk of all ranks,
    -- the part of a thread, with its padding, ends inside the window of the host buffer.
    pub thread_in_window :
        (i : ℕ)
        → i < l.num_threads
        → thread_offset (params_of k) i + (params_of k).padded_thread_size ≤ l.rank_chunk_size
    unfolding chunk_io_params
    thread_in_window i h = omega (
      arith,
      thread_share i h,
      mul-le-mul_right part_of_thread (i + 1) l.num_threads (omega arith),
      shares_exact,
    )

  -- The part of a thread is no larger than its chunk size.
  pub thread_part_le :
      l.rank_chunk_size ≡ l.thread_chunk_size * l.num_threads
      → (chunk_io_params l id ch f).padded_thread_size ≤ l.thread_chunk_size
  unfolding chunk_io_params
  thread_part_le e =
      le-of-mul part_of_thread l.thread_chunk_size l.num_threads v.threads_pos
        (omega (arith, shares_exact))
