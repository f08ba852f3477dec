-- ===== src/Loader/Sizes/Sized.antt =====
-- The sizes that Loader::init_buffer sets are those of IsSized, by which the parts of a chunk are
-- exact.
use instant_tensor.Base.{ℕ, ◌+◌, ◌*◌, ◌^◌, ◌≤◌, ◌<◌, ◌≡◌, ap, ◌∙◌, sym, arith}
use instant_tensor.Size.{mul_size}
use instant_tensor.Layout.Valid.{IsValid}
use instant_tensor.Loader.{Loader}
use instant_tensor.Loader.Sizes.{
  set_alignments, set_chunk_sizes, set_buffer_size, set_sizes, layout_config, set_sizes-IsValid,
  paged, IsPaged, paged-IsPaged, mul-le-mul, chunk_small, product_small,
}
use instant_tensor.Loader.Geometry.Shares.{IsSized}

mul-le_pos_right : (a m : ℕ) → 0 < m → a ≤ a * m
mul-le_pos_right a m q = grind arith

module _ (page_size : ℕ) (l : Loader) (page : 0 < page_size) (threads : 0 < l.num_threads)
    (ranks : 0 < l.world_size) (chunk : 0 < l.thread_chunk_size)
    (small : (l.thread_chunk_size + page_size) * l.num_threads * l.world_size ≤ 2 ^ 60) where
  abbrev thread_chunk : ℕ
  thread_chunk = paged l.thread_chunk_size page_size

  is_paged : IsPaged l.thread_chunk_size page_size thread_chunk
  is_paged =
      paged-IsPaged l.thread_chunk_size page_size page
        (chunk_small page_size l page threads ranks chunk (omega arith))

  rank_exact : mul_size thread_chunk l.num_threads ≡ thread_chunk * l.num_threads
  rank_exact = omega (
    arith,
    mul-le_pos_right (thread_chunk * l.num_threads) l.world_size ranks,
    mul-le-mul thread_chunk (l.thread_chunk_size + page_size) l.num_threads l.world_size
        (omega (arith, is_paged.below)),
  )

  exact :
      (t : ℕ)
      → t ≤ l.thread_chunk_size + page_size
      → mul_size (mul_size t l.num_threads) l.world_size ≡ t * l.num_threads * l.world_size
  exact = product_small page_size l page threads ranks chunk (omega arith)

  valid : IsValid (layout_config (set_sizes page_size l))
  valid = set_sizes-IsValid page_size l page threads ranks chunk (omega arith)

  pub set_sizes_threads :
      let l' = set_sizes page_size l in l'.rank_chunk_size ≡ l'.thread_chunk_size * l'.num_threads
  unfolding set_sizes set_alignments set_chunk_sizes set_buffer_size
  set_sizes_threads = rank_exact

  set_sizes_small :
      (set_sizes page_size l).world_chunk_size + (set_sizes page_size l).world_chunk_alignment
      ≤ 2 ^ 61
  unfolding set_sizes set_alignments set_chunk_sizes set_buffer_size
  set_sizes_small = omega (
    arith,
    exact thread_chunk (omega (arith, is_paged.below)),
    exact page_size (omega arith),
    mul-le-mul thread_chunk (l.thread_chunk_size + page_size) l.num_threads l.world_size
        (omega (arith, is_paged.below)),
    mul-le-mul page_size (l.thread_chunk_size + page_size) l.num_threads l.world_size (omega arith),
  )

  set_sizes_alignment :
      (set_sizes page_size l).world_chunk_alignment ≡ page_size * l.num_threads * l.world_size
  unfolding set_sizes set_alignments set_chunk_sizes set_buffer_size
  set_sizes_alignment = exact page_size (omega arith)

  set_sizes_whole :
      (set_sizes page_size l).world_chunk_size
      ≡ (set_sizes page_size l).rank_chunk_size * l.world_size
  unfolding set_sizes set_alignments set_chunk_sizes set_buffer_size
  set_sizes_whole =
      exact thread_chunk (omega (arith, is_paged.below))
      ∙ ap (λ k. k * l.world_size) (sym rank_exact)

  pub set_sizes-IsSized : IsSized page_size (set_sizes page_size l)
  unfolding set_sizes set_alignments set_chunk_sizes set_buffer_size
  set_sizes-IsSized = record {
    page_pos = page;
    threads_pos = threads;
    ranks_pos = ranks;
    alignment = set_sizes_alignment;
    alignment_pos = valid.world_pos;
    whole = set_sizes_whole;
    multiple = valid.chunk_worlds;
    small = set_sizes_small;
  }
