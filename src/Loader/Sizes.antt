-- ===== src/Loader/Sizes.antt =====
-- The sizes that Loader::init_buffer computes, and that they make a valid configuration of the
-- layout. `page_size` is sysconf(_SC_PAGESIZE).
pub mod Sized
use native.Mathlib.Nat.{mod-eq_of_lt, mul-mod_left, div-add-mod'}
use instant_tensor.Base.{
  Bool-cases, inl, inr, ==_iff, dec_lt, ℕ, ◌+◌, ◌*◌, ◌/◌, ◌%◌, ◌^◌, ◌≤◌, ◌<◌, ◌≡◌, ap, ◌∙◌, not,
  ltb, ◌==◌, if◌then◌else◌, arith,
}
use instant_tensor.Size.{add_size, mul_size, round_up}
use instant_tensor.Size.Rounding.{round_up-mod, round_up_bounds}
use instant_tensor.Layout.{Config, first_tensor_alignment}
use instant_tensor.Layout.Valid.{IsValid}
use instant_tensor.Loader.{Loader}

unfoldable pub set_alignments : ℕ → Loader → Loader
set_alignments page_size l =
    let rank_alignment = mul_size page_size l.num_threads in
    record l {
      thread_alignment = page_size;
      rank_alignment = rank_alignment;
      world_chunk_alignment = mul_size rank_alignment l.world_size;
    }

unfoldable pub set_chunk_sizes : Loader → Loader
set_chunk_sizes l =
    let thread_chunk_size =
      if not (l.thread_chunk_size % l.thread_alignment == 0)
      then round_up l.thread_chunk_size l.thread_alignment
      else l.thread_chunk_size in
    let rank_chunk_size = mul_size thread_chunk_size l.num_threads in
    record l {
      thread_chunk_size = thread_chunk_size;
      rank_chunk_size = rank_chunk_size;
      world_chunk_size = mul_size rank_chunk_size l.world_size;
    }

-- Room for every transfer in flight, and the paddings of three tensors.
unfoldable pub set_buffer_size : Loader → Loader
set_buffer_size l =
    let inflight = mul_size l.io_depth l.world_chunk_size in
    let size = if ltb l.buffer_size inflight then inflight else l.buffer_size in
    let padded_size =
      mul_size 3
        (add_size (add_size first_tensor_alignment l.thread_alignment) l.world_chunk_alignment) in
    record l { buffer_size = add_size size padded_size }

unfoldable pub set_sizes : ℕ → Loader → Loader
unfolding set_alignments set_chunk_sizes set_buffer_size
set_sizes page_size l = set_buffer_size (set_chunk_sizes (set_alignments page_size l))

-- What `compute_layout` reads.
abbrev pub layout_config : Loader → Config
layout_config l = record {
  thread_alignment = l.thread_alignment;
  world_chunk_alignment = l.world_chunk_alignment;
  world_chunk_size = l.world_chunk_size;
  buffer_size = l.buffer_size;
}

-- The chunk of a thread, enlarged to whole pages.
abbrev pub paged : ℕ → ℕ → ℕ
paged chunk page = if not (chunk % page == 0) then round_up chunk page else chunk

pub record IsPaged (chunk page paged : ℕ) : Type 0 where
  pub multiple : paged % page ≡ 0
  pub at_least : chunk ≤ paged
  pub below : paged < chunk + page

pub paged-IsPaged :
    (chunk page : ℕ) → 0 < page → chunk + page ≤ 2 ^ 61 → IsPaged chunk page (paged chunk page)
paged-IsPaged chunk page p h = elim (Bool-cases (chunk % page == 0)) [
  | inl whole ↦
      rw whole
        (record { multiple = (==_iff _ _).0 whole; at_least = omega arith; below = omega arith })
  | inr cut ↦ rw cut (record {
    multiple = round_up-mod chunk page p (omega arith);
    at_least = omega (arith, round_up_bounds chunk page p (omega arith));
    below = omega (arith, round_up_bounds chunk page p (omega arith));
  })
]

page-le-multiple : (t page : ℕ) → 0 < t → t % page ≡ 0 → page ≤ t
page-le-multiple t page p h = elim (dec_lt t page) [
  | yes below ↦ absurd (omega (arith, mod-eq_of_lt below))
  | no above ↦ omega arith
]

pub mul-le-mul : (a b n m : ℕ) → a ≤ b → a * n * m ≤ b * n * m
mul-le-mul a b n m h = grind arith

pub le-mul_pos : (a n m : ℕ) → 0 < n → 0 < m → a ≤ a * n * m
le-mul_pos a n m p q = grind arith

le-mul_pos_right : (a m : ℕ) → 0 < m → a ≤ a * m
le-mul_pos_right a m q = grind arith

quotient_lem : (t page : ℕ) → t % page ≡ 0 → t ≡ t / page * page
quotient_lem t page h = omega (arith, div-add-mod' t page)

-- A multiple times a number is a multiple.
multiple-mul : (t page n m : ℕ) → t % page ≡ 0 → t * n * m % page ≡ 0
multiple-mul t page n m h =
    ap {B = ℕ} (λ k. k % page) {x = t * n * m} {y = t / page * n * m * page}
      (omega (arith, ap (λ k. k * n * m) (quotient_lem t page h)))
    ∙ mul-mod_left (t / page * n * m) page

multiple-scale : (t page n m : ℕ) → t % page ≡ 0 → t * n * m % (page * n * m) ≡ 0
multiple-scale t page n m h =
    ap {B = ℕ} (λ k. k % (page * n * m)) {x = t * n * m} {y = t / page * (page * n * m)}
      (omega (arith, ap (λ k. k * n * m) (quotient_lem t page h)))
    ∙ mul-mod_left (t / page) (page * n * m)

module _ (page_size : ℕ) (l : Loader) (page : 0 < page_size) (threads : 0 < l.num_threads)
    (ranks : 0 < l.world_size) (chunk : 0 < l.thread_chunk_size)
    (small : (l.thread_chunk_size + page_size) * l.num_threads * l.world_size ≤ 2 ^ 61) where
  pub chunk_small : l.thread_chunk_size + page_size ≤ 2 ^ 61
  chunk_small =
      omega (
        arith,
        le-mul_pos (l.thread_chunk_size + page_size) l.num_threads l.world_size threads ranks,
      )

  -- No product of the sizes wraps.
  pub product_small :
      (t : ℕ)
      → t ≤ l.thread_chunk_size + page_size
      → mul_size (mul_size t l.num_threads) l.world_size ≡ t * l.num_threads * l.world_size
  product_small t le =
      let all = mul-le-mul t (l.thread_chunk_size + page_size) l.num_threads l.world_size le in
      let one = le-mul_pos_right (t * l.num_threads) l.world_size ranks in
      ap (λ k. mul_size k l.world_size) {x = mul_size t l.num_threads} {y = t * l.num_threads}
        (omega arith)
      ∙ omega arith

  sizes-IsValid :
      (t : ℕ)
      → IsPaged l.thread_chunk_size page_size t
      → (size : ℕ)
      → IsValid (record {
        thread_alignment = page_size;
        world_chunk_alignment = mul_size (mul_size page_size l.num_threads) l.world_size;
        world_chunk_size = mul_size (mul_size t l.num_threads) l.world_size;
        buffer_size = size;
      })
  sizes-IsValid t p size =
      let world = product_small page_size (omega arith) in
      let whole = product_small t (omega (arith, p.below)) in
      let positive = le-mul_pos page_size l.num_threads l.world_size threads ranks in
      let smaller = page-le-multiple t page_size (omega (arith, p.at_least)) p.multiple in
      rw (world, whole)
        (record {
          page_pos = page;
          world_pos = omega arith;
          chunk_pages = multiple-mul t page_size l.num_threads l.world_size p.multiple;
          chunk_worlds = multiple-scale t page_size l.num_threads l.world_size p.multiple;
          page_in_chunk = omega (arith, le-mul_pos t l.num_threads l.world_size threads ranks);
          small = omega (
            arith,
            p.below,
            mul-le-mul t (l.thread_chunk_size + page_size) l.num_threads l.world_size
                (omega (arith, p.below)),
            mul-le-mul page_size (l.thread_chunk_size + page_size) l.num_threads l.world_size
                (omega arith),
          );
        })

  -- With a page, threads, ranks and a chunk size that are not zero, and an enlarged chunk of all
  -- ranks of at most 2^61 bytes, the sizes that `init_buffer` computes make a valid configuration
  -- of the layout.
  pub set_sizes-IsValid : IsValid (layout_config (set_sizes page_size l))
  unfolding set_sizes set_alignments set_chunk_sizes set_buffer_size
  set_sizes-IsValid =
      sizes-IsValid (paged l.thread_chunk_size page_size)
        (paged-IsPaged l.thread_chunk_size page_size page chunk_small) _

-- With transfers in flight, a buffer and paddings of at most 2^60 bytes each, the buffer that
-- `init_buffer` allocates holds every transfer in flight, and a tensor of the size asked for
-- together with the paddings that `compute_layout` may put around it.
pub set_buffer_size-room :
    (l : Loader)
    → l.io_depth * l.world_chunk_size ≤ 2 ^ 60
    → l.buffer_size ≤ 2 ^ 60
    → l.thread_alignment + l.world_chunk_alignment ≤ 2 ^ 60
    → let size = (set_buffer_size l).buffer_size in
      (l.buffer_size + 16 + l.thread_alignment + l.world_chunk_alignment ≤ size)
      × (l.io_depth * l.world_chunk_size ≤ size)
unfolding set_buffer_size
set_buffer_size-room l depth size pads = ground arith
