-- ===== src/Layout/Tests.antt =====
-- A layout of two files, and the theorem on it.
use instant_tensor.Base.{ℕ, ◌≡◌, refl, inl, inr, List, [], ◌∷◌, map, Result, ok, err, arith}
use instant_tensor.Size.{round_up, round_down}
use instant_tensor.Types.{Chunk}
use instant_tensor.Layout.{
  Config, Layout, LayoutError, release_below, release_all, advance, release_overwritten,
  finish_chunk, reset_chunk_buffer_offset, reset_chunk_file, make_room, fill_chunks, enter_tensor,
  place_tensor, next_file, scan, finish_layout, compute_layout, last_or,
}
use instant_tensor.Layout.Valid.{IsValid}
use instant_tensor.Layout.Scan.{entries, IsListed}
use instant_tensor.Layout.Correct.{
  IsCorrect, IsPrefetched, compute_layout-IsCorrect, compute_layout-IsPrefetched,
}

abbrev four_bytes : Config
four_bytes = record {
  thread_alignment = 4;
  world_chunk_alignment = 8;
  world_chunk_size = 16;
  buffer_size = 100;
}

abbrev others : List (ℕ × ℕ)
others = (0, 20) ∷ (0, 50) ∷ (1, 5) ∷ (1, 9) ∷ (1, 60) ∷ []

abbrev chunk_ranges : Result LayoutError Layout → List (ℕ × ℕ × ℕ × ℕ)
chunk_ranges (err e) = []
chunk_ranges (ok s) =
    map (λ (c : Chunk). (c.file_index, c.file_offset, c.size, c.device_buffer_offset)) s.chunks

four_bytes-IsValid : IsValid four_bytes
four_bytes-IsValid = record {
  page_pos = omega arith;
  world_pos = omega arith;
  chunk_pages = refl;
  chunk_worlds = refl;
  page_in_chunk = omega arith;
  small = omega arith;
}

others-IsListed : IsListed four_bytes (0, 6) others
others-IsListed = (
  omega arith,
  inl (refl, omega arith, omega arith),
  (
    omega arith,
    inl (refl, omega arith, omega arith),
    (
      omega arith,
      inr refl,
      (
        omega arith,
        inl (refl, omega arith, omega arith),
        (omega arith, inl (refl, omega arith, omega arith), omega arith),
      ),
    ),
  ),
)

run_chunks :
    chunk_ranges (compute_layout four_bytes ((0, 6) ∷ others))
    ≡ (0, 4, 16, 14)
      ∷ (0, 20, 16, 30)
      ∷ (0, 36, 14, 46)
      ∷ (1, 4, 5, 79)
      ∷ (1, 8, 16, 15)
      ∷ (1, 24, 16, 31)
      ∷ (1, 40, 16, 47)
      ∷ (1, 56, 4, 63)
      ∷ []
unfolding compute_layout finish_layout scan place_tensor make_room fill_chunks enter_tensor
    next_file reset_chunk_file reset_chunk_buffer_offset finish_chunk advance release_overwritten
    release_all release_below round_up round_down
run_chunks = refl

compute_layout_example :
    (s : Layout) × (compute_layout four_bytes ((0, 6) ∷ others) ≡ ok s)
    × IsCorrect four_bytes (entries (0, 6) others) s
compute_layout_example =
    compute_layout-IsCorrect four_bytes four_bytes-IsValid 6 others others-IsListed (omega arith)

compute_layout-IsPrefetched_example :
    (s : Layout) × (compute_layout four_bytes ((0, 6) ∷ others) ≡ ok s)
    × IsPrefetched four_bytes (last_or (0, 6) others).0 s
compute_layout-IsPrefetched_example =
    compute_layout-IsPrefetched four_bytes four_bytes-IsValid 6 others others-IsListed (omega arith)
