-- ===== src/Layout.antt =====
-- Loader::compute_layout of csrc/loader_common.cpp: the places of tensors and chunks in the device
-- buffer. The lambdas of the function are the operations on `Layout`, the record of the variables
-- that they capture by reference.
mod Tests
pub mod Release
pub mod Valid
pub mod Finish
pub mod Cover
pub mod Reset
pub mod Prefetch
pub mod Room
pub mod Fill
pub mod Place
pub mod Scan
pub mod Correct
use instant_tensor.Base.{
  ℕ, zero, suc, ◌+◌, ◌-◌, ◌%◌, Bool, not, ltb, leb, ◌==◌, if◌then◌else◌, Option, none, some, List,
  [], ◌∷◌, ◌++◌, length, get_elem?, set, replicate, Result, ok, err, ◌>>=◌, ◌>>◌, guard, or_fail,
}
use instant_tensor.Base.Int.{ℤ, pos, ◌-ℤ◌}
use instant_tensor.Size.{add_size, sub_size, round_up, round_down}
use instant_tensor.Types.{TensorMetadate, Chunk}

-- The members of Loader that the function reads.
pub record Config : Type 0 where
  pub thread_alignment : ℕ
  pub world_chunk_alignment : ℕ
  pub world_chunk_size : ℕ
  pub buffer_size : ℕ

abbrev pub first_tensor_alignment : ℕ
first_tensor_alignment = 16

-- What the function throws; `out_of_bounds` is an access outside a vector, which is undefined in
-- C++, `length_error` the exception of `resize`, and `diverges` a loop that does not end.
pub data LayoutError : Type 0 where
  chunk_alignment unchunked_page_buffer unchunked_page_file size_mismatch : LayoutError
  buffer_too_small out_of_bounds length_error diverges : LayoutError

pub record Layout : Type 0 where
  pub chunk_file_index : ℕ
  pub chunk_file_offset : ℕ
  pub chunk_device_buffer_offset : ℕ
  pub current_chunk_size : ℕ
  pub tensor_id : ℕ
  pub in_buffer_tensor_id : ℕ
  pub left_most_tensor_id : ℕ
  pub tensors : List TensorMetadate
  pub chunks : List Chunk

-- A value-initialised element of the vector `tensors`.
abbrev pub no_tensor : TensorMetadate
no_tensor = record {
  size = 0;
  file_index = 0;
  file_offset = 0;
  device_buffer_offset = 0;
  last_chunk_id = pos 0;
  prefetch_chunk_id = pos 0;
}

-- The chunk that `finish_chunk` appends.
abbrev pub open_chunk : Layout → Chunk
open_chunk s = record {
  size = s.current_chunk_size;
  file_index = s.chunk_file_index;
  file_offset = s.chunk_file_offset;
  device_buffer_offset = s.chunk_device_buffer_offset;
  request = record { executor = none; wait_handle = pos 0 };
  extra_data = record { unfinished_cnt = 0 };
}

-- The loop of `finish_chunk` over the tensors of the previous layer, `count` of them from index `i`
-- on: those that start below `limit` are no longer in the buffer after chunk `id`.
pub release_below :
    ℕ → ℤ → ℕ → ℕ → List TensorMetadate → Result LayoutError (ℕ × List TensorMetadate)
release_below zero id limit i ts = ok (i, ts)
release_below (suc count) id limit i ts = elim (get_elem? ts i) [
  | none ↦ err out_of_bounds
  | some t ↦
      let rest =
        release_below count id limit (i + 1) (set ts i (record t { prefetch_chunk_id = id })) in
      if ltb t.device_buffer_offset limit then rest else ok (i, ts)
]

-- The loop of `reset_chunk_buffer_offset`: all of them.
pub release_all : ℕ → ℤ → ℕ → List TensorMetadate → Result LayoutError (ℕ × List TensorMetadate)
release_all zero id i ts = ok (i, ts)
release_all (suc count) id i ts = elim (get_elem? ts i) [
  | none ↦ err out_of_bounds
  | some t ↦ release_all count id (i + 1) (set ts i (record t { prefetch_chunk_id = id }))
]

-- The offsets after the open chunk was appended.
pub advance : Config → Layout → Layout
advance c s = record s {
  chunks = s.chunks ++ open_chunk s ∷ [];
  chunk_file_offset =
      add_size s.chunk_file_offset (round_down s.current_chunk_size c.thread_alignment);
  chunk_device_buffer_offset =
      add_size s.chunk_device_buffer_offset (round_up s.current_chunk_size c.world_chunk_alignment);
  current_chunk_size = s.current_chunk_size % c.thread_alignment;
}

pub release_overwritten : Layout → Result LayoutError Layout
release_overwritten s = do
  (i, ts) ←
      release_below (s.left_most_tensor_id - s.in_buffer_tensor_id) (pos (length s.chunks) -ℤ pos 2)
        s.chunk_device_buffer_offset s.in_buffer_tensor_id s.tensors
  ok (record s { in_buffer_tensor_id = i; tensors = ts })

pub finish_chunk : Config → Layout → Result LayoutError Layout
finish_chunk c s =
    if ltb 0 s.current_chunk_size
    then (do
      guard (s.chunk_file_offset % c.thread_alignment == 0) chunk_alignment
      release_overwritten (advance c s))
    else ok s

pub reset_chunk_buffer_offset : Config → Layout → ℕ → Result LayoutError Layout
reset_chunk_buffer_offset c s new_left_most_tensor_id = do
  guard (ltb s.current_chunk_size c.thread_alignment) unchunked_page_buffer
  (i, ts) ←
      release_all (s.left_most_tensor_id - s.in_buffer_tensor_id) (pos (length s.chunks) -ℤ pos 1)
        s.in_buffer_tensor_id s.tensors
  ok (record s {
    in_buffer_tensor_id = i;
    tensors = ts;
    chunk_device_buffer_offset =
        sub_size first_tensor_alignment (s.current_chunk_size % first_tensor_alignment);
    left_most_tensor_id = new_left_most_tensor_id;
  })

pub reset_chunk_file : Config → Layout → ℕ → ℕ → Result LayoutError Layout
reset_chunk_file c s file_index file_offset = do
  guard (ltb s.current_chunk_size c.thread_alignment) unchunked_page_file
  let size = file_offset % c.thread_alignment
  ok (record s {
    chunk_file_index = file_index;
    chunk_file_offset = round_down file_offset c.thread_alignment;
    current_chunk_size = size;
    chunk_device_buffer_offset =
        sub_size
          (add_size (round_up s.chunk_device_buffer_offset first_tensor_alignment)
            first_tensor_alignment)
          (size % first_tensor_alignment);
  })

-- The test before a tensor of `size` bytes is placed: without room behind the open chunk, the
-- layout goes on at the beginning of the buffer.
pub make_room : Config → Layout → ℕ → Result LayoutError Layout
make_room c s size =
    if ltb c.buffer_size (
      add_size s.chunk_device_buffer_offset
        (round_up (add_size s.current_chunk_size size) c.world_chunk_alignment))
    then (do s' ← finish_chunk c s; reset_chunk_buffer_offset c s' s'.tensor_id)
    else ok s

-- `while(current_chunk_size + tensor_size_left > world_chunk_size)`, with fuel.
pub fill_chunks : Config → ℕ → Layout → ℕ → Result LayoutError (Layout × ℕ)
fill_chunks c zero s left = err diverges
fill_chunks c (suc fuel) s left =
    let size_add = sub_size c.world_chunk_size s.current_chunk_size in
    let more =
      finish_chunk c (record s { current_chunk_size = add_size s.current_chunk_size size_add })
      >>= λ s'. fill_chunks c fuel s' (sub_size left size_add) in
    if ltb c.world_chunk_size (add_size s.current_chunk_size left) then more else ok (s, left)

-- The end of the loop body: the rest of the tensor joins the open chunk, and the tensor is entered.
pub enter_tensor : Layout → ℕ → ℕ → ℕ → ℕ → ℕ → Result LayoutError Layout
enter_tensor s left size file_index file_offset device_buffer_offset = do
  guard (ltb s.tensor_id (length s.tensors)) out_of_bounds
  ok (record s {
    current_chunk_size = add_size s.current_chunk_size left;
    tensors = set s.tensors s.tensor_id (record {
      size = size;
      file_index = file_index;
      file_offset = file_offset;
      device_buffer_offset = device_buffer_offset;
      last_chunk_id = pos (length s.chunks);
      prefetch_chunk_id = pos 0;
    });
    tensor_id = s.tensor_id + 1;
  })

-- The iteration of a tensor at `offset` in file `file_index`, up to `next`. Each round but the first
-- takes a byte or more from the rest, so `size + 2` rounds are enough.
pub place_tensor : Config → Layout → ℕ → ℕ → ℕ → Result LayoutError Layout
place_tensor c s file_index offset next = do
  guard (s.current_chunk_size == sub_size offset s.chunk_file_offset) size_mismatch
  let size = sub_size next offset
  guard (not (ltb c.buffer_size size)) buffer_too_small
  s₁ ← make_room c s size
  let device_buffer_offset =
      add_size (sub_size offset s₁.chunk_file_offset) s₁.chunk_device_buffer_offset
  (s₂, left) ← fill_chunks c (suc (suc size)) s₁ size
  enter_tensor s₂ left size file_index offset device_buffer_offset

-- The iteration at the last offset of a file, where `(file_index, offset)` begins the next.
pub next_file : Config → Layout → ℕ → ℕ → Result LayoutError Layout
next_file c s file_index offset = do s' ← finish_chunk c s; reset_chunk_file c s' file_index offset

-- The loop over the offsets: the current one and those behind it.
pub scan : Config → Layout → ℕ × ℕ → List (ℕ × ℕ) → Result LayoutError Layout
scan c s current [] = ok s
scan c s current (next ∷ rest) = do
  s' ←
      (if current.0 == next.0
        then place_tensor c s current.0 current.1 next.1
        else next_file c s next.0 next.1)
  scan c s' next rest

abbrev pub last_or : ℕ × ℕ → List (ℕ × ℕ) → ℕ × ℕ
last_or x [] = x
last_or x (y ∷ ys) = last_or y ys

abbrev pub empty_layout : ℕ → Layout
empty_layout num_tensors = record {
  chunk_file_index = 0;
  chunk_file_offset = 0;
  chunk_device_buffer_offset = 0;
  current_chunk_size = 0;
  tensor_id = 0;
  in_buffer_tensor_id = 0;
  left_most_tensor_id = 0;
  tensors = replicate num_tensors no_tensor;
  chunks = [];
}

-- The calls behind the loop.
pub finish_layout : Config → Layout → Result LayoutError Layout
finish_layout c s = do
  s₁ ← finish_chunk c s
  s₂ ← reset_chunk_buffer_offset c s₁ s₁.tensor_id
  reset_chunk_buffer_offset c s₂ s₂.tensor_id

-- The function, on a fresh Loader. With fewer offsets than files the count of tensors wraps, and
-- `resize` throws.
pub compute_layout : Config → List (ℕ × ℕ) → Result LayoutError Layout
compute_layout c [] = err out_of_bounds
compute_layout c (first ∷ rest) = do
  let num_files = add_size (last_or first rest).0 1
  guard (leb num_files (suc (length rest))) length_error
  s₀ ← reset_chunk_file c (empty_layout (suc (length rest) - num_files)) first.0 first.1
  s₁ ← scan c s₀ first rest
  finish_layout c s₁
