-- ===== src/Layout/Prefetch.antt =====
-- Prefetching: no chunk up to the prefetch id of a tensor is written over the tensor. The tensors
-- before `in_buffer_tensor_id` have their prefetch id; those up to `left_most_tensor_id` are of the
-- previous layer of the buffer, the others of the current one.
pub mod Marks
pub mod Closing
pub mod Entering
use instant_tensor.Base.{ℕ, ◌+◌, ◌≤◌, ◌<◌, ◌≡◌, ◌⊎◌, some, List, length, get_elem?, arith}
use instant_tensor.Base.Int.{ℤ, pos, ◌≤ℤ◌, ◌<ℤ◌}
use instant_tensor.Size.{round_up}
use instant_tensor.Types.{TensorMetadate, Chunk}
use instant_tensor.Layout.{Config, Layout}

-- The transfer of the chunk, rounded up for the ranks, does not touch the tensor.
abbrev pub Apart : Config → Chunk → TensorMetadate → Type 0
Apart c ch t =
    (t.device_buffer_offset + t.size ≤ ch.device_buffer_offset)
    ⊎ (ch.device_buffer_offset + round_up ch.size c.world_chunk_alignment ≤ t.device_buffer_offset)

-- No chunk behind the tensor's last one touches it.
abbrev pub Untouched : Config → List Chunk → TensorMetadate → Type 0
Untouched c chunks t =
    (k : ℕ) (ch : Chunk) → get_elem? chunks k ≡ some ch → t.last_chunk_id <ℤ pos k → Apart c ch t

-- A tensor with a prefetch id: the id is that of a chunk, or -1, and not before the tensor's last
-- chunk if the tensor has bytes; and no chunk from the last one up to it touches the tensor.
abbrev pub IsHeld : Config → List Chunk → TensorMetadate → Type 0
IsHeld c chunks t = record {
  covers_last : 0 < t.size → t.last_chunk_id ≤ℤ t.prefetch_chunk_id;
  is_chunk : t.prefetch_chunk_id <ℤ pos (length chunks);
  untouched :
      (k : ℕ) (ch : Chunk)
      → get_elem? chunks k ≡ some ch
      → t.last_chunk_id <ℤ pos k
      → pos k ≤ℤ t.prefetch_chunk_id
      → Apart c ch t;
}

-- A tensor of the previous layer, and one of the current layer.
abbrev pub IsOld : Config → List Chunk → TensorMetadate → Type 0
IsOld c chunks t = record {
  closed : 0 < t.size → t.last_chunk_id <ℤ pos (length chunks);
  clear : Untouched c chunks t;
}

abbrev pub IsCurrent : Config → Layout → TensorMetadate → Type 0
IsCurrent c s t = record {
  last_le : t.last_chunk_id ≤ℤ pos (length s.chunks);
  ends : t.device_buffer_offset + t.size ≤ s.chunk_device_buffer_offset + s.current_chunk_size;
  ends_closed :
      t.last_chunk_id <ℤ pos (length s.chunks)
      → t.device_buffer_offset + t.size ≤ s.chunk_device_buffer_offset;
  is_open : pos (length s.chunks) ≤ℤ t.last_chunk_id → 0 < t.size → 0 < s.current_chunk_size;
  clear : Untouched c s.chunks t;
}

-- The tensors from index `a` up to `b`, and any two of them in order.
abbrev pub Among : List TensorMetadate → ℕ → ℕ → (TensorMetadate → Type 0) → Type 0
Among ts a b P = (i : ℕ) (t : TensorMetadate) → a ≤ i → i < b → get_elem? ts i ≡ some t → P t

abbrev pub Pairs : List TensorMetadate → ℕ → ℕ → (TensorMetadate → TensorMetadate → Type 0) → Type 0
Pairs ts a b R =
    (i j : ℕ) (t u : TensorMetadate)
    → a ≤ i
    → i < j
    → j < b
    → get_elem? ts i ≡ some t
    → get_elem? ts j ≡ some u
    → R t u

abbrev pub PlaceOrder : TensorMetadate → TensorMetadate → Type 0
PlaceOrder t u = t.device_buffer_offset ≤ u.device_buffer_offset

abbrev pub PrefetchOrder : TensorMetadate → TensorMetadate → Type 0
PrefetchOrder t u = t.prefetch_chunk_id ≤ℤ u.prefetch_chunk_id

pub record IsSafe (c : Config) (s : Layout) : Type 0 where
  pub held : Among s.tensors 0 s.in_buffer_tensor_id (IsHeld c s.chunks)
  pub held_order : Pairs s.tensors 0 s.in_buffer_tensor_id PrefetchOrder
  pub old : Among s.tensors s.in_buffer_tensor_id s.left_most_tensor_id (IsOld c s.chunks)
  pub old_order : Pairs s.tensors s.in_buffer_tensor_id s.left_most_tensor_id PlaceOrder
  pub current : Among s.tensors s.left_most_tensor_id s.tensor_id (IsCurrent c s)
  pub current_order : Pairs s.tensors s.left_most_tensor_id s.tensor_id PlaceOrder
  pub chunks_fit :
      (k : ℕ) (ch : Chunk)
      → get_elem? s.chunks k ≡ some ch
      → (ch.size ≤ c.world_chunk_size) × (ch.file_index ≤ s.chunk_file_index)
