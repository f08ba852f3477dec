-- ===== src/Layout/Valid.antt =====
-- The configurations that `init_buffer` leaves, and the invariant of the variables of
-- `compute_layout` by which no size_t operation wraps and no internal check fails.
use instant_tensor.Base.{◌+◌, ◌%◌, ◌^◌, ◌≤◌, ◌<◌, ◌≡◌, length}
use instant_tensor.Layout.{Config, Layout}

pub record IsValid (c : Config) : Type 0 where
  pub page_pos : 0 < c.thread_alignment
  pub world_pos : 0 < c.world_chunk_alignment
  pub chunk_pages : c.world_chunk_size % c.thread_alignment ≡ 0
  pub chunk_worlds : c.world_chunk_size % c.world_chunk_alignment ≡ 0
  pub page_in_chunk : c.thread_alignment ≤ c.world_chunk_size
  pub small : c.world_chunk_size + c.world_chunk_alignment ≤ 2 ^ 62

pub record IsSane (c : Config) (s : Layout) : Type 0 where
  pub page : s.chunk_file_offset % c.thread_alignment ≡ 0
  pub chunk_le : s.current_chunk_size ≤ c.world_chunk_size
  pub file_fits : s.chunk_file_offset + s.current_chunk_size ≤ 2 ^ 62
  pub buffer_fits :
      s.chunk_device_buffer_offset + s.current_chunk_size + c.world_chunk_alignment ≤ 2 ^ 62
  pub released_le : s.in_buffer_tensor_id ≤ s.left_most_tensor_id
  pub layer_le : s.left_most_tensor_id ≤ s.tensor_id
  pub tensors_le : s.tensor_id ≤ length s.tensors
