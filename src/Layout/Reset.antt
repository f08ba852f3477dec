-- ===== src/Layout/Reset.antt =====
-- The two resets of the open chunk: they succeed once the chunk holds less than a page.
use native.Mathlib.Nat.{mod-lt}
use instant_tensor.Base.{ℕ, ◌+◌, ◌-◌, ◌%◌, ◌^◌, ◌≤◌, ◌<◌, ◌≡◌, refl, length, ok, lt→ltb, arith}
use instant_tensor.Base.Int.{pos, ◌-ℤ◌}
use instant_tensor.Size.{round_down, round_up, add_size, sub_size}
use instant_tensor.Size.Rounding.{round_up_bounds, round_up-mod, round_down-add-mod, round_down-mod}
use instant_tensor.Layout.{Config, Layout, reset_chunk_buffer_offset, reset_chunk_file}
use instant_tensor.Layout.Valid.{IsValid}
use instant_tensor.Layout.Release.{Kept, Released, release_all_lem}

-- The state after `reset_chunk_buffer_offset` to the layer that begins with tensor `left`.
pub record BufferReset (s : Layout) (left : ℕ) (s' : Layout) : Type 0 where
  pub same_file : s'.chunk_file_index ≡ s.chunk_file_index
  pub same_offset : s'.chunk_file_offset ≡ s.chunk_file_offset
  pub same_size : s'.current_chunk_size ≡ s.current_chunk_size
  pub same_id : s'.tensor_id ≡ s.tensor_id
  pub same_chunks : s'.chunks ≡ s.chunks
  pub layer : s'.left_most_tensor_id ≡ left
  pub released_le : s'.in_buffer_tensor_id ≤ s.left_most_tensor_id
  pub same_length : length s'.tensors ≡ length s.tensors
  pub kept : Kept s.tensors s'.tensors
  pub all_released : s'.in_buffer_tensor_id ≡ s.left_most_tensor_id
  pub released :
      Released s.tensors
        (pos (length s.chunks) -ℤ pos 1)
        s.in_buffer_tensor_id
        (s.left_most_tensor_id - s.in_buffer_tensor_id)
        (s'.in_buffer_tensor_id, s'.tensors)
  pub at_start : s'.chunk_device_buffer_offset ≤ 16
  pub aligned : (s'.chunk_device_buffer_offset + s.current_chunk_size) % 16 ≡ 0

pub reset_chunk_buffer_offset_lem :
    (c : Config) (s : Layout) (left : ℕ)
    → s.current_chunk_size < c.thread_alignment
    → s.in_buffer_tensor_id ≤ s.left_most_tensor_id
    → s.left_most_tensor_id ≤ length s.tensors
    → (s' : Layout) × (reset_chunk_buffer_offset c s left ≡ ok s') × BufferReset s left s'
unfolding reset_chunk_buffer_offset
reset_chunk_buffer_offset_lem c s left small released layer =
    let (out, done, r, end) =
      release_all_lem (s.left_most_tensor_id - s.in_buffer_tensor_id)
        (pos (length s.chunks) -ℤ pos 1) s.in_buffer_tensor_id s.tensors (omega arith) in
    let offset = sub_size 16 (s.current_chunk_size % 16) in
    (
      record s {
        in_buffer_tensor_id = out.0;
        tensors = out.1;
        chunk_device_buffer_offset = offset;
        left_most_tensor_id = left;
      },
      rw (lt→ltb _ _ small, done) refl,
      record {
        same_file = refl;
        same_offset = refl;
        same_size = refl;
        same_id = refl;
        same_chunks = refl;
        layer = refl;
        released_le = omega (arith, r.upto);
        same_length = r.same_length;
        kept = r.kept;
        all_released = omega arith;
        released = r;
        at_start = omega arith;
        aligned = omega arith;
      },
    )

-- The state after `reset_chunk_file` to a file whose first tensor is at `offset`.
pub record FileReset (c : Config) (s : Layout) (index offset : ℕ) (s' : Layout) : Type 0 where
  pub file : s'.chunk_file_index ≡ index
  pub position : s'.chunk_file_offset + s'.current_chunk_size ≡ offset
  pub page : s'.chunk_file_offset % c.thread_alignment ≡ 0
  pub small : s'.current_chunk_size < c.thread_alignment
  pub same_id : s'.tensor_id ≡ s.tensor_id
  pub same_released : s'.in_buffer_tensor_id ≡ s.in_buffer_tensor_id
  pub same_layer : s'.left_most_tensor_id ≡ s.left_most_tensor_id
  pub same_tensors : s'.tensors ≡ s.tensors
  pub same_chunks : s'.chunks ≡ s.chunks
  pub room : s'.chunk_device_buffer_offset ≤ s.chunk_device_buffer_offset + 31
  pub behind : s.chunk_device_buffer_offset ≤ s'.chunk_device_buffer_offset
  pub aligned : (s'.chunk_device_buffer_offset + s'.current_chunk_size) % 16 ≡ 0

pub reset_chunk_file_lem :
    (c : Config) (s : Layout) (index offset : ℕ)
    → IsValid c
    → s.current_chunk_size < c.thread_alignment
    → offset ≤ 2 ^ 62
    → s.chunk_device_buffer_offset ≤ 2 ^ 62
    → (s' : Layout) × (reset_chunk_file c s index offset ≡ ok s') × FileReset c s index offset s'
unfolding reset_chunk_file
reset_chunk_file_lem c s index offset v small bound room =
    let size = offset % c.thread_alignment in
    let rounded = round_up s.chunk_device_buffer_offset 16 in
    let rounded_bounds =
      round_up_bounds s.chunk_device_buffer_offset 16 (omega arith) (omega arith) in
    (
      record s {
        chunk_file_index = index;
        chunk_file_offset = round_down offset c.thread_alignment;
        current_chunk_size = size;
        chunk_device_buffer_offset = sub_size (add_size rounded 16) (size % 16);
      },
      rw (lt→ltb _ _ small) refl,
      record {
        file = refl;
        position = round_down-add-mod offset c.thread_alignment (omega arith);
        page = round_down-mod offset c.thread_alignment (omega arith);
        small = mod-lt offset v.page_pos;
        same_id = refl;
        same_released = refl;
        same_layer = refl;
        same_tensors = refl;
        same_chunks = refl;
        room = omega arith;
        behind = omega arith;
        aligned =
            omega (arith, round_up-mod s.chunk_device_buffer_offset 16 (omega arith) (omega arith));
      },
    )
