-- ===== src/Loader/Geometry.antt =====
-- The preamble of Loader::post_read_chunk and struct ChunkIOParams: which part of a chunk a rank
-- reads, and through which window of the host buffer.
pub mod Shares
use instant_tensor.Base.{ℕ, ◌+◌, ◌*◌, ◌/◌, ◌%◌, min}
use instant_tensor.Base.Int.{ℤ, pos_part}
use instant_tensor.Size.{add_size, sub_size, mul_size, round_up, clamp_size}
use instant_tensor.Types.{Chunk, FileInfo}
use instant_tensor.Loader.{Loader}

-- The event is that of the window.
pub record ChunkIoParams : Type 0 where
  pub chunk_id : ℤ
  pub chunk : Chunk
  pub file : FileInfo
  pub padded_world_chunk_size : ℕ
  pub padded_rank_size : ℕ
  pub padded_thread_size : ℕ
  pub rank_offset : ℕ
  pub rank_size : ℕ
  pub window_idx : ℕ
  pub window_offset : ℕ
  pub rank_dst : ℕ
  pub all_dst : ℕ

-- The id of a chunk that is posted is not negative.
unfoldable pub chunk_io_params : Loader → ℤ → Chunk → FileInfo → ChunkIoParams
chunk_io_params l chunk_id chunk file =
    let padded_world_chunk_size = round_up chunk.size l.world_chunk_alignment in
    let padded_rank_size = padded_world_chunk_size / l.world_size in
    let rank_offset = mul_size padded_rank_size l.rank in
    let window_idx = pos_part chunk_id % l.io_depth in
    record {
      chunk_id = chunk_id;
      chunk = chunk;
      file = file;
      padded_world_chunk_size = padded_world_chunk_size;
      padded_rank_size = padded_rank_size;
      padded_thread_size = padded_rank_size / l.num_threads;
      rank_offset = rank_offset;
      rank_size = clamp_size (sub_size chunk.size rank_offset) padded_rank_size;
      window_idx = window_idx;
      window_offset = mul_size window_idx l.rank_chunk_size;
      rank_dst = add_size (add_size l.device_buffer chunk.device_buffer_offset) rank_offset;
      all_dst = add_size l.device_buffer chunk.device_buffer_offset;
    }

-- The part of thread `i`, as the loops of the four back ends compute it: its offset in the part of
-- the rank, and its size.
unfoldable pub thread_offset : ChunkIoParams → ℕ → ℕ
thread_offset p i = mul_size p.padded_thread_size i

unfoldable pub thread_size : ChunkIoParams → ℕ → ℕ
unfolding thread_offset
thread_size p i =
    clamp_size (sub_size (sub_size p.chunk.size p.rank_offset) (thread_offset p i))
      p.padded_thread_size
