-- ===== src/Layout/Cover.antt =====
-- Where the bytes of a tensor are: each lies in a chunk, at the same distance from the chunk's
-- place in the device buffer as in the file.
use instant_tensor.Base.{ℕ, ◌+◌, ◌≤◌, ◌<◌, ◌≡◌, ◌⊎◌, inl, inr, some, List, length, get_elem?, arith}
use instant_tensor.Base.Int.{ℤ, pos, ◌≤ℤ◌}
use instant_tensor.Types.{TensorMetadate, Chunk}
use instant_tensor.Layout.{Config, Layout, open_chunk}
use instant_tensor.Layout.Release.{Kept}
use instant_tensor.Layout.Finish.{Extends, Finished}

-- Chunk `ch` has the byte at `x` of the tensor's file, at the tensor's place in the buffer.
abbrev pub Holds : Chunk → TensorMetadate → ℕ → Type 0
Holds ch t x = record {
  same_file : ch.file_index ≡ t.file_index;
  from : ch.file_offset ≤ x;
  upto : x < ch.file_offset + ch.size;
  same_place : ch.device_buffer_offset + t.file_offset ≡ t.device_buffer_offset + ch.file_offset;
}

-- A chunk that the tensor waits for has the byte.
abbrev pub Loaded : List Chunk → TensorMetadate → ℕ → Type 0
Loaded chunks t x =
    (k : ℕ) × (ch : Chunk) × (get_elem? chunks k ≡ some ch)
    × (pos k ≤ℤ t.last_chunk_id)
    × Holds ch t x

abbrev pub Done : List Chunk → TensorMetadate → Type 0
Done chunks t = (x : ℕ) → t.file_offset ≤ x → x < t.file_offset + t.size → Loaded chunks t x

-- The same, while the last chunk is still open.
abbrev pub Reached : Layout → TensorMetadate → ℕ → Type 0
Reached s t x =
    Loaded s.chunks t x ⊎ ((pos (length s.chunks) ≤ℤ t.last_chunk_id) × Holds (open_chunk s) t x)

abbrev pub Covered : Layout → TensorMetadate → Type 0
Covered s t = (x : ℕ) → t.file_offset ≤ x → x < t.file_offset + t.size → Reached s t x

-- What holds of each of the first `n` tensors.
abbrev pub AllPlaced : (ℕ → TensorMetadate → Type 0) → List TensorMetadate → ℕ → Type 0
AllPlaced P ts n = (i : ℕ) → i < n → (t : TensorMetadate) × (get_elem? ts i ≡ some t) × P i t

pub AllPlaced-Kept :
    (P Q : ℕ → TensorMetadate → Type 0) (ts us : List TensorMetadate) (n : ℕ)
    → Kept ts us
    → ((i : ℕ) (t : TensorMetadate) (p : ℤ) → P i t → Q i (record t { prefetch_chunk_id = p }))
    → AllPlaced P ts n
    → AllPlaced Q us n
AllPlaced-Kept P Q ts us n kept keep all i h =
    let (t, e, p) = all i h in
    let (id, f) = kept i t e in (record t { prefetch_chunk_id = id }, f, keep i t id p)

pub Loaded-Extends :
    (cs ds : List Chunk) (t : TensorMetadate) (x : ℕ)
    → Extends cs ds
    → Loaded cs t x
    → Loaded ds t x
Loaded-Extends cs ds t x ext (k, ch, e, le, h) = (k, ch, ext k ch e, le, h)

-- `finish_chunk` puts what was in the open chunk into the vector.
pub Reached-finish :
    (c : Config) (s s' : Layout) (t : TensorMetadate) (x : ℕ)
    → Finished c s s'
    → Reached s t x
    → Loaded s'.chunks t x
Reached-finish c s s' t x f (inl old) = Loaded-Extends s.chunks s'.chunks t x f.extends old
Reached-finish c s s' t x f (inr (le, h)) =
    (length s.chunks, open_chunk s, f.closed (omega (arith, h.from, h.upto)), le, h)

pub Covered-finish :
    (c : Config) (s s' : Layout) (t : TensorMetadate)
    → Finished c s s'
    → Covered s t
    → Done s'.chunks t
Covered-finish c s s' t f covered x from upto = Reached-finish c s s' t x f (covered x from upto)

pub Covered-Done : (s : Layout) (t : TensorMetadate) → Done s.chunks t → Covered s t
Covered-Done s t done x from upto = inl (done x from upto)

-- A larger open chunk has the same bytes and more.
pub Reached-grow :
    (s : Layout) (size : ℕ) (t : TensorMetadate) (x : ℕ)
    → s.current_chunk_size ≤ size
    → Reached s t x
    → Reached (record s { current_chunk_size = size }) t x
Reached-grow s size t x le (inl old) = inl old
Reached-grow s size t x le (inr (last, h)) = inr (
  last,
  record {
    same_file = h.same_file;
    from = h.from;
    upto = omega (arith, h.upto);
    same_place = h.same_place;
  },
)
