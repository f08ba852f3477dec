-- ===== src/Layout/Place.antt =====
-- `place_tensor`: the tensor is entered at a place inside the buffer to which its chunks carry it.
use instant_tensor.Base.{
  ℕ, suc, ◌+◌, ◌-◌, ◌^◌, ◌≤◌, ◌<◌, ◌≡◌, refl, sym, ap, ◌∙◌, inl, inr, length, set, length-set, ok,
  ltb, ==_iff, lt→ltb, le→ltb, arith, dec_lt, true,
}
use instant_tensor.Base.Int.{pos}
use instant_tensor.Size.{add_size, sub_size}
use instant_tensor.Size.Rounding.{round_up_bounds}
use instant_tensor.Types.{TensorMetadate}
use instant_tensor.Layout.{Config, Layout, make_room, fill_chunks, enter_tensor, place_tensor}
use instant_tensor.Layout.Valid.{IsValid, IsSane}
use instant_tensor.Layout.Cover.{Covered, Reached-grow}
use instant_tensor.Layout.Prefetch.{Among, IsSafe}
use instant_tensor.Layout.Prefetch.Entering.{Kept-Among, enter-IsSafe}
use instant_tensor.Layout.Room.{Continues, Continues-trans, Roomy, HasRoom, make_room_lem}
use instant_tensor.Layout.Fill.{Filled, fill_chunks_lem}

-- The entry that `place_tensor` makes.
abbrev pub entry : Layout → ℕ → Layout → ℕ → ℕ → TensorMetadate
entry s₁ size s₂ file_index offset = record {
  size = size;
  file_index = file_index;
  file_offset = offset;
  device_buffer_offset =
      add_size (sub_size offset s₁.chunk_file_offset) s₁.chunk_device_buffer_offset;
  last_chunk_id = pos (length s₂.chunks);
  prefetch_chunk_id = pos 0;
}

abbrev pub entered : Layout → ℕ → TensorMetadate → Layout
entered s left t = record s {
  current_chunk_size = add_size s.current_chunk_size left;
  tensors = set s.tensors s.tensor_id t;
  tensor_id = s.tensor_id + 1;
}

-- The state after a tensor of `size` bytes at `offset` of the open file.
pub record Placed (c : Config) (s : Layout) (offset size : ℕ) (s' : Layout) : Type 0 where
  pub before : Layout
  pub continues : Continues s before
  pub tensor : TensorMetadate
  pub sane : IsSane c s'
  pub same_file : s'.chunk_file_index ≡ s.chunk_file_index
  pub position : s'.chunk_file_offset + s'.current_chunk_size ≡ offset + size
  pub id : s'.tensor_id ≡ s.tensor_id + 1
  pub tensors : s'.tensors ≡ set before.tensors s.tensor_id tensor
  pub covers : (t : TensorMetadate) → Covered before t → Covered s' t
  pub identity :
      ◌≡◌ {A = ℕ × ℕ × ℕ}
        (tensor.file_index, tensor.file_offset, tensor.size)
        (s.chunk_file_index, offset, size)
  pub covered : Covered s' tensor
  pub in_buffer : tensor.device_buffer_offset + size ≤ c.buffer_size
  pub room : s'.chunk_device_buffer_offset + s'.current_chunk_size ≤ c.buffer_size
  pub safe : IsSafe c s → IsSafe c s'

module _ (c : Config) (v : IsValid c) (bound : c.buffer_size + c.world_chunk_alignment ≤ 2 ^ 61)
    (s : Layout) (sane : IsSane c s) (offset next : ℕ)
    (here : s.chunk_file_offset + s.current_chunk_size ≡ offset) (order : offset ≤ next)
    (small : next ≤ 2 ^ 61)
    (fits : next - offset + 16 + c.thread_alignment + c.world_chunk_alignment ≤ c.buffer_size)
    (space : s.tensor_id < length s.tensors) where
  module _ (s₁ : Layout) (r : Roomy c s (next - offset) s₁) (s₂ : Layout) (left : ℕ)
      (f : Filled c s₁ (next - offset) (s₂, left)) where
    tensor_offset :
        add_size (sub_size offset s₁.chunk_file_offset) s₁.chunk_device_buffer_offset
        ≡ s₁.chunk_device_buffer_offset + s₁.current_chunk_size
    tensor_offset = omega (arith, r.same_position, r.sane.buffer_fits)

    entered_size : add_size s₂.current_chunk_size left ≡ s₂.current_chunk_size + left
    entered_size = omega (arith, f.fits, v.small)

    -- The room for the tensor, without the rounding.
    room_plain :
        (t : Layout) (size : ℕ)
        → HasRoom c t size
        → t.current_chunk_size ≤ c.world_chunk_size
        → size ≤ 2 ^ 61
        → t.chunk_device_buffer_offset + t.current_chunk_size + size ≤ c.buffer_size
    room_plain t size h le le' = omega (
      arith,
      v.small,
      round_up_bounds (t.current_chunk_size + size) c.world_chunk_alignment v.world_pos
          (omega (arith, v.small)),
    )

    entered-Covered :
        Covered
          (entered s₂ left (entry s₁ (next - offset) s₂ s.chunk_file_index offset))
          (entry s₁ (next - offset) s₂ s.chunk_file_index offset)
    entered-Covered x from upto = elim (dec_lt x (s₂.chunk_file_offset + s₂.current_chunk_size)) [
      | yes inside ↦ inl (
          f.written (entry s₁ (next - offset) s₂ s.chunk_file_index offset) x
            (sym r.continues.same_file) (omega (arith, tensor_offset, r.same_position))
            (omega arith) (omega (arith, r.same_position)) inside)
      | no outside ↦ inr (
        omega arith,
        record {
          same_file = f.continues.same_file ∙ r.continues.same_file;
          from = omega arith;
          upto = omega (arith, entered_size, f.same_end, r.same_position);
          same_place = omega (arith, tensor_offset, f.same_place, r.same_position);
        },
      )
    ]

    -- The tensors of the layer begin before this one.
    entered_behind :
        IsSafe c s₁
        → Among s₂.tensors s₂.left_most_tensor_id s₂.tensor_id (λ u.
          u.device_buffer_offset
          ≤ (entry s₁ (next - offset) s₂ s.chunk_file_index offset).device_buffer_offset)
    entered_behind safe j u low high e =
        Kept-Among s₁.tensors s₂.tensors s₁.left_most_tensor_id s₁.tensor_id
          (add_size (sub_size offset s₁.chunk_file_offset) s₁.chunk_device_buffer_offset)
          f.continues.kept r.sane.tensors_le
          (λ i w low high e. omega (arith, tensor_offset, (safe.current i w low high e).ends)) j u
          (omega (arith, f.same_layer)) (omega (arith, f.continues.same_id)) e

    entered-IsSafe :
        IsSafe c s₁
        → IsSafe c (entered s₂ left (entry s₁ (next - offset) s₂ s.chunk_file_index offset))
    entered-IsSafe safe =
        enter-IsSafe c s₂ (add_size s₂.current_chunk_size left)
          (entry s₁ (next - offset) s₂ s.chunk_file_index offset) f.sane
          (omega (
            arith, f.continues.same_id, r.continues.same_id, f.continues.same_length,
            r.continues.same_length,
          ))
          (omega (arith, entered_size)) refl
          (omega (arith, tensor_offset, entered_size, f.same_place, f.same_end, r.same_position))
          (λ size. omega (arith, entered_size, f.not_empty size)) (entered_behind safe)
          (f.safe safe)

    place_tensor-Placed :
        Placed c s offset
          (next - offset)
          (entered s₂ left (entry s₁ (next - offset) s₂ s.chunk_file_index offset))
    place_tensor-Placed = record {
      before = s₂;
      continues = Continues-trans r.continues f.continues;
      tensor = entry s₁ (next - offset) s₂ s.chunk_file_index offset;
      sane = record {
        page = f.sane.page;
        chunk_le = omega (arith, entered_size, f.fits);
        file_fits = omega (arith, entered_size, f.same_end, r.same_position);
        buffer_fits = omega (
          arith,
          entered_size,
          room_plain s₂ left f.has_room f.sane.chunk_le (omega (arith, f.same_end, f.onward)),
        );
        released_le = f.sane.released_le;
        layer_le = omega (arith, f.sane.layer_le);
        tensors_le = omega (
          arith,
          length-set s₂.tensors s₂.tensor_id
              (entry s₁ (next - offset) s₂ s.chunk_file_index offset),
          f.continues.same_id,
          r.continues.same_id,
          f.continues.same_length,
          r.continues.same_length,
        );
      };
      same_file = f.continues.same_file ∙ r.continues.same_file;
      position = omega (arith, entered_size, f.same_end, r.same_position);
      id = ap (λ k. k + 1) (f.continues.same_id ∙ r.continues.same_id);
      tensors =
          ap (λ k. set s₂.tensors k (entry s₁ (next - offset) s₂ s.chunk_file_index offset))
            (f.continues.same_id ∙ r.continues.same_id);
      covers = λ t h x from upto.
          Reached-grow s₂ (add_size s₂.current_chunk_size left) t x (omega (arith, entered_size))
            (h x from upto);
      identity = refl;
      covered = entered-Covered;
      in_buffer = omega (
        arith,
        tensor_offset,
        room_plain s₁ (next - offset) r.has_room r.sane.chunk_le (omega arith),
      );
      room = omega (
        arith,
        entered_size,
        room_plain s₂ left f.has_room f.sane.chunk_le (omega (arith, f.same_end, f.onward)),
      );
      safe = λ h. entered-IsSafe (r.safe h);
    }

  place_tensor_runs :
      (s₁ s₂ : Layout) (left : ℕ)
      → make_room c s (next - offset) ≡ ok s₁
      → Roomy c s (next - offset) s₁
      → fill_chunks c (suc (suc (next - offset))) s₁ (next - offset) ≡ ok (s₂, left)
      → Filled c s₁ (next - offset) (s₂, left)
      → place_tensor c s s.chunk_file_index offset next
        ≡ ok (entered s₂ left (entry s₁ (next - offset) s₂ s.chunk_file_index offset))
  unfolding place_tensor enter_tensor
  place_tensor_runs s₁ s₂ left made r filled f =
      let size : sub_size next offset ≡ next - offset = omega arith in
      let position : s.current_chunk_size ≡ sub_size offset s.chunk_file_offset = omega arith in
      let free : ltb s₂.tensor_id (length s₂.tensors) ≡ true = lt→ltb _ _ (
        omega (
          arith, f.continues.same_id, r.continues.same_id, f.continues.same_length,
          r.continues.same_length,
        )) in
      rw
        (
          (==_iff _ _).1 position,
          size,
          le→ltb c.buffer_size (next - offset) (omega arith),
          made,
          filled,
          free,
        )
        refl

  place_tensor_done :
      (s₁ : Layout) × (make_room c s (next - offset) ≡ ok s₁) × Roomy c s (next - offset) s₁
      → (s' : Layout) × (place_tensor c s s.chunk_file_index offset next ≡ ok s')
        × Placed c s offset (next - offset) s'
  place_tensor_done (s₁, made, r) = done (
      fill_chunks_lem c v bound (suc (suc (next - offset))) s₁ (next - offset) r.sane r.has_room
        (omega (arith, r.same_position)) (omega (arith, r.sane.chunk_le)))
    where
      done :
          (out : Layout × ℕ) × (fill_chunks c (suc (suc (next - offset))) s₁ (next - offset)
              ≡ ok out)
            × Filled c s₁ (next - offset) out
          → (s' : Layout) × (place_tensor c s s.chunk_file_index offset next ≡ ok s')
            × Placed c s offset (next - offset) s'
      done ((s₂, left), filled, f) = (
        entered s₂ left (entry s₁ (next - offset) s₂ s.chunk_file_index offset),
        place_tensor_runs s₁ s₂ left made r filled f,
        place_tensor-Placed s₁ r s₂ left f,
      )

  pub place_tensor_lem :
      (s' : Layout) × (place_tensor c s s.chunk_file_index offset next ≡ ok s')
      × Placed c s offset (next - offset) s'
  place_tensor_lem = place_tensor_done (make_room_lem c v s sane (next - offset) fits (omega arith))
