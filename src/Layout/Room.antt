-- ===== src/Layout/Room.antt =====
-- `make_room`: it leaves room for the tensor behind the open chunk, at the same place of the file.
use instant_tensor.Base.{
  ℕ, ◌+◌, ◌%◌, ◌^◌, ◌≤◌, ◌≡◌, refl, sym, ap, ◌∙◌, ltb, inl, inr, Bool-cases, length, ok, ◌>>=◌,
  ltb→le, false, subst, arith,
}
use instant_tensor.Size.{add_size, round_up}
use instant_tensor.Size.Rounding.{round_up_bounds}
use instant_tensor.Types.{TensorMetadate}
use instant_tensor.Layout.{Config, Layout, make_room, finish_chunk, reset_chunk_buffer_offset}
use instant_tensor.Layout.Valid.{IsValid, IsSane}
use instant_tensor.Layout.Release.{Kept, Kept-refl, Kept-trans}
use instant_tensor.Layout.Finish.{
  Extends, Finished, finish_chunk_lem, Finished-position, Finished-page, Finished-small,
}
use instant_tensor.Layout.Cover.{Covered, Done, Covered-finish, Covered-Done}
use instant_tensor.Layout.Prefetch.{IsSafe}
use instant_tensor.Layout.Prefetch.Closing.{
  finish_chunk-IsSafe, finish_chunk-IsClosed, finish_chunk-IsLayered,
  reset_chunk_buffer_offset-IsSafe,
}
use instant_tensor.Layout.Reset.{BufferReset, reset_chunk_buffer_offset_lem}

-- What steps within a file keep.
pub record Continues (s s' : Layout) : Type 0 where
  pub same_file : s'.chunk_file_index ≡ s.chunk_file_index
  pub same_id : s'.tensor_id ≡ s.tensor_id
  pub same_length : length s'.tensors ≡ length s.tensors
  pub kept : Kept s.tensors s'.tensors
  pub extends : Extends s.chunks s'.chunks
  pub chunks_from : length s.chunks ≤ length s'.chunks
  pub covers : (t : TensorMetadate) → Covered s t → Covered s' t

pub Continues-refl : (s : Layout) → Continues s s
Continues-refl s = record {
  same_file = refl;
  same_id = refl;
  same_length = refl;
  kept = Kept-refl s.tensors;
  extends = λ k ch e. e;
  chunks_from = omega arith;
  covers = λ t h. h;
}

pub Continues-trans : {s s' s'' : Layout} → Continues s s' → Continues s' s'' → Continues s s''
Continues-trans a b = record {
  same_file = b.same_file ∙ a.same_file;
  same_id = b.same_id ∙ a.same_id;
  same_length = b.same_length ∙ a.same_length;
  kept = Kept-trans _ _ _ a.kept b.kept;
  extends = λ k ch e. b.extends k ch (a.extends k ch e);
  chunks_from = omega (arith, a.chunks_from, b.chunks_from);
  covers = λ t h. b.covers t (a.covers t h);
}

-- The room for `size` bytes, rounded as the transfer of the chunk is.
abbrev pub HasRoom : Config → Layout → ℕ → Type 0
HasRoom c s size =
    s.chunk_device_buffer_offset + round_up (s.current_chunk_size + size) c.world_chunk_alignment
    ≤ c.buffer_size

pub record Roomy (c : Config) (s : Layout) (size : ℕ) (s' : Layout) : Type 0 where
  pub continues : Continues s s'
  pub sane : IsSane c s'
  pub same_position :
      s'.chunk_file_offset + s'.current_chunk_size ≡ s.chunk_file_offset + s.current_chunk_size
  pub has_room : HasRoom c s' size
  pub safe : IsSafe c s → IsSafe c s'

module _ (c : Config) (v : IsValid c) (s : Layout) (sane : IsSane c s) (size : ℕ)
    (fits : size + 16 + c.thread_alignment + c.world_chunk_alignment ≤ c.buffer_size)
    (bound : c.buffer_size + c.world_chunk_alignment ≤ 2 ^ 62) where
  -- No sum of the test wraps.
  room_sum :
      add_size s.chunk_device_buffer_offset
        (round_up (add_size s.current_chunk_size size) c.world_chunk_alignment)
      ≡ s.chunk_device_buffer_offset
        + round_up (s.current_chunk_size + size) c.world_chunk_alignment
  room_sum =
      ap (λ k. add_size s.chunk_device_buffer_offset (round_up k c.world_chunk_alignment))
        {x = add_size s.current_chunk_size size} {y = s.current_chunk_size + size}
        (omega (arith, sane.buffer_fits))
      ∙ omega (
        arith,
        sane.buffer_fits,
        round_up_bounds (s.current_chunk_size + size) c.world_chunk_alignment v.world_pos
            (omega (arith, sane.buffer_fits)),
      )

  restart-Continues :
      (s₁ s₂ : Layout) → Finished c s s₁ → BufferReset s₁ s₁.tensor_id s₂ → Continues s s₂
  restart-Continues s₁ s₂ f r = record {
    same_file = r.same_file ∙ f.same_file;
    same_id = r.same_id ∙ f.same_id;
    same_length = r.same_length ∙ f.same_length;
    kept = Kept-trans _ _ _ f.kept r.kept;
    extends = subst (Extends s.chunks) (sym r.same_chunks) f.extends;
    chunks_from = omega (arith, f.chunks_from, ap length r.same_chunks);
    covers = λ t h.
        Covered-Done s₂ t
          (subst (λ cs. Done cs t) (sym r.same_chunks) (Covered-finish c s s₁ t f h));
  }

  restart-Roomy :
      (s₁ s₂ : Layout) → Finished c s s₁ → BufferReset s₁ s₁.tensor_id s₂ → Roomy c s size s₂
  restart-Roomy s₁ s₂ f r =
      let position = Finished-position c v s s₁ sane f in
      let small = Finished-small c v s s₁ sane f in
      let rounding =
        round_up_bounds (s₂.current_chunk_size + size) c.world_chunk_alignment v.world_pos
          (omega (arith, r.same_size, v.page_in_chunk, v.small)) in
      record {
        continues = restart-Continues s₁ s₂ f r;
        sane = record {
          page = ap (λ k. k % c.thread_alignment) r.same_offset ∙ Finished-page c v s s₁ sane f;
          chunk_le = omega (arith, r.same_size, v.page_in_chunk);
          file_fits = omega (arith, r.same_size, r.same_offset, sane.file_fits);
          buffer_fits = omega (arith, r.same_size, r.at_start);
          released_le =
              omega (arith, r.released_le, r.layer, f.same_id, f.same_layer, sane.layer_le);
          layer_le = omega (arith, r.layer, r.same_id);
          tensors_le =
              omega (arith, r.same_id, f.same_id, r.same_length, f.same_length, sane.tensors_le);
        };
        same_position = omega (arith, r.same_size, r.same_offset);
        has_room = omega (arith, r.same_size, r.at_start);
        safe = λ h.
            reset_chunk_buffer_offset-IsSafe c s₁ s₂ (finish_chunk-IsLayered c v s s₁ sane h f)
              (finish_chunk-IsSafe c v s s₁ sane h f) (finish_chunk-IsClosed c v s s₁ sane h f) r;
      }

  restart :
      (s' : Layout) × ((finish_chunk c s >>= λ t. reset_chunk_buffer_offset c t t.tensor_id)
        ≡ ok s')
      × Roomy c s size s'
  restart =
      let (s₁, done, f) = finish_chunk_lem c v s sane in
      let (s₂, reset, r) =
        reset_chunk_buffer_offset_lem c s₁ s₁.tensor_id (Finished-small c v s s₁ sane f)
          f.released_le
          (omega (arith, f.same_layer, f.same_length, sane.layer_le, sane.tensors_le)) in
      (s₂, rw done reset, restart-Roomy s₁ s₂ f r)

  stay :
      ltb c.buffer_size (
          add_size s.chunk_device_buffer_offset
            (round_up (add_size s.current_chunk_size size) c.world_chunk_alignment))
        ≡ false
      → Roomy c s size s
  stay free = record {
    continues = Continues-refl s;
    sane = sane;
    same_position = refl;
    has_room = omega (arith, room_sum, ltb→le _ _ free);
    safe = λ h. h;
  }

  pub make_room_lem : (s' : Layout) × (make_room c s size ≡ ok s') × Roomy c s size s'
  unfolding make_room
  make_room_lem =
      elim (Bool-cases (
        ltb c.buffer_size (
          add_size s.chunk_device_buffer_offset
            (round_up (add_size s.current_chunk_size size) c.world_chunk_alignment)))) [
              | inl full ↦ let (s', done, r) = restart in (s', rw full done, r)
              | inr free ↦ (s, rw free refl, stay free)
            ]
