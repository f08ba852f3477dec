-- ===== src/Layout/Fill.antt =====
-- `fill_chunks`: a tensor that goes past the open chunk is cut into whole chunks, whose places in
-- the buffer follow one another as their places in the file do.
use instant_tensor.Base.{
  ℕ, zero, suc, ◌+◌, ◌-◌, ◌^◌, ◌≤◌, ◌<◌, ◌≡◌, refl, sym, ap, ◌∙◌, ltb, true, length, ok, ◌>>=◌,
  lt→ltb, le→ltb, arith, dec_lt,
}
use instant_tensor.Base.Int.{pos, ◌≤ℤ◌}
use instant_tensor.Size.{add_size, sub_size, round_up}
use instant_tensor.Size.Rounding.{
  round_up_bounds, round_up-add, round_up-of_multiple, round_down-add-mod,
}
use instant_tensor.Types.{TensorMetadate}
use instant_tensor.Layout.{Config, Layout, open_chunk, finish_chunk, fill_chunks}
use instant_tensor.Layout.Valid.{IsValid, IsSane}
use instant_tensor.Layout.Finish.{Finished, finish_chunk_lem, Finished-page}
use instant_tensor.Layout.Cover.{Loaded, Covered-finish, Covered-Done, Reached-grow}
use instant_tensor.Layout.Prefetch.{IsSafe}
use instant_tensor.Layout.Prefetch.Closing.{finish_chunk-IsSafe}
use instant_tensor.Layout.Prefetch.Entering.{grow-IsSafe}
use instant_tensor.Layout.Room.{Continues, Continues-refl, Continues-trans, HasRoom}

-- The bytes from the old position to the new one are in whole chunks, wherever the tensor that has
-- them is placed as the open chunk says.
abbrev pub Written : Layout → Layout → Type 0
Written s s' =
    (t : TensorMetadate) (x : ℕ)
    → t.file_index ≡ s.chunk_file_index
    → s.chunk_device_buffer_offset + t.file_offset ≡ t.device_buffer_offset + s.chunk_file_offset
    → pos (length s'.chunks) ≤ℤ t.last_chunk_id
    → s.chunk_file_offset + s.current_chunk_size ≤ x
    → x < s'.chunk_file_offset + s'.current_chunk_size
    → Loaded s'.chunks t x

pub record Filled (c : Config) (s : Layout) (left : ℕ) (out : Layout × ℕ) : Type 0 where
  pub continues : Continues s out.0
  pub sane : IsSane c out.0
  pub fits : out.0.current_chunk_size + out.1 ≤ c.world_chunk_size
  pub same_end :
      out.0.chunk_file_offset + out.0.current_chunk_size + out.1
      ≡ s.chunk_file_offset + s.current_chunk_size + left
  pub onward :
      s.chunk_file_offset + s.current_chunk_size
      ≤ out.0.chunk_file_offset + out.0.current_chunk_size
  pub same_place :
      out.0.chunk_device_buffer_offset + s.chunk_file_offset
      ≡ s.chunk_device_buffer_offset + out.0.chunk_file_offset
  pub has_room : HasRoom c out.0 out.1
  pub written : Written s out.0
  pub same_layer : out.0.left_most_tensor_id ≡ s.left_most_tensor_id
  pub not_empty : 0 < left → 0 < out.1
  pub safe : IsSafe c s → IsSafe c out.0

abbrev full : Config → Layout → Layout
full c s = record s { current_chunk_size = c.world_chunk_size }

module _ (c : Config) (v : IsValid c)
    (bound : c.buffer_size + c.world_chunk_alignment ≤ 2 ^ 61) where
  module _ (s : Layout) (sane : IsSane c s) (left : ℕ) (room : HasRoom c s left)
      (over : c.world_chunk_size < s.current_chunk_size + left)
      (ends : s.chunk_file_offset + s.current_chunk_size + left ≤ 2 ^ 62) where
    full-IsSane : IsSane c (full c s)
    full-IsSane = record {
      page = sane.page;
      chunk_le = omega arith;
      file_fits = omega arith;
      buffer_fits = omega (
        arith,
        round_up_bounds (s.current_chunk_size + left) c.world_chunk_alignment v.world_pos
            (omega (arith, sane.chunk_le, v.small)),
      );
      released_le = sane.released_le;
      layer_le = sane.layer_le;
      tensors_le = sane.tensors_le;
    }

    module _ (s₁ : Layout) (f : Finished c (full c s) s₁) where
      full_offset : s₁.chunk_file_offset ≡ s.chunk_file_offset + c.world_chunk_size
      full_offset = omega (
        arith,
        f.file_offset,
        v.chunk_pages,
        round_down-add-mod c.world_chunk_size c.thread_alignment (omega (arith, v.small)),
      )

      full_buffer_offset :
          s₁.chunk_device_buffer_offset ≡ s.chunk_device_buffer_offset + c.world_chunk_size
      full_buffer_offset = omega (
        arith,
        f.buffer_offset,
        round_up-of_multiple c.world_chunk_size c.world_chunk_alignment v.world_pos
            (omega (arith, v.small)) v.chunk_worlds,
      )

      full_rest : s₁.current_chunk_size ≡ 0
      full_rest = f.rest ∙ v.chunk_pages

      full-Continues : Continues s s₁
      full-Continues = record {
        same_file = f.same_file;
        same_id = f.same_id;
        same_length = f.same_length;
        kept = f.kept;
        extends = f.extends;
        chunks_from = f.chunks_from;
        covers = λ t h. Covered-Done s₁ t (
            Covered-finish c (full c s) s₁ t f
              (λ x from upto. Reached-grow s c.world_chunk_size t x sane.chunk_le (h x from upto)));
      }

      after-IsSane : IsSane c s₁
      after-IsSane = record {
        page = Finished-page c v (full c s) s₁ full-IsSane f;
        chunk_le = omega (arith, full_rest);
        file_fits = omega (arith, full_rest, full_offset);
        buffer_fits = omega (
          arith,
          full_rest,
          full_buffer_offset,
          round_up_bounds (s.current_chunk_size + left) c.world_chunk_alignment v.world_pos
              (omega (arith, sane.chunk_le, v.small)),
        );
        released_le = f.released_le;
        layer_le = omega (arith, f.released_le, f.same_layer, f.same_id, sane.layer_le);
        tensors_le = omega (arith, f.same_id, f.same_length, sane.tensors_le);
      }

      after_room : HasRoom c s₁ (left - (c.world_chunk_size - s.current_chunk_size))
      after_room = omega (
        arith,
        room,
        full_buffer_offset,
        round_up-add c.world_chunk_size (left - (c.world_chunk_size - s.current_chunk_size))
            c.world_chunk_alignment v.world_pos
            (omega (arith, sane.buffer_fits, sane.chunk_le, v.small)) v.chunk_worlds,
        ap (λ k. round_up k c.world_chunk_alignment)
            {x = s₁.current_chunk_size + (left - (c.world_chunk_size - s.current_chunk_size))}
            {y = left - (c.world_chunk_size - s.current_chunk_size)} (omega (arith, full_rest)),
        ap (λ k. round_up k c.world_chunk_alignment)
            {x = c.world_chunk_size + (left - (c.world_chunk_size - s.current_chunk_size))}
            {y = s.current_chunk_size + left} (omega (arith, sane.chunk_le)),
      )

      -- What the rest of the loop does, together with the first round.
      extend :
          (out : Layout × ℕ)
          → Filled c s₁ (left - (c.world_chunk_size - s.current_chunk_size)) out
          → Filled c s left out
      extend out r = record {
        continues = Continues-trans full-Continues r.continues;
        sane = r.sane;
        fits = r.fits;
        same_end = omega (arith, r.same_end, full_rest, full_offset, sane.chunk_le);
        onward = omega (arith, r.onward, full_rest, full_offset, sane.chunk_le);
        same_place = omega (arith, r.same_place, full_offset, full_buffer_offset);
        has_room = r.has_room;
        same_layer = r.same_layer ∙ f.same_layer;
        not_empty = λ _. r.not_empty (omega (arith, sane.chunk_le));
        safe = λ h. r.safe (
            finish_chunk-IsSafe c v (full c s) s₁ full-IsSane
              (grow-IsSafe c s c.world_chunk_size sane.chunk_le h) f);
        written = λ t x file place last from upto.
            elim (dec_lt x (s.chunk_file_offset + c.world_chunk_size)) [
              | yes here ↦ (
                length s.chunks,
                open_chunk (full c s),
                r.continues.extends _ _ (f.closed (omega (arith, v.page_pos, v.page_in_chunk))),
                omega (arith, full-Continues.chunks_from, r.continues.chunks_from),
                record {
                  same_file = sym file;
                  from = omega arith;
                  upto = here;
                  same_place = place;
                },
              )
              | no beyond ↦
                  r.written t x (file ∙ sym f.same_file)
                    (omega (arith, full_offset, full_buffer_offset)) last
                    (omega (arith, full_offset, full_rest)) upto
            ];
      }

  fill_step :
      (fuel : ℕ) (s : Layout) (left : ℕ)
      → IsSane c s
      → left ≤ 2 ^ 62
      → c.world_chunk_size < s.current_chunk_size + left
      → fill_chunks c (suc fuel) s left ≡ (
          finish_chunk c (full c s) >>= λ s'.
          fill_chunks c fuel s' (left - (c.world_chunk_size - s.current_chunk_size)))
  unfolding fill_chunks
  fill_step fuel s left sane small over =
      let test : ltb c.world_chunk_size (add_size s.current_chunk_size left) ≡ true =
        lt→ltb _ _ (omega (arith, v.small)) in
      let size : add_size s.current_chunk_size (sub_size c.world_chunk_size s.current_chunk_size)
          ≡ c.world_chunk_size =
        omega (arith, v.small) in
      let rest : sub_size left (sub_size c.world_chunk_size s.current_chunk_size)
          ≡ left - (c.world_chunk_size - s.current_chunk_size) =
        omega (arith, v.small) in
      rw (test, size, rest) refl

  fill_stop :
      (s : Layout) (left : ℕ)
      → IsSane c s
      → HasRoom c s left
      → s.current_chunk_size + left ≤ c.world_chunk_size
      → Filled c s left (s, left)
  fill_stop s left sane room fits = record {
    continues = Continues-refl s;
    sane = sane;
    fits = fits;
    same_end = refl;
    onward = omega arith;
    same_place = refl;
    has_room = room;
    same_layer = refl;
    not_empty = λ h. h;
    safe = λ h. h;
    written = λ t x file place last from upto. absurd (omega arith);
  }

  -- Enough fuel is a round for each byte, and one more if the open chunk is full already.
  pub fill_chunks_lem :
      (fuel : ℕ) (s : Layout) (left : ℕ)
      → IsSane c s
      → HasRoom c s left
      → s.chunk_file_offset + s.current_chunk_size + left ≤ 2 ^ 62
      → left + (s.current_chunk_size + 1 - c.world_chunk_size) < fuel
      → (out : Layout × ℕ) × (fill_chunks c fuel s left ≡ ok out) × Filled c s left out
  unfolding fill_chunks
  fill_chunks_lem zero s left sane room ends h = absurd (omega arith)
  fill_chunks_lem (suc fuel) s left sane room ends h =
      elim (dec_lt c.world_chunk_size (s.current_chunk_size + left)) [
        | no inside ↦ (
          (s, left),
          rw (le→ltb c.world_chunk_size (add_size s.current_chunk_size left) (omega arith)) refl,
          fill_stop s left sane room (omega arith),
        )
        | yes over ↦
            let (s₁, done, f) =
              finish_chunk_lem c v (full c s) (full-IsSane s sane left room over ends) in
            let (out, rest, r) =
              fill_chunks_lem fuel s₁ (left - (c.world_chunk_size - s.current_chunk_size))
                (after-IsSane s sane left room over ends s₁ f)
                (after_room s sane left room over ends s₁ f)
                (omega (
                  arith,
                  full_offset s sane left room over ends s₁ f,
                  full_rest s sane left room over ends s₁ f,
                  sane.chunk_le,
                ))
                (omega (
                  arith,
                  full_rest s sane left room over ends s₁ f,
                  sane.chunk_le,
                  v.page_pos,
                  v.page_in_chunk,
                )) in
            (
              out,
              fill_step fuel s left sane (omega arith) over ∙ rw done rest,
              extend s sane left room over ends s₁ f out r,
            )
      ]
