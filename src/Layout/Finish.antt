-- ===== src/Layout/Finish.antt =====
-- `finish_chunk`: it succeeds, keeps the position in the file, and appends the open chunk.
use native.Mathlib.Nat.{mod-lt, mod-eq_of_lt}
use instant_tensor.Base.{
  ℕ, ◌+◌, ◌-◌, ◌%◌, ◌^◌, ◌≤◌, ◌<◌, ◌≡◌, refl, sym, ap, ◌∙◌, ltb, inl, inr, Bool-cases, ==_iff, some,
  List, [], ◌∷◌, ◌++◌, length, get_elem?, length-append, get_elem?-append, get_elem?-append_last,
  get_elem?-append_cases, ◌⊎◌, ok, arith, ltb→lt, ltb→le,
}
use instant_tensor.Base.Int.{pos, ◌-ℤ◌}
use instant_tensor.Size.{round_up, round_down}
use instant_tensor.Size.Rounding.{round_up_bounds, round_down-add-mod, round_down-mod, add-mod_zero}
use instant_tensor.Size.Rounding.{round_up-of_multiple}
use instant_tensor.Types.{Chunk}
use instant_tensor.Layout.{Config, Layout, open_chunk, advance, release_overwritten, finish_chunk}
use instant_tensor.Layout.Valid.{IsValid, IsSane}
use instant_tensor.Layout.Release.{Kept, Kept-refl, Released, Stopped, release_below_lem}

abbrev pub Extends : List Chunk → List Chunk → Type 0
Extends cs ds = (k : ℕ) (ch : Chunk) → get_elem? cs k ≡ some ch → get_elem? ds k ≡ some ch

-- The state after `finish_chunk`, by what it was before.
pub record Finished (c : Config) (s s' : Layout) : Type 0 where
  pub same_file : s'.chunk_file_index ≡ s.chunk_file_index
  pub file_offset :
      s'.chunk_file_offset
      ≡ s.chunk_file_offset + round_down s.current_chunk_size c.thread_alignment
  pub buffer_offset :
      s'.chunk_device_buffer_offset
      ≡ s.chunk_device_buffer_offset + round_up s.current_chunk_size c.world_chunk_alignment
  pub rest : s'.current_chunk_size ≡ s.current_chunk_size % c.thread_alignment
  pub same_id : s'.tensor_id ≡ s.tensor_id
  pub same_layer : s'.left_most_tensor_id ≡ s.left_most_tensor_id
  pub released_from : s.in_buffer_tensor_id ≤ s'.in_buffer_tensor_id
  pub released_le : s'.in_buffer_tensor_id ≤ s'.left_most_tensor_id
  pub same_length : length s'.tensors ≡ length s.tensors
  pub kept : Kept s.tensors s'.tensors
  pub extends : Extends s.chunks s'.chunks
  pub chunks_le : length s'.chunks ≤ length s.chunks + 1
  pub chunks_from : length s.chunks ≤ length s'.chunks
  pub appended :
      (k : ℕ) (ch : Chunk)
      → get_elem? s'.chunks k ≡ some ch
      → (get_elem? s.chunks k ≡ some ch)
        ⊎ ((k ≡ length s.chunks) × (ch ≡ open_chunk s) × (0 < s.current_chunk_size))
  pub grew : 0 < s.current_chunk_size → length s'.chunks ≡ length s.chunks + 1
  pub stayed : s.current_chunk_size ≡ 0 → s' ≡ s
  pub released :
      0 < s.current_chunk_size
      → Released s.tensors
          (pos (length s'.chunks) -ℤ pos 2)
          s.in_buffer_tensor_id
          (s.left_most_tensor_id - s.in_buffer_tensor_id)
          (s'.in_buffer_tensor_id, s'.tensors)
  pub stopped :
      0 < s.current_chunk_size
      → Stopped s.tensors s'.chunk_device_buffer_offset
          (s.in_buffer_tensor_id + (s.left_most_tensor_id - s.in_buffer_tensor_id))
          (s'.in_buffer_tensor_id, s'.tensors)
  pub closed :
      0 < s.current_chunk_size → get_elem? s'.chunks (length s.chunks) ≡ some (open_chunk s)

round_up-zero : (y : ℕ) → 0 < y → y ≤ 2 ^ 62 → round_up 0 y ≡ 0
round_up-zero y p h = round_up-of_multiple 0 y p (omega arith) (mod-eq_of_lt p)

module _ (c : Config) (v : IsValid c) (s : Layout) (sane : IsSane c s) where
  finish_empty : s.current_chunk_size ≡ 0 → Finished c s s
  finish_empty e = record {
    same_file = refl;
    file_offset = omega (
      arith,
      ap (λ k. round_down k c.thread_alignment) e,
      round_down-add-mod 0 c.thread_alignment (omega arith),
    );
    buffer_offset = omega (
      arith,
      ap (λ k. round_up k c.world_chunk_alignment) e,
      round_up-zero c.world_chunk_alignment v.world_pos (omega (arith, v.small)),
    );
    rest = e ∙ sym (ap (λ k. k % c.thread_alignment) e ∙ mod-eq_of_lt v.page_pos);
    same_id = refl;
    same_layer = refl;
    released_from = omega arith;
    released_le = sane.released_le;
    same_length = refl;
    kept = Kept-refl s.tensors;
    extends = λ k ch h. h;
    chunks_le = omega arith;
    chunks_from = omega arith;
    appended = λ k ch e. inl e;
    grew = λ h. absurd (omega arith);
    stayed = λ h. refl;
    released = λ h. absurd (omega arith);
    stopped = λ h. absurd (omega arith);
    closed = λ h. absurd (omega arith);
  }

  advance_offsets :
      let s' = advance c s in
      (s'.chunk_file_offset
        ≡ s.chunk_file_offset + round_down s.current_chunk_size c.thread_alignment)
      × (s'.chunk_device_buffer_offset
          ≡ s.chunk_device_buffer_offset + round_up s.current_chunk_size c.world_chunk_alignment)
  unfolding advance
  advance_offsets = omega (
    arith,
    round_down-add-mod s.current_chunk_size c.thread_alignment
        (omega (arith, sane.chunk_le, v.small)),
    round_up_bounds s.current_chunk_size c.world_chunk_alignment v.world_pos
        (omega (arith, sane.chunk_le, v.small)),
  )

  finish_full :
      0 < s.current_chunk_size
      → (s' : Layout) × (release_overwritten (advance c s) ≡ ok s') × Finished c s s'
  unfolding release_overwritten advance
  finish_full h =
      let (out, done, r, stop) =
        release_below_lem (s.left_most_tensor_id - s.in_buffer_tensor_id)
          (pos (length (s.chunks ++ open_chunk s ∷ [])) -ℤ pos 2)
          (advance c s).chunk_device_buffer_offset s.in_buffer_tensor_id s.tensors
          (omega (arith, sane.released_le, sane.layer_le, sane.tensors_le)) in
      (
        record (advance c s) { in_buffer_tensor_id = out.0; tensors = out.1 },
        rw done refl,
        record {
          same_file = refl;
          file_offset = advance_offsets.0;
          buffer_offset = advance_offsets.1;
          rest = refl;
          same_id = refl;
          same_layer = refl;
          released_from = r.from;
          released_le = omega (arith, r.upto, sane.released_le);
          same_length = r.same_length;
          kept = r.kept;
          extends = λ k ch e. get_elem?-append s.chunks _ k ch e;
          chunks_le = omega (arith, length-append s.chunks (open_chunk s ∷ []));
          chunks_from = omega (arith, length-append s.chunks (open_chunk s ∷ []));
          appended = λ k ch e. elim (get_elem?-append_cases s.chunks (open_chunk s) ch k e) [
            | inl old ↦ inl old
            | inr (last, same) ↦ inr (last, same, h)
          ];
          grew = λ _. omega (arith, length-append s.chunks (open_chunk s ∷ []));
          stayed = λ e. absurd (omega arith);
          released = λ _. r;
          stopped = λ _. stop;
          closed = λ _. get_elem?-append_last s.chunks (open_chunk s);
        },
      )

  pub finish_chunk_lem : (s' : Layout) × (finish_chunk c s ≡ ok s') × Finished c s s'
  unfolding finish_chunk
  finish_chunk_lem = elim (Bool-cases (ltb 0 s.current_chunk_size)) [
    | inl full ↦
        let (s', done, f) = finish_full (ltb→lt _ _ full) in
        (s', rw (full, (==_iff _ _).1 sane.page) done, f)
    | inr empty ↦ (s, rw empty refl, finish_empty (omega (arith, ltb→le _ _ empty)))
  ]

module _ (c : Config) (v : IsValid c) (s s' : Layout) (sane : IsSane c s)
    (f : Finished c s s') where
  -- The next byte of the file stays where it is.
  pub Finished-position :
      s'.chunk_file_offset + s'.current_chunk_size ≡ s.chunk_file_offset + s.current_chunk_size
  Finished-position = omega (
    arith,
    f.file_offset,
    f.rest,
    round_down-add-mod s.current_chunk_size c.thread_alignment
        (omega (arith, sane.chunk_le, v.small)),
  )

  pub Finished-page : s'.chunk_file_offset % c.thread_alignment ≡ 0
  Finished-page =
      ap (λ k. k % c.thread_alignment) f.file_offset
      ∙ add-mod_zero s.chunk_file_offset (round_down s.current_chunk_size c.thread_alignment)
          c.thread_alignment sane.page
      ∙ round_down-mod s.current_chunk_size c.thread_alignment
          (omega (arith, sane.chunk_le, v.small))

  pub Finished-small : s'.current_chunk_size < c.thread_alignment
  Finished-small = omega (arith, f.rest, mod-lt s.current_chunk_size v.page_pos)

  pub Finished-behind :
      s'.chunk_device_buffer_offset
      ≤ s.chunk_device_buffer_offset + s.current_chunk_size + c.world_chunk_alignment
  Finished-behind = omega (
    arith,
    f.buffer_offset,
    round_up_bounds s.current_chunk_size c.world_chunk_alignment v.world_pos
        (omega (arith, sane.chunk_le, v.small)),
  )
