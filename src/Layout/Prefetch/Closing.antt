-- ===== src/Layout/Prefetch/Closing.antt =====
-- `finish_chunk` and the two resets keep the layout safe.
use instant_tensor.Base.{
  ℕ, ◌+◌, ◌-◌, ◌≤◌, ◌<◌, ◌≡◌, ◌⊎◌, inl, inr, refl, sym, ap, subst, ◌∙◌, some, List, length,
  get_elem?, get_elem?-of_lt, arith, dec_lt, ℕ_discrete,
}
use instant_tensor.Base.Int.{ℤ, pos, ◌-ℤ◌, ◌≤ℤ◌, ◌<ℤ◌}
use instant_tensor.Size.Rounding.{round_up_bounds}
use instant_tensor.Types.{TensorMetadate, Chunk}
use instant_tensor.Layout.{Config, Layout, open_chunk}
use instant_tensor.Layout.Valid.{IsValid, IsSane}
use instant_tensor.Layout.Finish.{Finished}
use instant_tensor.Layout.Reset.{BufferReset, FileReset}
use instant_tensor.Layout.Prefetch.{
  Apart, Untouched, IsHeld, IsOld, IsCurrent, Among, Pairs, PlaceOrder, PrefetchOrder, IsSafe,
}
use instant_tensor.Layout.Prefetch.Marks.{
  found_outside, found_all, found_order, next-IsHeld, next_order,
}

-- The id before the last of `n + 1` chunks, and the last of `n`.
id_before_last : (n m : ℕ) → m ≡ n + 1 → pos m -ℤ pos 2 <ℤ pos n
id_before_last n m e = ground arith

id_before_top : (n m : ℕ) → m ≡ n + 1 → (z : ℤ) → z <ℤ pos n → z ≤ℤ pos m -ℤ pos 2
id_before_top n m e z h = ground arith

id_last : (n : ℕ) → pos n -ℤ pos 1 <ℤ pos n
id_last n = ground arith

id_last_top : (n : ℕ) (z : ℤ) → z <ℤ pos n → z ≤ℤ pos n -ℤ pos 1
id_last_top n z h = ground arith

ℤ-cases : (z : ℤ) (n : ℕ) → (z <ℤ pos n) ⊎ (pos n ≤ℤ z)
ℤ-cases z n = ground arith

-- The indices of the layers are in order.
abbrev pub IsLayered : Layout → Type 0
IsLayered s = record {
  released_le : s.in_buffer_tensor_id ≤ s.left_most_tensor_id;
  layer_le : s.left_most_tensor_id ≤ s.tensor_id;
  tensors_le : s.tensor_id ≤ length s.tensors;
}

-- A tensor of the layer whose chunks are all finished.
abbrev pub IsClosed : Layout → TensorMetadate → Type 0
IsClosed s t =
    (0 < t.size → t.last_chunk_id <ℤ pos (length s.chunks))
    × (t.device_buffer_offset + t.size ≤ s.chunk_device_buffer_offset)

module _ (c : Config) (v : IsValid c) (s s' : Layout) (sane : IsSane c s) (safe : IsSafe c s)
    (f : Finished c s s') where
  module _ (h : 0 < s.current_chunk_size) where
    behind_open :
        s.chunk_device_buffer_offset + s.current_chunk_size ≤ s'.chunk_device_buffer_offset
    behind_open = omega (
      arith,
      f.buffer_offset,
      round_up_bounds s.current_chunk_size c.world_chunk_alignment v.world_pos
          (omega (arith, sane.chunk_le, v.small)),
    )

    -- What is in the vector is there before, or is the open chunk.
    clear_next :
        (t : TensorMetadate)
        → Untouched c s.chunks t
        → (t.last_chunk_id <ℤ pos (length s.chunks) → Apart c (open_chunk s) t)
        → Untouched c s'.chunks t
    clear_next t clear last k ch e after = elim (f.appended k ch e) [
      | inl old ↦ clear k ch old after
      | inr (at, same, _) ↦ subst (λ d. Apart c d t) (sym same) (last (omega arith))
    ]

    old_next :
        (j : ℕ) (t : TensorMetadate)
        → s'.in_buffer_tensor_id ≤ j
        → j < s.left_most_tensor_id
        → get_elem? s.tensors j ≡ some t
        → s'.chunk_device_buffer_offset ≤ t.device_buffer_offset
    old_next j t low high e = elim (ℕ_discrete s'.in_buffer_tensor_id j) [
      | yes same ↦
          f.stopped h (omega (arith, sane.released_le)) t (ap (get_elem? s.tensors) same ∙ e)
      | no less ↦
          let (w, at) =
            get_elem?-of_lt s.tensors s'.in_buffer_tensor_id
              (omega (arith, sane.layer_le, sane.tensors_le)) in
          omega (
            arith,
            f.stopped h (omega (arith, sane.released_le)) w at,
            safe.old_order s'.in_buffer_tensor_id j w t f.released_from (omega arith) high at e,
          )
    ]

    IsCurrent-next : (t : TensorMetadate) → IsCurrent c s t → IsCurrent c s' t
    IsCurrent-next t q = record {
      last_le = omega (arith, q.last_le, f.grew h);
      ends = omega (arith, q.ends, behind_open);
      ends_closed = λ _. omega (arith, q.ends, behind_open);
      is_open = λ last size. absurd (omega (arith, q.last_le, f.grew h));
      clear = clear_next t q.clear (λ last. inl (q.ends_closed last));
    }

    finish_full-IsSafe : IsSafe c s'
    finish_full-IsSafe =
        let in' = s'.in_buffer_tensor_id in
        let r = f.released h in
        let out : ℕ × List TensorMetadate = (in', s'.tensors) in
        let count = s.left_most_tensor_id - s.in_buffer_tensor_id in
        let id = pos (length s'.chunks) -ℤ pos 2 in
        let inside : s.in_buffer_tensor_id + count ≤ length s.tensors =
          omega (arith, sane.released_le, sane.layer_le, sane.tensors_le) in
        let more : (k : ℕ) (ch : Chunk)
            → get_elem? s'.chunks k ≡ some ch
            → (get_elem? s.chunks k ≡ some ch) ⊎ (length s.chunks ≤ k) =
          λ k ch e. elim (f.appended k ch e) [
            | inl old ↦ inl old
            | inr (at, _, _) ↦ inr (omega arith)
          ] in
        record {
          held =
              next-IsHeld s.tensors id s.in_buffer_tensor_id count out r inside c s.chunks s'.chunks
                f.chunks_from more (id_before_last _ _ (f.grew h)) (id_before_top _ _ (f.grew h))
                safe.held (λ j t low high e. safe.old j t low (omega (arith, sane.released_le)) e);
          held_order =
              next_order s.tensors id s.in_buffer_tensor_id count out r inside c s.chunks s'.chunks
                f.chunks_from more (id_before_last _ _ (f.grew h)) (id_before_top _ _ (f.grew h))
                safe.held safe.held_order;
          old = λ j t low high e.
              let e' =
                found_outside s.tensors id s.in_buffer_tensor_id count out r inside j t (inr low)
                  e in
              let high' : j < s.left_most_tensor_id = omega (arith, f.same_layer) in
              let o = safe.old j t (omega (arith, f.released_from)) high' e' in
              record {
                closed = λ size. omega (arith, o.closed size, f.grew h);
                clear =
                    clear_next t o.clear
                      (λ _. inr (omega (arith, old_next j t low high' e', f.buffer_offset)));
              };
          old_order = λ i j t u low less high e e'.
              found_order s.tensors id s.in_buffer_tensor_id count out r inside
                s.in_buffer_tensor_id s.left_most_tensor_id safe.old_order i j t u
                (omega (arith, f.released_from)) less (omega (arith, f.same_layer)) e e';
          current = λ j t low high e. IsCurrent-next t (
              found_all s.tensors id s.in_buffer_tensor_id count out r inside (IsCurrent c s)
                s.left_most_tensor_id s.tensor_id (λ u p q. q) safe.current j t
                (omega (arith, f.same_layer)) (omega (arith, f.same_id)) e);
          current_order = λ i j t u low less high e e'.
              found_order s.tensors id s.in_buffer_tensor_id count out r inside
                s.left_most_tensor_id s.tensor_id safe.current_order i j t u
                (omega (arith, f.same_layer)) less (omega (arith, f.same_id)) e e';
          chunks_fit = λ k ch e. elim (f.appended k ch e) [
            | inl old ↦ let (a, b) = safe.chunks_fit k ch old in (a, omega (arith, f.same_file))
            | inr (_, same, _) ↦
                subst
                  (λ (d : Chunk).
                    (d.size ≤ c.world_chunk_size) × (d.file_index ≤ s'.chunk_file_index))
                  (sym same) (sane.chunk_le, omega (arith, f.same_file))
          ];
        }

  pub finish_chunk-IsSafe : IsSafe c s'
  finish_chunk-IsSafe = elim (dec_lt 0 s.current_chunk_size) [
    | yes full ↦ finish_full-IsSafe full
    | no empty ↦ subst (IsSafe c) (sym (f.stayed (omega arith))) safe
  ]

  -- Behind `finish_chunk` nothing of the layer is open.
  pub finish_chunk-IsClosed : Among s'.tensors s'.left_most_tensor_id s'.tensor_id (IsClosed s')
  finish_chunk-IsClosed j t low high e = elim (dec_lt 0 s.current_chunk_size) [
    | yes full ↦
        let q =
          found_all s.tensors (pos (length s'.chunks) -ℤ pos 2) s.in_buffer_tensor_id
            (s.left_most_tensor_id - s.in_buffer_tensor_id) (s'.in_buffer_tensor_id, s'.tensors)
            (f.released full) (omega (arith, sane.released_le, sane.layer_le, sane.tensors_le))
            (IsCurrent c s) s.left_most_tensor_id s.tensor_id (λ u p q. q) safe.current j t
            (omega (arith, f.same_layer)) (omega (arith, f.same_id)) e in
        (λ size. omega (arith, q.last_le, f.grew full), omega (arith, q.ends, behind_open full))
    | no empty ↦
        let q = finish_chunk-IsSafe.current j t low high e in
        let rest : s'.current_chunk_size ≡ 0 =
          ap (λ (w : Layout). w.current_chunk_size) (f.stayed (omega arith)) ∙ omega arith in
        (
          λ size. elim (ℤ-cases t.last_chunk_id (length s'.chunks)) [
            | inl before ↦ before
            | inr after ↦ absurd (omega (arith, q.is_open after size))
          ],
          omega (arith, q.ends),
        )
  ]

  pub finish_chunk-IsLayered : IsLayered s'
  finish_chunk-IsLayered = record {
    released_le = f.released_le;
    layer_le = omega (arith, f.same_layer, f.same_id, sane.layer_le);
    tensors_le = omega (arith, f.same_id, f.same_length, sane.tensors_le);
  }

module _ (c : Config) (s s' : Layout) (sane : IsLayered s) (safe : IsSafe c s)
    (closed : Among s.tensors s.left_most_tensor_id s.tensor_id (IsClosed s)) where
  -- A new layer begins.
  pub reset_chunk_buffer_offset-IsSafe : BufferReset s s.tensor_id s' → IsSafe c s'
  reset_chunk_buffer_offset-IsSafe r =
      let out : ℕ × List TensorMetadate = (s'.in_buffer_tensor_id, s'.tensors) in
      let count = s.left_most_tensor_id - s.in_buffer_tensor_id in
      let id = pos (length s.chunks) -ℤ pos 1 in
      let inside : s.in_buffer_tensor_id + count ≤ length s.tensors =
        omega (arith, sane.released_le, sane.layer_le, sane.tensors_le) in
      let more : (k : ℕ) (ch : Chunk)
          → get_elem? s'.chunks k ≡ some ch
          → (get_elem? s.chunks k ≡ some ch) ⊎ (length s.chunks ≤ k) =
        λ k ch e. inl (ap (λ cs. get_elem? cs k) (sym r.same_chunks) ∙ e) in
      let longer : length s.chunks ≤ length s'.chunks = omega (arith, ap length r.same_chunks) in
      record {
        held =
            next-IsHeld s.tensors id s.in_buffer_tensor_id count out r.released inside c s.chunks
              s'.chunks longer more (id_last _) (id_last_top _) safe.held
              (λ j t low high e. safe.old j t low (omega (arith, sane.released_le)) e);
        held_order =
            next_order s.tensors id s.in_buffer_tensor_id count out r.released inside c s.chunks
              s'.chunks longer more (id_last _) (id_last_top _) safe.held safe.held_order;
        old = λ j t low high e.
            let e' =
              found_outside s.tensors id s.in_buffer_tensor_id count out r.released inside j t
                (inr low) e in
            let low' : s.left_most_tensor_id ≤ j = omega (arith, r.all_released) in
            let high' : j < s.tensor_id = omega (arith, r.layer) in
            record {
              closed =
                  λ size. omega (arith, (closed j t low' high' e').0 size, ap length r.same_chunks);
              clear =
                  subst (λ cs. Untouched c cs t) (sym r.same_chunks)
                    (safe.current j t low' high' e').clear;
            };
        old_order = λ i j t u low less high e e'.
            found_order s.tensors id s.in_buffer_tensor_id count out r.released inside
              s.left_most_tensor_id s.tensor_id safe.current_order i j t u
              (omega (arith, r.all_released)) less (omega (arith, r.layer)) e e';
        current = λ j t low high e. absurd (omega (arith, r.layer, r.same_id));
        current_order = λ i j t u low less high e e'. absurd (omega (arith, r.layer, r.same_id));
        chunks_fit = λ k ch e.
            let (a, b) = safe.chunks_fit k ch (ap (λ cs. get_elem? cs k) (sym r.same_chunks) ∙ e) in
            (a, omega (arith, r.same_file));
      }

  -- The next file begins.
  pub reset_chunk_file-IsSafe :
      (index offset : ℕ) → s.chunk_file_index ≤ index → FileReset c s index offset s' → IsSafe c s'
  reset_chunk_file-IsSafe index offset order r =
      let at : (j : ℕ) (t : TensorMetadate)
          → get_elem? s'.tensors j ≡ some t
          → get_elem? s.tensors j ≡ some t =
        λ j t e. ap (λ ts. get_elem? ts j) (sym r.same_tensors) ∙ e in
      let pairs : (R : TensorMetadate → TensorMetadate → Type 0) (a b a' b' : ℕ)
          → a' ≡ a
          → b' ≡ b
          → Pairs s.tensors a b R
          → Pairs s'.tensors a' b' R =
        λ R a b a' b' p q order i j t u low less high e e'.
          order i j t u (omega arith) less (omega arith) (at i t e) (at j u e') in
      record {
        held = λ j t low high e.
            subst (λ cs. IsHeld c cs t) (sym r.same_chunks)
              (safe.held j t low (omega (arith, r.same_released)) (at j t e));
        held_order = pairs PrefetchOrder 0 _ 0 _ refl r.same_released safe.held_order;
        old = λ j t low high e.
            subst (λ cs. IsOld c cs t) (sym r.same_chunks)
              (safe.old j t (omega (arith, r.same_released)) (omega (arith, r.same_layer))
                (at j t e));
        old_order = pairs PlaceOrder _ _ _ _ r.same_released r.same_layer safe.old_order;
        current = λ j t low high e.
            let low' : s.left_most_tensor_id ≤ j = omega (arith, r.same_layer) in
            let high' : j < s.tensor_id = omega (arith, r.same_id) in
            let q = safe.current j t low' high' (at j t e) in
            let (before, ends) = closed j t low' high' (at j t e) in
            record {
              last_le = omega (arith, q.last_le, ap length r.same_chunks);
              ends = omega (arith, r.behind);
              ends_closed = λ _. omega (arith, r.behind);
              is_open = λ last size. absurd (omega (arith, before size, ap length r.same_chunks));
              clear = subst (λ cs. Untouched c cs t) (sym r.same_chunks) q.clear;
            };
        current_order = pairs PlaceOrder _ _ _ _ r.same_layer r.same_id safe.current_order;
        chunks_fit = λ k ch e.
            let (a, b) = safe.chunks_fit k ch (ap (λ cs. get_elem? cs k) (sym r.same_chunks) ∙ e) in
            (a, omega (arith, r.file));
      }
