-- ===== src/Layout/Prefetch/Marks.antt =====
-- What the loops that give out prefetch ids leave of a safe layout.
use instant_tensor.Base.{
  ℕ, ◌+◌, ◌≤◌, ◌<◌, ◌≡◌, ◌⊎◌, inl, inr, refl, sym, subst, ◌∙◌, some, List, length, get_elem?,
  get_elem?-of_lt, same_some, arith, dec_lt,
}
use instant_tensor.Base.Int.{ℤ, pos, ◌≤ℤ◌, ◌<ℤ◌}
use instant_tensor.Types.{TensorMetadate, Chunk}
use instant_tensor.Layout.{Config}
use instant_tensor.Layout.Release.{Released}
use instant_tensor.Layout.Prefetch.{IsHeld, IsOld, Among, Pairs, PlaceOrder, PrefetchOrder}

-- A loop that gives out prefetch ids leaves every tensor as it was, or with the id.
module _ (ts : List TensorMetadate) (id : ℤ) (from count : ℕ) (out : ℕ × List TensorMetadate)
    (r : Released ts id from count out) (inside : from + count ≤ length ts) where
  pub found_outside :
      (j : ℕ) (t : TensorMetadate)
      → (j < from) ⊎ (out.0 ≤ j)
      → get_elem? out.1 j ≡ some t
      → get_elem? ts j ≡ some t
  found_outside j t h e = sym (r.others j h) ∙ e

  pub found_marked :
      (j : ℕ) (t : TensorMetadate)
      → from ≤ j
      → j < out.0
      → get_elem? out.1 j ≡ some t
      → (u : TensorMetadate) × (get_elem? ts j ≡ some u) × (t ≡ record u { prefetch_chunk_id = id })
  found_marked j t a b e =
      let (u, f) = get_elem?-of_lt ts j (omega (arith, r.upto)) in
      (u, f, same_some (get_elem? out.1 j) e (r.marked j u a b f))

  pub found :
      (j : ℕ) (t : TensorMetadate)
      → get_elem? out.1 j ≡ some t
      → (p : ℤ) × (u : TensorMetadate) × (get_elem? ts j ≡ some u)
        × (t ≡ record u { prefetch_chunk_id = p })
  found j t e = elim (dec_lt j from) [
    | yes before ↦ (t.prefetch_chunk_id, t, found_outside j t (inl before) e, refl)
    | no after ↦ elim (dec_lt j out.0) [
      | yes within ↦ let (u, f, same) = found_marked j t (omega arith) within e in (id, u, f, same)
      | no behind ↦ (t.prefetch_chunk_id, t, found_outside j t (inr (omega arith)) e, refl)
    ]
  ]

  -- Any property of a tensor that its prefetch id has no part in.
  pub found_all :
      (P : TensorMetadate → Type 0) (a b : ℕ)
      → ((u : TensorMetadate) (p : ℤ) → P u → P (record u { prefetch_chunk_id = p }))
      → Among ts a b P
      → Among out.1 a b P
  found_all P a b any all j t low high e =
      let (p, u, f, same) = found j t e in subst P (sym same) (any u p (all j u low high f))

  pub found_order : (a b : ℕ) → Pairs ts a b PlaceOrder → Pairs out.1 a b PlaceOrder
  found_order a b order i j t u low less high e f =
      let (p, t', e', same) = found i t e in
      let (q, u', f', same') = found j u f in
      subst (λ (w : TensorMetadate). w.device_buffer_offset ≤ u.device_buffer_offset) (sym same)
        (subst (λ (w : TensorMetadate). t'.device_buffer_offset ≤ w.device_buffer_offset)
          (sym same') (order i j t' u' low less high e' f'))

  module _ (c : Config) (cs ds : List Chunk) (longer : length cs ≤ length ds)
      (more : (k : ℕ) (ch : Chunk)
        → get_elem? ds k ≡ some ch
        → (get_elem? cs k ≡ some ch) ⊎ (length cs ≤ k))
      (id_lt : id <ℤ pos (length cs)) (id_top : (z : ℤ) → z <ℤ pos (length cs) → z ≤ℤ id) where
    early :
        (k : ℕ) (ch : Chunk) → get_elem? ds k ≡ some ch → k < length cs → get_elem? cs k ≡ some ch
    early k ch e h = elim (more k ch e) [ inl old ↦ old | inr late ↦ absurd (omega arith) ]

    IsHeld-kept : (t : TensorMetadate) → IsHeld c cs t → IsHeld c ds t
    IsHeld-kept t h = record {
      covers_last = h.covers_last;
      is_chunk = omega (arith, h.is_chunk);
      untouched = λ k ch e after upto.
          h.untouched k ch (early k ch e (omega (arith, h.is_chunk))) after upto;
    }

    IsHeld-new :
        (u : TensorMetadate) → IsOld c cs u → IsHeld c ds (record u { prefetch_chunk_id = id })
    IsHeld-new u h = record {
      covers_last = λ size. id_top u.last_chunk_id (h.closed size);
      is_chunk = omega arith;
      untouched = λ k ch e after upto. h.clear k ch (early k ch e (omega arith)) after;
    }

    pub next-IsHeld :
        Among ts 0 from (IsHeld c cs)
        → Among ts from (from + count) (IsOld c cs)
        → Among out.1 0 out.0 (IsHeld c ds)
    next-IsHeld held old j t low high e = elim (dec_lt j from) [
      | yes before ↦ IsHeld-kept t (held j t low before (found_outside j t (inl before) e))
      | no after ↦
          let (u, f, same) = found_marked j t (omega arith) high e in
          subst (IsHeld c ds) (sym same)
            (IsHeld-new u (old j u (omega arith) (omega (arith, r.upto)) f))
    ]

    pub next_order :
        Among ts 0 from (IsHeld c cs)
        → Pairs ts 0 from PrefetchOrder
        → Pairs out.1 0 out.0 PrefetchOrder
    next_order held order i j t u low less high e f = elim (dec_lt j from) [
      | yes before ↦
          order i j t u low less before (found_outside i t (inl (omega arith)) e)
            (found_outside j u (inl before) f)
      | no after ↦
          let (u', f', same) = found_marked j u (omega arith) high f in
          subst (PrefetchOrder t) (sym same) (elim (dec_lt i from) [
            | yes first ↦
                id_top t.prefetch_chunk_id
                  (held i t low first (found_outside i t (inl first) e)).is_chunk
            | no later ↦
                let (t', e', same') = found_marked i t (omega arith) (omega arith) e in
                subst (λ (w : TensorMetadate). w.prefetch_chunk_id ≤ℤ id) (sym same') (omega arith)
          ])
    ]
