-- ===== src/Layout/Prefetch/Entering.antt =====
-- A larger open chunk, and the entry of a tensor, keep the layout safe.
use instant_tensor.Base.{
  ℕ, ◌+◌, ◌≤◌, ◌<◌, ◌≡◌, sym, ap, subst, ◌∙◌, some, List, length, set, get_elem?, get_elem?-of_lt,
  get_elem?-set_self, get_elem?-set_ne, lt_of_get_elem?, same_some, arith, ℕ_discrete,
}
use instant_tensor.Base.Int.{pos, pos_part, neg_part}
use instant_tensor.Types.{TensorMetadate}
use instant_tensor.Layout.{Config, Layout}
use instant_tensor.Layout.Release.{Kept}
use instant_tensor.Layout.Valid.{IsSane}
use instant_tensor.Layout.Prefetch.{IsCurrent, Among, Pairs, PlaceOrder, PrefetchOrder, IsSafe}

IsCurrent-grow :
    (c : Config) (s : Layout) (size : ℕ) (t : TensorMetadate)
    → s.current_chunk_size ≤ size
    → IsCurrent c s t
    → IsCurrent c (record s { current_chunk_size = size }) t
IsCurrent-grow c s size t h q = record {
  last_le = q.last_le;
  ends = omega (arith, q.ends);
  ends_closed = q.ends_closed;
  is_open = λ last n. omega (arith, q.is_open last n);
  clear = q.clear;
}

pub grow-IsSafe :
    (c : Config) (s : Layout) (size : ℕ)
    → s.current_chunk_size ≤ size
    → IsSafe c s
    → IsSafe c (record s { current_chunk_size = size })
grow-IsSafe c s size h safe = record {
  held = safe.held;
  held_order = safe.held_order;
  old = safe.old;
  old_order = safe.old_order;
  current = λ j t low high e. IsCurrent-grow c s size t h (safe.current j t low high e);
  current_order = safe.current_order;
  chunks_fit = safe.chunks_fit;
}

-- Tensors of a list that only got prefetch ids begin where they did.
pub Kept-Among :
    (ts us : List TensorMetadate) (a b limit : ℕ)
    → Kept ts us
    → b ≤ length ts
    → Among ts a b (λ t. t.device_buffer_offset ≤ limit)
    → Among us a b (λ t. t.device_buffer_offset ≤ limit)
Kept-Among ts us a b limit kept inside all j t low high e =
    let (u, f) = get_elem?-of_lt ts j (omega arith) in
    let (p, g) = kept j u f in
    subst (λ (w : TensorMetadate). w.device_buffer_offset ≤ limit) (same_some (get_elem? us j) g e)
      (all j u low high f)

module _ (c : Config) (s : Layout) (size : ℕ) (t : TensorMetadate) (sane : IsSane c s)
    (space : s.tensor_id < length s.tensors) (grown : s.current_chunk_size ≤ size)
    (last : t.last_chunk_id ≡ pos (length s.chunks))
    (ends : t.device_buffer_offset + t.size ≤ s.chunk_device_buffer_offset + size)
    (filled : 0 < t.size → 0 < size)
    (behind : Among s.tensors s.left_most_tensor_id s.tensor_id
      (λ u. u.device_buffer_offset ≤ t.device_buffer_offset))
    (safe : IsSafe c s) where
  abbrev after : Layout
  after = record s {
    current_chunk_size = size;
    tensors = set s.tensors s.tensor_id t;
    tensor_id = s.tensor_id + 1;
  }

  before :
      (j : ℕ) (u : TensorMetadate)
      → j < s.tensor_id
      → get_elem? after.tensors j ≡ some u
      → get_elem? s.tensors j ≡ some u
  before j u less e = sym (get_elem?-set_ne s.tensors s.tensor_id j t (omega arith)) ∙ e

  last_eq : (u : TensorMetadate) → get_elem? after.tensors s.tensor_id ≡ some u → t ≡ u
  last_eq u e =
      same_some (get_elem? after.tensors s.tensor_id)
        (get_elem?-set_self s.tensors s.tensor_id t space) e

  new-IsCurrent : IsCurrent c after t
  new-IsCurrent =
      let whole : pos_part t.last_chunk_id ≡ length s.chunks = ap pos_part last in
      let sign : neg_part t.last_chunk_id ≡ 0 = ap neg_part last in
      record {
        last_le = omega arith;
        ends = ends;
        ends_closed = λ h. absurd (omega arith);
        is_open = λ h size. filled size;
        clear = λ k ch e h. absurd (omega (arith, lt_of_get_elem? s.chunks k ch e));
      }

  pairs :
      (R : TensorMetadate → TensorMetadate → Type 0) (a b : ℕ)
      → b ≤ s.tensor_id
      → Pairs s.tensors a b R
      → Pairs after.tensors a b R
  pairs R a b le order i j u w low less high e f =
      order i j u w low less high (before i u (omega arith) e) (before j w (omega arith) f)

  pub enter-IsSafe : IsSafe c after
  enter-IsSafe = record {
    held = λ j u low high e.
        safe.held j u low high (before j u (omega (arith, sane.released_le, sane.layer_le)) e);
    held_order =
        pairs PrefetchOrder 0 _ (omega (arith, sane.released_le, sane.layer_le)) safe.held_order;
    old = λ j u low high e. safe.old j u low high (before j u (omega (arith, sane.layer_le)) e);
    old_order = pairs PlaceOrder _ _ sane.layer_le safe.old_order;
    current = λ j u low high e. elim (ℕ_discrete j s.tensor_id) [
      | yes same ↦
          subst (IsCurrent c after) (last_eq u (ap (get_elem? after.tensors) (sym same) ∙ e))
            new-IsCurrent
      | no other ↦
          let less : j < s.tensor_id = omega arith in
          IsCurrent-grow c s size u grown (safe.current j u low less (before j u less e))
    ];
    current_order = λ i j u w low less high e f. elim (ℕ_discrete j s.tensor_id) [
      | yes same ↦
          subst (PlaceOrder u) (last_eq w (ap (get_elem? after.tensors) (sym same) ∙ f))
            (behind i u low (omega arith) (before i u (omega arith) e))
      | no other ↦
          let here : j < s.tensor_id = omega arith in
          safe.current_order i j u w low less here (before i u (omega arith) e) (before j w here f)
    ];
    chunks_fit = safe.chunks_fit;
  }
