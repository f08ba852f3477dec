-- ===== src/Layout/Release.antt =====
-- The loops that set `prefetch_chunk_id`: they stay inside the vector and change nothing else.
use instant_tensor.Base.{
  ℕ, zero, suc, ◌+◌, ◌≤◌, ◌<◌, ◌≡◌, ◌≢◌, ◌⊎◌, refl, sym, ap, subst, ◌∙◌, ltb, ltb→le, same_some,
  inl, inr, Bool-cases, some, List, length, get_elem?, set, length-set, get_elem?-set_self,
  get_elem?-set_ne, get_elem?-of_lt, ok, arith, ℕ_discrete,
}
use instant_tensor.Base.Int.{ℤ}
use instant_tensor.Types.{TensorMetadate}
use instant_tensor.Layout.{release_below, release_all}

-- Every entry is still there, but for its `prefetch_chunk_id`.
abbrev pub Kept : List TensorMetadate → List TensorMetadate → Type 0
Kept ts us =
    (i : ℕ) (t : TensorMetadate)
    → get_elem? ts i ≡ some t
    → (p : ℤ) × (get_elem? us i ≡ some (record t { prefetch_chunk_id = p }))

pub Kept-refl : (ts : List TensorMetadate) → Kept ts ts
Kept-refl ts i t h = (t.prefetch_chunk_id, h)

pub Kept-trans : (ts us vs : List TensorMetadate) → Kept ts us → Kept us vs → Kept ts vs
Kept-trans ts us vs k l i t h = l i (record t { prefetch_chunk_id = (k i t h).0 }) (k i t h).1

Kept-set :
    (ts : List TensorMetadate) (i : ℕ) (t : TensorMetadate) (p : ℤ)
    → get_elem? ts i ≡ some t
    → i < length ts
    → Kept ts (set ts i (record t { prefetch_chunk_id = p }))
Kept-set ts i t p e h j u f = elim (ℕ_discrete i j) [
  | yes same ↦ (p, ground (arith, get_elem?-set_self ts i (record t { prefetch_chunk_id = p })))
  | no other ↦ (u.prefetch_chunk_id, get_elem?-set_ne ts i j _ other ∙ f)
]

-- What a loop leaves that gives `id` to tensors from index `i` on, in at most `count` rounds.
pub record Released (ts : List TensorMetadate) (id : ℤ) (i count : ℕ)
    (out : ℕ × List TensorMetadate) : Type 0 where
  pub from : i ≤ out.0
  pub upto : out.0 ≤ i + count
  pub same_length : length out.1 ≡ length ts
  pub kept : Kept ts out.1
  pub marked :
      (j : ℕ) (t : TensorMetadate)
      → i ≤ j
      → j < out.0
      → get_elem? ts j ≡ some t
      → get_elem? out.1 j ≡ some (record t { prefetch_chunk_id = id })
  pub others : (j : ℕ) → (j < i) ⊎ (out.0 ≤ j) → get_elem? out.1 j ≡ get_elem? ts j

release_none : (ts : List TensorMetadate) (id : ℤ) (i count : ℕ) → Released ts id i count (i, ts)
release_none ts id i count = record {
  from = omega arith;
  upto = omega arith;
  same_length = refl;
  kept = Kept-refl ts;
  marked = λ j t a b e. absurd (omega arith);
  others = λ j h. refl;
}

outside : (i out j : ℕ) → (j < i) ⊎ (out ≤ j) → i + 1 ≤ out → (i ≢ j) × ((j < i + 1) ⊎ (out ≤ j))
outside i out j (inl h) le = (omega arith, inl (omega arith))
outside i out j (inr h) le = (omega arith, inr h)

release_one :
    (ts : List TensorMetadate) (id : ℤ) (i count : ℕ) (t : TensorMetadate)
    (out : ℕ × List TensorMetadate)
    → get_elem? ts i ≡ some t
    → i < length ts
    → Released (set ts i (record t { prefetch_chunk_id = id })) id (i + 1) count out
    → Released ts id i (suc count) out
release_one ts id i count t out e h r =
    let t' = record t { prefetch_chunk_id = id } in
    record {
      from = omega (arith, r.from);
      upto = omega (arith, r.upto);
      same_length = r.same_length ∙ length-set ts i _;
      kept = Kept-trans _ _ _ (Kept-set ts i t id e h) r.kept;
      marked = λ j u a b f. elim (ℕ_discrete i j) [
        | yes same ↦
            r.others j (inl (omega arith))
            ∙ ap (get_elem? (set ts i t')) (sym same)
            ∙ get_elem?-set_self ts i t' h
            ∙ ap (λ (w : TensorMetadate). some (record w { prefetch_chunk_id = id }))
                (same_some (get_elem? ts j) (ap (get_elem? ts) (sym same) ∙ e) f)
        | no other ↦ r.marked j u (omega arith) b (get_elem?-set_ne ts i j t' other ∙ f)
      ];
      others = λ j o.
          let (apart, o') = outside i out.0 j o (r.from) in
          r.others j o' ∙ get_elem?-set_ne ts i j t' apart;
    }

-- The first that is left starts at `limit` or behind it.
abbrev pub Stopped : List TensorMetadate → ℕ → ℕ → ℕ × List TensorMetadate → Type 0
Stopped ts limit end out =
    out.0 < end
    → (t : TensorMetadate) → get_elem? ts out.0 ≡ some t
    → limit ≤ t.device_buffer_offset

pub release_below_lem :
    (count : ℕ) (id : ℤ) (limit i : ℕ) (ts : List TensorMetadate)
    → i + count ≤ length ts
    → (out : ℕ × List TensorMetadate) × (release_below count id limit i ts ≡ ok out)
      × Released ts id i count out
      × Stopped ts limit (i + count) out
unfolding release_below
release_below_lem zero id limit i ts h =
    ((i, ts), refl, release_none ts id i 0, λ less. absurd (omega arith))
release_below_lem (suc count) id limit i ts h =
    let (t, e) = get_elem?-of_lt ts i (omega arith) in
    let us = set ts i (record t { prefetch_chunk_id = id }) in
    let (out, done, r, stop) =
      release_below_lem count id limit (i + 1) us (omega (arith, length-set ts i)) in
    elim (Bool-cases (ltb t.device_buffer_offset limit)) [
      | inl below ↦ (
        out,
        rw (e, release_below) (rw below done),
        release_one ts id i count t out e (omega arith) r,
        λ less u f. stop (omega arith) u (
            get_elem?-set_ne ts i out.0 (record t { prefetch_chunk_id = id })
              (omega (arith, r.from))
            ∙ f),
      )
      | inr above ↦ (
        (i, ts),
        rw (e, release_below) (rw above),
        release_none ts id i (suc count),
        λ less u f.
            subst (λ (w : TensorMetadate). limit ≤ w.device_buffer_offset)
              (same_some (get_elem? ts i) e f) (ltb→le _ _ above),
      )
    ]

pub release_all_lem :
    (count : ℕ) (id : ℤ) (i : ℕ) (ts : List TensorMetadate)
    → i + count ≤ length ts
    → (out : ℕ × List TensorMetadate) × (release_all count id i ts ≡ ok out)
      × Released ts id i count out
      × (out.0 ≡ i + count)
unfolding release_all
release_all_lem zero id i ts h = ((i, ts), refl, release_none ts id i 0, omega arith)
release_all_lem (suc count) id i ts h =
    let (t, e) = get_elem?-of_lt ts i (omega arith) in
    let us = set ts i (record t { prefetch_chunk_id = id }) in
    let (out, done, r, end) =
      release_all_lem count id (i + 1) us (omega (arith, length-set ts i)) in
    (out, rw (e, release_all) done, release_one ts id i count t out e (omega arith) r, omega arith)
