-- ===== src/Layout/Correct.antt =====
-- `compute_layout` as a whole: on a table of offsets that fits, it returns a layout by which every
-- byte of every tensor listed reaches the tensor's place in the buffer.
use instant_tensor.Base.{
  ℕ, suc, ◌+◌, ◌-◌, ◌^◌, ◌≤◌, ◌≡◌, refl, sym, ap, ◌∙◌, inl, inr, some, List, [], ◌∷◌, length,
  get_elem?, lt_of_get_elem?, subst, length-replicate, ok, ◌==◌, ==_iff, Bool-cases, leb, le→leb,
  true, false, arith,
}
use instant_tensor.Base.Int.{ℤ}
use instant_tensor.Size.{add_size}
use instant_tensor.Types.{TensorMetadate, Chunk}
use instant_tensor.Layout.{
  Config, Layout, finish_chunk, place_tensor, scan, last_or, empty_layout, finish_layout,
  compute_layout, no_tensor,
}
use instant_tensor.Layout.Valid.{IsValid}
use instant_tensor.Layout.Release.{Kept-trans}
use instant_tensor.Layout.Finish.{Finished, finish_chunk_lem, Finished-small}
use instant_tensor.Layout.Cover.{Done, AllPlaced, AllPlaced-Kept, Covered-finish}
use instant_tensor.Layout.Reset.{
  BufferReset, FileReset, reset_chunk_buffer_offset_lem, reset_chunk_file_lem,
}
use instant_tensor.Layout.Prefetch.{Among, Pairs, PrefetchOrder, IsHeld, IsSafe}
use instant_tensor.Layout.Prefetch.Closing.{
  finish_chunk-IsSafe, finish_chunk-IsClosed, finish_chunk-IsLayered,
  reset_chunk_buffer_offset-IsSafe,
}
use instant_tensor.Layout.Place.{place_tensor_lem}
use instant_tensor.Layout.Scan.{
  entries, IsListed, budget, listed_small, Good, Head, place-Head, next_file-Head, tensor_space,
}

-- What the sums of the function need not to wrap: the buffer, its paddings and what the changes of
-- file add stay below 2^61.
abbrev pub InputFits : Config → List (ℕ × ℕ) → Type 0
InputFits c rest =
    c.buffer_size + c.thread_alignment + c.world_chunk_alignment + 64 + budget c rest ≤ 2 ^ 61

-- Every tensor has a prefetch id, none of which is lower than one before it; up to it no chunk behind
-- the tensor's last one touches the tensor. Every chunk is of a file up to `files`, and no longer
-- than a chunk of all ranks.
pub record IsPrefetched (c : Config) (files : ℕ) (s : Layout) : Type 0 where
  pub held : Among s.tensors 0 (length s.tensors) (IsHeld c s.chunks)
  pub order : Pairs s.tensors 0 (length s.tensors) PrefetchOrder
  pub chunks_fit :
      (k : ℕ) (ch : Chunk)
      → get_elem? s.chunks k ≡ some ch
      → (ch.size ≤ c.world_chunk_size) × (ch.file_index ≤ files)

-- A tensor that the layout carries to its place.
abbrev pub Delivered : Config → List (ℕ × ℕ × ℕ) → Layout → ℕ → TensorMetadate → Type 0
Delivered c want s i t =
    Done s.chunks t
    × (t.device_buffer_offset + t.size ≤ c.buffer_size)
    × (get_elem? want i ≡ some (t.file_index, t.file_offset, t.size))

next_index :
    (c : Config) (current next : ℕ × ℕ) (rest : List (ℕ × ℕ))
    → IsListed c current (next ∷ rest)
    → (current.0 == next.0) ≡ false
    → next.0 ≡ current.0 + 1
next_index c current next rest (_, inl (same, _, _), later) other = ground arith
next_index c current next rest (_, inr moved, later) other = moved

module _ (c : Config) (v : IsValid c) (want : List (ℕ × ℕ × ℕ)) where
  place_tensor-Head :
      (next : ℕ × ℕ) (rest : List (ℕ × ℕ)) (current : ℕ × ℕ) (s : Layout)
      → IsListed c current (next ∷ rest)
      → InputFits c (next ∷ rest)
      → Head c want s current (next ∷ rest)
      → (current.0 == next.0) ≡ true
      → (s' : Layout) × (place_tensor c s current.0 current.1 next.1 ≡ ok s')
        × Head c want s' next rest
  place_tensor-Head next rest current s (_, inr moved, later) fits head same =
      absurd (omega (arith, (==_iff _ _).0 same))
  place_tensor-Head next rest current s (_, inl (_, order, size), later) fits head same =
      let (s', done, p) =
        place_tensor_lem c v (omega arith) s head.sane current.1 next.1 head.position order
          (listed_small c next rest later) size
          (tensor_space c v want s current next rest head same) in
      (
        s',
        ap (λ f. place_tensor c s f current.1 next.1) (sym head.file) ∙ done,
        place-Head c v want s current next rest head same s' p order (omega arith),
      )

  scan_lem :
      (rest : List (ℕ × ℕ)) (current : ℕ × ℕ) (s : Layout)
      → IsListed c current rest
      → InputFits c rest
      → Head c want s current rest
      → (s' : Layout) × (scan c s current rest ≡ ok s') × Head c want s' (last_or current rest) []
  unfolding scan
  scan_lem [] current s listed fits head = (s, refl, head)
  scan_lem (next ∷ rest) current s listed fits head = elim (Bool-cases (current.0 == next.0)) [
    | inl same ↦
        let (s₁, placed, head₁) = place_tensor-Head next rest current s listed fits head same in
        let (s', done, end) = scan_lem rest next s₁ listed.2 (omega arith) head₁ in
        (s', rw (same, placed) done, end)
    | inr other ↦
        let (s₁, moved, head₁) =
          next_file-Head c v want s current next rest head other (listed_small c next rest listed.2)
            (omega (arith, next_index c current next rest listed other)) in
        let (s', done, end) = scan_lem rest next s₁ listed.2 (omega arith) head₁ in
        (s', rw (other, moved) done, end)
  ]

  module _ (s : Layout) (current : ℕ × ℕ) (head : Head c want s current []) (s₁ s₂ s₃ : Layout)
      (f : Finished c s s₁) (r : BufferReset s₁ s₁.tensor_id s₂)
      (q : BufferReset s₂ s₂.tensor_id s₃) where
    Delivered-Good :
        (i : ℕ) (t : TensorMetadate) (id : ℤ)
        → Good c want s i t
        → Delivered c want s₃ i (record t { prefetch_chunk_id = id })
    Delivered-Good i t id g = (
      subst (λ cs. Done cs (record t { prefetch_chunk_id = id }))
          (sym (q.same_chunks ∙ r.same_chunks))
          (Covered-finish c s s₁ (record t { prefetch_chunk_id = id }) f g.0),
      g.1,
      g.2,
    )

    Delivered-all : AllPlaced (Delivered c want s₃) s₃.tensors (length want)
    Delivered-all =
        AllPlaced-Kept (Good c want s) (Delivered c want s₃) s.tensors s₃.tensors (length want)
          (Kept-trans _ _ _ f.kept (Kept-trans _ _ _ r.kept q.kept)) Delivered-Good
          (λ i h. head.placed i (omega (arith, head.total)))

    -- The two resets behind the last chunk give every tensor its prefetch id.
    end-IsSafe : IsSafe c s₃
    end-IsSafe =
        let safe = finish_chunk-IsSafe c v s s₁ head.sane head.safe f in
        let closed = finish_chunk-IsClosed c v s s₁ head.sane head.safe f in
        let layered = finish_chunk-IsLayered c v s s₁ head.sane head.safe f in
        reset_chunk_buffer_offset-IsSafe c s₂ s₃
          (record {
            released_le = omega (arith, r.released_le, r.layer, layered);
            layer_le = omega (arith, r.layer, r.same_id);
            tensors_le = omega (arith, r.same_id, r.same_length, layered);
          })
          (reset_chunk_buffer_offset-IsSafe c s₁ s₂ layered safe closed r)
          (λ j t low high e. absurd (omega (arith, r.layer, r.same_id))) q

    end-IsPrefetched : IsPrefetched c current.0 s₃
    end-IsPrefetched =
        let all : s₃.in_buffer_tensor_id ≡ length s₃.tensors = omega (
          arith, q.all_released, r.layer, f.same_id, q.same_length, r.same_length, f.same_length,
          head.total, head.space,
        ) in
        record {
          held = λ j t low high e. end-IsSafe.held j t low (omega arith) e;
          order = λ i j t u low less high e e'.
              end-IsSafe.held_order i j t u low less (omega arith) e e';
          chunks_fit = λ k ch e.
              let (a, b) = end-IsSafe.chunks_fit k ch e in
              (a, omega (arith, q.same_file, r.same_file, f.same_file, head.file));
        }

  finish_layout_lem :
      (s : Layout) (current : ℕ × ℕ)
      → Head c want s current []
      → (s₁ : Layout) × (finish_chunk c s ≡ ok s₁) × Finished c s s₁
      → (s' : Layout) × (finish_layout c s ≡ ok s')
        × (length s'.tensors ≡ length s.tensors)
        × AllPlaced (Delivered c want s') s'.tensors (length want)
        × IsPrefetched c current.0 s'
  unfolding finish_layout
  finish_layout_lem s current head (s₁, done, f) =
      let small = Finished-small c v s s₁ head.sane f in
      let (s₂, reset, r) =
        reset_chunk_buffer_offset_lem c s₁ s₁.tensor_id small f.released_le
          (omega (arith, f.same_layer, f.same_length, head.sane.layer_le, head.sane.tensors_le)) in
      let (s₃, again, q) =
        reset_chunk_buffer_offset_lem c s₂ s₂.tensor_id (omega (arith, r.same_size))
          (omega (arith, r.released_le, r.layer, f.same_layer, f.same_id, head.sane.layer_le))
          (omega (arith, r.layer, r.same_length, f.same_id, f.same_length, head.sane.tensors_le)) in
      (
        s₃,
        rw (done, reset) again,
        q.same_length ∙ r.same_length ∙ f.same_length,
        Delivered-all s current head s₁ s₂ s₃ f r q,
        end-IsPrefetched s current head s₁ s₂ s₃ f r q,
      )

-- The number of tensors is that of the offsets, less one for each file.
count_entries :
    (c : Config) (rest : List (ℕ × ℕ)) (current : ℕ × ℕ)
    → IsListed c current rest
    → current.0 + length rest ≡ (last_or current rest).0 + length (entries current rest)
count_entries c [] current listed = refl
count_entries c (next ∷ rest) current listed = elim (Bool-cases (current.0 == next.0)) [
  | inl same ↦ rw same (omega (arith, (==_iff _ _).0 same, count_entries c rest next listed.2))
  | inr other ↦ rw other (
      omega
        (arith, next_index c current next rest listed other, count_entries c rest next listed.2))
]

length-le-budget : (c : Config) (rest : List (ℕ × ℕ)) → length rest ≤ budget c rest
length-le-budget c [] = omega arith
length-le-budget c (x ∷ rest) = omega (arith, length-le-budget c rest)

-- What `compute_layout` promises: one entry for each tensor of the table, delivered.
pub record IsCorrect (c : Config) (want : List (ℕ × ℕ × ℕ)) (s : Layout) : Type 0 where
  pub count : length s.tensors ≡ length want
  pub delivered : AllPlaced (Delivered c want s) s.tensors (length want)

module _ (c : Config) (v : IsValid c) (offset : ℕ) (rest : List (ℕ × ℕ))
    (listed : IsListed c (0, offset) rest) (fits : InputFits c rest) where
  num_files : add_size (last_or (0, offset) rest).0 1 ≡ (last_or (0, offset) rest).0 + 1
  num_files = omega (arith, count_entries c rest (0, offset) listed, length-le-budget c rest)

  num_tensors :
      suc (length rest) - add_size (last_or (0, offset) rest).0 1
      ≡ length (entries (0, offset) rest)
  num_tensors = omega (arith, num_files, count_entries c rest (0, offset) listed)

  abbrev fresh : Layout
  fresh = empty_layout (suc (length rest) - add_size (last_or (0, offset) rest).0 1)

  first_length :
      (s : Layout)
      → FileReset c fresh 0 offset s
      → length s.tensors ≡ length (entries (0, offset) rest)
  first_length t q = ap length q.same_tensors ∙ length-replicate _ no_tensor ∙ num_tensors

  first-IsSafe : (s : Layout) → FileReset c fresh 0 offset s → IsSafe c s
  first-IsSafe s r = record {
    held = λ j t low high e. absurd (omega (arith, r.same_released));
    held_order = λ i j t u low less high e f. absurd (omega (arith, r.same_released));
    old = λ j t low high e. absurd (omega (arith, r.same_layer));
    old_order = λ i j t u low less high e f. absurd (omega (arith, r.same_layer));
    current = λ j t low high e. absurd (omega (arith, r.same_id));
    current_order = λ i j t u low less high e f. absurd (omega (arith, r.same_id));
    chunks_fit =
        λ k ch e. absurd (omega (arith, lt_of_get_elem? s.chunks k ch e, ap length r.same_chunks));
  }

  first-Head :
      (s : Layout)
      → FileReset c fresh 0 offset s
      → Head c (entries (0, offset) rest) s (0, offset) rest
  first-Head s r = record {
    sane = record {
      page = r.page;
      chunk_le = omega (arith, r.small, v.page_in_chunk);
      file_fits = omega (arith, r.position, listed_small c (0, offset) rest listed);
      buffer_fits = omega (arith, r.room, r.small);
      released_le = omega (arith, r.same_released, r.same_layer);
      layer_le = omega (arith, r.same_layer, r.same_id);
      tensors_le = omega (arith, r.same_id);
    };
    file = r.file;
    position = r.position;
    placed = λ i h. absurd (omega (arith, r.same_id));
    room = omega (arith, r.room, r.small);
    upcoming = λ j. ap (get_elem? (entries (0, offset) rest)) (omega (arith, r.same_id));
    total = omega (arith, r.same_id);
    space = omega (arith, first_length s r);
    safe = first-IsSafe s r;
  }

  pub compute_layout_lem :
      (s : Layout) × (compute_layout c ((0, offset) ∷ rest) ≡ ok s)
      × IsCorrect c (entries (0, offset) rest) s
      × IsPrefetched c (last_or (0, offset) rest).0 s
  unfolding compute_layout
  compute_layout_lem =
      let (s₀, started, r) =
        reset_chunk_file_lem c fresh 0 offset v v.page_pos
          (omega (arith, listed_small c (0, offset) rest listed)) (omega arith) in
      let (s₁, scanned, head) =
        scan_lem c v (entries (0, offset) rest) rest (0, offset) s₀ listed fits (first-Head s₀ r) in
      let (s₂, finished, same, all, prefetched) =
        finish_layout_lem c v (entries (0, offset) rest) s₁ (last_or (0, offset) rest) head
          (finish_chunk_lem c v s₁ head.sane) in
      (
        s₂,
        rw (enough, started, scanned) finished,
        record { count = omega (arith, same, head.space); delivered = all },
        prefetched,
      )
    where
      enough : leb (add_size (last_or (0, offset) rest).0 1) (suc (length rest)) ≡ true
      enough = le→leb _ _ (omega (arith, num_files, count_entries c rest (0, offset) listed))

  -- With a valid configuration and a table of offsets of files 0, 1, … in which offsets do not
  -- fall within a file, every tensor fits into the buffer with its paddings, and no sum passes
  -- 2^61, the function throws nothing, ends, and returns an entry for each tensor: its bytes are
  -- in chunks that the tensor waits for, at its place in the buffer, which lies inside the buffer.
  pub compute_layout-IsCorrect :
      (s : Layout) × (compute_layout c ((0, offset) ∷ rest) ≡ ok s)
      × IsCorrect c (entries (0, offset) rest) s
  compute_layout-IsCorrect = let (s, e, correct, _) = compute_layout_lem in (s, e, correct)

  -- With a valid configuration and a table of offsets of files 0, 1, … in which offsets do not
  -- fall within a file, every tensor fits into the buffer with its paddings, and no sum passes
  -- 2^61, in the layout that the function returns the prefetch ids of the tensors do not fall; the prefetch id of a tensor is that of a chunk, or -1 where there is none,
  -- and not before the last chunk of a tensor that has bytes; no chunk behind a tensor's last one, up
  -- to its prefetch id, is written over the tensor; and every chunk is of one of the files, and no
  -- longer than a chunk of all ranks.
  pub compute_layout-IsPrefetched :
      (s : Layout) × (compute_layout c ((0, offset) ∷ rest) ≡ ok s)
      × IsPrefetched c (last_or (0, offset) rest).0 s
  compute_layout-IsPrefetched = let (s, e, _, prefetched) = compute_layout_lem in (s, e, prefetched)
