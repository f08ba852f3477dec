-- ===== src/Layout/Scan.antt =====
-- The loop over the offsets: its invariant, and that it never throws on a table of offsets that the
-- front end builds.
use native.Mathlib.Nat.{add-zero}
use instant_tensor.Base.{
  ℕ, suc, ◌+◌, ◌-◌, ◌^◌, ◌≤◌, ◌<◌, ◌≡◌, refl, sym, ap, ◌∙◌, ◌⊎◌, some, List, [], ◌∷◌, length,
  get_elem?, subst, length-set, get_elem?-set_self, get_elem?-set_ne, ok, ◌==◌, ==_iff,
  if◌then◌else◌, true, false, arith, ℕ_discrete,
}
use instant_tensor.Base.Int.{ℤ}
use instant_tensor.Types.{TensorMetadate}
use instant_tensor.Layout.{Config, Layout, finish_chunk, next_file}
use instant_tensor.Layout.Valid.{IsValid, IsSane}
use instant_tensor.Layout.Finish.{Finished, finish_chunk_lem, Finished-small, Finished-behind}
use instant_tensor.Layout.Cover.{
  Covered, Done, AllPlaced, AllPlaced-Kept, Covered-finish, Covered-Done,
}
use instant_tensor.Layout.Reset.{FileReset, reset_chunk_file_lem}
use instant_tensor.Layout.Prefetch.{IsSafe}
use instant_tensor.Layout.Prefetch.Closing.{
  finish_chunk-IsSafe, finish_chunk-IsClosed, finish_chunk-IsLayered, reset_chunk_file-IsSafe,
}
use instant_tensor.Layout.Place.{Placed}

-- The tensors that a table of offsets lists: file, offset and size.
abbrev pub entries : ℕ × ℕ → List (ℕ × ℕ) → List (ℕ × ℕ × ℕ)
entries current [] = []
entries current (next ∷ rest) =
    if current.0 == next.0
    then (current.0, current.1, next.1 - current.1) ∷ entries next rest
    else entries next rest

-- A table of offsets: within a file they do not fall, and each tensor fits into the buffer beside
-- the paddings that `init_buffer` reserves; the next file has the next index.
abbrev pub IsListed : Config → ℕ × ℕ → List (ℕ × ℕ) → Type 0
IsListed c current [] = current.1 ≤ 2 ^ 61
IsListed c current (next ∷ rest) =
    (current.1 ≤ 2 ^ 61)
    × (((next.0 ≡ current.0)
          × (current.1 ≤ next.1)
          × (next.1 - current.1 + 16 + c.thread_alignment + c.world_chunk_alignment
              ≤ c.buffer_size))
        ⊎ (next.0 ≡ current.0 + 1))
    × IsListed c next rest

-- What each change of file may add to the offset in the buffer, summed.
abbrev pub budget : Config → List (ℕ × ℕ) → ℕ
budget c [] = 0
budget c (x ∷ rest) = c.thread_alignment + c.world_chunk_alignment + 32 + budget c rest

pub listed_small :
    (c : Config) (current : ℕ × ℕ) (rest : List (ℕ × ℕ))
    → IsListed c current rest
    → current.1 ≤ 2 ^ 61
listed_small c current [] h = h
listed_small c current (next ∷ rest) h = h.0

-- A tensor that is placed as the table says.
abbrev pub Good : Config → List (ℕ × ℕ × ℕ) → Layout → ℕ → TensorMetadate → Type 0
Good c want s i t =
    Covered s t
    × (t.device_buffer_offset + t.size ≤ c.buffer_size)
    × (get_elem? want i ≡ some (t.file_index, t.file_offset, t.size))

pub record Head (c : Config) (want : List (ℕ × ℕ × ℕ)) (s : Layout) (current : ℕ × ℕ)
    (rest : List (ℕ × ℕ)) : Type 0 where
  pub sane : IsSane c s
  pub file : s.chunk_file_index ≡ current.0
  pub position : s.chunk_file_offset + s.current_chunk_size ≡ current.1
  pub placed : AllPlaced (Good c want s) s.tensors s.tensor_id
  pub room :
      s.chunk_device_buffer_offset + s.current_chunk_size + c.world_chunk_alignment + budget c rest
      ≤ 2 ^ 62
  pub upcoming : (j : ℕ) → get_elem? want (s.tensor_id + j) ≡ get_elem? (entries current rest) j
  pub total : s.tensor_id + length (entries current rest) ≡ length want
  pub space : length s.tensors ≡ length want
  pub safe : IsSafe c s

module _ (c : Config) (v : IsValid c) (want : List (ℕ × ℕ × ℕ)) where
  module _ (s : Layout) (current next : ℕ × ℕ) (rest : List (ℕ × ℕ))
      (head : Head c want s current (next ∷ rest)) where
    module _ (same : (current.0 == next.0) ≡ true) where
      entries_same :
          entries current (next ∷ rest)
          ≡ (current.0, current.1, next.1 - current.1) ∷ entries next rest
      entries_same = rw same refl

      pub tensor_space : s.tensor_id < length s.tensors
      tensor_space = omega (arith, head.total, head.space, ap length entries_same)

      module _ (s' : Layout) (p : Placed c s current.1 (next.1 - current.1) s') where
        placed_new :
            (t : TensorMetadate) × (get_elem? s'.tensors s.tensor_id ≡ some t)
            × Good c want s' s.tensor_id t
        placed_new = (
          p.tensor,
          ap (λ ts. get_elem? ts s.tensor_id) p.tensors
              ∙ get_elem?-set_self p.before.tensors s.tensor_id p.tensor
                  (omega (arith, tensor_space, p.continues.same_length)),
          (
            p.covered,
            omega (arith, p.in_buffer, ap (λ (e : ℕ × ℕ × ℕ). e.2) p.identity),
            ap (get_elem? want) (sym (add-zero s.tensor_id))
                ∙ head.upcoming 0
                ∙ ap (λ es. get_elem? es 0) entries_same
                ∙ ap some
                    (sym (p.identity ∙ ap (λ k. (k, current.1, next.1 - current.1)) head.file)),
          ),
        )

        placed_old :
            (i : ℕ)
            → i < s.tensor_id
            → (t : TensorMetadate) × (get_elem? s'.tensors i ≡ some t) × Good c want s' i t
        placed_old i h =
            let (t, e, g) = head.placed i h in
            let (id, f) = p.continues.kept i t e in
            let t' = record t { prefetch_chunk_id = id } in
            (
              t',
              ap (λ ts. get_elem? ts i) p.tensors
                  ∙ get_elem?-set_ne p.before.tensors s.tensor_id i p.tensor (omega arith)
                  ∙ f,
              (p.covers t' (p.continues.covers t' g.0), g.1, g.2),
            )

        placed_next : AllPlaced (Good c want s') s'.tensors s'.tensor_id
        placed_next i h = elim (ℕ_discrete i s.tensor_id) [
          | yes last ↦
              subst
                (λ k. (t : TensorMetadate) × (get_elem? s'.tensors k ≡ some t) × Good c want s' k t)
                (sym last) placed_new
          | no old ↦ placed_old i (omega (arith, p.id))
        ]

        pub place-Head :
            current.1 ≤ next.1
            → c.buffer_size + c.world_chunk_alignment + budget c rest ≤ 2 ^ 61
            → Head c want s' next rest
        place-Head order bound = record {
          sane = p.sane;
          file = p.same_file ∙ head.file ∙ (==_iff _ _).0 same;
          position = omega (arith, p.position);
          placed = placed_next;
          room = omega (arith, p.room);
          upcoming = λ j.
              ap (get_elem? want) (omega (arith, p.id))
              ∙ head.upcoming (suc j)
              ∙ ap (λ es. get_elem? es (suc j)) entries_same;
          total = omega (arith, head.total, p.id, ap length entries_same);
          space = omega (
            arith,
            head.space,
            ap length p.tensors,
            length-set p.before.tensors s.tensor_id p.tensor,
            p.continues.same_length,
          );
          safe = p.safe head.safe;
        }

    module _ (other : (current.0 == next.0) ≡ false) (small : next.1 ≤ 2 ^ 61)
        (onward : current.0 ≤ next.0) where
      entries_other : entries current (next ∷ rest) ≡ entries next rest
      entries_other = rw other refl

      module _ (s₁ s₂ : Layout) (f : Finished c s s₁) (r : FileReset c s₁ next.0 next.1 s₂) where
        moved-Good :
            (i : ℕ) (t : TensorMetadate) (id : ℤ)
            → Good c want s i t
            → Good c want s₂ i (record t { prefetch_chunk_id = id })
        moved-Good i t id (covered, inside, wanted) = (
          Covered-Done s₂ (record t { prefetch_chunk_id = id })
              (subst (λ cs. Done cs (record t { prefetch_chunk_id = id })) (sym r.same_chunks)
                (Covered-finish c s s₁ (record t { prefetch_chunk_id = id }) f covered)),
          inside,
          wanted,
        )

        moved_placed : AllPlaced (Good c want s₂) s₂.tensors s₂.tensor_id
        moved_placed =
            subst (λ ts. AllPlaced (Good c want s₂) ts s₂.tensor_id) (sym r.same_tensors)
              (subst (AllPlaced (Good c want s₂) s₁.tensors) (sym (r.same_id ∙ f.same_id)) (
                AllPlaced-Kept (Good c want s) (Good c want s₂) s.tensors s₁.tensors s.tensor_id
                  f.kept moved-Good head.placed))

        move-Head : Head c want s₂ next rest
        move-Head = record {
          sane = record {
            page = r.page;
            chunk_le = omega (arith, r.small, v.page_in_chunk);
            file_fits = omega (arith, r.position);
            buffer_fits = omega (arith, move_room);
            released_le = omega (arith, r.same_released, r.same_layer, f.released_le);
            layer_le =
                omega (arith, r.same_layer, r.same_id, f.same_layer, f.same_id, head.sane.layer_le);
            tensors_le = omega (
              arith,
              r.same_id,
              f.same_id,
              ap length r.same_tensors,
              f.same_length,
              head.sane.tensors_le,
            );
          };
          file = r.file;
          position = r.position;
          placed = moved_placed;
          room = move_room;
          upcoming = λ j.
              ap (λ k. get_elem? want (k + j)) (r.same_id ∙ f.same_id)
              ∙ head.upcoming j
              ∙ ap (λ es. get_elem? es j) entries_other;
          total = omega (arith, head.total, r.same_id, f.same_id, ap length entries_other);
          space = omega (arith, head.space, ap length r.same_tensors, f.same_length);
          safe =
              reset_chunk_file-IsSafe c s₁ s₂
                (finish_chunk-IsLayered c v s s₁ head.sane head.safe f)
                (finish_chunk-IsSafe c v s s₁ head.sane head.safe f)
                (finish_chunk-IsClosed c v s s₁ head.sane head.safe f) next.0 next.1
                (omega (arith, f.same_file, head.file)) r;
        }
          where
            move_room :
                s₂.chunk_device_buffer_offset
                  + s₂.current_chunk_size
                  + c.world_chunk_alignment
                  + budget c rest
                ≤ 2 ^ 62
            move_room =
                omega (arith, head.room, r.room, r.small, Finished-behind c v s s₁ head.sane f)

      move_done :
          (s₁ : Layout) × (finish_chunk c s ≡ ok s₁) × Finished c s s₁
          → (s₂ : Layout) × (next_file c s next.0 next.1 ≡ ok s₂) × Head c want s₂ next rest
      unfolding next_file
      move_done (s₁, done, f) =
          let (s₂, reset, r) =
            reset_chunk_file_lem c s₁ next.0 next.1 v (Finished-small c v s s₁ head.sane f)
              (omega arith) (omega (arith, head.room, Finished-behind c v s s₁ head.sane f)) in
          (s₂, rw done reset, move-Head s₁ s₂ f r)

      pub next_file-Head :
          (s' : Layout) × (next_file c s next.0 next.1 ≡ ok s') × Head c want s' next rest
      next_file-Head = move_done (finish_chunk_lem c v s head.sane)
