-- ===== src/Loader/Run/Session.antt =====
-- A loader whose tensors and chunks come from `compute_layout`, between two requests.
use instant_tensor.Base.{
  ℕ, ◌+◌, ◌≤◌, ◌<◌, ◌≡◌, refl, sym, ap, ◌∙◌, Bool, false, ltb, some, same_some, List, length,
  get_elem?, get_elem?-of_lt, lt_of_get_elem?, subst, ok, arith, dec_lt,
}
use instant_tensor.Base.Int.{ℤ, pos, negsuc, ◌≤ℤ◌, ◌<ℤ◌}
use instant_tensor.Size.{add_size}
use instant_tensor.Types.{TensorMetadate, Chunk}
use instant_tensor.Layout.{Config, Layout}
use instant_tensor.Layout.Prefetch.{IsHeld, Apart, PrefetchOrder}
use instant_tensor.Layout.Cover.{Done}
use instant_tensor.Layout.Correct.{IsPrefetched, IsCorrect}
use instant_tensor.Loader.{Loader}
use instant_tensor.Loader.Schedule.{can_step, try_step, get_tensor_ptr}
use instant_tensor.Loader.Schedule.Window.{last}
use instant_tensor.Loader.Schedule.Inflight.{Sched, IsReady}
use instant_tensor.Loader.Schedule.Live.{Serving, Same, can_step_lem, get_tensor_ptr-Same}
use instant_tensor.Loader.Schedule.Live.Idle.{try_step_lem}

-- A layout that keeps its promises, with at least one tensor, and bytes in each.
pub record IsServable (c : Config) (want : List (ℕ × ℕ × ℕ)) (s : Layout) : Type 0 where
  pub files : ℕ
  pub prefetched : IsPrefetched c files s
  pub correct : IsCorrect c want s
  pub some_tensor : 0 < length s.tensors
  pub with_bytes : (i : ℕ) (t : TensorMetadate) → get_elem? s.tensors i ≡ some t → 0 < t.size

-- Of the chunks, `a` are up to the tensor's last one, and `b` up to its prefetch id.
pub record Spans (s : Layout) (t : TensorMetadate) : Type 0 where
  pub a : ℕ
  pub b : ℕ
  pub last_is : t.last_chunk_id ≡ last a
  pub prefetch_is : t.prefetch_chunk_id ≡ last b
  pub some_chunk : 0 < a
  pub upto : a ≤ b
  pub within : b ≤ length s.chunks

Spans-of :
    (s : Layout) (t : TensorMetadate) (x y : ℤ) (k : ℕ)
    → t.last_chunk_id ≡ x
    → t.prefetch_chunk_id ≡ y
    → pos k ≤ℤ x
    → x ≤ℤ y
    → y <ℤ pos (length s.chunks)
    → Spans s t
Spans-of s t (negsuc i) y k e f low le high = absurd (omega arith)
Spans-of s t (pos i) (negsuc j) k e f low le high = absurd (omega arith)
Spans-of s t (pos i) (pos j) k e f low le high = record {
  a = i + 1;
  b = j + 1;
  last_is = e ∙ last_suc i;
  prefetch_is = f ∙ last_suc j;
  some_chunk = omega arith;
  upto = omega arith;
  within = omega arith;
}
  where
    last_suc : (m : ℕ) → pos m ≡ last (m + 1)
    last_suc m = ground arith

module _ (c : Config) (want : List (ℕ × ℕ × ℕ)) (s : Layout) (servable : IsServable c want s) where
  at-IsHeld : (i : ℕ) (t : TensorMetadate) → get_elem? s.tensors i ≡ some t → IsHeld c s.chunks t
  at-IsHeld i t e = servable.prefetched.held i t (omega arith) (lt_of_get_elem? s.tensors i t e) e

  -- The first byte of a tensor is in one of its chunks.
  first_chunk :
      (i : ℕ) (t : TensorMetadate)
      → get_elem? s.tensors i ≡ some t
      → (k : ℕ) × (pos k ≤ℤ t.last_chunk_id)
  first_chunk i t e =
      let (t', e', (done, _, _)) =
        servable.correct.delivered i
          (omega (arith, servable.correct.count, lt_of_get_elem? s.tensors i t e)) in
      let same = same_some (get_elem? s.tensors i) e' e in
      let (k, _, _, le, _) =
        subst (Done s.chunks) same done t.file_offset (omega arith)
          (omega (arith, servable.with_bytes i t e)) in
      (k, le)

  pub spans : (i : ℕ) (t : TensorMetadate) → get_elem? s.tensors i ≡ some t → Spans s t
  spans i t e =
      let h = at-IsHeld i t e in
      let (k, low) = first_chunk i t e in
      Spans-of s t t.last_chunk_id t.prefetch_chunk_id k refl refl low
        (h.covers_last (servable.with_bytes i t e)) h.is_chunk

-- The loader serves the layout `s` with its device buffer at `device`: `n` chunks are posted, none of
-- them behind the prefetch id of the current tensor, and `read` of them read.
pub record Session (page : ℕ) (s : Layout) (device : ℕ) (l : Loader) (n read : ℕ) : Type 0 where
  pub ready : IsReady page l
  pub sched : Sched l n read
  pub tensors : l.tensors ≡ s.tensors
  pub device_buffer : l.device_buffer ≡ device
  pub chunks : length l.chunks ≡ length s.chunks
  pub going : l.stop ≡ false
  pub current : l.current_tensor_index < length s.tensors
  pub held :
      (t : TensorMetadate)
      → get_elem? s.tensors l.current_tensor_index ≡ some t
      → last n ≤ℤ t.prefetch_chunk_id

last-le : (n b : ℕ) → last n ≤ℤ last b → n ≤ b
last-le n b h = ground arith

pub le-last : (n b : ℕ) → n ≤ b → last n ≤ℤ last b
le-last n b h = ground arith

-- No chunk posted so far, behind the last one of the current tensor, is written over that tensor.
abbrev pub IsIntact : Config → Layout → Loader → Type 0
IsIntact c s l =
    (n : ℕ) × (l.chunk_reading ≡ last n)
    × ((t : TensorMetadate) (k : ℕ) (ch : Chunk)
        → get_elem? s.tensors l.current_tensor_index ≡ some t
        → get_elem? s.chunks k ≡ some ch
        → t.last_chunk_id <ℤ pos k
        → k < n
        → Apart c ch t)

module _ (page : ℕ) (c : Config) (want : List (ℕ × ℕ × ℕ)) (s : Layout) (device : ℕ)
    (servable : IsServable c want s) where
  -- The prefetch ids do not fall from a tensor to a later one.
  held_later :
      (i j : ℕ) (t u : TensorMetadate) (n : ℕ)
      → i ≤ j
      → get_elem? s.tensors i ≡ some t
      → get_elem? s.tensors j ≡ some u
      → last n ≤ℤ t.prefetch_chunk_id
      → last n ≤ℤ u.prefetch_chunk_id
  held_later i j t u n le e f h = elim (dec_lt i j) [
    | yes less ↦
        let order : PrefetchOrder t u =
          servable.prefetched.order i j t u (omega arith) less (lt_of_get_elem? s.tensors j u f) e
            f in
        omega arith
    | no other ↦
        let same =
          same_some (get_elem? s.tensors j)
            (subst (λ k. get_elem? s.tensors k ≡ some t) (omega arith) e) f in
        subst (λ v. last n ≤ℤ TensorMetadate.prefetch_chunk_id v) same h
  ]

  -- At any tensor from the current one on, the loader serves that tensor.
  Session-Serving :
      (l : Loader) (n read j : ℕ) (u : TensorMetadate) (span : Spans s u)
      → Session page s device l n read
      → l.current_tensor_index ≤ j
      → get_elem? s.tensors j ≡ some u
      → Serving page u span.b (record l { current_tensor_index = j }) n read
  Session-Serving l n read j u span session le f =
      let (t, e) = get_elem?-of_lt s.tensors l.current_tensor_index session.current in
      record {
        ready = session.ready;
        sched = session.sched;
        current = ap (λ ts. get_elem? ts j) session.tensors ∙ f;
        prefetch = span.prefetch_is;
        within = omega (arith, span.within, session.chunks);
        upto = last-le n span.b (
            subst (λ x. last n ≤ℤ x) span.prefetch_is
              (held_later l.current_tensor_index j t u n le e f (session.held t e)));
      }

  Serving-Session :
      (l l' : Loader) (n read n' read' j : ℕ) (u : TensorMetadate) (span : Spans s u)
      → Session page s device l n read
      → get_elem? s.tensors j ≡ some u
      → Same (record l { current_tensor_index = j }) l'
      → Serving page u span.b l' n' read'
      → Session page s device l' n' read'
  Serving-Session l l' n read n' read' j u span session f same serving = record {
    ready = serving.ready;
    sched = serving.sched;
    tensors = same.tensors ∙ session.tensors;
    device_buffer = same.device_buffer ∙ session.device_buffer;
    chunks = same.chunks ∙ session.chunks;
    going = same.stop ∙ session.going;
    current = omega (arith, same.current_tensor_index, lt_of_get_elem? s.tensors j u f);
    held = λ t e.
        let same_tensor =
          same_some (get_elem? s.tensors j) f
            (subst (λ k. get_elem? s.tensors k ≡ some t) same.current_tensor_index e) in
        subst (λ v. last n' ≤ℤ TensorMetadate.prefetch_chunk_id v) same_tensor
          (subst (λ x. last n' ≤ℤ x) (sym span.prefetch_is) (le-last n' span.b serving.upto));
  }

  pub Session-get_tensor_ptr :
      (ready : ℕ → ℤ → Bool) (fuel : ℕ) (l : Loader) (n read j : ℕ) (u : TensorMetadate)
      → Session page s device l n read
      → l.current_tensor_index ≤ j
      → get_elem? s.tensors j ≡ some u
      → length s.chunks + 2 ≤ fuel
      → (l' : Loader) × (n' : ℕ) × (read' : ℕ) × (get_tensor_ptr ready fuel l j
          ≡ ok (l', add_size device u.device_buffer_offset))
        × (Session page s device l' n' read')
        × (l'.current_tensor_index ≡ j)
        × (u.last_chunk_id ≤ℤ l'.chunk_read)
  Session-get_tensor_ptr ready fuel l n read j u session le f h =
      let span = spans c want s servable j u f in
      let (l', n', read', e, serving, done, same) =
        get_tensor_ptr-Same page u span.a span.b span.upto span.last_is ready fuel l n read j
          (ap (λ ts. get_elem? ts j) session.tensors ∙ f) le
          (Session-Serving l n read j u span session le f) (omega (arith, span.within)) in
      (
        l',
        n',
        read',
        e ∙ ap (λ d. ok (l', add_size d u.device_buffer_offset)) session.device_buffer,
        Serving-Session l l' n read n' read' j u span session f same serving,
        same.current_tensor_index,
        subst (λ x. x ≤ℤ l'.chunk_read) (sym span.last_is)
            (subst (λ x. last span.a ≤ℤ x) (sym serving.sched.done) (le-last span.a read' done)),
      )

  pub Session-try_step :
      (ready : ℤ → Bool) (l : Loader) (n read : ℕ)
      → Session page s device l n read
      → (l' : Loader) × (n' : ℕ) × (read' : ℕ) × (try_step ready l ≡ ok l')
        × (Session page s device l' n' read')
        × (l'.current_tensor_index ≡ l.current_tensor_index)
  Session-try_step ready l n read session =
      let j = l.current_tensor_index in
      let (u, f) = get_elem?-of_lt s.tensors j session.current in
      let span = spans c want s servable j u f in
      let (l', n', read', e, serving, same) =
        try_step_lem page u span.a span.b span.upto span.last_is ready l n read
          (Session-Serving l n read j u span session (omega arith) f) in
      (
        l',
        n',
        read',
        e,
        Serving-Session l l' n read n' read' j u span session f same serving,
        same.current_tensor_index,
      )

  pub Session-can_step :
      (l : Loader) (n read : ℕ) → Session page s device l n read → (b : Bool) × (can_step l ≡ ok b)
  Session-can_step l n read session =
      let j = l.current_tensor_index in
      let (u, f) = get_elem?-of_lt s.tensors j session.current in
      let span = spans c want s servable j u f in
      (
        ltb n span.b,
        can_step_lem page u span.a span.b span.upto span.last_is l n read
            (Session-Serving l n read j u span session (omega arith) f),
      )

  Session-Apart :
      (l : Loader) (n read : ℕ) (t : TensorMetadate) (k : ℕ) (ch : Chunk)
      → Session page s device l n read
      → get_elem? s.tensors l.current_tensor_index ≡ some t
      → get_elem? s.chunks k ≡ some ch
      → t.last_chunk_id <ℤ pos k
      → k < n
      → Apart c ch t
  Session-Apart l n read t k ch session e f behind posted =
      (at-IsHeld c want s servable l.current_tensor_index t e).untouched k ch f behind
        (posted_le n k t.prefetch_chunk_id posted (session.held t e))
    where
      posted_le : (n k : ℕ) (x : ℤ) → k < n → last n ≤ℤ x → pos k ≤ℤ x
      posted_le n k x less h = ground arith

  pub Session-IsIntact : (l : Loader) (n read : ℕ) → Session page s device l n read → IsIntact c s l
  Session-IsIntact l n read session =
      (n, session.sched.reading, λ t k ch. Session-Apart l n read t k ch session)
