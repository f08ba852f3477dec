-- ===== src/Loader/Schedule/Live.antt =====
-- `get_tensor_ptr` returns: the loop of `wait_step` ends, with the tensor's chunks read.
pub mod Idle
use instant_tensor.Base.{
  ℕ, zero, suc, ◌+◌, ◌-◌, ◌≤◌, ◌<◌, ◌≡◌, ◌≢◌, refl, ap, ◌∙◌, inl, inr, Bool, true, false, ltb,
  ltb→lt, ltb→le, lt→ltb, le→ltb, le→leb, ◌==◌, ==_iff, some, length, get_elem?, lt_of_get_elem?,
  length-set, max, Bool-cases, Result, ok, arith,
}
use instant_tensor.Base.Int.{ℤ, pos, ltb_ℤ}
use instant_tensor.Size.{add_size}
use instant_tensor.Types.{TensorMetadate}
use instant_tensor.Loader.{Loader}
use instant_tensor.Loader.Post.{LoaderError}
use instant_tensor.Loader.Schedule.{
  can_step, step, try_step, wait_step, wait_read_chunk, poll_read_chunk, get_tensor_ptr,
  with_posted,
}
use instant_tensor.Loader.Schedule.Window.{last, wait_read_chunk_lem, poll_read_chunk_lem}
use instant_tensor.Loader.Schedule.Inflight.{Sched, IsReady, after_post, post_read_chunk_lem}

-- The loader while it serves tensor `t`, whose chunks to prefetch are the first `b`.
abbrev pub Serving : ℕ → TensorMetadate → ℕ → Loader → ℕ → ℕ → Type 0
Serving page t b l n read = record {
  ready : IsReady page l;
  sched : Sched l n read;
  current : get_elem? l.tensors l.current_tensor_index ≡ some t;
  prefetch : t.prefetch_chunk_id ≡ last b;
  within : b ≤ length l.chunks;
  upto : n ≤ b;
}

-- What the scheduling leaves as it is.
abbrev pub Same : Loader → Loader → Type 0
Same l l' = record {
  device_buffer : l'.device_buffer ≡ l.device_buffer;
  tensors : l'.tensors ≡ l.tensors;
  current_tensor_index : l'.current_tensor_index ≡ l.current_tensor_index;
  chunks : length l'.chunks ≡ length l.chunks;
  stop : l'.stop ≡ l.stop;
}

pub Same-refl : (l : Loader) → Same l l
Same-refl l = record {
  device_buffer = refl;
  tensors = refl;
  current_tensor_index = refl;
  chunks = refl;
  stop = refl;
}

Same-trans : (l l' l'' : Loader) → Same l l' → Same l' l'' → Same l l''
Same-trans l l' l'' p q = record {
  device_buffer = q.device_buffer ∙ p.device_buffer;
  tensors = q.tensors ∙ p.tensors;
  current_tensor_index = q.current_tensor_index ∙ p.current_tensor_index;
  chunks = q.chunks ∙ p.chunks;
  stop = q.stop ∙ p.stop;
}

ltb-last : (x y : ℕ) → ltb_ℤ (last x) (last y) ≡ ltb x y
ltb-last x y = ground arith

some-length :
    (l : Loader) (t : TensorMetadate)
    → get_elem? l.tensors l.current_tensor_index ≡ some t
    → length l.tensors ≢ 0
some-length l t e z = omega (arith, lt_of_get_elem? l.tensors l.current_tensor_index t e)

==-false : (x y : ℕ) → x ≢ y → (x == y) ≡ false
==-false x y h = elim (Bool-cases (x == y)) [
  | inl same ↦ absurd (h ((==_iff x y).0 same))
  | inr other ↦ other
]

last_pred : (a : ℕ) → 0 < a → last a ≡ pos (a - 1)
last_pred a h = ground arith

reading_reached : (n a : ℕ) → 0 < a → a ≤ n → ltb_ℤ (last n) (pos (a - 1)) ≡ false
reading_reached n a p h = ground arith

max_pred : (read a : ℕ) → read < a → max read (a - 1 + 1) ≡ a
max_pred read a h = ground arith

module _ (page : ℕ) (t : TensorMetadate) (a b : ℕ) (upto : a ≤ b)
    (last_is : t.last_chunk_id ≡ last a) where
  pub can_step_lem :
      (l : Loader) (n read : ℕ) → Serving page t b l n read → can_step l ≡ ok (ltb n b)
  unfolding can_step
  can_step_lem l n read s =
      rw
        (
          ==-false _ _ (some-length l t s.current),
          s.current,
          s.prefetch,
          s.sched.reading,
          ltb-last b n,
          ltb-last n b,
          le→ltb _ _ s.upto,
        )
        refl

  pub step_lem :
      (ready : ℤ → Bool) (l : Loader) (n read : ℕ)
      → Serving page t b l n read
      → n < b
      → (l' : Loader) × (read' : ℕ) × (step ready l ≡ ok l')
        × (Serving page t b l' (n + 1) read')
        × (read ≤ read')
        × (n + 1 ≤ read' + l.io_depth)
        × (n + 1 ≤ read' + 1024)
        × Same l l'
  unfolding step
  step_lem ready l n read s h =
      let (ch, r, p, e, sched, isready, low, depth, high) =
        post_read_chunk_lem page l s.ready n read s.sched (omega (arith, s.within)) in
      let posted = after_post l n p ch r in
      let (m, f, from, to, answers) =
        poll_read_chunk_lem ready posted (n + 1) p sched.issued sched.done sched.reading
          sched.ordered in
      (
        record posted { chunk_read = last m },
        m,
        rw (e, f) refl,
        record {
          ready = isready;
          sched = record {
            reading = sched.reading;
            done = refl;
            ordered = to;
            issued = sched.issued;
          };
          current = s.current;
          prefetch = s.prefetch;
          within = omega (arith, s.within, length-set l.chunks n (with_posted ch r));
          upto = omega arith;
        },
        omega arith,
        omega arith,
        omega arith,
        record {
          device_buffer = refl;
          tensors = refl;
          current_tensor_index = refl;
          chunks = length-set l.chunks n (with_posted ch r);
          stop = refl;
        },
      )

  -- Nothing is left to prefetch, so it waits for the last chunk.
  wait_lem :
      (l : Loader) (n read : ℕ)
      → Serving page t b l n read
      → read < a
      → b ≤ n
      → let l' = record l { chunk_read = last a } in
        (wait_read_chunk l (last a) ≡ ok l') × (Serving page t b l' n a)
  wait_lem l n read s h full = (
    ap (wait_read_chunk l) (last_pred a (omega arith))
        ∙ wait_read_chunk_lem l n read (a - 1) s.sched.issued s.sched.done s.sched.ordered
            (omega arith) (rw s.sched.reading (reading_reached n a (omega arith) (omega arith)))
        ∙ ap (λ k. ok (record l { chunk_read = last k })) (max_pred read a h),
    record {
      ready = s.ready;
      sched = record {
        reading = s.sched.reading;
        done = refl;
        ordered = omega arith;
        issued = s.sched.issued;
      };
      current = s.current;
      prefetch = s.prefetch;
      within = s.within;
      upto = s.upto;
    },
  )

  behind :
      (l : Loader) (n read : ℕ)
      → Serving page t b l n read
      → ltb_ℤ l.chunk_read (last a) ≡ ltb read a
  behind l n read s = rw s.sched.done (ltb-last read a)

  wait_step_done :
      (ready : ℕ → ℤ → Bool) (fuel : ℕ) (l : Loader) (n read : ℕ)
      → Serving page t b l n read
      → ltb read a ≡ false
      → wait_step ready (suc fuel) l (last a) ≡ ok l
  unfolding wait_step
  wait_step_done ready fuel l n read s enough = rw (behind l n read s, enough) refl

  wait_step_more :
      (ready : ℕ → ℤ → Bool) (fuel : ℕ) (l l' : Loader) (n read : ℕ)
      → Serving page t b l n read
      → ltb read a ≡ true
      → ltb n b ≡ true
      → step (ready fuel) l ≡ ok l'
      → wait_step ready (suc fuel) l (last a) ≡ wait_step ready fuel l' (last a)
  unfolding wait_step
  wait_step_more ready fuel l l' n read s less more e =
      rw (behind l n read s, less, can_step_lem l n read s, more, e) refl

  wait_step_full :
      (ready : ℕ → ℤ → Bool) (fuel : ℕ) (l l' : Loader) (n read : ℕ)
      → Serving page t b l n read
      → ltb read a ≡ true
      → ltb n b ≡ false
      → wait_read_chunk l (last a) ≡ ok l'
      → wait_step ready (suc fuel) l (last a) ≡ wait_step ready fuel l' (last a)
  unfolding wait_step
  wait_step_full ready fuel l l' n read s less full e =
      rw (behind l n read s, less, can_step_lem l n read s, full, e) refl

  -- The loop ends with the tensor's chunks read.
  abbrev pub Ended : Loader → Result LoaderError Loader → Type 0
  Ended l m =
      (l' : Loader) × (n' : ℕ) × (read' : ℕ) × (m ≡ ok l')
      × (Serving page t b l' n' read')
      × (a ≤ read')
      × Same l l'

  wait_step_lem :
      (ready : ℕ → ℤ → Bool) (fuel : ℕ) (l : Loader) (n read : ℕ)
      → Serving page t b l n read
      → b - n + 2 ≤ fuel
      → Ended l (wait_step ready fuel l (last a))
  wait_step_lem ready zero l n read s h = absurd (omega arith)
  wait_step_lem ready (suc zero) l n read s h = absurd (omega arith)
  wait_step_lem ready (suc (suc fuel)) l n read s h = elim (Bool-cases (ltb read a)) [
    | inr enough ↦ (
      l,
      n,
      read,
      wait_step_done ready (suc fuel) l n read s enough,
      s,
      ltb→le _ _ enough,
      Same-refl l,
    )
    | inl less ↦ elim (Bool-cases (ltb n b)) [
      | inl more ↦
          let (l', read', e, s', _, _, _, same) =
            step_lem (ready (suc fuel)) l n read s (ltb→lt _ _ more) in
          let (l'', n', read'', f, s'', done, same') =
            wait_step_lem ready (suc fuel) l' (n + 1) read' s' (omega (arith, ltb→lt _ _ more)) in
          (
            l'',
            n',
            read'',
            wait_step_more ready (suc fuel) l l' n read s less more e ∙ f,
            s'',
            done,
            Same-trans l l' l'' same same',
          )
      | inr full ↦
          let (e, s') = wait_lem l n read s (ltb→lt _ _ less) (ltb→le _ _ full) in
          let l' = record l { chunk_read = last a } in
          (
            l',
            n,
            a,
            wait_step_full ready (suc fuel) l l' n read s less full e
                ∙ wait_step_done ready fuel l' n a s' (le→ltb a a (omega arith)),
            s',
            omega arith,
            Same-refl l,
          )
    ]
  ]

  get_eq :
      (ready : ℕ → ℤ → Bool) (fuel : ℕ) (l l' : Loader) (index : ℕ)
      → get_elem? l.tensors index ≡ some t
      → l.current_tensor_index ≤ index
      → wait_step ready fuel (record l { current_tensor_index = index }) (last a) ≡ ok l'
      → get_tensor_ptr ready fuel l index
        ≡ ok (l', add_size l'.device_buffer t.device_buffer_offset)
  unfolding get_tensor_ptr
  get_eq ready fuel l l' index at order e =
      rw (lt→ltb _ _ (lt_of_get_elem? l.tensors index t at), le→leb _ _ order, at, last_is, e) refl

  pub get_tensor_ptr-Same :
      (ready : ℕ → ℤ → Bool) (fuel : ℕ) (l : Loader) (n read index : ℕ)
      → get_elem? l.tensors index ≡ some t
      → l.current_tensor_index ≤ index
      → Serving page t b (record l { current_tensor_index = index }) n read
      → b - n + 2 ≤ fuel
      → (l' : Loader) × (n' : ℕ) × (read' : ℕ) × (get_tensor_ptr ready fuel l index
          ≡ ok (l', add_size l.device_buffer t.device_buffer_offset))
        × (Serving page t b l' n' read')
        × (a ≤ read')
        × Same (record l { current_tensor_index = index }) l'
  get_tensor_ptr-Same ready fuel l n read index at order s h =
      let (l', n', read', e, s', done, same) =
        wait_step_lem ready fuel (record l { current_tensor_index = index }) n read s h in
      (
        l',
        n',
        read',
        get_eq ready fuel l l' index at order e
            ∙ ap (λ p. ok (l', add_size p t.device_buffer_offset)) same.device_buffer,
        s',
        done,
        same,
      )

  -- Asked for a tensor that is not before the last one asked for, when all chunks can be posted,
  -- those posted are up to its prefetch id at most, and its last chunk is not behind its prefetch
  -- id, `get_tensor_ptr` returns within one round for each chunk left to prefetch and two more,
  -- whatever the polls answer: the address of the tensor in the device buffer, with all its chunks
  -- read and none posted behind its prefetch id.
  pub get_tensor_ptr_lem :
      (ready : ℕ → ℤ → Bool) (fuel : ℕ) (l : Loader) (n read index : ℕ)
      → get_elem? l.tensors index ≡ some t
      → l.current_tensor_index ≤ index
      → Serving page t b (record l { current_tensor_index = index }) n read
      → b - n + 2 ≤ fuel
      → (l' : Loader) × (n' : ℕ) × (read' : ℕ) × (get_tensor_ptr ready fuel l index
          ≡ ok (l', add_size l.device_buffer t.device_buffer_offset))
        × (Serving page t b l' n' read')
        × (a ≤ read')
  get_tensor_ptr_lem ready fuel l n read index at order s h =
      let (l', n', read', e, s', done, _) =
        get_tensor_ptr-Same ready fuel l n read index at order s h in
      (l', n', read', e, s', done)
