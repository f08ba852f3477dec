-- ===== src/Loader/Schedule/Live/Idle.antt =====
-- Between requests `try_step` posts or polls.
use instant_tensor.Base.{ℕ, ◌+◌, ◌≤◌, ◌≡◌, refl, inl, inr, Bool, ltb, ltb→lt, Bool-cases, ok}
use instant_tensor.Base.Int.{ℤ}
use instant_tensor.Types.{TensorMetadate}
use instant_tensor.Loader.{Loader}
use instant_tensor.Loader.Schedule.{try_step, poll_read_chunk}
use instant_tensor.Loader.Schedule.Window.{last, poll_read_chunk_lem}
use instant_tensor.Loader.Schedule.Live.{Serving, Same, Same-refl, can_step_lem, step_lem}

module _ (page : ℕ) (t : TensorMetadate) (a b : ℕ) (upto : a ≤ b)
    (last_is : t.last_chunk_id ≡ last a) where
  -- Between requests a step is tried.
  poll_lem :
      (ready : ℤ → Bool) (l : Loader) (n read : ℕ)
      → Serving page t b l n read
      → (l' : Loader) × (read' : ℕ) × (poll_read_chunk ready l ≡ ok l')
        × (Serving page t b l' n read')
        × Same l l'
  poll_lem ready l n read s =
      let (m, f, from, to, answers) =
        poll_read_chunk_lem ready l n read s.sched.issued s.sched.done s.sched.reading
          s.sched.ordered in
      let l' = record l { chunk_read = last m } in
      (
        l',
        m,
        f,
        record {
          ready = s.ready;
          sched = record {
            reading = s.sched.reading;
            done = refl;
            ordered = to;
            issued = s.sched.issued;
          };
          current = s.current;
          prefetch = s.prefetch;
          within = s.within;
          upto = s.upto;
        },
        Same-refl l,
      )

  pub try_step_lem :
      (ready : ℤ → Bool) (l : Loader) (n read : ℕ)
      → Serving page t b l n read
      → (l' : Loader) × (n' : ℕ) × (read' : ℕ) × (try_step ready l ≡ ok l')
        × (Serving page t b l' n' read')
        × Same l l'
  unfolding try_step
  try_step_lem ready l n read s = elim (Bool-cases (ltb n b)) [
    | inl more ↦
        let (l', read', e, s', _, _, _, same) =
          step_lem page t a b upto last_is ready l n read s (ltb→lt _ _ more) in
        (l', n + 1, read', rw (can_step_lem page t a b upto last_is l n read s, more) e, s', same)
    | inr full ↦
        let (l', read', e, s', same) = poll_lem ready l n read s in
        (l', n, read', rw (can_step_lem page t a b upto last_is l n read s, full) e, s', same)
  ]
