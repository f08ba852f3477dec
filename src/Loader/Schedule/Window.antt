-- ===== src/Loader/Schedule/Window.antt =====
-- Reaping: which chunks a wait or a poll has read when it returns. Chunk ids are -1 for none, so
-- `last n` is the id of the last of `n` chunks.
use instant_tensor.Base.{
  ℕ, zero, suc, ◌+◌, ◌-◌, ◌≤◌, ◌<◌, ◌≡◌, refl, ap, sym, ◌∙◌, ◌⊎◌, inl, inr, Bool, true, false, some,
  List, [], ◌∷◌, length, dec_lt, get_elem?, max, Bool-cases, ok, ◌>>=◌, arith,
}
use instant_tensor.Base.Int.{ℤ, pos, sub_ℕ, pos_part, ◌-ℤ◌, ◌+ℤ◌, ltb_ℤ}
use instant_tensor.Types.{Chunk, ChunkRequest, wait_thread}
use instant_tensor.Loader.{Loader}
use instant_tensor.Loader.Schedule.{
  at_ℤ, request_of, reap_chunks, wait_and_reap, wait_read_chunk, poll_chunks, poll_read_chunk,
}

abbrev pub last : ℕ → ℤ
last n = sub_ℕ n 1

-- The first `n` chunks have been handed to the thread that completes them.
abbrev pub Issued : List Chunk → ℕ → Type 0
Issued chunks n =
    (k : ℕ)
    → k < n
    → (ch : Chunk) × (get_elem? chunks k ≡ some ch) × (ch.request.executor ≡ some wait_thread)

request_of_lem :
    (l : Loader) (n k : ℕ)
    → Issued l.chunks n
    → k < n
    → (ch : Chunk) × (request_of l (pos k) ≡ ok ch.request) × (get_elem? l.chunks k ≡ some ch)
unfolding request_of at_ℤ
request_of_lem l n k issued h = let (ch, e, f) = issued k h in (ch, rw (e, f), e)

pub last_next : (n : ℕ) → last n +ℤ pos 1 ≡ pos n
last_next n = ground arith

next_pos : (from : ℕ) → pos from +ℤ pos 1 ≡ pos (from + 1)
next_pos from = ground arith

-- The requests of `count` chunks from chunk `from` on.
abbrev pub Requests : List Chunk → ℕ → List ChunkRequest → Type 0
Requests chunks from [] = Unit
Requests chunks from (request ∷ later) =
    (ch : Chunk) × (get_elem? chunks from ≡ some ch)
    × (request ≡ ch.request)
    × Requests chunks (from + 1) later

reap_chunks_lem :
    (l : Loader) (n count from : ℕ)
    → Issued l.chunks n
    → from + count ≤ n
    → (reaped : List ChunkRequest) × (reap_chunks count l (pos from)
        ≡ ok (pos (from + count), reaped))
      × (length reaped ≡ count)
      × Requests l.chunks from reaped
unfolding reap_chunks
reap_chunks_lem l n zero from issued h = ([], ap (λ k. ok (pos k, [])) (omega arith), refl, tt)
reap_chunks_lem l n (suc count) from issued h =
    let (ch, e, at) = request_of_lem l n from issued (omega arith) in
    let (reaped, f, len, all) = reap_chunks_lem l n count (from + 1) issued (omega arith) in
    (
      ch.request ∷ reaped,
      rw (e, next_pos from, f) (ap (λ k. ok (pos k, ch.request ∷ reaped)) (omega arith)),
      ap suc len,
      (ch, at, refl, all),
    )

count_read : (k read : ℕ) → pos_part (pos k -ℤ last read) ≡ k + 1 - read
count_read k read = ground arith

count_last : (n read : ℕ) → pos_part (last n -ℤ last read) ≡ n - read
count_last n read = ground arith

last_pos : (n : ℕ) → pos n -ℤ pos 1 ≡ last n
last_pos n = ground arith

last-max : (read k : ℕ) → pos (read + (k + 1 - read)) -ℤ pos 1 ≡ last (max read (k + 1))
last-max read k = ground arith

-- When the first `n` chunks are posted, of which the first `read` are read, and chunk `k` is one
-- of them, with `chunk_reading` not before it, `wait_read_chunk` of `k` reaps the requests of the
-- chunks from `read` to `k`, each once and in order, and no other, and returns with `chunk_read` at
-- `k`, or where it was if that is later.
pub wait_and_reap_lem :
    (l : Loader) (n read k : ℕ)
    → Issued l.chunks n
    → l.chunk_read ≡ last read
    → read ≤ n
    → k < n
    → ltb_ℤ l.chunk_reading (pos k) ≡ false
    → (reaped : List ChunkRequest) × (wait_and_reap l (pos k)
        ≡ ok (record l { chunk_read = last (max read (k + 1)) }, reaped))
      × (length reaped ≡ k + 1 - read)
      × Requests l.chunks read reaped
unfolding wait_and_reap
wait_and_reap_lem l n read k issued e low h g =
    let (reaped, f, len, all) =
      reap_chunks_lem (record l { chunk_read = last read }) n (k + 1 - read) read issued
        (omega arith) in
    (
      reaped,
      rw (g, e, last_next, count_read, f)
          (ap (λ c. ok (record l { chunk_read = c }, reaped)) (last-max read k)),
      len,
      all,
    )

pub wait_read_chunk_lem :
    (l : Loader) (n read k : ℕ)
    → Issued l.chunks n
    → l.chunk_read ≡ last read
    → read ≤ n
    → k < n
    → ltb_ℤ l.chunk_reading (pos k) ≡ false
    → wait_read_chunk l (pos k) ≡ ok (record l { chunk_read = last (max read (k + 1)) })
unfolding wait_read_chunk
wait_read_chunk_lem l n read k issued e low h g =
    let (reaped, f, count, all) = wait_and_reap_lem l n read k issued e low h g in
    ap (λ r. r >>= λ x. ok x.0) f

-- Every chunk from `from` to before `m` answers that it is ready.
abbrev pub AllReady : (ℤ → Bool) → List Chunk → ℕ → ℕ → Type 0
AllReady ready chunks from m =
    (k : ℕ)
    → from ≤ k
    → k < m
    → (ch : Chunk) × (get_elem? chunks k ≡ some ch) × (ready ch.request.wait_handle ≡ true)

-- Chunk `m`, if it is posted, answers that it is not.
abbrev pub Stops : (ℤ → Bool) → List Chunk → ℕ → ℕ → Type 0
Stops ready chunks m n =
    m < n → (ch : Chunk) × (get_elem? chunks m ≡ some ch) × (ready ch.request.wait_handle ≡ false)

abbrev pub Polled : (ℤ → Bool) → List Chunk → ℕ → ℕ → ℕ → Type 0
Polled ready chunks from m n = AllReady ready chunks from m × Stops ready chunks m n

all_later :
    (ready : ℤ → Bool) (chunks : List Chunk) (from m : ℕ) (ch : Chunk)
    → get_elem? chunks from ≡ some ch
    → ready ch.request.wait_handle ≡ true
    → AllReady ready chunks (from + 1) m
    → AllReady ready chunks from m
all_later ready chunks from m ch at here all k low high = elim (lt_or_eq from k low) [
  | inl later ↦ all k (omega (arith, later)) high
  | inr same ↦ (ch, ap (get_elem? chunks) (sym same) ∙ at, here)
]
  where
    lt_or_eq : (a b : ℕ) → a ≤ b → (a < b) ⊎ (a ≡ b)
    lt_or_eq a b h = elim (dec_lt a b) [ yes less ↦ inl less | no more ↦ inr (omega arith) ]

poll_chunks_lem :
    (ready : ℤ → Bool) (l : Loader) (n count from : ℕ)
    → Issued l.chunks n
    → from + count ≤ n
    → (m : ℕ) × (poll_chunks ready count l (pos from) ≡ ok (pos m))
      × (from ≤ m)
      × (m ≤ from + count)
      × Polled ready l.chunks from m (from + count)
unfolding poll_chunks
poll_chunks_lem ready l n zero from issued h = (
  from,
  refl,
  omega arith,
  omega arith,
  ((λ k low high. absurd (omega arith)), λ low. absurd (omega arith)),
)
poll_chunks_lem ready l n (suc count) from issued h =
    let (ch, e, at) = request_of_lem l n from issued (omega arith) in
    let (m, f, low, high, (all, stops)) =
      poll_chunks_lem ready l n count (from + 1) issued (omega arith) in
    elim (Bool-cases (ready ch.request.wait_handle)) [
      | inl here ↦ (
        m,
        rw (e, here) (ap (poll_chunks ready count l) (next_pos from) ∙ f),
        omega arith,
        omega arith,
        (all_later ready l.chunks from m ch at here all, λ less. stops (omega arith)),
      )
      | inr none ↦ (
        from,
        rw (e, none) refl,
        omega arith,
        omega arith,
        ((λ k less more. absurd (omega arith)), λ less. (ch, at, none)),
      )
    ]

-- When the first `n` chunks are posted, of which the first `read` are read, `poll_read_chunk`
-- returns with `chunk_read` at the last of the first `m` chunks, for the `m` from `read` to `n` at
-- which the answers end: every chunk from `read` to before `m` answers that it is ready, and chunk
-- `m`, if `m` is below `n`, that it is not.
pub poll_read_chunk_lem :
    (ready : ℤ → Bool) (l : Loader) (n read : ℕ)
    → Issued l.chunks n
    → l.chunk_read ≡ last read
    → l.chunk_reading ≡ last n
    → read ≤ n
    → (m : ℕ) × (poll_read_chunk ready l ≡ ok (record l { chunk_read = last m }))
      × (read ≤ m)
      × (m ≤ n)
      × Polled ready l.chunks read m n
unfolding poll_read_chunk
poll_read_chunk_lem ready l n read issued e f h =
    let l' = record l { chunk_read = last read; chunk_reading = last n } in
    let (m, g, low, high, (all, stops)) =
      poll_chunks_lem ready l' n (n - read) read issued (omega arith) in
    (
      m,
      rw (e, f, last_next, count_last, g)
          (ap (λ c. ok (record l' { chunk_read = c })) (last_pos m)),
      low,
      omega arith,
      (all, λ less. stops (omega arith)),
    )
