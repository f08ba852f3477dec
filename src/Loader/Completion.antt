-- ===== src/Loader/Completion.antt =====
-- The loop of the CUDA thread in csrc/loader_io_uring.cpp, which waits until the reads of a chunk are
-- completed. Completions come in any order, those of other chunks between them; each is counted for
-- its own chunk.
pub mod Batches
mod Tests
use instant_tensor.Base.{
  ℕ, zero, suc, ◌+◌, ◌-◌, ◌^◌, ◌≤◌, ◌<◌, ◌≡◌, ◌≢◌, refl, sym, ap, ◌∙◌, inl, inr, Bool, true, false,
  ltb, lt→ltb, le→ltb, ltb→lt, ltb→le, ◌==◌, ==_iff, ==_ne, Bool-cases, if◌then◌else◌, List, [],
  ◌∷◌, ℕ_discrete, arith,
}
use instant_tensor.Size.{sub_size}

-- A completion: the chunk that the read was for, and whether it succeeded.
pub record Completed : Type 0 where
  pub chunk_id : ℕ
  pub succeeded : Bool

-- How the loop ends: with the counts and the completions that are left, or waiting for one, or with an
-- exception.
pub data Awaited : Type 0 where
  finished : (ℕ → ℕ) → List Completed → Awaited
  waits : (ℕ → ℕ) → Awaited
  read_failed : ℕ → Awaited

-- `unfinished_cnt` of every chunk, by its id, with that of one chunk less by one.
abbrev pub count_down : (ℕ → ℕ) → ℕ → ℕ → ℕ
count_down counts id k = if k == id then sub_size (counts k) 1 else counts k

-- The loop, on the completions in the order in which they come.
unfoldable pub await_reads : ℕ → (ℕ → ℕ) → List Completed → Awaited
await_reads chunk_id counts [] =
    if ltb 0 (counts chunk_id) then waits counts else finished counts []
await_reads chunk_id counts (e ∷ rest) =
    let more = await_reads chunk_id (count_down counts e.chunk_id) rest in
    if ltb 0 (counts chunk_id)
    then (if e.succeeded then more else read_failed e.chunk_id)
    else finished counts (e ∷ rest)

abbrev pub occurs : ℕ → List Completed → ℕ
occurs id [] = 0
occurs id (e ∷ rest) = if id == e.chunk_id then suc (occurs id rest) else occurs id rest

abbrev pub AllSucceeded : List Completed → Type 0
AllSucceeded [] = Unit
AllSucceeded (e ∷ rest) = (e.succeeded ≡ true) × AllSucceeded rest

-- Every chunk counts the completions that are still to come for it.
abbrev pub IsCounted : (ℕ → ℕ) → List Completed → Type 0
IsCounted counts events = (k : ℕ) → (counts k ≡ occurs k events) × (counts k < 2 ^ 64)

pub count_down-IsCounted :
    (counts : ℕ → ℕ) (e : Completed) (rest : List Completed)
    → IsCounted counts (e ∷ rest)
    → IsCounted (count_down counts e.chunk_id) rest
count_down-IsCounted counts e rest counted k = elim (Bool-cases (k == e.chunk_id)) [
  | inl same ↦
      let count : counts k ≡ suc (occurs k rest) =
        (counted k).0 ∙ ap (λ b. if b then suc (occurs k rest) else occurs k rest) same in
      rw same (omega (arith, counted k), omega (arith, counted k))
  | inr other ↦
      let count : counts k ≡ occurs k rest =
        (counted k).0 ∙ ap (λ b. if b then suc (occurs k rest) else occurs k rest) other in
      rw other (count, (counted k).1)
]

await_reads_more :
    (chunk_id : ℕ) (counts : ℕ → ℕ) (e : Completed) (rest : List Completed)
    → ltb 0 (counts chunk_id) ≡ true
    → e.succeeded ≡ true
    → await_reads chunk_id counts (e ∷ rest)
      ≡ await_reads chunk_id (count_down counts e.chunk_id) rest
unfolding await_reads
await_reads_more chunk_id counts e rest more good =
    ap
      (λ b.
        if b
        then (if e.succeeded
            then await_reads chunk_id (count_down counts e.chunk_id) rest
            else read_failed e.chunk_id)
        else finished counts (e ∷ rest))
      more
    ∙ ap
        (λ b.
          if b
          then await_reads chunk_id (count_down counts e.chunk_id) rest
          else read_failed e.chunk_id)
        good

-- When every chunk counts the reads that are still to complete for it, and all of them succeed, the
-- loop for a chunk ends, whatever the order of the completions, with none left for that chunk, and
-- every other chunk still counts its own.
pub await_reads_lem :
    (chunk_id : ℕ) (counts : ℕ → ℕ) (events : List Completed)
    → AllSucceeded events
    → IsCounted counts events
    → (counts' : ℕ → ℕ) × (rest : List Completed) × (await_reads chunk_id counts events
        ≡ finished counts' rest)
      × (counts' chunk_id ≡ 0)
      × (occurs chunk_id rest ≡ 0)
      × AllSucceeded rest
      × IsCounted counts' rest
unfolding await_reads
await_reads_lem chunk_id counts [] all counted =
    (counts, [], rw (counted chunk_id).0 refl, (counted chunk_id).0, refl, tt, counted)
await_reads_lem chunk_id counts (e ∷ rest) (good, all) counted =
    elim (Bool-cases (ltb 0 (counts chunk_id))) [
      | inl more ↦
          let (counts', rest', done, zero_left, none_left, all', counted') =
            await_reads_lem chunk_id (count_down counts e.chunk_id) rest all
              (count_down-IsCounted counts e rest counted) in
          (
            counts',
            rest',
            await_reads_more chunk_id counts e rest more good ∙ done,
            zero_left,
            none_left,
            all',
            counted',
          )
      | inr enough ↦
          let nothing : counts chunk_id ≡ 0 = omega (arith, ltb→le _ _ enough) in
          (
            counts,
            e ∷ rest,
            rw enough refl,
            nothing,
            sym (counted chunk_id).0 ∙ nothing,
            (good, all),
            counted,
          )
    ]
