-- ===== src/Executor/Pool/Phases.antt =====
-- The phases of the pool of csrc/instant_tensor/async_executor.hpp by its numbers: the stop items and
-- the tasks in the queue, the stop items still to be pushed, the workers that run, and all workers.
use instant_tensor.Base.{ℕ, suc, ◌+◌, ◌<◌, ◌≤◌, ◌≡◌, Bool, true, false, arith}

-- Not started, started, and stopped.
abbrev pub IsPhase : Bool → Bool → ℕ → ℕ → ℕ → ℕ → ℕ → Type 0
IsPhase false stop_requested in_queue tasks left running all =
    (stop_requested ≡ false) × (in_queue ≡ 0) × (left ≡ 0)
IsPhase true false in_queue tasks left running all =
    (0 < all) × (running ≡ all) × (in_queue ≡ 0) × (left ≡ 0)
IsPhase true true in_queue tasks left running all =
    (0 < all) × (in_queue + left ≡ running) × (running ≤ all) × (running < all → tasks ≡ 0)

pub IsPhase-same :
    (started stop_requested : Bool) (in_queue tasks left running all in_queue' tasks' running' : ℕ)
    → in_queue' ≡ in_queue
    → tasks' ≤ tasks
    → running' ≡ running
    → IsPhase started stop_requested in_queue tasks left running all
    → IsPhase started stop_requested in_queue' tasks' left running' all
IsPhase-same false stop_requested q t l r a q' t' r' e f g (h, i, j) = (h, omega arith, j)
IsPhase-same true false q t l r a q' t' r' e f g (h, i, j, k) = (h, omega arith, omega arith, k)
IsPhase-same true true q t l r a q' t' r' e f g (h, i, j, k) =
    (h, omega arith, omega arith, λ few. omega (arith, k (omega arith)))

-- A worker takes a stop item and returns.
pub IsPhase-ended :
    (started stop_requested : Bool) (in_queue tasks left running all in_queue' tasks' running' : ℕ)
    → in_queue ≡ suc in_queue'
    → tasks' ≡ 0
    → running ≡ suc running'
    → IsPhase started stop_requested in_queue tasks left running all
    → IsPhase started stop_requested in_queue' tasks' left running' all
IsPhase-ended false stop_requested q t l r a q' t' r' e f g (h, i, j) = absurd (omega arith)
IsPhase-ended true false q t l r a q' t' r' e f g (h, i, j, k) = absurd (omega arith)
IsPhase-ended true true q t l r a q' t' r' e f g (h, i, j, k) =
    (h, omega arith, omega arith, λ few. f)

-- The loop of `stop` pushes an item.
pub IsPhase-pushed :
    (started stop_requested : Bool) (in_queue tasks left running all in_queue' tasks' left' : ℕ)
    → in_queue' ≡ suc in_queue
    → tasks' ≡ tasks
    → left ≡ suc left'
    → IsPhase started stop_requested in_queue tasks left running all
    → IsPhase started stop_requested in_queue' tasks' left' running all
IsPhase-pushed false stop_requested q t l r a q' t' l' e f g (h, i, j) = absurd (omega arith)
IsPhase-pushed true false q t l r a q' t' l' e f g (h, i, j, k) = absurd (omega arith)
IsPhase-pushed true true q t l r a q' t' l' e f g (h, i, j, k) =
    (h, omega arith, j, λ few. omega (arith, k few))

-- `stop` of a started executor.
pub IsPhase-stopped :
    (started stop_requested : Bool) (in_queue tasks left running all : ℕ)
    → started ≡ true
    → stop_requested ≡ false
    → IsPhase started stop_requested in_queue tasks left running all
    → IsPhase started true in_queue tasks all running all
IsPhase-stopped false stop_requested q t l r a e f h = absurd (ground arith)
IsPhase-stopped true true q t l r a e f h = absurd (ground arith)
IsPhase-stopped true false q t l r a e f (h, i, j, k) =
    (h, omega arith, omega arith, λ few. absurd (omega arith))

-- A call of `submit` that does not throw.
pub IsPhase-submitted :
    (started stop_requested : Bool) (in_queue tasks left running all in_queue' tasks' : ℕ)
    → started ≡ true
    → stop_requested ≡ false
    → in_queue' ≡ in_queue
    → IsPhase started stop_requested in_queue tasks left running all
    → IsPhase true false in_queue' tasks' left running all
IsPhase-submitted false stop_requested q t l r a q' t' e f g h = absurd (ground arith)
IsPhase-submitted true true q t l r a q' t' e f g h = absurd (ground arith)
IsPhase-submitted true false q t l r a q' t' e f g (h, i, j, k) = (h, i, omega arith, k)

-- No stop item is anywhere before `stop`.
pub no_stops :
    (started stop_requested : Bool) (in_queue tasks left running all : ℕ)
    → stop_requested ≡ false
    → IsPhase started stop_requested in_queue tasks left running all
    → (in_queue ≡ 0) × (left ≡ 0)
no_stops false stop_requested q t l r a e (h, i, j) = (i, j)
no_stops true true q t l r a e h = absurd (ground arith)
no_stops true false q t l r a e (h, i, j, k) = (j, k)
