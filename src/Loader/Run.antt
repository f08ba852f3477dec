-- ===== src/Loader/Run.antt =====
-- Loader::dispatch and Loader::run (csrc/loader_common.cpp): the loop of the loader's thread, which
-- answers requests and tries a step after each.
pub mod Session
pub mod Asked
pub mod Rounds
pub mod Served
mod Tests
use instant_tensor.Base.{
  ℕ, zero, suc, Bool, true, false, not, if◌then◌else◌, none, some, List, [], ◌∷◌, ◌++◌, Result, ok,
  err, ◌>>=◌,
}
use instant_tensor.Base.Int.{ℤ}
use instant_tensor.Types.{
  open_op, close_op, get_tensor_ptr_op, Args, open_args, close_args, get_tensor_args, RpcRequest,
  op_of, AnyResult, empty_result, pointer, RpcResponse,
}
use instant_tensor.Loader.{Loader}
use instant_tensor.Loader.Post.{LoaderError}
use instant_tensor.Loader.Schedule.{can_step, try_step, get_tensor_ptr}
use instant_tensor.Loader.System.{
  System, RunError, loader_failed, invalid_operation, bad_any_cast, Process,
}
use instant_tensor.Loader.Open.{open_loader, close_loader}

abbrev pub rethrow {ℓ} : {A : Type ℓ} → Result LoaderError A → Result RunError A
rethrow (ok a) = ok a
rethrow (err e) = err (loader_failed e)

-- A `std::any_cast` to the arguments that the operation has.
unfoldable pub dispatch_open : System → Process → Args → Result RunError (Process × AnyResult)
dispatch_open sys p (open_args args) = do p' ← open_loader sys p args; ok (p', empty_result)
dispatch_open sys p close_args = err bad_any_cast
dispatch_open sys p (get_tensor_args index) = err bad_any_cast

unfoldable pub dispatch_close : System → Process → Args → Result RunError (Process × AnyResult)
dispatch_close sys p close_args = do p' ← close_loader sys p; ok (p', empty_result)
dispatch_close sys p (open_args args) = err bad_any_cast
dispatch_close sys p (get_tensor_args index) = err bad_any_cast

unfoldable pub dispatch_get_tensor_ptr :
    (ℕ → ℤ → Bool) → ℕ → Process → Args → Result RunError (Process × AnyResult)
dispatch_get_tensor_ptr ready fuel p (get_tensor_args index) = do
  (l, ptr) ← rethrow (get_tensor_ptr ready fuel p.loader index)
  ok (record p { loader = l }, pointer ptr)
dispatch_get_tensor_ptr ready fuel p (open_args args) = err bad_any_cast
dispatch_get_tensor_ptr ready fuel p close_args = err bad_any_cast

unfoldable pub dispatch :
    System → (ℕ → ℤ → Bool) → ℕ → Process → RpcRequest → Result RunError (Process × AnyResult)
dispatch sys ready fuel p m = elim (op_of m.op) [
  | some open_op ↦ dispatch_open sys p m.args
  | some close_op ↦ dispatch_close sys p m.args
  | some get_tensor_ptr_op ↦ dispatch_get_tensor_ptr ready fuel p m.args
  | none ↦ err invalid_operation
]

-- The thread, with the requests that wait and the responses that it pushed.
pub record Thread : Type 0 where
  pub process : Process
  pub input_queue : List RpcRequest
  pub output_queue : List RpcResponse

unfoldable pub try_thread_step : (ℤ → Bool) → Thread → Result RunError Thread
try_thread_step ready s = do
  l ← rethrow (try_step ready s.process.loader)
  ok (record s { process = record s.process { loader = l } })

unfoldable pub answer_first :
    System → (ℕ → ℤ → Bool) → ℕ → Thread → RpcRequest → List RpcRequest → Result RunError Thread
answer_first sys ready fuel s m rest = do
  (p, result) ← dispatch sys ready fuel s.process m
  ok (record {
    process = p;
    input_queue = rest;
    output_queue = s.output_queue ++ record { id = m.id; result = result } ∷ [];
  })

-- The rest of an iteration of the loop, when `can_step` is known, with the requests that wait.
-- Without a request and a step to do, `pop` waits: the thread stays as it is until a later round, in
-- which a request is there.
unfoldable pub turn :
    System → (ℕ → ℤ → Bool) → ℕ → Thread → List RpcRequest → Bool → Result RunError Thread
turn sys ready fuel s [] true = try_thread_step (ready fuel) s
turn sys ready fuel s [] false = ok s
turn sys ready fuel s (m ∷ rest) can =
    answer_first sys ready fuel s m rest >>= try_thread_step (ready fuel)

unfoldable pub round : System → (ℕ → ℤ → Bool) → ℕ → Thread → Result RunError Thread
round sys ready fuel s = do
  can ← rethrow (can_step s.process.loader)
  turn sys ready fuel s s.input_queue can

-- The loop, for rounds before each of which some requests arrive. `ready` is asked with the number
-- of the round.
unfoldable pub run :
    System → (ℕ → ℕ → ℤ → Bool) → ℕ → List (List RpcRequest) → Thread → Result RunError Thread
run sys ready fuel [] s = ok s
run sys ready fuel (arrived ∷ later) s =
    let more =
      round sys (ready 0) fuel (record s { input_queue = s.input_queue ++ arrived })
      >>= run sys (λ k. ready (suc k)) fuel later in
    if s.process.loader.stop then ok s else more
