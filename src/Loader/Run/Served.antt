-- ===== src/Loader/Run/Served.antt =====
-- From the request to open to the responses: the loader's thread as a whole.
use instant_tensor.Base.{
  ℕ, suc, ◌+◌, ◌≡◌, refl, sym, ◌∙◌, Bool, List, [], ◌∷◌, ◌++◌, map, length, ok, subst, arith,
}
use instant_tensor.Base.Int.{ℤ}
use instant_tensor.Types.{OpenArgs, HostBufferCacheEntry, open_args, RpcRequest, empty_result}
use instant_tensor.Layout.{Layout}
use instant_tensor.Layout.Scan.{entries}
use instant_tensor.Loader.Schedule.{can_step}
use instant_tensor.Loader.System.{System, Process, new_process}
use instant_tensor.Loader.Open.Files.{Obliges}
use instant_tensor.Loader.Open.Opened.{IsOpenable, config_of, open_loader-Session}
use instant_tensor.Loader.Open.{open_loader}
use instant_tensor.Loader.Run.{
  Thread, dispatch, dispatch_open, answer_first, try_thread_step, turn, round, run,
}
use instant_tensor.Loader.Run.Session.{IsServable, IsIntact, Session-IsIntact}
use instant_tensor.Loader.Run.Asked.{AllAsked, reply, all_arrived, waiting}
use instant_tensor.Loader.Run.Rounds.{InSession, try_thread_step_lem, run_more, run_lem}

-- The thread when it starts, and the request to open.
abbrev pub new_thread : Process → Thread
new_thread p = record { process = p; input_queue = []; output_queue = [] }

abbrev pub open_request : ℕ → OpenArgs → RpcRequest
open_request id args = record { id = id; op = 0; args = open_args args }

module _ (sys : System) (obliges : Obliges sys) (register : Bool)
    (cached : List HostBufferCacheEntry) (mapped : List (ℕ × ℕ)) (args : OpenArgs) (offset : ℕ)
    (rest : List (ℕ × ℕ)) (openable : IsOpenable sys args offset rest) where
  abbrev fresh_process : Process
  fresh_process = new_process register cached mapped

  first_round :
      (ready : ℕ → ℤ → Bool) (fuel id : ℕ) (p : Process)
      → open_loader sys fresh_process args ≡ ok p
      → round sys ready fuel
          (record (new_thread fresh_process) { input_queue = open_request id args ∷ [] })
        ≡ try_thread_step (ready fuel) (record {
          process = p;
          input_queue = [];
          output_queue = record { id = id; result = empty_result } ∷ [];
        })
  unfolding round can_step turn answer_first dispatch dispatch_open
  first_round ready fuel id p e = rw e refl

  -- When a new thread is sent a request to open with arguments that can be opened, and the system
  -- calls succeed, and then, as rounds pass, requests for tensors in order, then with enough fuel it
  -- throws nothing, whatever the polls answer. It responds to the request to open and then to those
  -- for tensors, in the order in which they came, each with its id and the address of its tensor in
  -- the layout, one in each round in which one waits; and the loader is in a session on the layout, in
  -- which no chunk posted behind the last chunk of the current tensor is written over that tensor.
  pub run_serves :
      (ready : ℕ → ℕ → ℤ → Bool) (id : ℕ) (rounds : List (List RpcRequest))
      → AllAsked (length (entries (0, offset) rest)) 0 (all_arrived rounds)
      → (s : Layout) × (device : ℕ) × (fuel : ℕ) × (th : Thread) × (run sys ready fuel
            ((open_request id args ∷ []) ∷ rounds)
            (new_thread fresh_process)
          ≡ ok th)
        × IsServable (config_of sys args) (entries (0, offset) rest) s
        × InSession sys.page_size s device th
        × IsIntact (config_of sys args) s th.process.loader
        × (length th.input_queue ≡ waiting rounds 0)
        × (th.output_queue ++ map (reply s.tensors device) th.input_queue
            ≡ record { id = id; result = empty_result }
              ∷ map (reply s.tensors device) (all_arrived rounds))
  run_serves ready id rounds asked =
      let (p, s, e, servable, session, first, _) =
        open_loader-Session sys obliges register cached mapped args offset rest openable in
      let device = p.loader.device_buffer in
      let fuel = length s.chunks + 2 in
      let c = config_of sys args in
      let want = entries (0, offset) rest in
      let opened : Thread = record {
        process = p;
        input_queue = [];
        output_queue = record { id = id; result = empty_result } ∷ [];
      } in
      let (l, tried, session₁, same) =
        try_thread_step_lem sys sys.page_size c want s device servable fuel (omega arith)
          (ready 0 fuel) opened (0, 0, session) in
      let th₁ = record opened { process = record p { loader = l } } in
      let (th₂, ran, session₂, left, out) =
        run_lem sys sys.page_size c want s device servable fuel (omega arith) (λ k. ready (suc k))
          rounds th₁ session₁
          (subst (λ k. AllAsked (length s.tensors) k (all_arrived rounds)) (sym (same ∙ first))
            (subst (λ n. AllAsked n 0 (all_arrived rounds)) (sym servable.correct.count) asked)) in
      (
        s,
        device,
        fuel,
        th₂,
        run_more sys sys.page_size c want s device servable fuel (omega arith) ready
              (open_request id args ∷ []) rounds (new_thread fresh_process) th₁ refl
              (first_round (ready 0) fuel id p e ∙ tried)
            ∙ ran,
        servable,
        session₂,
        Session-IsIntact sys.page_size c want s device servable th₂.process.loader session₂.0
            session₂.1 session₂.2,
        left,
        out,
      )
