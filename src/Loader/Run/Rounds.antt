-- ===== src/Loader/Run/Rounds.antt =====
-- The loop of the loader's thread answers every request for a tensor.
use instant_tensor.Base.{
  ℕ, suc, ◌+◌, ◌-◌, ◌≤◌, ◌≡◌, refl, sym, ap, ap₂, ◌∙◌, Bool, true, false, some, List, [], ◌∷◌, ◌++◌,
  append-nil, if◌then◌else◌, append_assoc, map, length, length-append, get_elem?, get_elem?-of_lt,
  subst, ok, ◌>>=◌, arith,
}
use instant_tensor.Base.Int.{ℤ}
use instant_tensor.Size.{add_size}
use instant_tensor.Types.{
  TensorMetadate, get_tensor_ptr_op, get_tensor_args, RpcRequest, RpcResponse, AnyResult, pointer,
  op_of,
}
use instant_tensor.Layout.{Config, Layout}
use instant_tensor.Loader.{Loader}
use instant_tensor.Loader.Schedule.{can_step, get_tensor_ptr}
use instant_tensor.Loader.System.{System, Process}
use instant_tensor.Loader.Run.{
  Thread, dispatch, dispatch_get_tensor_ptr, answer_first, try_thread_step, turn, round, run,
  rethrow,
}
use instant_tensor.Loader.Run.Asked.{
  AllAsked, reply, all_arrived, waiting, AllAsked-from, replies-append,
}
use instant_tensor.Loader.Run.Session.{
  Session, IsServable, Session-get_tensor_ptr, Session-try_step, Session-can_step,
}

-- The thread in a session.
abbrev pub InSession : ℕ → Layout → ℕ → Thread → Type 0
InSession page s device th = (n : ℕ) × (read : ℕ) × Session page s device th.process.loader n read

module _ (sys : System) (page : ℕ) (c : Config) (want : List (ℕ × ℕ × ℕ)) (s : Layout) (device : ℕ)
    (servable : IsServable c want s) (fuel : ℕ) (enough : length s.chunks + 2 ≤ fuel) where
  pub try_thread_step_lem :
      (ready : ℤ → Bool) (th : Thread)
      → InSession page s device th
      → (l' : Loader) × (try_thread_step ready th
          ≡ ok (record th { process = record th.process { loader = l' } }))
        × ((n : ℕ) × (read : ℕ) × Session page s device l' n read)
        × (l'.current_tensor_index ≡ th.process.loader.current_tensor_index)
  unfolding try_thread_step
  try_thread_step_lem ready th (n, read, session) =
      let (l', n', read', e, session', same) =
        Session-try_step page c want s device servable ready th.process.loader n read session in
      (l', rw e refl, (n', read', session'), same)

  dispatch_eq :
      (ready : ℕ → ℤ → Bool) (p : Process) (m : RpcRequest) (i : ℕ) (l' : Loader) (ptr : ℕ)
      → op_of m.op ≡ some get_tensor_ptr_op
      → m.args ≡ get_tensor_args i
      → get_tensor_ptr ready fuel p.loader i ≡ ok (l', ptr)
      → dispatch sys ready fuel p m ≡ ok (record p { loader = l' }, pointer ptr)
  unfolding dispatch dispatch_get_tensor_ptr
  dispatch_eq ready p m i l' ptr op args e =
      rw (op, dispatch, args, dispatch_get_tensor_ptr, e) refl

  reply_eq :
      (m : RpcRequest) (i : ℕ) (t : TensorMetadate)
      → m.args ≡ get_tensor_args i
      → get_elem? s.tensors i ≡ some t
      → record { id = m.id; result = pointer (add_size device t.device_buffer_offset) }
        ≡ reply s.tensors device m
  reply_eq m i t args e = rw (args, e) refl

  answer_eq :
      (ready : ℕ → ℤ → Bool) (th : Thread) (m : RpcRequest) (rest : List RpcRequest) (p : Process)
      (result : AnyResult) (r : RpcResponse)
      → dispatch sys ready fuel th.process m ≡ ok (p, result)
      → record { id = m.id; result = result } ≡ r
      → answer_first sys ready fuel th m rest
        ≡ ok (record { process = p; input_queue = rest; output_queue = th.output_queue ++ r ∷ [] })
  unfolding answer_first
  answer_eq ready th m rest p result r e same = rw e (
      ap
        (λ q.
          ok (record { process = p; input_queue = rest; output_queue = th.output_queue ++ q ∷ [] }))
        same)

  -- A request is answered, and a step tried.
  answer_lem :
      (ready : ℕ → ℤ → Bool) (ready' : ℤ → Bool) (th : Thread) (m : RpcRequest)
      (rest tail : List RpcRequest)
      → InSession page s device th
      → AllAsked (length s.tensors) th.process.loader.current_tensor_index (m ∷ tail)
      → (th' : Thread) × ((answer_first sys ready fuel th m rest >>= try_thread_step ready')
          ≡ ok th')
        × InSession page s device th'
        × (th'.input_queue ≡ rest)
        × (th'.output_queue ≡ th.output_queue ++ reply s.tensors device m ∷ [])
        × AllAsked (length s.tensors) th'.process.loader.current_tensor_index tail
  answer_lem ready ready' th m rest tail (n, read, session) (op, (i, args, low, high, later)) =
      let (t, f) = get_elem?-of_lt s.tensors i high in
      let (l', n', read', e, session', at, _) =
        Session-get_tensor_ptr page c want s device servable ready fuel th.process.loader n read i t
          session low f enough in
      let out = th.output_queue ++ reply s.tensors device m ∷ [] in
      let answered : Thread = record {
        process = record th.process { loader = l' };
        input_queue = rest;
        output_queue = out;
      } in
      let (l'', e', session'', same) = try_thread_step_lem ready' answered (n', read', session') in
      (
        record answered { process = record th.process { loader = l'' } },
        ap (λ r. r >>= try_thread_step ready')
              (answer_eq ready th m rest (record th.process { loader = l' }) _ _
                (dispatch_eq ready th.process m i l' (add_size device t.device_buffer_offset) op
                  args e)
                (reply_eq m i t args f))
            ∙ e',
        session'',
        refl,
        refl,
        AllAsked-from (length s.tensors) i l''.current_tensor_index tail (omega (arith, same, at))
            later,
      )

  -- What a round does to the requests that wait.
  abbrev Answered : Thread → Thread → Type 0
  Answered th th' =
      InSession page s device th'
      × (length th'.input_queue ≡ length th.input_queue - 1)
      × (th'.output_queue ++ map (reply s.tensors device) th'.input_queue
          ≡ th.output_queue ++ map (reply s.tensors device) th.input_queue)

  round-turn :
      (ready : ℕ → ℤ → Bool) (th : Thread) (b : Bool) (ms : List RpcRequest)
      → can_step th.process.loader ≡ ok b
      → th.input_queue ≡ ms
      → round sys ready fuel th ≡ turn sys ready fuel th ms b
  unfolding round
  round-turn ready th b ms can q =
      ap (λ r. rethrow r >>= λ can. turn sys ready fuel th th.input_queue can) can
      ∙ ap (λ ms. turn sys ready fuel th ms b) q

  idle_lem :
      (ready : ℕ → ℤ → Bool) (th : Thread) (more : List RpcRequest) (b : Bool)
      → can_step th.process.loader ≡ ok b
      → th.input_queue ≡ []
      → InSession page s device th
      → AllAsked (length s.tensors) th.process.loader.current_tensor_index more
      → (th' : Thread) × (round sys ready fuel th ≡ ok th')
        × Answered th th'
        × AllAsked
            (length s.tensors)
            th'.process.loader.current_tensor_index
            (th'.input_queue ++ more)
  unfolding turn
  idle_lem ready th more true can q session all =
      let (l', e, session', same) = try_thread_step_lem (ready fuel) th session in
      (
        record th { process = record th.process { loader = l' } },
        round-turn ready th true [] can q ∙ e,
        (session', omega (arith, ap length q), refl),
        subst (λ ms. AllAsked (length s.tensors) l'.current_tensor_index (ms ++ more)) (sym q)
            (AllAsked-from (length s.tensors) th.process.loader.current_tensor_index
              l'.current_tensor_index more (omega (arith, same)) all),
      )
  idle_lem ready th more false can q session all = (
    th,
    round-turn ready th false [] can q,
    (session, omega (arith, ap length q), refl),
    subst (λ ms. AllAsked (length s.tensors) th.process.loader.current_tensor_index (ms ++ more))
        (sym q) all,
  )

  round_lem :
      (ready : ℕ → ℤ → Bool) (th : Thread) (ms more : List RpcRequest)
      → th.input_queue ≡ ms
      → InSession page s device th
      → AllAsked (length s.tensors) th.process.loader.current_tensor_index (ms ++ more)
      → (th' : Thread) × (round sys ready fuel th ≡ ok th')
        × Answered th th'
        × AllAsked
            (length s.tensors)
            th'.process.loader.current_tensor_index
            (th'.input_queue ++ more)
  unfolding turn
  round_lem ready th [] more q (n, read, session) all =
      let (b, can) =
        Session-can_step page c want s device servable th.process.loader n read session in
      idle_lem ready th more b can q (n, read, session) all
  round_lem ready th (m ∷ rest) more q (n, read, session) all =
      let (b, can) =
        Session-can_step page c want s device servable th.process.loader n read session in
      let (th', e, session', left, out, all') =
        answer_lem ready (ready fuel) th m rest (rest ++ more) (n, read, session) all in
      (
        th',
        round-turn ready th b (m ∷ rest) can q ∙ e,
        (
          session',
          omega (arith, ap length left, ap length q),
          ap₂ (λ o ms. o ++ map (reply s.tensors device) ms) out left
              ∙ append_assoc th.output_queue (reply s.tensors device m ∷ [])
                  (map (reply s.tensors device) rest)
              ∙ ap (λ ms. th.output_queue ++ map (reply s.tensors device) ms) (sym q),
        ),
        subst
            (λ ms. AllAsked (length s.tensors) th'.process.loader.current_tensor_index (ms ++ more))
            (sym left) all',
      )

  pub run_more :
      (ready : ℕ → ℕ → ℤ → Bool) (arrived : List RpcRequest) (later : List (List RpcRequest))
      (th th' : Thread)
      → th.process.loader.stop ≡ false
      → round sys (ready 0) fuel (record th { input_queue = th.input_queue ++ arrived }) ≡ ok th'
      → run sys ready fuel (arrived ∷ later) th ≡ run sys (λ k. ready (suc k)) fuel later th'
  unfolding run
  run_more ready arrived later th th' going e =
      ap
        (λ b.
          if b
          then ok th
          else (round sys (ready 0) fuel (record th { input_queue = th.input_queue ++ arrived })
              >>= run sys (λ k. ready (suc k)) fuel later))
        going
      ∙ ap (λ r. r >>= run sys (λ k. ready (suc k)) fuel later) e

  -- In a session on a layout with a tensor, and bytes in each, with fuel for its chunks, when all
  -- requests that wait or arrive ask for tensors in order, the loop throws nothing, whatever the
  -- polls answer. Each round answers one request if one waits; the responses are those to the
  -- requests in the order in which they came, each with its id and the address of its tensor; and
  -- the loader is in a session again.
  pub run_lem :
      (ready : ℕ → ℕ → ℤ → Bool) (rounds : List (List RpcRequest)) (th : Thread)
      → InSession page s device th
      → AllAsked
          (length s.tensors)
          th.process.loader.current_tensor_index
          (th.input_queue ++ all_arrived rounds)
      → (th' : Thread) × (run sys ready fuel rounds th ≡ ok th')
        × InSession page s device th'
        × (length th'.input_queue ≡ waiting rounds (length th.input_queue))
        × (th'.output_queue ++ map (reply s.tensors device) th'.input_queue
            ≡ th.output_queue
              ++ map (reply s.tensors device) (th.input_queue ++ all_arrived rounds))
  unfolding run
  run_lem ready [] th session all = (
    th,
    refl,
    session,
    refl,
    ap (λ ms. th.output_queue ++ map (reply s.tensors device) ms) (sym (append-nil th.input_queue)),
  )
  run_lem ready (arrived ∷ later) th (n, read, session) all =
      let now = th.input_queue ++ arrived in
      let joined = append_assoc th.input_queue arrived (all_arrived later) in
      let (th₁, e, (session₁, left, out), all₁) =
        round_lem (ready 0) (record th { input_queue = now }) now (all_arrived later) refl
          (n, read, session)
          (subst (AllAsked (length s.tensors) th.process.loader.current_tensor_index) (sym joined)
            all) in
      let (th₂, e', session₂, left₂, out₂) = run_lem (λ k. ready (suc k)) later th₁ session₁ all₁ in
      (
        th₂,
        run_more ready arrived later th th₁ session.going e ∙ e',
        session₂,
        left₂ ∙ ap (waiting later) (left ∙ ap (λ n. n - 1) (length-append th.input_queue arrived)),
        out₂
            ∙ replies-append s.tensors device th₁.output_queue th₁.input_queue (all_arrived later)
            ∙ ap (λ rs. rs ++ map (reply s.tensors device) (all_arrived later)) out
            ∙ sym (replies-append s.tensors device th.output_queue now (all_arrived later))
            ∙ ap (λ ms. th.output_queue ++ map (reply s.tensors device) ms) joined,
      )
