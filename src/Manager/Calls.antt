-- ===== src/Manager/Calls.antt =====
-- A caller and a loader's thread: every call gets the result of its own request.
use instant_tensor.Base.{
  ℕ, ◌+◌, ◌≡◌, ◌⊎◌, inl, inr, refl, sym, ap, ap₂, same_some, ◌∙◌, ==_iff, Option, none, some, List,
  [], ◌∷◌, ◌++◌,
}
use mathlib.Core.List.{nil≢cons, head-eq_of_cons-eq, tail-eq_of_cons-eq}
use mathlib.Core.Option.{none-ne-some}
use instant_tensor.Types.{Op, op_number, Args, RpcRequest, AnyResult}
use instant_tensor.Manager.{RpcHandle, call, get_result, with_rest, take_response}

-- The handle, the request that the caller waits for, the results that its calls returned, and those
-- that the loader gave, each with its request.
pub record Conversation : Type 0 where
  pub handle : RpcHandle
  pub awaited : Option RpcRequest
  pub returned : List (RpcRequest × AnyResult)
  pub given : List (RpcRequest × AnyResult)

abbrev pub request_of_call : RpcHandle → Op → Args → RpcRequest
request_of_call handle op args = record {
  id = handle.latest_req_id + 1;
  op = op_number op;
  args = args;
}

abbrev pub new_conversation : Conversation
new_conversation = record {
  handle = record { latest_req_id = 0; input_queue = []; output_queue = [] };
  awaited = none;
  returned = [];
  given = [];
}

-- The caller calls when it waits for nothing; the thread answers the request at the head of the queue
-- with a result of its own; the caller's `get_result` returns.
pub data Reachable : Conversation → Type 0 where
  starts : Reachable new_conversation
  calls :
      (c : Conversation) (op : Op) (args : Args)
      → Reachable c
      → c.awaited ≡ none
      → Reachable (record c {
        handle = (call c.handle op args).0;
        awaited = some (request_of_call c.handle op args);
      })
  answers :
      (c : Conversation) (m : RpcRequest) (rest : List RpcRequest) (result : AnyResult)
      → Reachable c
      → c.handle.input_queue ≡ m ∷ rest
      → Reachable (record c {
        handle = record c.handle {
          input_queue = rest;
          output_queue = c.handle.output_queue ++ record { id = m.id; result = result } ∷ [];
        };
        given = c.given ++ (m, result) ∷ [];
      })
  returns :
      (c : Conversation) (m : RpcRequest) (result : AnyResult) (handle : RpcHandle)
      → Reachable c
      → c.awaited ≡ some m
      → get_result c.handle m.id ≡ some (result, handle)
      → Reachable
          (record c { handle = handle; awaited = none; returned = c.returned ++ (m, result) ∷ [] })

-- The abstract view: between calls the queues are empty and every result that was given has been
-- returned; in a call its request is in the input queue, or its response in the output queue.
abbrev pub IsIdle : Conversation → Type 0
IsIdle c = record {
  nothing : c.awaited ≡ none;
  no_input : c.handle.input_queue ≡ [];
  no_output : c.handle.output_queue ≡ [];
  all_returned : c.returned ≡ c.given;
}

abbrev pub IsSent : Conversation → RpcRequest → Type 0
IsSent c m = record {
  waits : c.awaited ≡ some m;
  sent : c.handle.input_queue ≡ m ∷ [];
  no_output : c.handle.output_queue ≡ [];
  all_returned : c.returned ≡ c.given;
}

abbrev pub IsAnswered : Conversation → RpcRequest → AnyResult → Type 0
IsAnswered c m result = record {
  waits : c.awaited ≡ some m;
  no_input : c.handle.input_queue ≡ [];
  answered : c.handle.output_queue ≡ record { id = m.id; result = result } ∷ [];
  all_but_one : c.returned ++ (m, result) ∷ [] ≡ c.given;
}

abbrev pub IsOrderly : Conversation → Type 0
IsOrderly c =
    IsIdle c
    ⊎ ((m : RpcRequest) × IsSent c m)
    ⊎ ((m : RpcRequest) × (result : AnyResult) × IsAnswered c m result)

take_response_first :
    (id : ℕ) (result : AnyResult)
    → take_response id (record { id = id; result = result } ∷ []) ≡ some (result, [])
unfolding take_response
take_response_first id result = rw ((==_iff id id).1 refl) refl

get_result-answered :
    (handle : RpcHandle) (id : ℕ) (result : AnyResult)
    → handle.output_queue ≡ record { id = id; result = result } ∷ []
    → get_result handle id ≡ some (result, record handle { output_queue = [] })
unfolding get_result with_rest
get_result-answered handle id result e =
    ap (λ q. with_rest handle (take_response id q)) e
    ∙ ap (with_rest handle) (take_response_first id result)

get_result-empty :
    (handle : RpcHandle) (id : ℕ) → handle.output_queue ≡ [] → get_result handle id ≡ none
unfolding get_result with_rest take_response
get_result-empty handle id e = ap (λ q. with_rest handle (take_response id q)) e

some-none {ℓ} : {A : Type ℓ} {a : A} (o : Option A) → o ≡ some a → o ≡ none → ⊥
some-none {a} o e f = none-ne-some a (sym f ∙ e)

cons-nil {ℓ} : {A : Type ℓ} {x : A} {xs : List A} (ys : List A) → ys ≡ x ∷ xs → ys ≡ [] → ⊥
cons-nil ys e f = nil≢cons (sym f ∙ e)

calls_lem :
    (c : Conversation) (op : Op) (args : Args)
    → IsOrderly c
    → c.awaited ≡ none
    → IsOrderly (record c {
      handle = (call c.handle op args).0;
      awaited = some (request_of_call c.handle op args);
    })
unfolding call
calls_lem c op args (inl idle) free = inr (
    inl (
      request_of_call c.handle op args,
      record {
        waits = refl;
        sent = ap (λ q. q ++ request_of_call c.handle op args ∷ []) idle.no_input;
        no_output = idle.no_output;
        all_returned = idle.all_returned;
      },
    ))
calls_lem c op args (inr (inl (m, sent))) free = absurd (some-none c.awaited sent.waits free)
calls_lem c op args (inr (inr (m, result, answered))) free =
    absurd (some-none c.awaited answered.waits free)

answers_lem :
    (c : Conversation) (m : RpcRequest) (rest : List RpcRequest) (result : AnyResult)
    → IsOrderly c
    → c.handle.input_queue ≡ m ∷ rest
    → IsOrderly (record c {
      handle = record c.handle {
        input_queue = rest;
        output_queue = c.handle.output_queue ++ record { id = m.id; result = result } ∷ [];
      };
      given = c.given ++ (m, result) ∷ [];
    })
answers_lem c m rest result (inl idle) e = absurd (cons-nil c.handle.input_queue e idle.no_input)
answers_lem c m rest result (inr (inl (m', sent))) e =
    let same = sym sent.sent ∙ e in
    inr (
      inr (
        m,
        result,
        record {
          waits = sent.waits ∙ ap some (head-eq_of_cons-eq same);
          no_input = sym (tail-eq_of_cons-eq same);
          answered = ap (λ q. q ++ record { id = m.id; result = result } ∷ []) sent.no_output;
          all_but_one = ap (λ q. q ++ (m, result) ∷ []) sent.all_returned;
        },
      ))
answers_lem c m rest result (inr (inr (m', r, answered))) e =
    absurd (cons-nil c.handle.input_queue e answered.no_input)

returns_lem :
    (c : Conversation) (m : RpcRequest) (result : AnyResult) (handle : RpcHandle)
    → IsOrderly c
    → c.awaited ≡ some m
    → get_result c.handle m.id ≡ some (result, handle)
    → IsOrderly
        (record c { handle = handle; awaited = none; returned = c.returned ++ (m, result) ∷ [] })
returns_lem c m result handle (inl idle) waits e = absurd (some-none c.awaited waits idle.nothing)
returns_lem c m result handle (inr (inl (m', sent))) waits e =
    absurd (some-none (get_result c.handle m.id) e (get_result-empty c.handle m.id sent.no_output))
returns_lem c m result handle (inr (inr (m', r, answered))) waits e =
    let same = same_some c.awaited answered.waits waits in
    let got =
      same_some (get_result c.handle m.id)
        (get_result-answered c.handle m.id r
          (answered.answered ∙ ap (λ k. record { id = RpcRequest.id k; result = r } ∷ []) same))
        e in
    inl (record {
      nothing = refl;
      no_input = sym (ap (λ x. RpcHandle.input_queue x.1) got) ∙ answered.no_input;
      no_output = sym (ap (λ x. RpcHandle.output_queue x.1) got);
      all_returned =
          ap₂ (λ k v. c.returned ++ (k, v) ∷ []) (sym same) (sym (ap (λ x. x.0) got))
          ∙ answered.all_but_one;
    })

-- However the caller and the thread take turns: the queues hold nothing between two calls, and in a
-- call nothing but its request or its response; and the results that the calls returned are, in
-- order and each to its own request, those that the thread gave, but for one that waits in the
-- queue.
pub Reachable-IsOrderly : (c : Conversation) → Reachable c → IsOrderly c
Reachable-IsOrderly c (starts) =
    inl (record { nothing = refl; no_input = refl; no_output = refl; all_returned = refl })
Reachable-IsOrderly c (calls d op args r free) = calls_lem d op args (Reachable-IsOrderly d r) free
Reachable-IsOrderly c (answers d m rest result r e) =
    answers_lem d m rest result (Reachable-IsOrderly d r) e
Reachable-IsOrderly c (returns d m result handle r waits e) =
    returns_lem d m result handle (Reachable-IsOrderly d r) waits e

empty_cons {ℓ} : {A : Type ℓ} {x : A} (ys : List A) → ys ≡ [] → ys ≡ x ∷ [] → ⊥
empty_cons ys e f = cons-nil ys f e

orderly_returns :
    (c : Conversation) (m : RpcRequest)
    → IsOrderly c
    → c.awaited ≡ some m
    → c.handle.input_queue ≡ []
    → (result : AnyResult) × (handle : RpcHandle) × (get_result c.handle m.id
        ≡ some (result, handle))
      × (handle.output_queue ≡ [])
      × (c.returned ++ (m, result) ∷ [] ≡ c.given)
orderly_returns c m (inl idle) waits taken = absurd (some-none c.awaited waits idle.nothing)
orderly_returns c m (inr (inl (m', sent))) waits taken =
    absurd (empty_cons c.handle.input_queue taken sent.sent)
orderly_returns c m (inr (inr (m', r, answered))) waits taken =
    let same = same_some c.awaited answered.waits waits in
    (
      r,
      record c.handle { output_queue = [] },
      get_result-answered c.handle m.id r
          (answered.answered ∙ ap (λ k. record { id = RpcRequest.id k; result = r } ∷ []) same),
      refl,
      ap (λ k. c.returned ++ (k, r) ∷ []) (sym same) ∙ answered.all_but_one,
    )

-- However a caller that waits and the thread came there: once the thread has taken the request from
-- the queue and answered, `get_result` does not wait; it returns the result that the thread gave last,
-- to that request, and leaves no response behind.
pub get_result_returns :
    (c : Conversation) (m : RpcRequest)
    → Reachable c
    → c.awaited ≡ some m
    → c.handle.input_queue ≡ []
    → (result : AnyResult) × (handle : RpcHandle) × (get_result c.handle m.id
        ≡ some (result, handle))
      × (handle.output_queue ≡ [])
      × (c.returned ++ (m, result) ∷ [] ≡ c.given)
get_result_returns c m r waits taken = orderly_returns c m (Reachable-IsOrderly c r) waits taken
