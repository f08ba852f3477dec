-- ===== src/Manager/Tests.antt =====
-- A call to close, sent and answered.
use instant_tensor.Base.{◌+◌, ◌==◌, ◌≡◌, refl, true, none, some, List, [], ◌∷◌, ok, arith}
use instant_tensor.Types.{
  Backend, OpenArgs, close_op, close_args, RpcRequest, AnyResult, empty_result,
}
use instant_tensor.Manager.{
  RpcHandle, Devices, call, get_result, take_response, with_rest, group_of,
}
use instant_tensor.Manager.Table.{LoaderManager, new_manager, lookup, Serve}
use instant_tensor.Manager.Handles.{IsFresh, Answers, IsOpened, IsClosed, open-close}
use instant_tensor.Manager.Calls.{
  Conversation, new_conversation, request_of_call, Reachable, starts, calls, answers, IsOrderly,
  Reachable-IsOrderly, get_result_returns,
}

abbrev sent : Conversation
unfolding call
sent = record new_conversation {
  handle = (call new_conversation.handle close_op close_args).0;
  awaited = some (request_of_call new_conversation.handle close_op close_args);
}

abbrev request : RpcRequest
request = record { id = 1; op = 1; args = close_args }

abbrev answered : Conversation
answered = record {
  handle = record {
    latest_req_id = 1;
    input_queue = [];
    output_queue = record { id = 1; result = empty_result } ∷ [];
  };
  awaited = some request;
  returned = [];
  given = (request, empty_result) ∷ [];
}

answered-Reachable : Reachable answered
unfolding call
answered-Reachable =
    answers sent request [] empty_result (calls new_conversation close_op close_args starts refl)
      refl

Reachable-IsOrderly_example : IsOrderly answered
Reachable-IsOrderly_example = Reachable-IsOrderly answered answered-Reachable

get_result_example :
    (result : AnyResult) × (handle : RpcHandle) × (get_result answered.handle 1
      ≡ some (result, handle))
    × (handle.output_queue ≡ [])
    × (◌≡◌ {A = List (RpcRequest × AnyResult)}
        ((request, result) ∷ [])
        ((request, empty_result) ∷ []))
get_result_example = get_result_returns answered request answered-Reachable refl refl

abbrev devices : Devices
devices = record {
  cuda_init = true;
  nccl_init = true;
  comm_user_rank = λ group. some 0;
  comm_count = λ group. some 1;
}

abbrev any_args : OpenArgs
any_args = record {
  filenames = [];
  device_idx = 0;
  group_communicator = 0;
  rank = 0;
  world_size = 1;
  buffer_size = 64;
  chunk_size = 8;
  num_threads = 2;
  io_depth = 3;
  backend = Backend.aio;
  tensor_offsets = [];
}

-- A thread that answers what it was asked last.
abbrev serve : Serve
serve key h = record h {
  output_queue = record { id = h.latest_req_id; result = empty_result } ∷ [];
}

serve-Answers : Answers serve
unfolding call get_result take_response with_rest
serve-Answers key h op args =
    let same : (h.latest_req_id + 1 == h.latest_req_id + 1) ≡ true = ground arith in
    (empty_result, record (serve key (call h op args).0) { output_queue = [] }, rw same refl)

given_group : group_of devices 77 ≡ ok (77, 0, 1)
unfolding group_of
given_group = refl

open-close_example :
    (lookup new_manager.loader_handle_to_queue 0 ≡ none)
    × ((opened : LoaderManager) × (closed : LoaderManager) × IsOpened serve devices new_manager 77
          any_args opened
        × IsClosed serve devices new_manager 77 any_args opened closed
        × IsFresh opened
        × IsFresh closed)
open-close_example =
    open-close serve devices new_manager 77 any_args (77, 0, 1) (λ key h. refl) serve-Answers
      given_group
