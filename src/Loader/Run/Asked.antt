-- ===== src/Loader/Run/Asked.antt =====
-- Requests for tensors in order, and the responses to them.
use instant_tensor.Base.{
  ℕ, ◌+◌, ◌-◌, ◌≤◌, ◌<◌, ◌≡◌, sym, ap, ◌∙◌, some, none, List, [], ◌∷◌, ◌++◌, map-append,
  append_assoc, map, length, get_elem?, arith,
}
use instant_tensor.Size.{add_size}
use instant_tensor.Types.{
  TensorMetadate, get_tensor_ptr_op, get_tensor_args, RpcRequest, RpcResponse, pointer,
  empty_result, op_of,
}

-- Requests for tensors by their index below `count`, which does not fall, from `from` on.
abbrev pub AllAsked : ℕ → ℕ → List RpcRequest → Type 0
AllAsked count from [] = Unit
AllAsked count from (m ∷ rest) =
    (op_of m.op ≡ some get_tensor_ptr_op)
    × ((i : ℕ) × (m.args ≡ get_tensor_args i) × (from ≤ i) × (i < count) × AllAsked count i rest)

-- The address of the tensor that a request asks for.
abbrev pub reply : List TensorMetadate → ℕ → RpcRequest → RpcResponse
reply ts device m = record {
  id = m.id;
  result = elim m.args [
    | get_tensor_args i ↦ elim (get_elem? ts i) [
      | some t ↦ pointer (add_size device t.device_buffer_offset)
      | none ↦ empty_result
    ]
    | _ ↦ empty_result
  ];
}

-- What arrives in all rounds, and how many requests wait behind them.
abbrev pub all_arrived : List (List RpcRequest) → List RpcRequest
all_arrived [] = []
all_arrived (arrived ∷ later) = arrived ++ all_arrived later

abbrev pub waiting : List (List RpcRequest) → ℕ → ℕ
waiting [] count = count
waiting (arrived ∷ later) count = waiting later (count + length arrived - 1)

pub AllAsked-from :
    (count i j : ℕ) (ms : List RpcRequest) → j ≤ i → AllAsked count i ms → AllAsked count j ms
AllAsked-from count i j [] le all = tt
AllAsked-from count i j (m ∷ rest) le (op, (k, args, low, high, later)) =
    (op, (k, args, omega arith, high, later))

pub replies-append :
    (ts : List TensorMetadate) (device : ℕ) (out : List RpcResponse) (ms ns : List RpcRequest)
    → out ++ map (reply ts device) (ms ++ ns)
      ≡ (out ++ map (reply ts device) ms) ++ map (reply ts device) ns
replies-append ts device out ms ns =
    ap (λ rs. out ++ rs) (map-append (reply ts device) ms ns)
    ∙ sym (append_assoc out (map (reply ts device) ms) (map (reply ts device) ns))
