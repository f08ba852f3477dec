-- ===== src/Binding/Wrappers.antt =====
-- The wrappers of csrc/instant_tensor/dl_binding: each calls its function's pointer. `none` is the call
-- of a null pointer, undefined in C++.
use instant_tensor.Base.{ℕ, ◌<◌, Option, get_elem?, arith}
use instant_tensor.Binding.{Binding}

pub data CudaFunction : Type 0 where
  cuda_malloc cuda_free cuda_set_device cuda_stream_create_with_flags cuda_stream_destroy
        cuda_memcpy_async cuda_event_create_with_flags cuda_event_record cuda_event_synchronize
        cuda_stream_wait_event cuda_host_register cuda_host_unregister cuda_get_error_string :
      CudaFunction

-- Its place among the declarations.
abbrev pub cuda_position : CudaFunction → ℕ
cuda_position cuda_malloc = 0
cuda_position cuda_free = 1
cuda_position cuda_set_device = 2
cuda_position cuda_stream_create_with_flags = 3
cuda_position cuda_stream_destroy = 4
cuda_position cuda_memcpy_async = 5
cuda_position cuda_event_create_with_flags = 6
cuda_position cuda_event_record = 7
cuda_position cuda_event_synchronize = 8
cuda_position cuda_stream_wait_event = 9
cuda_position cuda_host_register = 10
cuda_position cuda_host_unregister = 11
cuda_position cuda_get_error_string = 12

unfoldable pub cuda_wrapper : Binding → CudaFunction → Option ℕ
cuda_wrapper b function = get_elem? b.pointers (cuda_position function)

pub cuda_position_lt : (function : CudaFunction) → cuda_position function < 13
cuda_position_lt cuda_malloc = omega arith
cuda_position_lt cuda_free = omega arith
cuda_position_lt cuda_set_device = omega arith
cuda_position_lt cuda_stream_create_with_flags = omega arith
cuda_position_lt cuda_stream_destroy = omega arith
cuda_position_lt cuda_memcpy_async = omega arith
cuda_position_lt cuda_event_create_with_flags = omega arith
cuda_position_lt cuda_event_record = omega arith
cuda_position_lt cuda_event_synchronize = omega arith
cuda_position_lt cuda_stream_wait_event = omega arith
cuda_position_lt cuda_host_register = omega arith
cuda_position_lt cuda_host_unregister = omega arith
cuda_position_lt cuda_get_error_string = omega arith

pub data NcclFunction : Type 0 where
  nccl_all_gather nccl_comm_user_rank nccl_comm_count nccl_get_error_string : NcclFunction

-- Its place among the declarations.
abbrev pub nccl_position : NcclFunction → ℕ
nccl_position nccl_all_gather = 0
nccl_position nccl_comm_user_rank = 1
nccl_position nccl_comm_count = 2
nccl_position nccl_get_error_string = 3

unfoldable pub nccl_wrapper : Binding → NcclFunction → Option ℕ
nccl_wrapper b function = get_elem? b.pointers (nccl_position function)

pub nccl_position_lt : (function : NcclFunction) → nccl_position function < 4
nccl_position_lt nccl_all_gather = omega arith
nccl_position_lt nccl_comm_user_rank = omega arith
nccl_position_lt nccl_comm_count = omega arith
nccl_position_lt nccl_get_error_string = omega arith

pub data CufileFunction : Type 0 where
  cufile_driver_open cufile_driver_close cufile_handle_register cufile_handle_deregister
        cufile_buf_register cufile_buf_deregister cufile_read :
      CufileFunction

-- Its place among the declarations.
abbrev pub cufile_position : CufileFunction → ℕ
cufile_position cufile_driver_open = 0
cufile_position cufile_driver_close = 1
cufile_position cufile_handle_register = 2
cufile_position cufile_handle_deregister = 3
cufile_position cufile_buf_register = 4
cufile_position cufile_buf_deregister = 5
cufile_position cufile_read = 6

unfoldable pub cufile_wrapper : Binding → CufileFunction → Option ℕ
cufile_wrapper b function = get_elem? b.pointers (cufile_position function)

pub cufile_position_lt : (function : CufileFunction) → cufile_position function < 7
cufile_position_lt cufile_driver_open = omega arith
cufile_position_lt cufile_driver_close = omega arith
cufile_position_lt cufile_handle_register = omega arith
cufile_position_lt cufile_handle_deregister = omega arith
cufile_position_lt cufile_buf_register = omega arith
cufile_position_lt cufile_buf_deregister = omega arith
cufile_position_lt cufile_read = omega arith
