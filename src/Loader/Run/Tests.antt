-- ===== src/Loader/Run/Tests.antt =====
-- A loader of one rank with two threads and pages of four bytes, opened on two files of a tensor each.
use instant_tensor.Base.{
  ℕ, zero, suc, ◌+◌, ◌<◌, ◌⊎◌, ◌≡◌, refl, Bool, true, false, some, List, [], ◌∷◌, ◌++◌, map, length,
  get_elem?, same_some, subst, ok, err, inl, inr, arith,
}
use mathlib.Core.Option.{none-ne-some}
use instant_tensor.Base.Int.{ℤ}
use instant_tensor.Types.{Backend, OpenArgs, get_tensor_args, RpcRequest, empty_result}
use instant_tensor.Layout.{Layout}
use instant_tensor.Layout.Scan.{entries}
use instant_tensor.Loader.{new_loader}
use instant_tensor.Loader.Sizes.{set_sizes, set_alignments, set_chunk_sizes, set_buffer_size}
use instant_tensor.Loader.System.{System, RunError, Process, new_process}
use instant_tensor.Loader.Open.{
  close_loader, destroy_threads, destroy_buffer, release_host_buffer, close_file, close_each,
  take_host_buffer, with_args,
}
use instant_tensor.Loader.Open.Closed.{IsReleasable, IsClosed, close_loader_lem}
use instant_tensor.Cache.{put}
use instant_tensor.Loader.Open.Files.{Obliges}
use instant_tensor.Loader.Open.Reuse.{take_host_buffer-close}
use instant_tensor.Loader.Open.Opened.{IsOpenable, config_of}
use instant_tensor.Loader.Run.{Thread, round, run}
use instant_tensor.Loader.Run.Session.{IsServable, Session, IsIntact}
use instant_tensor.Loader.Run.Asked.{AllAsked, reply, all_arrived, waiting}
use instant_tensor.Loader.Run.Rounds.{InSession}
use instant_tensor.Loader.Run.Served.{new_thread, open_request, run_serves}

abbrev friendly : System
friendly = record {
  page_size = 4;
  cache_buffer = true;
  file_in_memory = λ path. false;
  open_path = λ path direct. some 3;
  fstat = λ fd. some 40;
  mmap = λ size fd. some 4096;
  host_register = λ ptr size. true;
  handle_register = λ fd. true;
  io_setup = λ n. true;
  queue_init = λ n. true;
  register_files = λ fds. true;
  register_buffers = λ pieces. true;
  cuda_malloc = λ size. some 65536;
  aligned_alloc = λ alignment size. some 8192;
  device_register = λ ptr size. true;
  stream_create = λ n. some (n + 1);
  events_create = λ n. true;
  stream_destroy = λ stream. true;
  device_deregister = λ ptr. true;
  cuda_free = λ ptr. true;
  host_unregister = λ ptr. true;
  io_destroy = true;
}

friendly-Obliges : Obliges friendly
friendly-Obliges = record {
  opens = λ path direct. (3, refl);
  stats = λ fd. (40, refl);
  maps = λ size fd. (4096, refl);
  registers = λ ptr size. refl;
  handles = λ fd. refl;
  sets_up = λ n. refl;
  queues = λ n. refl;
  registers_files = λ fds. refl;
  registers_buffers = λ pieces. refl;
  mallocs = λ size. (65536, refl);
  allocates = λ alignment size. (8192, refl);
  registers_device = λ ptr size. refl;
  creates_streams = λ n. (n + 1, refl);
  creates_events = λ n. refl;
}

abbrev rest_of_table : List (ℕ × ℕ)
rest_of_table = (0, 16) ∷ (1, 8) ∷ (1, 20) ∷ []

abbrev two_files : OpenArgs
two_files = record {
  filenames = "a" ∷ "b" ∷ [];
  device_idx = 0;
  group_communicator = 0;
  rank = 0;
  world_size = 1;
  buffer_size = 64;
  chunk_size = 8;
  num_threads = 2;
  io_depth = 3;
  backend = Backend.uring;
  tensor_offsets = (0, 6) ∷ rest_of_table;
}

two_files_bytes :
    (i : ℕ) (x : ℕ × ℕ × ℕ) → get_elem? (entries (0, 6) rest_of_table) i ≡ some x → 0 < x.2
two_files_bytes zero x e =
    let at : get_elem? (entries (0, 6) rest_of_table) 0 ≡ some (0, 6, 10) = refl in
    subst (λ y. 0 < y.2) (same_some (get_elem? (entries (0, 6) rest_of_table) 0) at e) (omega arith)
two_files_bytes (suc zero) x e =
    let at : get_elem? (entries (0, 6) rest_of_table) 1 ≡ some (1, 8, 12) = refl in
    subst (λ y. 0 < y.2) (same_some (get_elem? (entries (0, 6) rest_of_table) 1) at e) (omega arith)
two_files_bytes (suc (suc i)) x e = absurd (none-ne-some x e)

two_files-IsOpenable : IsOpenable friendly two_files 6 rest_of_table
unfolding with_args set_sizes set_alignments set_chunk_sizes set_buffer_size
two_files-IsOpenable = record {
  table = refl;
  page = omega arith;
  threads = omega arith;
  ranks = omega arith;
  chunk = omega arith;
  depth = omega arith;
  small = omega arith;
  group = λ h. absurd (omega arith);
  alone = λ h. refl;
  files = omega arith;
  listed = (
    omega arith,
    inl (refl, omega arith, omega arith),
    (omega arith, inr refl, (omega arith, inl (refl, omega arith, omega arith), omega arith)),
  );
  fits = omega arith;
  some_tensor = omega arith;
  with_bytes = two_files_bytes;
}

-- One tensor is asked for in the first round, the other in the third.
abbrev ask : ℕ → ℕ → RpcRequest
ask id index = record { id = id; op = 2; args = get_tensor_args index }

abbrev asked : List (List RpcRequest)
asked = (ask 2 0 ∷ []) ∷ [] ∷ (ask 3 1 ∷ []) ∷ []

asked-AllAsked : AllAsked (length (entries (0, 6) rest_of_table)) 0 (all_arrived asked)
asked-AllAsked =
    (refl, (0, refl, omega arith, omega arith, (refl, (1, refl, omega arith, omega arith, tt))))

abbrev in_turn : ℕ → ℕ → ℤ → Bool
in_turn round fuel id = false

run_serves_example :
    (s : Layout) × (device : ℕ) × (fuel : ℕ) × (th : Thread) × (run friendly in_turn fuel
        ((open_request 1 two_files ∷ []) ∷ asked)
        (new_thread (new_process false [] []))
      ≡ ok th)
    × IsServable (config_of friendly two_files) (entries (0, 6) rest_of_table) s
    × InSession 4 s device th
    × IsIntact (config_of friendly two_files) s th.process.loader
    × (length th.input_queue ≡ waiting asked 0)
    × (th.output_queue ++ map (reply s.tensors device) th.input_queue
        ≡ record { id = 1; result = empty_result }
          ∷ map (reply s.tensors device) (all_arrived asked))
run_serves_example =
    run_serves friendly friendly-Obliges false [] [] two_files 6 rest_of_table two_files-IsOpenable
      in_turn 1 asked asked-AllAsked

-- A loader with a buffer of 100 bytes, and one that needs 48.
abbrev with_buffer : Process
with_buffer = record (new_process false [] []) {
  loader = record (new_loader false) {
    backend = Backend.uring;
    need_host_buffer = true;
    host_buffer_entry = record { ptr = 8192; size = 100 };
  };
}

abbrev next_process : Process
next_process = record (new_process false [] []) {
  loader = record (new_loader false) { io_depth = 3; rank_chunk_size = 16 };
}

abbrev with_buffer_closed : Process
with_buffer_closed = record with_buffer {
  loader = record with_buffer.loader { stop = true };
  cached_host_buffers = record { ptr = 8192; size = 100 } ∷ [];
}

with_buffer_closes : close_loader friendly with_buffer ≡ ok with_buffer_closed
unfolding close_loader destroy_threads destroy_buffer release_host_buffer close_file close_each put
with_buffer_closes = refl

close_loader_example :
    ((p' : Process) × (close_loader friendly with_buffer ≡ ok p')
      × IsReleasable friendly with_buffer
      × IsClosed friendly with_buffer p')
    ⊎ ((e : RunError) × (close_loader friendly with_buffer ≡ err e)
        × (¬ IsReleasable friendly with_buffer))
close_loader_example = close_loader_lem friendly with_buffer

take_host_buffer-close_example :
    take_host_buffer friendly
      (record next_process { cached_host_buffers = with_buffer_closed.cached_host_buffers })
    ≡ ok (record next_process {
      loader = record next_process.loader {
        host_buffer_entry = record { ptr = 8192; size = 100 };
        host_buffer = 8192;
      };
      cached_host_buffers = [];
    })
take_host_buffer-close_example =
    take_host_buffer-close friendly with_buffer with_buffer_closed next_process with_buffer_closes
      refl refl (λ e. omega (arith, e)) tt (omega arith)
