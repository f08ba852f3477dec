-- ===== src/Loader/Open/Staff.antt =====
-- After `open`: the executors that posting a chunk submits to, and the host buffer (init_buffer,
-- take_host_buffer and init_threads of Loader/Open).
use instant_tensor.Loader.Open.Provided.{IsBuffered, IsProvided, provided}
use Prim.Native.String.{String}
use instant_tensor.Base.{
  ℕ, ◌≡◌, refl, sym, ap, ap₂, ◌∙◌, Bool, true, false, not, ltb, ◌==◌, ◌&&◌, if◌then◌else◌, List,
  ◌∷◌, map, ok, guard, or_fail,
}
use instant_tensor.Size.{mul_size}
use instant_tensor.Types.{Backend, OpenArgs, HostBufferCacheEntry}
use instant_tensor.Cache.{get}
use instant_tensor.Layout.{Layout, compute_layout}
use instant_tensor.Loader.{new_loader}
use instant_tensor.Loader.Sizes.{
  layout_config, set_sizes, set_alignments, set_chunk_sizes, set_buffer_size,
}
use instant_tensor.Loader.System.{
  System, cuda_failed, cufile_failed, communicator_missing, communicator_unexpected, Process,
  Worker, absent, running, Executors, new_process,
}
use instant_tensor.Loader.Open.{
  open_loader, open_file, init_buffer, take_host_buffer, host_buffer_entry_of,
  register_host_buffer_uring, init_threads, threaded, make_stream, with_args, with_layout, lift,
  made, made_if, is_aio, is_uring, is_cufile, new_file,
}
use instant_tensor.Loader.Open.Needs.{
  IsFlagged, IfOk, if-IfOk, bind-IfOk, skip-IfOk, uses_host_buffer, uses_workers, uses_cuda_thread,
  open_file-IsFlagged,
}

-- The executors that the back end uses run, and its host buffer is there.
abbrev pub IsStaffed : System → List HostBufferCacheEntry → Process → Type 0
IsStaffed sys cached p =
    let backend = p.loader.backend in
    let register = p.loader.use_internal_memory_register in
    record {
      wait : p.executors.wait_thread ≡ running;
      workers : uses_workers backend register ≡ true → p.executors.worker_threads ≡ running;
      cuda : uses_cuda_thread backend register ≡ true → p.executors.cuda_thread ≡ running;
      last_pages : is_aio backend ≡ true → p.executors.last_page_reader_thread ≡ running;
      host : uses_host_buffer backend register ≡ true → IsBuffered sys cached p;
    }

-- The flags are as they were, and the executors; the host buffer is taken if the flag says so.
abbrev Kept : System → List HostBufferCacheEntry → Backend → Bool → Executors → Process → Type 0
Kept sys cached backend register executors p =
    (p.executors ≡ executors)
    × IsFlagged backend register p.loader
    × (p.loader.need_host_buffer ≡ true → IsBuffered sys cached p)

take-Kept :
    (sys : System) (backend : Backend) (register : Bool) (p : Process)
    → IsFlagged backend register p.loader
    → IfOk (Kept sys p.cached_host_buffers backend register p.executors) (take_host_buffer sys p)
unfolding take_host_buffer
take-Kept sys backend register p flagged =
    let size = mul_size p.loader.io_depth p.loader.rank_chunk_size in
    bind-IfOk
      (IsProvided sys p.loader.thread_alignment size p.cached_host_buffers
        (get p.cached_host_buffers size).1)
      (Kept sys p.cached_host_buffers backend register p.executors)
      (host_buffer_entry_of sys p.loader size (get p.cached_host_buffers size).0) _
      (provided sys p.loader size p.cached_host_buffers)
      (λ entry given. (
        refl,
        record {
          backend_is = flagged.backend_is;
          register_is = flagged.register_is;
          host = flagged.host;
          workers = flagged.workers;
          cuda = flagged.cuda;
        },
        λ need. (refl, given.0, given.1),
      ))

init_buffer-Kept :
    (sys : System) (backend : Backend) (register : Bool) (p : Process)
    → IsFlagged backend register p.loader
    → IfOk (Kept sys p.cached_host_buffers backend register p.executors) (init_buffer sys p)
unfolding init_buffer set_sizes set_alignments set_chunk_sizes set_buffer_size
init_buffer-Kept sys backend register p flagged =
    let l = set_sizes sys.page_size p.loader in
    let K = Kept sys p.cached_host_buffers backend register p.executors in
    skip-IfOk K (or_fail (sys.cuda_malloc l.buffer_size) cuda_failed) _ (λ device.
      let p₁ = record p { loader = record l { device_buffer = device } } in
      let kept : IsFlagged backend register p₁.loader = record {
        backend_is = flagged.backend_is;
        register_is = flagged.register_is;
        host = flagged.host;
        workers = flagged.workers;
        cuda = flagged.cuda;
      } in
      skip-IfOk K
        (if is_cufile l.backend
          then guard (sys.device_register device l.buffer_size) cufile_failed
          else ok tt)
        _
        (λ u.
          bind-IfOk K K (if l.need_host_buffer then take_host_buffer sys p₁ else ok p₁) _
            (if-IfOk K l.need_host_buffer _ _ (λ e. take-Kept sys backend register p₁ kept)
              (λ e. (refl, kept, λ need. absurd (false_true e need))))
            (λ p₂ h.
              skip-IfOk K
                (if is_uring (Process.loader p₂).backend
                  then register_host_buffer_uring sys (Process.loader p₂)
                  else ok tt)
                _ (λ v. h))))
  where
    false_true : {b : Bool} → b ≡ false → b ≡ true → ⊥
    false_true e f = cc (e, f)

-- No executor is there yet.
abbrev none_made : Executors
none_made = record {
  worker_threads = absent;
  cuda_thread = absent;
  last_page_reader_thread = absent;
  wait_thread = absent;
}

made_if-running :
    (needed : Bool) (w : Worker) → needed ≡ true → w ≡ absent → made_if needed w ≡ running
made_if-running needed w e f = ap (λ b. made_if b w) e ∙ ap made f

threaded-IsStaffed :
    (sys : System) (cached : List HostBufferCacheEntry) (backend : Backend) (register : Bool)
    (p : Process) (cuda nccl : ℕ) (s : Layout)
    → Kept sys cached backend register none_made p
    → IsStaffed sys cached (record (threaded p cuda nccl) { loader = with_layout p.loader s })
threaded-IsStaffed sys cached backend register p cuda nccl s (executors, flagged, held) =
    let same : (needs : Backend → Bool → Bool)
        → needs p.loader.backend p.loader.use_internal_memory_register ≡ needs backend register =
      (λ needs. ap₂ needs flagged.backend_is flagged.register_is) in
    record {
      wait = ap (λ e. made (Executors.wait_thread e)) executors;
      workers = λ need.
          made_if-running p.loader.need_worker_threads p.executors.worker_threads
            (flagged.workers (sym (same uses_workers) ∙ need))
            (ap (λ e. Executors.worker_threads e) executors);
      cuda = λ need.
          made_if-running p.loader.need_cuda_thread p.executors.cuda_thread
            (flagged.cuda (sym (same uses_cuda_thread) ∙ need))
            (ap (λ e. Executors.cuda_thread e) executors);
      last_pages = λ need.
          made_if-running (is_aio p.loader.backend) p.executors.last_page_reader_thread need
            (ap (λ e. Executors.last_page_reader_thread e) executors);
      host = λ need. held (flagged.host (sym (same uses_host_buffer) ∙ need));
    }

-- Whatever the layout will be.
abbrev IsStaffedWith : System → List HostBufferCacheEntry → Process → Type 0
IsStaffedWith sys cached p =
    (s : Layout) → IsStaffed sys cached (record p { loader = with_layout p.loader s })

init_threads-IsStaffed :
    (sys : System) (cached : List HostBufferCacheEntry) (backend : Backend) (register : Bool)
    (p : Process)
    → Kept sys cached backend register none_made p
    → IfOk (IsStaffedWith sys cached) (init_threads sys p)
unfolding init_threads
init_threads-IsStaffed sys cached backend register p kept =
    let Q = IsStaffedWith sys cached in
    skip-IfOk Q (make_stream p.cuda_stream (sys.stream_create 0)) _ (λ cuda.
      skip-IfOk Q (make_stream p.nccl_stream (sys.stream_create 1)) _ (λ nccl.
        skip-IfOk Q (guard (sys.events_create p.loader.io_depth) cuda_failed) _
          (λ u. λ s. threaded-IsStaffed sys cached backend register p cuda nccl s kept)))

pub open_loader-IsStaffed :
    (sys : System) (register : Bool) (cached : List HostBufferCacheEntry) (mapped : List (ℕ × ℕ))
    (args : OpenArgs) (name : String) (names : List String)
    → args.filenames ≡ name ∷ names
    → IfOk (IsStaffed sys cached) (open_loader sys (new_process register cached mapped) args)
unfolding open_loader with_args
open_loader-IsStaffed sys register cached mapped args name names e =
    let l = with_args (new_loader register) args in
    let start = new_process register cached mapped in
    skip-IfOk (IsStaffed sys cached)
      (guard (not (ltb 1 l.world_size && (l.group_communicator == 0))) communicator_missing) _
      (λ u.
        skip-IfOk (IsStaffed sys cached)
          (guard (not ((l.world_size == 1) && not (l.group_communicator == 0)))
            communicator_unexpected)
          _
          (λ v.
            bind-IfOk (IsFlagged args.backend register) (IsStaffed sys cached) (open_file sys l) _
              (open_file-IsFlagged sys register args.backend l (new_file name) (map new_file names)
                (ap (map new_file) e) refl refl)
              (λ l₁ h.
                bind-IfOk (Kept sys cached args.backend register none_made) (IsStaffed sys cached)
                  (init_buffer sys (record start { loader = l₁ })) _
                  (init_buffer-Kept sys args.backend register (record start { loader = l₁ }) h)
                  (λ p k.
                    bind-IfOk (IsStaffedWith sys cached) (IsStaffed sys cached) (init_threads sys p)
                      _ (init_threads-IsStaffed sys cached args.backend register p k)
                      (λ q staffed.
                        skip-IfOk (IsStaffed sys cached)
                          (lift (compute_layout (layout_config q.loader) args.tensor_offsets)) _
                          (λ s. staffed s))))))
