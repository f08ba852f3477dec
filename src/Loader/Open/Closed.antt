-- ===== src/Loader/Open/Closed.antt =====
-- `Loader::close`: exactly when it throws, and the process after it.
use instant_tensor.Base.{
  ◌≡◌, ◌≢◌, ◌⊎◌, inl, inr, refl, sym, ap, subst, ◌∙◌, Bool, true, false, ◌&&◌, if◌then◌else◌, [],
  ◌++◌, map, ok, err,
}
use instant_tensor.Cache.{put}
use instant_tensor.Loader.System.{
  System, RunError, Process, Worker, absent, running, joined, Executors,
}
use instant_tensor.Loader.Open.{
  close_loader, joined_all, destroyed, join, is_mmap, is_aio, is_cufile,
}
use instant_tensor.Loader.Open.Yields.{Yields, bind-Yields, same-Yields}
use instant_tensor.Loader.Open.Closing.{
  mapping, AllUnregister, Closes, freed, released, kept, dropped, recorded, destroy_threads-Yields,
  destroy_buffer-Yields, close_file-Yields,
}

-- The calls that closing checks, for what there is to release, succeed.
abbrev pub IsReleasable : System → Process → Type 0
IsReleasable sys p =
    let l = p.loader in
    record {
      copies : destroyed sys p.cuda_stream ≡ true;
      gathers : destroyed sys p.nccl_stream ≡ true;
      registered : is_cufile l.backend ≡ true → sys.device_deregister l.device_buffer ≡ true;
      device : sys.cuda_free l.device_buffer ≡ true;
      host :
          l.need_host_buffer ≡ true
          → sys.cache_buffer ≡ false
          → sys.host_unregister l.host_buffer_entry.ptr ≡ true;
      files : AllUnregister sys l.backend l.use_internal_memory_register l.file_info;
      context : is_aio l.backend ≡ true → sys.io_destroy ≡ true;
    }

-- No executor takes tasks.
abbrev pub IsJoined : Executors → Type 0
IsJoined e =
    (e.worker_threads ≢ running)
    × (e.cuda_thread ≢ running)
    × (e.last_page_reader_thread ≢ running)
    × (e.wait_thread ≢ running)

-- What closing `p` leaves.
abbrev pub IsClosed : System → Process → Process → Type 0
IsClosed sys p p' =
    let l = p.loader in
    record {
      executors : IsJoined p'.executors;
      stop : p'.loader.stop ≡ true;
      to_unmap :
          p'.mapped_memory
          ≡ p.mapped_memory ++ (if is_mmap l.backend then map mapping l.file_info else []);
      cached : p'.cached_host_buffers ≡ (
          if l.need_host_buffer && sys.cache_buffer
          then put p.cached_host_buffers l.host_buffer_entry
          else p.cached_host_buffers);
    }

join-joined : (w : Worker) → join w ≢ running
join-joined absent e = cc e
join-joined running e = cc e
join-joined joined e = cc e

-- What releasing the host buffer leaves as it was.
abbrev Same : Process → Process → Type 0
Same p q = record {
  backend : q.loader.backend ≡ p.loader.backend;
  register : q.loader.use_internal_memory_register ≡ p.loader.use_internal_memory_register;
  files : q.loader.file_info ≡ p.loader.file_info;
  stop : q.loader.stop ≡ p.loader.stop;
  executors : q.executors ≡ p.executors;
  mapped : q.mapped_memory ≡ p.mapped_memory;
}

if-Same : (b : Bool) (p q r : Process) → Same p q → Same p r → Same p (if b then q else r)
if-Same true p q r h k = h
if-Same false p q r h k = k

abbrev all_same : (p : Process) → Same p p
all_same p = record {
  backend = refl;
  register = refl;
  files = refl;
  stop = refl;
  executors = refl;
  mapped = refl;
}

freed-Same : (sys : System) (p : Process) → Same p (freed sys p)
freed-Same sys p =
    if-Same p.loader.need_host_buffer p (released sys.cache_buffer p) p
      (if-Same sys.cache_buffer p (kept p) (dropped p)
        record {
          backend = refl;
          register = refl;
          files = refl;
          stop = refl;
          executors = refl;
          mapped = refl;
        }
        record {
          backend = refl;
          register = refl;
          files = refl;
          stop = refl;
          executors = refl;
          mapped = refl;
        })
      (all_same p)

cached_after :
    (need cache : Bool) (p : Process)
    → (if need then released cache p else p).cached_host_buffers ≡ (
        if need && cache
        then put p.cached_host_buffers p.loader.host_buffer_entry
        else p.cached_host_buffers)
cached_after true true p = refl
cached_after true false p = refl
cached_after false cache p = refl

Closes-same :
    (sys : System) (p q : Process)
    → Same p q
    → Closes sys q.loader.backend q.loader.use_internal_memory_register q.loader.file_info
      ≡ Closes sys p.loader.backend p.loader.use_internal_memory_register p.loader.file_info
Closes-same sys p q same =
    ap (λ b. Closes sys b q.loader.use_internal_memory_register q.loader.file_info) same.backend
    ∙ ap (λ r. Closes sys p.loader.backend r q.loader.file_info) same.register
    ∙ ap (Closes sys p.loader.backend p.loader.use_internal_memory_register) same.files

abbrev stopped : Process → Process
stopped p = joined_all (record p { loader = record p.loader { stop = true } })

abbrev closed : System → Process → Process
closed sys p = let q = freed sys (stopped p) in recorded q q.loader.file_info

closed-IsClosed : (sys : System) (p : Process) → IsClosed sys p (closed sys p)
closed-IsClosed sys p =
    let q = freed sys (stopped p) in
    let same = freed-Same sys (stopped p) in
    record {
      executors = subst IsJoined (sym same.executors) (
        join-joined p.executors.worker_threads,
        join-joined p.executors.cuda_thread,
        join-joined p.executors.last_page_reader_thread,
        join-joined p.executors.wait_thread,
      );
      stop = same.stop;
      to_unmap =
          ap (λ m. m ++ (if is_mmap q.loader.backend then map mapping q.loader.file_info else []))
            same.mapped
          ∙ ap (λ b. p.mapped_memory ++ (if is_mmap b then map mapping q.loader.file_info else []))
              same.backend
          ∙ ap (λ f. p.mapped_memory ++ (if is_mmap p.loader.backend then map mapping f else []))
              same.files;
      cached = cached_after p.loader.need_host_buffer sys.cache_buffer (stopped p);
    }

close_loader-Yields :
    (sys : System) (p : Process) → Yields (closed sys p) (IsReleasable sys p) (close_loader sys p)
unfolding close_loader
close_loader-Yields sys p =
    let q = freed sys (stopped p) in
    let same = Closes-same sys (stopped p) q (freed-Same sys (stopped p)) in
    same-Yields (closed sys p) _ (IsReleasable sys p) (close_loader sys p)
      (λ ((copies, gathers), ((registered, (device, host)), closes)).
        let (files, context) = subst (λ T. T) same closes in
        record {
          copies = copies;
          gathers = gathers;
          registered = registered;
          device = device;
          host = host;
          files = files;
          context = context;
        })
      (λ r. (
        (r.copies, r.gathers),
        ((r.registered, (r.device, r.host)), subst (λ T. T) (sym same) (r.files, r.context)),
      ))
      (bind-Yields (stopped p) (closed sys p) _ _ _ _
        (destroy_threads-Yields sys (record p { loader = record p.loader { stop = true } }))
        (bind-Yields q (closed sys p) _ _ _ _ (destroy_buffer-Yields sys (stopped p))
          (close_file-Yields sys q)))

-- Closing returns exactly if the calls that it checks succeed: to destroy the streams that there
-- are, to deregister and free the device buffer, to unregister a host buffer that is not kept and
-- the mappings that were registered, and to destroy the context of AIO; otherwise it throws. When it
-- returns, no executor takes tasks, the flag is set that ends the loop, the mappings of the files,
-- and only those of the in-memory backend, are listed to be unmapped, and the host buffer is in the
-- cache if the loader used one and buffers are kept.
pub close_loader_lem :
    (sys : System) (p : Process)
    → ((p' : Process) × (close_loader sys p ≡ ok p') × IsReleasable sys p × IsClosed sys p p')
      ⊎ ((e : RunError) × (close_loader sys p ≡ err e) × (¬ IsReleasable sys p))
close_loader_lem sys p = elim (close_loader-Yields sys p) [
  | inl (e, fine) ↦ inl (closed sys p, e, fine, closed-IsClosed sys p)
  | inr (e, f, fails) ↦ inr (e, f, fails)
]
